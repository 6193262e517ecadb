-- ===== src/Runtime/Image/Extract/Crash.antt =====
-- The cache at each moment of an extraction.
use bugpot.Base.{
  ℕ, true, Option, none, some, List, [], ◌∷◌, ◌++◌, Result, ok, err, list_eq, ◌≡◌, refl, ◌⊎◌, inl,
  inr, All, sym, ◌∙◌, ap, ap₂, map_err, arith,
}
use mathlib.Core.Path.{subst}
use mathlib.Core.List.{append-nil, append_assoc}
use bugpot.Base.Text.{Str, codes}
use bugpot.Base.Map.{lookup, insert}
use bugpot.Core.Host.{deserialize_config, RuntimeError}
use bugpot.Runtime.Process.{ImageConfig}
use bugpot.Runtime.Image.{ImageDir, Images}
use bugpot.Base.Run.{lift, ◌>>◌, ◌>>=◌, bind_on}
use bugpot.Runtime.Image.Extract.{
  publish_image, clear_tmp, make_rootfs, store_config, mark, finish, fill, create_rootfs,
  write_config, mark_done, write_body, renamed, unpack_tar, write_manifest, remove_tmp, discard_tmp,
  edit_dir, publish, ExtractEnv, ImageLayer, ImageData, Work, X, Call, perform, settle, edit,
  clear_existing, store_manifest, unpack_layers, publish_over, edit_dir, rename, parse_config,
  extract_to_image_dir, empty_dir,
}

module _ (env : ExtractEnv) (tmp_dir image_dir : Str) (images : Images) (image : ImageData) where
  -- The archives are those of the layers, in their order.
  abbrev IsUnpacked : List ImageLayer → List (List ℕ) → Type 0
  IsUnpacked [] [] = Unit
  IsUnpacked [] (_ ∷ _) = ⊥
  IsUnpacked (_ ∷ _) [] = ⊥
  IsUnpacked (layer ∷ layers) (bytes ∷ rest) =
      (env.extract_layer layer.blob layer.media_type ≡ ok bytes) × IsUnpacked layers rest

  pub record IsComplete (dir : ImageDir) : Type 0 where
    configured : dir.config ≡ some image.config
    unpacked : IsUnpacked image.layers dir.rootfs
    pub marked : dir.done ≡ true

  abbrev IsPublished : Images → Type 0
  IsPublished now =
      (lookup image_dir images ≡ none)
      × (dir : ImageDir) × IsComplete dir
      × (now ≡ insert image_dir dir images)

  -- The cache as it was, or with the complete image where there was none.
  abbrev IsSafe : Images → Type 0
  IsSafe now = (now ≡ images) ⊎ IsPublished now

  abbrev pub Kept : Work → Type 0
  Kept w = (w.images ≡ images) × All IsSafe w.seen

  abbrev Post : {A : Type 0} → (A → Work → Type 0) → Result A RuntimeError × Work → Type 0
  Post P (ok a, w) = P a w
  Post P (err e, w) = Kept w

  -- The image is there, put there or found.
  abbrev pub Final : Work → Type 0
  Final w =
      (IsPublished w.images
        ⊎ ((w.images ≡ images) × (old : ImageDir) × (lookup image_dir images ≡ some old)))
      × All IsSafe w.seen

  -- What an extraction gives: an error leaves the cache as it was.
  abbrev pub Extracted : Result (Option ImageConfig) RuntimeError × Work → Type 0
  Extracted = Post (λ config w. (env.from_slice image.config ≡ ok config) × Final w)

  bind_on-Post :
      {A B : Type 0} (P : A → Work → Type 0) (Q : B → Work → Type 0) (f : A → X B)
      (r : Result A RuntimeError × Work)
      → Post P r
      → ((a : A) (w : Work) → P a w → Post Q (f a w))
      → Post Q (bind_on f r)
  bind_on-Post P Q f (ok a, w) h next = next a w h
  bind_on-Post P Q f (err e, w) h next = h

  -- One step after another.
  then-Post :
      {A : Type 0} (P : Work → Type 0) (Q : A → Work → Type 0) (m : X (Unit {0})) (k : X A)
      (w : Work)
      → Post (λ _. P) (m w)
      → ((w' : Work) → P w' → Post Q (k w'))
      → Post Q ((m >> k) w)
  then-Post P Q m k w h next = bind_on-Post (λ _. P) Q (λ _. k) (m w) h (λ _. next)

  -- The temporary directory is there, with the contents so far.
  abbrev Building : (ImageDir → Type 0) → Work → Type 0
  Building P w = ((dir : ImageDir) × (w.tmp ≡ some dir) × P dir) × Kept w

  settle-Post :
      (P : Work → Type 0) (path : Str) (after : Work → Work) (mid : Option ImageDir)
      (answer : Result (Unit {0}) Str) (w : Work)
      → Kept w
      → (after w).images ≡ w.images
      → ((seen : List Images) → All IsSafe seen → P (record (after w) { seen = seen }))
      → Post (λ _. P) (settle env tmp_dir image_dir path after mid answer w)
  settle-Post P path after mid (ok _) w (same, safe) unchanged post =
      post ((after w).images ∷ w.images ∷ w.seen) (inl (unchanged ∙ same), (inl same, safe))
  settle-Post P path after mid (err why) w (same, safe) unchanged post = (same, (inl same, safe))

  edit-Post :
      (P Q : ImageDir → Type 0) (f : ImageDir → ImageDir)
      → ((dir : ImageDir) → P dir → Q (f dir))
      → (path : Str) (c : Call) (w : Work) → Building P w
      → Post
          (λ _. Building Q)
          (perform env tmp_dir image_dir path c (edit env tmp_dir image_dir f) w)
  edit-Post P Q f keeps path c w ((dir, at, p), kept) =
      settle-Post (Building Q) path (edit env tmp_dir image_dir f) (env.midway c) (env.answer c) w
        kept refl
        (λ seen safe.
          ((f dir, ap (edit_dir env tmp_dir image_dir f) at, keeps dir p), (kept.0, safe)))

  IsUnpacked-append :
      (before after : List ImageLayer) (bs cs : List (List ℕ))
      → IsUnpacked before bs
      → IsUnpacked after cs
      → IsUnpacked (before ++ after) (bs ++ cs)
  IsUnpacked-append [] after [] cs hb hc = hc
  IsUnpacked-append (layer ∷ before) after (bytes ∷ bs) cs (h, hb) hc =
      (h, IsUnpacked-append before after bs cs hb hc)
  IsUnpacked-append [] after (b ∷ bs) cs hb hc = absurd hb
  IsUnpacked-append (layer ∷ before) after [] cs hb hc = absurd hb

  abbrev HasConfig : List ImageLayer → ImageDir → Type 0
  HasConfig layers dir = (dir.config ≡ some image.config) × IsUnpacked layers dir.rootfs

  lift-Post :
      {A : Type 0} (P : A → Work → Type 0) (r : Result A RuntimeError) (w : Work)
      → Kept w
      → ((a : A) → r ≡ ok a → P a w)
      → Post P (lift r w)
  lift-Post P (ok a) w kept post = post a refl
  lift-Post P (err e) w kept post = kept

  unpack_layers-Post :
      (before layers : List ImageLayer) (w : Work)
      → before ++ layers ≡ image.layers
      → Building (HasConfig before) w
      → Post (λ _. Building (HasConfig image.layers)) (unpack_layers env tmp_dir image_dir layers w)
  unfolding unpack_layers
  unpack_layers-Post before [] w e b =
      subst (λ ls. Building (HasConfig ls) w) (sym (append-nil before) ∙ e) b
  unpack_layers-Post before (layer ∷ layers) w e b =
      let extracted = env.extract_layer layer.blob layer.media_type in
      bind_on-Post (λ bytes w'. (extracted ≡ ok bytes) × Building (HasConfig before) w')
        (λ _. Building (HasConfig image.layers))
        (λ bytes.
          perform env tmp_dir image_dir (tmp_dir ++ codes "/rootfs") (unpack_tar bytes)
            (edit env tmp_dir image_dir (λ d. record d { rootfs = d.rootfs ++ bytes ∷ [] }))
          >> unpack_layers env tmp_dir image_dir layers)
        (lift extracted w)
        (lift-Post (λ bytes w'. (extracted ≡ ok bytes) × Building (HasConfig before) w') extracted w
          b.1 (λ bytes got. (got, b)))
        (λ bytes w' (got, b').
          bind_on-Post (λ _. Building (HasConfig (before ++ layer ∷ [])))
            (λ _. Building (HasConfig image.layers))
            (λ _. unpack_layers env tmp_dir image_dir layers)
            (perform env tmp_dir image_dir (tmp_dir ++ codes "/rootfs") (unpack_tar bytes)
              (edit env tmp_dir image_dir (λ d. record d { rootfs = d.rootfs ++ bytes ∷ [] })) w')
            (edit-Post (HasConfig before) (HasConfig (before ++ layer ∷ []))
              (λ d. record d { rootfs = d.rootfs ++ bytes ∷ [] })
              (λ dir (configured, unpacked). (
                configured,
                IsUnpacked-append before (layer ∷ []) dir.rootfs (bytes ∷ []) unpacked (got, tt),
              ))
              (tmp_dir ++ codes "/rootfs") (unpack_tar bytes) w' b')
            (λ _ w'' b''.
              unpack_layers-Post (before ++ layer ∷ []) layers w''
                (append_assoc before (layer ∷ []) layers ∙ e) b''))

  write_body-Post :
      (P : ImageDir → Type 0) (body : Result Str Str) (w : Work)
      → ((dir : ImageDir) (text : Str) → P dir → P (record dir { manifest = some text }))
      → Building P w
      → Post (λ _. Building P) (write_body env tmp_dir image_dir body w)
  write_body-Post P (err why) w keeps b = b.1
  write_body-Post P (ok body) w keeps b =
      edit-Post P P (λ d. record d { manifest = some body }) (λ dir. keeps dir body)
        (tmp_dir ++ codes "/manifest.json") write_manifest w b

  store_manifest-Post :
      (P : ImageDir → Type 0) (manifest : Option Str) (w : Work)
      → ((dir : ImageDir) (text : Str) → P dir → P (record dir { manifest = some text }))
      → Building P w
      → Post (λ _. Building P) (store_manifest env tmp_dir image_dir manifest w)
  store_manifest-Post P none w keeps b = b
  store_manifest-Post P (some manifest) w keeps b =
      write_body-Post P (env.to_vec_pretty manifest) w keeps b

  clear_existing-Post :
      (tmp : Option ImageDir) (w : Work)
      → Kept w
      → Post (λ _. Kept) (clear_existing env tmp_dir image_dir tmp w)
  clear_existing-Post none w kept = kept
  clear_existing-Post (some _) w kept =
      settle-Post Kept tmp_dir (λ w. record w { tmp = none }) (env.midway remove_tmp)
        (env.answer remove_tmp) w kept refl (λ seen safe. (kept.0, safe))

  renamed-Post :
      (answer : Result (Unit {0}) Str) (w : Work)
      → lookup image_dir images ≡ none
      → Building IsComplete w
      → Post (λ _. Final) (renamed env tmp_dir image_dir answer w)
  renamed-Post (err why) w free ((dir, at, complete), (same, safe)) = (same, (inl same, safe))
  renamed-Post (ok _) w free ((dir, at, complete), (same, safe)) =
      let now = rename env tmp_dir image_dir w.tmp w.images in
      let published : IsPublished now =
        (free, dir, complete, ap₂ (rename env tmp_dir image_dir) at same) in
      (inl published, (inr published, safe))

  publish_over-Post :
      (existing : Option ImageDir) (w : Work)
      → lookup image_dir images ≡ existing
      → Building IsComplete w
      → Post (λ _. Final) (publish_over env tmp_dir image_dir existing w)
  publish_over-Post none w free b = renamed-Post (env.answer publish) w free b
  publish_over-Post (some old) w there b =
      settle-Post Final tmp_dir (λ w. record w { tmp = none }) (env.midway discard_tmp)
        (env.answer discard_tmp) w b.1 refl (λ seen safe. (inr (b.1.0, old, there), safe))

  abbrev Success : Option ImageConfig → Work → Type 0
  Success config w = (env.from_slice image.config ≡ ok config) × Final w

  finish-Post :
      (config : Option ImageConfig) (w : Work)
      → env.from_slice image.config ≡ ok config
      → Building (HasConfig image.layers) w
      → Post Success (finish env tmp_dir image_dir config w)
  finish-Post config w parsed b =
      then-Post (Building IsComplete) Success (mark env tmp_dir image_dir)
        (publish_image env tmp_dir image_dir >> lift (ok config)) w
        (edit-Post (HasConfig image.layers) IsComplete (λ d. record d { done = true })
          (λ dir (configured, unpacked). record {
            configured = configured;
            unpacked = unpacked;
            marked = refl;
          })
          tmp_dir mark_done w b)
        (λ w' b'.
          then-Post Final Success (publish_image env tmp_dir image_dir) (lift (ok config)) w'
            (publish_over-Post (lookup image_dir w'.images) w' (ap (lookup image_dir) (sym b'.1.0))
              b')
            (λ w'' final. (parsed, final)))

  parse_config-Post :
      (w : Work)
      → Building (HasConfig image.layers) w
      → Post Success
          ((parse_config env tmp_dir image_dir image.config >>= finish env tmp_dir image_dir) w)
  parse_config-Post w b =
      let Parsed : Option ImageConfig → Work → Type 0 = λ config w'.
        (env.from_slice image.config ≡ ok config) × Building (HasConfig image.layers) w' in
      bind_on-Post Parsed Success (finish env tmp_dir image_dir)
        (parse_config env tmp_dir image_dir image.config w)
        (lift-Post Parsed (map_err deserialize_config (env.from_slice image.config)) w b.1
          (λ config parsed. (ground (arith, parsed), b)))
        (λ config w' (parsed, b'). finish-Post config w' parsed b')

  -- The temporary directory has its `rootfs`, and nothing in it.
  abbrev IsBare : ImageDir → Type 0
  IsBare dir = IsUnpacked [] dir.rootfs

  fill-Post : (w : Work) → Building IsBare w → Post Success (fill env tmp_dir image_dir image w)
  fill-Post w b =
      let rest = parse_config env tmp_dir image_dir image.config >>= finish env tmp_dir image_dir in
      then-Post (Building (HasConfig [])) Success (store_config env tmp_dir image_dir image.config)
        (unpack_layers env tmp_dir image_dir image.layers >> rest) w
        (edit-Post IsBare (HasConfig []) (λ d. record d { config = some image.config })
          (λ dir bare. (refl, bare)) (tmp_dir ++ codes "/config.json") write_config w b)
        (λ w' b'.
          then-Post (Building (HasConfig image.layers)) Success
            (unpack_layers env tmp_dir image_dir image.layers) rest w'
            (unpack_layers-Post [] image.layers w' refl b') parse_config-Post)

  -- At no moment of an extraction, a crash in the middle of any call included, does the cache hold
  -- part of the image: it is as it was, or has the image with its configuration, all its layers
  -- unpacked in their order and the marker, where it had none. An extraction that succeeds has put
  -- it there, or found one, and one that fails leaves the cache as it was.
  pub extract_to_image_dir-Extracted :
      (tmp : Option ImageDir)
      → Extracted (
          extract_to_image_dir env tmp_dir image_dir image
            (record { tmp = tmp; images = images; seen = [] }))
  unfolding extract_to_image_dir
  extract_to_image_dir-Extracted tmp =
      let w : Work = record { tmp = tmp; images = images; seen = [] } in
      let filled = fill env tmp_dir image_dir image in
      let stored = store_manifest env tmp_dir image_dir image.manifest in
      then-Post Kept Success (clear_tmp env tmp_dir image_dir)
        (make_rootfs env tmp_dir image_dir >> (stored >> filled)) w
        (clear_existing-Post tmp w (refl, tt))
        (λ w1 kept.
          then-Post (Building IsBare) Success (make_rootfs env tmp_dir image_dir) (stored >> filled)
            w1
            (settle-Post (Building IsBare) (tmp_dir ++ codes "/rootfs")
              (λ w. record w { tmp = some empty_dir }) (env.midway create_rootfs)
              (env.answer create_rootfs) w1 kept refl
              (λ seen safe. ((empty_dir, refl, tt), (kept.0, safe))))
            (λ w2 b2.
              then-Post (Building IsBare) Success stored filled w2
                (store_manifest-Post IsBare image.manifest w2 (λ dir text bare. bare) b2)
                fill-Post))

-- ===== src/Runtime/Image/Gc/Spares.antt =====
-- Which directories of the cache the collection keeps.
use bugpot.Base.{
  Bool, true, false, none, some, List, [], ◌∷◌, ◌++◌, map, Result, ok, err, list_eq, list_beq_iff,
  ◌&&◌, ◌≡◌, refl, sym, ap, ◌∙◌, arith, Some, inl, inr, ◌⊎◌, Result-cases, Bool-cases, ◌↔◌, map_err,
}
use mathlib.Core.Bool.{true≢false}
use mathlib.Core.Path.{subst}
use bugpot.Base.Text.{Str, contains}
use bugpot.Runtime.Image.{ImageId, fs_component, RuntimeError, io_at}
use bugpot.Runtime.Image.Gc.{
  CacheEntry, is_live, is_considered, should_remove, sweep, Listing, BundleEntry, restore_colon,
  parent_name, named_by, digest_of, digests_of, live_image_digests, gc_unused_images,
  collect_garbage, collect_with,
}

-- A name without a colon is found again.
fs_component_same : (name : Str) → contains b':' name ≡ false → fs_component name ≡ name
unfolding fs_component contains
fs_component_same [] e = refl
fs_component_same (c ∷ name) e = ground (arith, e, fs_component_same name)

fs_component-restore_colon :
    (name : Str) → contains b':' name ≡ false → fs_component (restore_colon name) ≡ name
unfolding fs_component restore_colon contains
fs_component-restore_colon [] e = refl
fs_component-restore_colon (c ∷ name) e =
    ground (arith, e, fs_component_same name, fs_component-restore_colon name)

abbrev Member : {A : Type 0} → A → List A → Type 0
Member x = Some (λ y. y ≡ x)

-- Whether the entry is removed.
abbrev goes : List Str → CacheEntry → Bool
goes live_fs e = is_considered e && (should_remove live_fs e && e.removable)

sweep_iff :
    (live_fs : List Str) (entries : List CacheEntry) (e : CacheEntry)
    → Member e (sweep live_fs entries).1 ↔ (Member e entries × (goes live_fs e ≡ false))
unfolding sweep
sweep_iff live_fs [] e = (λ m. absurd m, λ h. absurd h.0)
sweep_iff live_fs (x ∷ entries) e =
    let rest = sweep_iff live_fs entries e in
    elim (Bool-cases (goes live_fs x)) [
      | inl gone ↦ rw gone (
        λ m. let (later, stays) = rest.0 m in (inr later, stays),
        λ h. elim h.0 [
          | inl same ↦ absurd (true≢false (sym gone ∙ ap (goes live_fs) same ∙ h.1))
          | inr later ↦ rest.1 (later, h.1)
        ],
      )
      | inr kept ↦ rw kept (
        λ m. elim m [
          | inl same ↦ (inl same, ap (goes live_fs) (sym same) ∙ kept)
          | inr later ↦ let (there, stays) = rest.0 later in (inr there, stays)
        ],
        λ h. elim h.0 [ inl same ↦ inl same | inr later ↦ inr (rest.1 (later, h.1)) ],
      )
    ]

Some-append :
    {A : Type 0} (P : A → Type 0) (xs ys : List A) → Some P xs ⊎ Some P ys → Some P (xs ++ ys)
Some-append P [] ys (inr h) = h
Some-append P [] ys (inl h) = absurd h
Some-append P (x ∷ xs) ys (inl (inl h)) = inl h
Some-append P (x ∷ xs) ys (inl (inr h)) = inr (Some-append P xs ys (inl h))
Some-append P (x ∷ xs) ys (inr h) = inr (Some-append P xs ys (inr h))

is_live-restore_colon :
    (name : Str) (live : List ImageId)
    → contains b':' name ≡ false
    → Member (restore_colon name) live
    → is_live (map fs_component live) (some name) ≡ true
is_live-restore_colon name [] plain m = absurd m
is_live-restore_colon name (d ∷ live) plain (inl same) =
    let found =
      (list_beq_iff name (fs_component d)).1
        (sym (ap fs_component same ∙ fs_component-restore_colon name plain)) in
    rw found refl
is_live-restore_colon name (d ∷ live) plain (inr later) =
    let rest = is_live-restore_colon name live plain later in ground (arith, rest)

-- A bundle whose `rootfs` leads to the image directory of that name.
abbrev pub bundle_to : List Str → Result BundleEntry Str
bundle_to target = ok (record { is_dir = true; rootfs = some target })

abbrev digest_of_result : Result BundleEntry Str → List ImageId
digest_of_result (err why) = []
digest_of_result (ok bundle) = digest_of bundle

digests_of-bundle_to :
    (bundles : List (Result BundleEntry Str)) (target : List Str) (name : Str)
    (digests : List ImageId)
    → parent_name target ≡ some name
    → Member (bundle_to target) bundles
    → digests_of bundles ≡ ok digests
    → Member (restore_colon name) digests
unfolding digests_of
digests_of-bundle_to [] target name digests at m e = absurd m
digests_of-bundle_to (err why ∷ bundles) target name digests at m e = absurd (ground (arith, e))
digests_of-bundle_to (ok bundle ∷ bundles) target name digests at m e =
    elim (Result-cases (digests_of bundles)) [
      | inr (why, failed) ↦ absurd (ground (arith, e, failed))
      | inl (rest, got) ↦
          let whole : digests ≡ digest_of bundle ++ rest = ground (arith, e, got) in
          subst (Member (restore_colon name)) (sym whole) (
            Some-append (λ d. d ≡ restore_colon name) (digest_of bundle) rest
              (elim m [
                | inl same ↦ inl (
                    subst (Member (restore_colon name))
                      (sym (ap digest_of_result same ∙ ap named_by at)) (inl refl))
                | inr later ↦ inr (digests_of-bundle_to bundles target name rest at later got)
              ]))
    ]

abbrev pub Kept : CacheEntry → Listing CacheEntry → Type 0
Kept e none = ⊥
Kept e (some (err why)) = ⊥
Kept e (some (ok left)) = Member e left

swept-Kept :
    (images_dir : Str) (entries : List CacheEntry) (name : Str) (e : CacheEntry)
    (live : Result (List ImageId) RuntimeError)
    → Member e entries
    → e.name ≡ some name
    → e.has_done ≡ true
    → ((digests : List ImageId)
        → live ≡ ok digests
        → is_live (map fs_component digests) (some name) ≡ true)
    → Kept e (collect_with images_dir (some (ok entries)) live).1
unfolding gc_unused_images
swept-Kept images_dir entries name e (err why) there named done used = there
swept-Kept images_dir entries name e (ok digests) there named done used =
    let in_use : is_live (map fs_component digests) e.name ≡ true = rw named (used digests refl) in
    (sweep_iff (map fs_component digests) entries e).1 (there, ground (arith, in_use, done))

-- A complete image that the link of some bundle leads to is kept by the collection, whatever else
-- the two directories hold and whichever removals fail; the name is taken to have no colon, as the
-- names of image directories have none.
pub collect_garbage-Kept :
    (bundles_dir images_dir : Str) (bundles : List (Result BundleEntry Str))
    (entries : List CacheEntry) (target : List Str) (name : Str) (e : CacheEntry)
    → Member (bundle_to target) bundles
    → parent_name target ≡ some name
    → contains b':' name ≡ false
    → Member e entries
    → e.name ≡ some name
    → e.has_done ≡ true
    → Kept e (collect_garbage bundles_dir images_dir (some (ok bundles)) (some (ok entries))).1
unfolding collect_garbage live_image_digests gc_unused_images
collect_garbage-Kept bundles_dir images_dir bundles entries target name e linked_to at plain there
      named done =
    swept-Kept images_dir entries name e (map_err (io_at bundles_dir) (digests_of bundles)) there
      named done
      (λ digests got.
        is_live-restore_colon name digests plain
          (digests_of-bundle_to bundles target name digests at linked_to (ground (arith, got))))

-- ===== src/Runtime/Image/Extract.antt =====
-- crates/bugpot-runtime/src/image.rs: `extract_to_image_dir`. The temporary directory, whose name no
-- image has, stands beside the cache. `answer` is what the system makes of each call, and `midway`
-- what is in the temporary directory while the call runs and when it fails; `seen` has the cache
-- after each call, which is what a crash at that point leaves.
pub mod Crash
use bugpot.Base.{
  ℕ, true, false, Option, none, some, List, [], ◌∷◌, ◌++◌, Result, ok, err, map_err, list_eq,
}
use bugpot.Base.Run.{Run, ◌>>=◌, ◌>>◌, lift}
use bugpot.Base.Text.{Str, codes}
use bugpot.Base.Map.{lookup, insert}
use bugpot.Core.Host.{RuntimeError, deserialize_config, serialize_spec}
use bugpot.Runtime.Process.{ImageConfig}
use bugpot.Runtime.Image.{ImageDir, Images, io_at}

pub data Call : Type 0 where
  remove_tmp create_rootfs write_manifest write_config mark_done discard_tmp publish : Call
  unpack_tar : (bytes : List ℕ) → Call

pub record ExtractEnv : Type 0 where
  pub answer : Call → Result (Unit {0}) Str
  pub midway : Call → Option ImageDir
  pub to_vec_pretty : Str → Result Str Str
  pub from_slice : Str → Result (Option ImageConfig) Str
  pub extract_layer : List ℕ → Str → Result (List ℕ) RuntimeError

pub record ImageLayer : Type 0 where
  pub blob : List ℕ
  pub media_type : Str

-- What `Client::pull` returns.
pub record ImageData : Type 0 where
  pub digest : Option Str
  pub manifest : Option Str
  pub config : Str
  pub layers : List ImageLayer

pub record Work : Type 0 where
  pub tmp : Option ImageDir
  pub images : Images
  pub seen : List Images

abbrev pub X : Type 0 → Type 0
X A = Run Work A RuntimeError

abbrev pub empty_dir : ImageDir
empty_dir = record { manifest = none; config = none; rootfs = []; done = false }

module _ (env : ExtractEnv) (tmp_dir image_dir : Str) where
  abbrev pub settle : Str → (Work → Work) → Option ImageDir → Result (Unit {0}) Str → X (Unit {0})
  settle path after mid (ok _) w =
      let w' = after w in (ok tt, record w' { seen = w'.images ∷ w.images ∷ w.seen })
  settle path after mid (err why) w =
      (err (io_at path why), record w { tmp = mid; seen = w.images ∷ w.seen })

  -- One call of the file system in the temporary directory.
  abbrev pub perform : Str → Call → (Work → Work) → X (Unit {0})
  perform path c after = settle path after (env.midway c) (env.answer c)

  abbrev pub edit_dir : (ImageDir → ImageDir) → Option ImageDir → Option ImageDir
  edit_dir f none = none
  edit_dir f (some dir) = some (f dir)

  abbrev pub edit : (ImageDir → ImageDir) → Work → Work
  edit f w = record w { tmp = edit_dir f w.tmp }

  abbrev pub clear_existing : Option ImageDir → X (Unit {0})
  clear_existing none = lift (ok tt)
  clear_existing (some _) = perform tmp_dir remove_tmp (λ w. record w { tmp = none })

  abbrev pub write_body : Result Str Str → X (Unit {0})
  write_body (err why) = lift (err (serialize_spec why))
  write_body (ok body) =
      perform (tmp_dir ++ codes "/manifest.json") write_manifest
        (edit (λ d. record d { manifest = some body }))

  abbrev pub store_manifest : Option Str → X (Unit {0})
  store_manifest none = lift (ok tt)
  store_manifest (some manifest) = write_body (env.to_vec_pretty manifest)

  unfoldable pub unpack_layers : List ImageLayer → X (Unit {0})
  unpack_layers [] = lift (ok tt)
  unpack_layers (layer ∷ layers) = do
    bytes ← lift (env.extract_layer layer.blob layer.media_type)
    perform (tmp_dir ++ codes "/rootfs") (unpack_tar bytes)
        (edit (λ d. record d { rootfs = d.rootfs ++ bytes ∷ [] }))
    unpack_layers layers

  abbrev pub parse_config : Str → X (Option ImageConfig)
  parse_config body = lift (map_err deserialize_config (env.from_slice body))

  abbrev pub rename : Option ImageDir → Images → Images
  rename none images = images
  rename (some dir) images = insert image_dir dir images

  -- The rename, which is atomic.
  abbrev pub renamed : Result (Unit {0}) Str → X (Unit {0})
  renamed (ok _) w =
      let images = rename w.tmp w.images in
      (ok tt, record { tmp = none; images = images; seen = images ∷ w.seen })
  renamed (err why) w = (err (io_at image_dir why), record w { seen = w.images ∷ w.seen })

  abbrev pub publish_over : Option ImageDir → X (Unit {0})
  publish_over (some _) = perform tmp_dir discard_tmp (λ w. record w { tmp = none })
  publish_over none = renamed (env.answer publish)

  abbrev pub publish_image : X (Unit {0})
  publish_image w = publish_over (lookup image_dir w.images) w

  abbrev pub clear_tmp : X (Unit {0})
  clear_tmp w = clear_existing w.tmp w

  abbrev pub make_rootfs : X (Unit {0})
  make_rootfs =
      perform (tmp_dir ++ codes "/rootfs") create_rootfs (λ w. record w { tmp = some empty_dir })

  abbrev pub store_config : Str → X (Unit {0})
  store_config body =
      perform (tmp_dir ++ codes "/config.json") write_config
        (edit (λ d. record d { config = some body }))

  abbrev pub mark : X (Unit {0})
  mark = perform tmp_dir mark_done (edit (λ d. record d { done = true }))

  -- Past the parsing of the configuration.
  abbrev pub finish : Option ImageConfig → X (Option ImageConfig)
  finish config = do mark; publish_image; lift (ok config)

  -- Past the manifest.
  abbrev pub fill : ImageData → X (Option ImageConfig)
  fill image = do
    store_config image.config
    unpack_layers image.layers
    config ← parse_config image.config
    finish config

  unfoldable pub extract_to_image_dir : ImageData → X (Option ImageConfig)
  unfolding unpack_layers lookup insert
  extract_to_image_dir image = do clear_tmp; make_rootfs; store_manifest image.manifest; fill image

-- ===== src/Runtime/Image.antt =====
-- crates/bugpot-runtime/src/image.rs: the images on disk. A directory of the cache is a record of its
-- files; the tar archives unpacked into `rootfs` are a list of their bytes, the last one unpacked last.
-- `serde_json` is a parameter, and a file that cannot be read is not modelled but for a missing one.
pub mod Layer
pub mod Extract
pub mod Gc
pub mod Puller
pub mod Tests
use bugpot.Base.{
  ℕ, Bool, true, false, Option, none, some, List, [], ◌∷◌, ◌++◌, map, Result, ok, err, list_eq,
  ◌==◌, if◌then◌else◌,
}
use bugpot.Base.Text.{Str, codes}
use bugpot.Base.Map.{lookup}
use bugpot.Core.Host.{RuntimeError, io, deserialize_config}
use bugpot.Runtime.Process.{ImageConfig}

-- An `ImageId` is its digest.
abbrev pub ImageId : Type 0
ImageId = Str

-- `replace(from, to)`, at single characters.
abbrev substitute : ℕ → ℕ → ℕ → ℕ
substitute from to c = if c == from then to else c

unfoldable pub fs_component : ImageId → Str
fs_component digest = map (substitute b':' b'_') digest

-- `RuntimeError::io`.
abbrev pub io_at : Str → Str → RuntimeError
io_at path why = io (codes "I/O error at " ++ path ++ codes ": " ++ why)

pub record ImageDir : Type 0 where
  pub manifest : Option Str
  pub config : Option Str
  pub rootfs : List (List ℕ)
  pub done : Bool

-- The directories under `images_root`, by name.
abbrev pub Images : Type 0
Images = List (Str × ImageDir)

-- `dir` is its name under `images_root`.
pub record PulledImage : Type 0 where
  pub id : ImageId
  pub dir : Str
  pub config : Option ImageConfig

module _ (from_slice : Str → Result (Option ImageConfig) Str) where
  abbrev parsed_config : ImageId → Result (Option ImageConfig) Str → Result PulledImage RuntimeError
  parsed_config id (err why) = err (deserialize_config why)
  parsed_config id (ok config) = ok (record { id = id; dir = fs_component id; config = config })

  abbrev read_config : ImageId → Option Str → Result (Option PulledImage) RuntimeError
  read_config id none = err (io_at (fs_component id ++ codes "/config.json") (codes "not found"))
  read_config id (some body) = elim (parsed_config id (from_slice body)) [
    | err e ↦ err e
    | ok image ↦ ok (some image)
  ]

  abbrev load_dir : ImageId → Option ImageDir → Result (Option PulledImage) RuntimeError
  load_dir id none = ok none
  load_dir id (some dir) = if dir.done then read_config id dir.config else ok none

  unfoldable pub load_cached_image : Images → ImageId → Result (Option PulledImage) RuntimeError
  unfolding lookup fs_component
  load_cached_image images id = load_dir id (lookup (fs_component id) images)

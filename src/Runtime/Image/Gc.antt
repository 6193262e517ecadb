-- ===== src/Runtime/Image/Gc.antt =====
-- crates/bugpot-runtime/src/image.rs: `gc_unused_images`, and crates/bugpot-runtime/src/runtime.rs:
-- the digests in use. A path is the list of its parts, and the entries of a directory are in the order
-- that the system lists them in.
pub mod Spares
use bugpot.Base.{
  ℕ, suc, Bool, true, false, Option, none, some, List, [], ◌∷◌, ◌++◌, map, any, Result, ok, err,
  map_err, list_eq, list_beq, ◌==◌, ◌&&◌, ◌||◌, not, if◌then◌else◌, ◌≡◌, refl, arith,
}
use bugpot.Base.Text.{Str, codes}
use bugpot.Core.Host.{RuntimeError}
use bugpot.Runtime.Image.{ImageId, fs_component, io_at}

-- An entry of `images_root`; `name` is `none` when it is no UTF-8.
pub record CacheEntry : Type 0 where
  pub readable : Bool
  pub is_dir : Bool
  pub name : Option Str
  pub has_done : Bool
  pub removable : Bool

abbrev pub is_live : List Str → Option Str → Bool
is_live live_fs none = false
is_live live_fs (some name) = any (list_beq name) live_fs

-- An entry is looked at when it is a directory with a name that can be read.
abbrev pub is_considered : CacheEntry → Bool
is_considered e = elim e.name [ none ↦ false | some _ ↦ e.readable && e.is_dir ]

abbrev pub should_remove : List Str → CacheEntry → Bool
should_remove live_fs e = not e.has_done || not (is_live live_fs e.name)

-- How many were removed, and what is left.
unfoldable pub sweep : List Str → List CacheEntry → ℕ × List CacheEntry
sweep live_fs [] = (0, [])
sweep live_fs (e ∷ entries) =
    let (removed, left) = sweep live_fs entries in
    if is_considered e && (should_remove live_fs e && e.removable)
    then (suc removed, left)
    else (removed, e ∷ left)

-- `none`: the directory is not there; an error is that of reading it.
abbrev pub Listing : Type 0 → Type 0
Listing A = Option (Result (List A) Str)

unfoldable pub gc_unused_images :
    Str → List ImageId → Listing CacheEntry → Result ℕ RuntimeError × Listing CacheEntry
unfolding sweep fs_component
gc_unused_images images_root live none = (ok 0, none)
gc_unused_images images_root live (some (err why)) = (err (io_at images_root why), some (err why))
gc_unused_images images_root live (some (ok entries)) =
    let (removed, left) = sweep (map fs_component live) entries in (ok removed, some (ok left))

-- An entry of the bundles: `rootfs` is what its link leads to, if it is one.
pub record BundleEntry : Type 0 where
  pub is_dir : Bool
  pub rootfs : Option (List Str)

-- `replacen('_', ":", 1)`.
unfoldable pub restore_colon : Str → ImageId
restore_colon [] = []
restore_colon (c ∷ s) = if c == b'_' then b':' ∷ s else c ∷ restore_colon s

-- `parent()` and its `file_name()`: the last part but one.
abbrev pub parent_name : List Str → Option Str
parent_name [] = none
parent_name (part ∷ []) = none
parent_name (part ∷ last ∷ []) = some part
parent_name (part ∷ next ∷ last ∷ parts) = parent_name (next ∷ last ∷ parts)

abbrev pub named_by : Option Str → List ImageId
named_by none = []
named_by (some name) = restore_colon name ∷ []

abbrev linked : Option (List Str) → List ImageId
linked none = []
linked (some target) = named_by (parent_name target)

abbrev pub digest_of : BundleEntry → List ImageId
digest_of bundle = if bundle.is_dir then linked bundle.rootfs else []

-- An entry that cannot be read ends the listing.
unfoldable pub digests_of : List (Result BundleEntry Str) → Result (List ImageId) Str
unfolding restore_colon
digests_of [] = ok []
digests_of (err why ∷ bundles) = err why
digests_of (ok bundle ∷ bundles) = elim (digests_of bundles) [
  | err why ↦ err why
  | ok digests ↦ ok (digest_of bundle ++ digests)
]

unfoldable pub live_image_digests :
    Str → Listing (Result BundleEntry Str) → Result (List ImageId) RuntimeError
unfolding digests_of
live_image_digests bundles_dir none = ok []
live_image_digests bundles_dir (some (err why)) = err (io_at bundles_dir why)
live_image_digests bundles_dir (some (ok bundles)) =
    map_err (io_at bundles_dir) (digests_of bundles)

abbrev pub collect_with :
    Str
    → Listing CacheEntry
    → Result (List ImageId) RuntimeError
    → Result ℕ RuntimeError × Listing CacheEntry
collect_with images_dir images (err e) = (err e, images)
collect_with images_dir images (ok live) = gc_unused_images images_dir live images

-- `Runtime::gc_unused_images`.
unfoldable pub collect_garbage :
    Str
    → Str
    → Listing (Result BundleEntry Str)
    → Listing CacheEntry
    → Result ℕ RuntimeError × Listing CacheEntry
unfolding live_image_digests gc_unused_images
collect_garbage bundles_dir images_dir bundles images =
    collect_with images_dir images (live_image_digests bundles_dir bundles)

-- ===== src/Config/Volumes.antt =====
-- `validate_volumes` and `validate_readiness_path`.
use bugpot.Base.{
  >>-eq-ok_iff, ◌≡◌, ◌↔◌, refl, String, Bool, true, false, not, ◌||◌, List, [], ◌∷◌, ◌++◌, Result,
  ok, err, ◌>>◌, if◌then◌else◌, arith, list_beq, Option, none, some, any,
}
use bugpot.Base.Text.{Str, is_empty, contains, contains_str, starts_with_char, split, codes}
use bugpot.Config.Spec.{InvalidSpec, VolumeSpec}
use bugpot.Config.Label.{validate_dns_label, validate_dns_label_iff, IsDnsLabel}

abbrev invalid : String → Str → String → Result (Unit {0}) InvalidSpec
invalid field value reason = err (record { field = field; value = value; reason = reason })

abbrev dotdot : Str
dotdot = codes ".."

unfoldable pub validate_readiness_path : Option Str → Result (Unit {0}) InvalidSpec
validate_readiness_path none = ok tt
validate_readiness_path (some raw) =
    if not (starts_with_char b'/' raw)
    then invalid "readiness.path" raw "must start with '/'"
    else if any (λ seg. list_beq seg dotdot) (split b'/' raw)
    then invalid "readiness.path" raw "must not contain '..' segments"
    else if contains b'?' raw || contains b'#' raw
    then invalid "readiness.path" raw "must not contain query string or fragment"
    else ok tt

-- `path.components()` of an absolute Unix path, past its root: no empty part and no `.`.
unfoldable pub components : List Str → List Str
components [] = []
components (p ∷ ps) =
    let rest = components ps in if is_empty p || list_beq p (codes ".") then rest else p ∷ rest

-- The components pushed onto a `PathBuf` that holds the root.
unfoldable pub join_root : List Str → Str
join_root [] = []
join_root (p ∷ ps) = b'/' ∷ p ++ join_root ps

unfoldable pub normalise : Str → Str
unfolding components join_root split
normalise path =
    let cs = components (split b'/' path) in elim cs [ [] ↦ codes "/" | c ∷ r ↦ join_root (c ∷ r) ]

abbrev pub reserved_mount_paths : List Str
reserved_mount_paths =
    codes "/"
    ∷ codes "/proc"
    ∷ codes "/sys"
    ∷ codes "/dev"
    ∷ codes "/dev/pts"
    ∷ codes "/dev/shm"
    ∷ codes "/dev/mqueue"
    ∷ codes "/etc/resolv.conf"
    ∷ []

abbrev pub mem : Str → List Str → Bool
mem s = any λ r. list_beq r s

-- One round of the loop, past the name's own check and up to the two `insert`s.
unfoldable pub check_rest : List Str → List Str → VolumeSpec → Result (Unit {0}) InvalidSpec
check_rest seen_names seen_paths v =
    if not (starts_with_char b'/' v.path)
    then invalid "volumes.path" v.path "must be an absolute container-internal path"
    else if contains_str dotdot (normalise v.path)
    then invalid "volumes.path" v.path "must not contain '..' segments"
    else if mem (normalise v.path) reserved_mount_paths
    then invalid "volumes.path" v.path "collides with a path bugpot or libcontainer already mounts"
    else if mem v.name seen_names
    then invalid "volumes.name" v.name "duplicate volume name within app"
    else if mem (normalise v.path) seen_paths
    then invalid "volumes.path" v.path "duplicate mount point within app"
    else ok tt

unfoldable pub check_volume : List Str → List Str → VolumeSpec → Result (Unit {0}) InvalidSpec
unfolding check_rest
check_volume seen_names seen_paths v = do
  validate_dns_label "volumes.name" v.name
  check_rest seen_names seen_paths v

unfoldable pub validate_volumes_from :
    List Str → List Str → List VolumeSpec → Result (Unit {0}) InvalidSpec
validate_volumes_from seen_names seen_paths [] = ok tt
validate_volumes_from seen_names seen_paths (v ∷ vs) = do
  check_volume seen_names seen_paths v
  validate_volumes_from (v.name ∷ seen_names) (normalise v.path ∷ seen_paths) vs

unfoldable pub validate_volumes : List VolumeSpec → Result (Unit {0}) InvalidSpec
unfolding validate_volumes_from check_volume
validate_volumes = validate_volumes_from [] []

abbrev pub NotIn : List Str → Str → Type 0
NotIn xs s = mem s xs ≡ false

-- What a volume must be on its own.
pub record IsVolume (v : VolumeSpec) : Type 0 where
  pub label : IsDnsLabel v.name
  pub absolute : starts_with_char b'/' v.path ≡ true
  pub no_dotdot : contains_str dotdot (normalise v.path) ≡ false
  pub unreserved : NotIn reserved_mount_paths (normalise v.path)

-- Every volume is well formed, and no name and no mount point occurs twice or among those seen.
abbrev pub AreVolumes : List Str → List Str → List VolumeSpec → Type 0
AreVolumes names paths [] = Unit
AreVolumes names paths (v ∷ vs) =
    IsVolume v
    × NotIn names v.name
    × NotIn paths (normalise v.path)
    × AreVolumes (v.name ∷ names) (normalise v.path ∷ paths) vs

-- Five tests in a row, the later ones made only where the earlier ones pass.
ladder : (a b c d e : Bool) (x y z u w : InvalidSpec) → Result (Unit {0}) InvalidSpec
ladder a b c d e x y z u w =
    if not a
    then err x
    else if b
    then err y
    else if c
    then err z
    else if d
    then err u
    else if e
    then err w
    else ok tt

ladder_iff :
    (a b c d e : Bool) (x y z u w : InvalidSpec)
    → (ladder a b c d e x y z u w ≡ ok tt)
      ↔ ((a ≡ true) × (b ≡ false) × (c ≡ false) × (d ≡ false) × (e ≡ false))
unfolding ladder
ladder_iff a b c d e x y z u w = ground arith

check_rest_iff :
    (names paths : List Str) (v : VolumeSpec)
    → (check_rest names paths v ≡ ok tt) ↔ (
        (starts_with_char b'/' v.path ≡ true)
        × (contains_str dotdot (normalise v.path) ≡ false)
        × NotIn reserved_mount_paths (normalise v.path)
        × NotIn names v.name
        × NotIn paths (normalise v.path))
unfolding check_rest ladder
check_rest_iff names paths v = ladder_iff _ _ _ _ _ _ _ _ _ _

check_volume_iff :
    (names paths : List Str) (v : VolumeSpec)
    → (check_volume names paths v ≡ ok tt)
      ↔ (IsVolume v × NotIn names v.name × NotIn paths (normalise v.path))
unfolding check_volume
check_volume_iff names paths v =
    let (to, from) = validate_dns_label_iff "volumes.name" v.name in
    let (to_rest, from_rest) = check_rest_iff names paths v in
    let (split, join) = >>-eq-ok_iff (validate_dns_label "volumes.name" v.name) _ in
    (
      λ h.
          let (named, rest) = split h in
          let (absolute, no_dotdot, unreserved, name, path) = to_rest rest in
          (
            record {
              label = to named;
              absolute = absolute;
              no_dotdot = no_dotdot;
              unreserved = unreserved;
            },
            name,
            path,
          ),
      λ (w, name, path).
          join (from w.label, from_rest (w.absolute, w.no_dotdot, w.unreserved, name, path)),
    )

validate_volumes_from_iff :
    (names paths : List Str) (vs : List VolumeSpec)
    → (validate_volumes_from names paths vs ≡ ok tt) ↔ AreVolumes names paths vs
unfolding validate_volumes_from
validate_volumes_from_iff names paths [] = (λ _. tt, λ _. refl)
validate_volumes_from_iff names paths (v ∷ vs) =
    let (to, from) = check_volume_iff names paths v in
    let (to_rest, from_rest) =
      validate_volumes_from_iff (v.name ∷ names) (normalise v.path ∷ paths) vs in
    let (split, join) = >>-eq-ok_iff (check_volume names paths v) _ in
    (
      λ h.
          let (here, there) = split h in
          let (w, name, path) = to here in (w, name, path, to_rest there),
      λ (w, name, path, rest). join (from (w, name, path), from_rest rest),
    )

-- The volumes that are accepted are exactly those that are well formed each and have distinct
-- names and distinct normalised mount points.
pub validate_volumes_iff :
    (vs : List VolumeSpec) → (validate_volumes vs ≡ ok tt) ↔ AreVolumes [] [] vs
unfolding validate_volumes
validate_volumes_iff vs = validate_volumes_from_iff [] [] vs

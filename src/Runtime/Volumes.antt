-- ===== src/Runtime/Volumes.antt =====
-- crates/bugpot-runtime/src/volumes.rs: the directories of an app's volumes on the host. The answers
-- of the file system are a parameter, for each call by the calls before it; the state is the list of
-- the calls, the latest first.
pub mod Trace
pub mod Tests
use bugpot.Base.{ℕ, Bool, Option, none, some, List, [], ◌∷◌, ◌++◌, Result, ok, err, if◌then◌else◌}
use bugpot.Base.Text.{Str}
use bugpot.Config.Spec.{VolumeSpec}

pub data FsCall : Type 0 where
  create_dir_all remove_dir_all : (path : Str) → FsCall
  chown : (path : Str) → (uid gid : ℕ) → FsCall

pub record VolumesHost : Type 0 where
  pub answer : List FsCall → FsCall → Result (Unit {0}) Str
  pub exists : List FsCall → (path : Str) → Bool

-- An I/O error at a path.
pub data IoError : Type 0 where
  io : (path : Str) → (source : Str) → IoError

-- `join`, of a relative path.
unfoldable pub join : Str → Str → Str
join dir name = dir ++ b'/' ∷ name

module _ (host : VolumesHost) where
  abbrev Log : Type 0
  Log = List FsCall

  abbrev at_path : Str → Result (Unit {0}) Str → Result (Unit {0}) IoError
  at_path path (ok _) = ok tt
  at_path path (err why) = err (io path why)

  unfoldable pub perform : Str → FsCall → Log → Result (Unit {0}) IoError × Log
  perform path c log = (at_path path (host.answer log c), c ∷ log)

  unfoldable pub chown_to : Str → Option ℕ → Log → Result (Unit {0}) IoError × Log
  unfolding perform
  chown_to path none log = (ok tt, log)
  chown_to path (some uid) log = perform path (chown path uid uid) log

  -- One volume: its directory, and its owner each time.
  unfoldable pub ensure_volume : Str → VolumeSpec → Log → Result (Unit {0}) IoError × Log
  unfolding perform chown_to
  ensure_volume host_path v log =
      let (created, log) = perform host_path (create_dir_all host_path) log in
      elim created [ err e ↦ (err e, log) | ok _ ↦ chown_to host_path v.user log ]

  unfoldable pub ensure_volumes : Str → List VolumeSpec → Log → Result (List Str) IoError × Log
  unfolding ensure_volume join
  ensure_volumes app_dir [] log = (ok [], log)
  ensure_volumes app_dir (v ∷ vs) log =
      let (done, log) = ensure_volume (join app_dir v.name) v log in
      let (rest, after) = ensure_volumes app_dir vs log in
      elim done [
        | err e ↦ (err e, log)
        | ok _ ↦ elim rest [
          | err e ↦ (err e, after)
          | ok out ↦ (ok (join app_dir v.name ∷ out), after)
        ]
      ]

  unfoldable pub ensure_volume_host_dirs :
      Str → Str → List VolumeSpec → Log → Result (List Str) IoError × Log
  unfolding perform ensure_volumes join
  ensure_volume_host_dirs volumes_dir app [] log = (ok [], log)
  ensure_volume_host_dirs volumes_dir app (v ∷ vs) log =
      let app_dir = join volumes_dir app in
      let (created, log) = perform app_dir (create_dir_all app_dir) log in
      elim created [ err e ↦ (err e, log) | ok _ ↦ ensure_volumes app_dir (v ∷ vs) log ]

  unfoldable pub remove_volume_dirs : Str → Str → Log → Result (Unit {0}) IoError × Log
  unfolding perform join
  remove_volume_dirs volumes_dir app log =
      let app_dir = join volumes_dir app in
      if host.exists log app_dir then perform app_dir (remove_dir_all app_dir) log else (ok tt, log)

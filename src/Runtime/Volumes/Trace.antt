-- ===== src/Runtime/Volumes/Trace.antt =====
-- The calls that the volumes of an app come to, against the list of them.
use bugpot.Base.{
  none, some, List, [], ◌∷◌, ◌++◌, map, Result, ok, err, ◌≡◌, refl, arith, inl, inr, Option, ℕ,
  Option-cases,
}
use bugpot.Base.Text.{Str}
use bugpot.Config.Spec.{VolumeSpec}
use bugpot.Runtime.Volumes.{
  FsCall, create_dir_all, remove_dir_all, chown, VolumesHost, IoError, io, join, perform, chown_to,
  ensure_volume, ensure_volumes, ensure_volume_host_dirs,
}

abbrev pub path_of : FsCall → Str
path_of (create_dir_all path) = path
path_of (remove_dir_all path) = path
path_of (chown path uid gid) = path

abbrev pub owner_calls : Str → Option ℕ → List FsCall
owner_calls path none = []
owner_calls path (some uid) = chown path uid uid ∷ []

abbrev pub volume_calls : Str → List VolumeSpec → List FsCall
volume_calls app_dir [] = []
volume_calls app_dir (v ∷ vs) =
    create_dir_all (join app_dir v.name) ∷ owner_calls (join app_dir v.name) v.user
    ++ volume_calls app_dir vs

-- Nothing is made for an app without volumes.
abbrev pub calls_of : Str → List VolumeSpec → List FsCall
calls_of app_dir [] = []
calls_of app_dir (v ∷ vs) = create_dir_all app_dir ∷ volume_calls app_dir (v ∷ vs)

abbrev pub after_answer :
    FsCall
    → List FsCall
    → Result (Unit {0}) IoError × List FsCall
    → Result (Unit {0}) Str
    → Result (Unit {0}) IoError × List FsCall
after_answer c log rest (err why) = (err (io (path_of c) why), c ∷ log)
after_answer c log rest (ok _) = rest

-- The calls one after the other, up to the first that fails.
abbrev pub run_calls :
    VolumesHost → List FsCall → List FsCall → Result (Unit {0}) IoError × List FsCall
run_calls host [] log = (ok tt, log)
run_calls host (c ∷ cs) log = after_answer c log (run_calls host cs (c ∷ log)) (host.answer log c)

abbrev pub with_paths :
    List Str → Result (Unit {0}) IoError × List FsCall → Result (List Str) IoError × List FsCall
with_paths paths (ok _, log) = (ok paths, log)
with_paths paths (err e, log) = (err e, log)

abbrev pub host_paths : Str → List VolumeSpec → List Str
host_paths app_dir = map (λ v. join app_dir v.name)

module _ (host : VolumesHost) where
  ensure_volumes_lem :
      (app_dir : Str) (vs : List VolumeSpec) (log : List FsCall)
      → ensure_volumes host app_dir vs log
        ≡ with_paths (host_paths app_dir vs) (run_calls host (volume_calls app_dir vs) log)
  unfolding ensure_volumes ensure_volume perform chown_to
  ensure_volumes_lem app_dir [] log = refl
  ensure_volumes_lem app_dir (v ∷ vs) log =
      let path = join app_dir v.name in
      let made = create_dir_all path ∷ log in
      elim (Option-cases v.user) [
        | inl kept ↦ ground (arith, kept, ensure_volumes_lem app_dir vs made)
        | inr (uid, owned) ↦
            ground (arith, owned, ensure_volumes_lem app_dir vs (chown path uid uid ∷ made))
      ]

  -- The volumes of an app come to these calls in this order, up to the first that fails, whose
  -- error is returned with its path: the app's directory unless there are no volumes, then for each
  -- volume its directory and, where it has a user, its owner, whether or not the directory was there
  -- before. When all succeed, the result is the directories in the order of the volumes.
  pub ensure_volume_host_dirs_lem :
      (volumes_dir app : Str) (vs : List VolumeSpec) (log : List FsCall)
      → ensure_volume_host_dirs host volumes_dir app vs log
        ≡ with_paths
            (host_paths (join volumes_dir app) vs)
            (run_calls host (calls_of (join volumes_dir app) vs) log)
  unfolding ensure_volume_host_dirs perform
  ensure_volume_host_dirs_lem volumes_dir app [] log = refl
  ensure_volume_host_dirs_lem volumes_dir app (v ∷ vs) log = ground (
    arith,
    ensure_volumes_lem (join volumes_dir app) (v ∷ vs)
        (create_dir_all (join volumes_dir app) ∷ log),
  )

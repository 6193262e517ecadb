-- ===== src/Runtime/Container/Safety.antt =====
-- Each operation of the runtime keeps to its own container and app.
use mathlib.Core.Path.{subst}
use bugpot.Base.{
  Some, ℕ, Option, none, some, List, [], ◌∷◌, map, any, Result, ok, err, ◌≡◌, refl, ◌⊎◌, inl, inr,
  All, All-append, list_beq, if-cases, ◌&&◌, map_err,
}
use bugpot.Base.Run.{◌>>=◌, ◌>>◌, lift}
use bugpot.Base.Text.{Str, codes}
use bugpot.Config.Spec.{AppSpec, VolumeSpec}
use bugpot.Core.Host.{RuntimeError}
use bugpot.Runtime.Volumes.{
  FsCall, create_dir_all, remove_dir_all, chown, VolumesHost, join, ensure_volume_host_dirs,
}
use bugpot.Runtime.Volumes.Trace.{
  calls_of, volume_calls, owner_calls, run_calls, with_paths, host_paths,
  ensure_volume_host_dirs_lem, after_answer,
}
use bugpot.Runtime.Image.{PulledImage}
use bugpot.Runtime.Container.{
  RunningApp, report_started, start_on, start_with, required_image, with_volumes, volumes_host,
  reject_if_already_running, open_log_files, launch_container, prepare_bundle_dir,
  write_runtime_spec, ensure_log_tails, build_error, read_pid, perform, remove_existing, status_is,
  is_running, Call, create_dir, remove_dir, open_append, save_spec, symlink, build, start,
  spawn_tails, volume, RuntimeEnv, Runtime, state_dir, IoError, IoError, IoError, start_app,
  ImageId,
}
use bugpot.Runtime.Oci.{build_spec}
use bugpot.Runtime.Image.{io_at, load_cached_image}
use bugpot.Core.Host.{libcontainer, oci_spec}
use bugpot.Runtime.Container.Allowed.{
  Extends-none, Extends-one, then-Obeys, lift-Obeys, perform-Obeys, remove_existing-Obeys, Extends,
  Obeys, bind-Obeys, bind-Obeys, bind-Obeys,
}

-- A call on the directory of one of the volumes, or on the app's own that holds them; none is
-- removed.
abbrev pub OfVolumes : Str → List VolumeSpec → FsCall → Type 0
OfVolumes app_dir vs (create_dir_all path) =
    (path ≡ app_dir) ⊎ Some (λ v. path ≡ join app_dir v.name) vs
OfVolumes app_dir vs (chown path uid gid) = Some (λ v. path ≡ join app_dir v.name) vs
OfVolumes app_dir vs (remove_dir_all path) = ⊥

-- What a start may call: it removes, makes and writes its own state and bundle, the logs of its app
-- and the directories of its app's volumes, and builds and starts its own container.
abbrev pub StartCall : RuntimeEnv → Str → Str → List VolumeSpec → Call → Type 0
StartCall env cid app vs (remove_dir path) =
    (path ≡ state_dir env cid) ⊎ (path ≡ join env.bundles_dir cid)
StartCall env cid app vs (create_dir path) =
    (path ≡ join env.bundles_dir cid) ⊎ (path ≡ join env.logs_dir app)
StartCall env cid app vs (open_append path) =
    (path ≡ join (join env.logs_dir app) (codes "stdout.log"))
    ⊎ (path ≡ join (join env.logs_dir app) (codes "stderr.log"))
StartCall env cid app vs (save_spec path) =
    path ≡ join (join env.bundles_dir cid) (codes "config.json")
StartCall env cid app vs (symlink target link) =
    link ≡ join (join env.bundles_dir cid) (codes "rootfs")
StartCall env cid app vs (build other) = other ≡ cid
StartCall env cid app vs (start other) = other ≡ cid
StartCall env cid app vs (spawn_tails other) = other ≡ app
StartCall env cid app vs (volume c) = OfVolumes (join env.volumes_dir app) vs c
StartCall env cid app vs _ = ⊥

module _ (app_dir : Str) (vs : List VolumeSpec) where
  abbrev KeepsVolume : FsCall → Type 0
  KeepsVolume = OfVolumes app_dir vs

  owner_calls-KeepsVolume :
      (path : Str) (user : Option ℕ)
      → Some (λ v. path ≡ join app_dir v.name) vs
      → All KeepsVolume (owner_calls path user)
  owner_calls-KeepsVolume path none own = tt
  owner_calls-KeepsVolume path (some uid) own = (own, tt)

  -- The volumes that are left to make are among those of the app.
  volume_calls-KeepsVolume :
      (left : List VolumeSpec)
      → ((path : Str)
          → Some (λ v. path ≡ join app_dir v.name) left
          → Some (λ v. path ≡ join app_dir v.name) vs)
      → All KeepsVolume (volume_calls app_dir left)
  volume_calls-KeepsVolume [] among = tt
  volume_calls-KeepsVolume (v ∷ left) among =
      let own = among (join app_dir v.name) (inl refl) in
      (
        inr own,
        All-append KeepsVolume (owner_calls (join app_dir v.name) v.user)
            (volume_calls app_dir left) (owner_calls-KeepsVolume (join app_dir v.name) v.user own)
            (volume_calls-KeepsVolume left (λ path later. among path (inr later))),
      )

  calls_of-KeepsVolume :
      (left : List VolumeSpec) → left ≡ vs → All KeepsVolume (calls_of app_dir left)
  calls_of-KeepsVolume [] same = tt
  calls_of-KeepsVolume (v ∷ left) same = (
    inl refl,
    volume_calls-KeepsVolume (v ∷ left)
        (λ path own. subst (Some (λ v. path ≡ join app_dir v.name)) same own),
  )

  after_answer-KeepsVolume :
      (c : FsCall) (log : List FsCall) (rest : Result (Unit {0}) IoError × List FsCall)
      (answer : Result (Unit {0}) Str)
      → KeepsVolume c
      → All KeepsVolume log
      → All KeepsVolume rest.1
      → All KeepsVolume (after_answer c log rest answer).1
  after_answer-KeepsVolume c log rest (err why) h hl hr = (h, hl)
  after_answer-KeepsVolume c log rest (ok _) h hl hr = hr

  run_calls-KeepsVolume :
      (host : VolumesHost) (cs log : List FsCall)
      → All KeepsVolume cs
      → All KeepsVolume log
      → All KeepsVolume (run_calls host cs log).1
  run_calls-KeepsVolume host [] log hc hl = hl
  run_calls-KeepsVolume host (c ∷ cs) log (h, hc) hl =
      after_answer-KeepsVolume c log (run_calls host cs (c ∷ log)) (host.answer log c) h hl
        (run_calls-KeepsVolume host cs (c ∷ log) hc (h, hl))

  with_paths-KeepsVolume :
      (paths : List Str) (x : Result (Unit {0}) IoError × List FsCall)
      → All KeepsVolume x.1
      → All KeepsVolume (with_paths paths x).1
  with_paths-KeepsVolume paths (ok _, log) h = h
  with_paths-KeepsVolume paths (err e, log) h = h

ensure_volume_host_dirs-KeepsVolume :
    (host : VolumesHost) (volumes_dir app : Str) (vs : List VolumeSpec)
    → All
        (OfVolumes (join volumes_dir app) vs)
        (ensure_volume_host_dirs host volumes_dir app vs []).1
ensure_volume_host_dirs-KeepsVolume host volumes_dir app vs =
    let dir = join volumes_dir app in
    rw (ensure_volume_host_dirs_lem host volumes_dir app vs []) (
      with_paths-KeepsVolume dir vs (host_paths dir vs) (run_calls host (calls_of dir vs) []) (
        run_calls-KeepsVolume dir vs host (calls_of dir vs) [] (calls_of-KeepsVolume dir vs vs refl)
          tt))

module _ (env : RuntimeEnv) (cid app : Str) (vs : List VolumeSpec) where
  abbrev P : Call → Type 0
  P = StartCall env cid app vs

  abbrev Of : FsCall → Type 0
  Of = OfVolumes (join env.volumes_dir app) vs

  map-volume : (made : List FsCall) → All Of made → All P (map volume made)
  map-volume [] h = tt
  map-volume (create_dir_all path ∷ made) (h, hs) = (h, map-volume made hs)
  map-volume (chown path uid gid ∷ made) (h, hs) = (h, map-volume made hs)
  map-volume (remove_dir_all path ∷ made) (h, hs) = absurd h

  with_volumes-Obeys :
      {A : Type 0} (m : VolumesHost → List FsCall → Result A IoError × List FsCall)
      → ((host : VolumesHost) → All Of (m host []).1)
      → Obeys P (with_volumes env m)
  with_volumes-Obeys m keeps r = record {
    made = map volume (m (volumes_host env r.calls) []).1;
    whole = refl;
    allowed = map-volume (m (volumes_host env r.calls) []).1 (keeps (volumes_host env r.calls));
  }

  reject-Obeys : Obeys P (reject_if_already_running env cid)
  unfolding reject_if_already_running
  reject-Obeys r =
      if-cases {A = Result (Unit {0}) RuntimeError × Runtime} (λ x. Extends P r.calls x.1.calls)
        (env.exists r.calls (state_dir env cid) && status_is env is_running (env.load r.calls cid))
        (λ _. Extends-none P r.calls) (λ _. Extends-none P r.calls)

  open_log_files-Obeys : Obeys P (open_log_files env app)
  unfolding open_log_files
  open_log_files-Obeys =
      let dir = join env.logs_dir app in
      let out = join dir (codes "stdout.log") in
      let log = join dir (codes "stderr.log") in
      then-Obeys P (perform env (io_at dir) (create_dir dir))
        (perform env (io_at out) (open_append out) >> perform env (io_at log) (open_append log))
        (perform-Obeys P env (io_at dir) (create_dir dir) (inr refl))
        (then-Obeys P (perform env (io_at out) (open_append out))
          (perform env (io_at log) (open_append log))
          (perform-Obeys P env (io_at out) (open_append out) (inl refl))
          (perform-Obeys P env (io_at log) (open_append log) (inr refl)))

  launch_container-Obeys : Obeys P (launch_container env cid)
  unfolding launch_container
  launch_container-Obeys =
      then-Obeys P (remove_existing env (state_dir env cid))
        (perform env libcontainer (build cid)
          >> (perform env libcontainer (start cid) >> read_pid env cid))
        (remove_existing-Obeys P env (state_dir env cid) (inl refl))
        (then-Obeys P (perform env libcontainer (build cid))
          (perform env libcontainer (start cid) >> read_pid env cid)
          (perform-Obeys P env libcontainer (build cid) refl)
          (then-Obeys P (perform env libcontainer (start cid)) (read_pid env cid)
            (perform-Obeys P env libcontainer (start cid) refl) (λ r. Extends-none P r.calls)))

  prepare_bundle_dir-Obeys :
      (image_rootfs : Str)
      → Obeys P (prepare_bundle_dir env (join env.bundles_dir cid) image_rootfs)
  unfolding prepare_bundle_dir
  prepare_bundle_dir-Obeys image_rootfs =
      let bundle_dir = join env.bundles_dir cid in
      let link = join bundle_dir (codes "rootfs") in
      then-Obeys P (remove_existing env bundle_dir)
        (perform env (io_at bundle_dir) (create_dir bundle_dir)
          >> perform env (io_at link) (symlink image_rootfs link))
        (remove_existing-Obeys P env bundle_dir (inr refl))
        (then-Obeys P (perform env (io_at bundle_dir) (create_dir bundle_dir))
          (perform env (io_at link) (symlink image_rootfs link))
          (perform-Obeys P env (io_at bundle_dir) (create_dir bundle_dir) (inl refl))
          (perform-Obeys P env (io_at link) (symlink image_rootfs link) refl))

  write_runtime_spec-Obeys :
      (spec : AppSpec) (image : PulledImage) (netns_path : Option Str) (paths : List Str)
      → Obeys P (write_runtime_spec env (join env.bundles_dir cid) cid spec image netns_path paths)
  unfolding write_runtime_spec
  write_runtime_spec-Obeys spec image netns_path paths =
      let bundle_dir = join env.bundles_dir cid in
      let config_path = join bundle_dir (codes "config.json") in
      let built = map_err build_error (
        build_spec env.default_mounts env.has_resolv_conf env.passwd env.group (record {
          spec = spec;
          container_id = cid;
          image_config = image.config;
          rootfs = join bundle_dir (codes "rootfs");
          netns_path = netns_path;
          volume_host_paths = paths;
        })) in
      then-Obeys P (lift built) (perform env oci_spec (save_spec config_path)) (lift-Obeys P built)
        (perform-Obeys P env oci_spec (save_spec config_path) refl)

  ensure_log_tails-Obeys : Obeys P (ensure_log_tails env app)
  unfolding ensure_log_tails
  ensure_log_tails-Obeys r =
      if-cases {A = Result (Unit {0}) RuntimeError × Runtime} (λ x. Extends P r.calls x.1.calls)
        (any (list_beq app) r.log_tails) (λ _. Extends-none P r.calls)
        (λ _. Extends-one P (spawn_tails app) r.calls refl)

module _ (env : RuntimeEnv) (cid : Str) (spec : AppSpec) (netns_path : Option Str) where
  abbrev Q : Call → Type 0
  Q = StartCall env cid spec.name spec.volumes

  start_on-Obeys :
      (image : PulledImage) (paths : List Str)
      → Obeys Q (start_on env cid spec netns_path image paths)
  start_on-Obeys image paths =
      let bundle_dir = join env.bundles_dir cid in
      let wrote = write_runtime_spec env bundle_dir cid spec image netns_path paths in
      let launched = launch_container env cid >>= report_started env cid spec image in
      then-Obeys Q wrote (open_log_files env spec.name >> launched)
        (write_runtime_spec-Obeys env cid spec.name spec.volumes spec image netns_path paths)
        (then-Obeys Q (open_log_files env spec.name) launched
          (open_log_files-Obeys env cid spec.name spec.volumes)
          (bind-Obeys Q (launch_container env cid) (report_started env cid spec image)
            (launch_container-Obeys env cid spec.name spec.volumes)
            (λ pid.
              let app : RunningApp = record { name = cid; pid = pid; image = image.id } in
              then-Obeys Q (ensure_log_tails env spec.name) (lift (ok app))
                (ensure_log_tails-Obeys env cid spec.name spec.volumes) (lift-Obeys Q (ok app)))))

  start_with-Obeys : (image : PulledImage) → Obeys Q (start_with env cid spec netns_path image)
  start_with-Obeys image =
      let bundle_dir = join env.bundles_dir cid in
      let rootfs = join image.dir (codes "rootfs") in
      let volumes : VolumesHost → List FsCall → Result (List Str) IoError × List FsCall =
        λ host. ensure_volume_host_dirs host env.volumes_dir spec.name spec.volumes in
      then-Obeys Q (prepare_bundle_dir env bundle_dir rootfs)
        (with_volumes env volumes >>= start_on env cid spec netns_path image)
        (prepare_bundle_dir-Obeys env cid spec.name spec.volumes rootfs)
        (bind-Obeys Q (with_volumes env volumes) (start_on env cid spec netns_path image)
          (with_volumes-Obeys env cid spec.name spec.volumes volumes (λ host.
            ensure_volume_host_dirs-KeepsVolume host env.volumes_dir spec.name spec.volumes))
          (start_on-Obeys image))

  -- Whatever libcontainer and the file system answer, a start keeps to its own container and app: it
  -- builds and starts no other container, and kills, stops, freezes and deletes none; the only
  -- directories that it removes are the state and the bundle of its container; and every path that
  -- it makes, writes, links or hands to another owner is in that bundle, one of its app's two log files
  -- or their directory, or the directory of one of its app's volumes or the one that holds them.
  pub start_app-Extends :
      (image_id : ImageId) (r : Runtime)
      → Extends Q r.calls (start_app env cid spec image_id netns_path r).1.calls
  unfolding start_app
  start_app-Extends image_id r =
      let image =
        required_image env image_id (load_cached_image env.from_slice env.images image_id) in
      let started = start_with env cid spec netns_path in
      then-Obeys Q (reject_if_already_running env cid) (lift image >>= started)
        (reject-Obeys env cid spec.name spec.volumes)
        (bind-Obeys Q (lift image) started (lift-Obeys Q image) start_with-Obeys) r

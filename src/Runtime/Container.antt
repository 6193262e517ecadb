-- ===== src/Runtime/Container.antt =====
-- crates/bugpot-runtime/src/runtime.rs: `RuntimeOps for Runtime`. libcontainer and the file system are
-- parameters: what they answer, by the calls so far, the latest first. The state is those calls and
-- the apps whose logs are tailed; `pull_image` is Runtime.Image.Puller's.
pub mod Ops
pub mod Allowed
pub mod Safety
pub mod Tests
use bugpot.Base.{
  ℕ, Bool, true, false, Option, none, some, List, [], ◌∷◌, ◌++◌, map, any, Result, ok, err, map_err,
  list_beq, ◌&&◌, if◌then◌else◌, list_eq,
}
use bugpot.Base.Run.{Run, ◌>>=◌, ◌>>◌, lift}
use bugpot.Base.Text.{Str, codes}
use bugpot.Config.Spec.{AppSpec}
use bugpot.Core.Host.{
  RuntimeError, app_not_found, app_already_running, other_error, libcontainer, oci_spec,
  invalid_resource,
}
use bugpot.Runtime.Process.{ImageConfig}
use bugpot.Runtime.Oci.{Mount, BuildError, no_command, bad_user, build_spec}
use bugpot.Runtime.Volumes.{FsCall, VolumesHost, IoError, io, join, ensure_volume_host_dirs}
use bugpot.Runtime.Image.{ImageId, Images, PulledImage, io_at, load_cached_image}

pub data ContainerStatus : Type 0 where
  creating created running stopped paused : ContainerStatus

-- `none` for a negative number.
pub record Container : Type 0 where
  pub status : ContainerStatus
  pub pid : Option (Option ℕ)

abbrev pub is_running : ContainerStatus → Bool
is_running running = true
is_running _ = false

abbrev pub is_paused : ContainerStatus → Bool
is_paused paused = true
is_paused _ = false

pub data Call : Type 0 where
  create_dir remove_dir open_append save_spec : (path : Str) → Call
  symlink : (target link : Str) → Call
  build start pause resume terminate kill delete : (cid : Str) → Call
  spawn_tails abort_tails : (app : Str) → Call
  volume : FsCall → Call

pub record RuntimeEnv : Type 0 where
  pub answer : List Call → Call → Result (Unit {0}) Str
  pub exists : List Call → (path : Str) → Bool
  pub load : List Call → (cid : Str) → Result Container Str
  pub images : Images
  pub from_slice : Str → Result (Option ImageConfig) Str
  pub default_mounts : List Mount
  pub has_resolv_conf : Bool
  pub passwd : Option Str
  pub group : Option Str
  pub bundles_dir : Str
  pub containers_dir : Str
  pub logs_dir : Str
  pub volumes_dir : Str

pub record Runtime : Type 0 where
  pub calls : List Call
  pub log_tails : List Str

abbrev pub R : Type 0 → Type 0
R A = Run Runtime A RuntimeError

pub record RunningApp : Type 0 where
  pub name : Str
  pub pid : ℕ
  pub image : ImageId

-- The errors of `build_spec`, their texts shortened.
abbrev pub build_error : BuildError → RuntimeError
build_error (no_command repo) = other_error repo
build_error (bad_user e) = invalid_resource (codes "user")

module _ (env : RuntimeEnv) where
  -- One call, with what an error of it is.
  abbrev pub perform : (Str → RuntimeError) → Call → R (Unit {0})
  perform e c r = (map_err e (env.answer r.calls c), record r { calls = c ∷ r.calls })

  -- One call whose result is not looked at.
  abbrev pub attempt : Call → R (Unit {0})
  attempt c r = (ok tt, record r { calls = c ∷ r.calls })

  abbrev pub state_dir : Str → Str
  state_dir cid = join env.containers_dir cid

  abbrev remove_at : Str → R (Unit {0})
  remove_at path = perform (io_at path) (remove_dir path)

  abbrev pub remove_existing : Str → R (Unit {0})
  remove_existing path r = if env.exists r.calls path then remove_at path r else (ok tt, r)

  unfoldable pub try_load_container : Str → R Container
  unfolding join
  try_load_container cid r =
      if env.exists r.calls (state_dir cid)
      then (map_err libcontainer (env.load r.calls cid), r)
      else (err (app_not_found cid), r)

  abbrev pub status_is : (ContainerStatus → Bool) → Result Container Str → Bool
  status_is test (err why) = false
  status_is test (ok container) = test container.status

  unfoldable pub reject_if_already_running : Str → R (Unit {0})
  unfolding join
  reject_if_already_running cid r =
      if env.exists r.calls (state_dir cid) && status_is is_running (env.load r.calls cid)
      then (err (app_already_running cid), r)
      else (ok tt, r)

  unfoldable pub open_log_files : Str → R (Unit {0})
  unfolding join
  open_log_files app = do
    perform (io_at (join env.logs_dir app)) (create_dir (join env.logs_dir app))
    perform (io_at (join (join env.logs_dir app) (codes "stdout.log")))
        (open_append (join (join env.logs_dir app) (codes "stdout.log")))
    perform (io_at (join (join env.logs_dir app) (codes "stderr.log")))
        (open_append (join (join env.logs_dir app) (codes "stderr.log")))

  abbrev pid_of : Option (Option ℕ) → Result ℕ RuntimeError
  pid_of none = err (other_error (codes "container has no pid after start"))
  pid_of (some none) = err (other_error (codes "unexpected negative pid from libcontainer"))
  pid_of (some (some pid)) = ok pid

  -- The pid is the loaded container's.
  abbrev pub read_pid : Str → R ℕ
  read_pid cid r = (
    elim (env.load r.calls cid) [
      | err why ↦ err (libcontainer why)
      | ok container ↦ pid_of container.pid
    ],
    r,
  )

  unfoldable pub launch_container : Str → R ℕ
  unfolding join
  launch_container cid = do
    remove_existing (state_dir cid)
    perform libcontainer (build cid)
    perform libcontainer (start cid)
    read_pid cid

  unfoldable pub ensure_log_tails : Str → R (Unit {0})
  ensure_log_tails app r =
      if any (list_beq app) r.log_tails
      then (ok tt, r)
      else (ok tt, record { calls = spawn_tails app ∷ r.calls; log_tails = app ∷ r.log_tails })

  unfoldable pub prepare_bundle_dir : Str → Str → R (Unit {0})
  unfolding join
  prepare_bundle_dir bundle_dir image_rootfs = do
    remove_existing bundle_dir
    perform (io_at bundle_dir) (create_dir bundle_dir)
    perform (io_at (join bundle_dir (codes "rootfs")))
        (symlink image_rootfs (join bundle_dir (codes "rootfs")))

  unfoldable pub write_runtime_spec :
      Str → Str → AppSpec → PulledImage → Option Str → List Str → R (Unit {0})
  unfolding build_spec join
  write_runtime_spec bundle_dir cid spec image netns_path volume_host_paths = do
    lift (
        map_err build_error (
          build_spec env.default_mounts env.has_resolv_conf env.passwd env.group (record {
            spec = spec;
            container_id = cid;
            image_config = image.config;
            rootfs = join bundle_dir (codes "rootfs");
            netns_path = netns_path;
            volume_host_paths = volume_host_paths;
          })))
    perform oci_spec (save_spec (join bundle_dir (codes "config.json")))

  -- The volumes' calls among the others.
  abbrev pub volumes_host : List Call → VolumesHost
  volumes_host calls = record {
    answer = λ made c. env.answer (map volume made ++ calls) (volume c);
    exists = λ made path. env.exists (map volume made ++ calls) path;
  }

  abbrev pub with_volumes :
      {A : Type 0} → (VolumesHost → List FsCall → Result A IoError × List FsCall) → R A
  with_volumes m r =
      let (done, made) = m (volumes_host r.calls) [] in
      (
        map_err (λ e. elim e [ io path source ↦ io_at path source ]) done,
        record r { calls = map volume made ++ r.calls },
      )

  abbrev pub required_image :
      ImageId → Result (Option PulledImage) RuntimeError → Result PulledImage RuntimeError
  required_image id (err e) = err e
  required_image id (ok none) =
      err (other_error (codes "image not in cache; caller must pull it first"))
  required_image id (ok (some image)) = ok image

  -- The parts of `start_app`, from its last.
  abbrev pub report_started : Str → AppSpec → PulledImage → ℕ → R RunningApp
  report_started cid spec image pid = do
    ensure_log_tails spec.name
    lift (ok (record { name = cid; pid = pid; image = image.id }))

  abbrev pub start_on : Str → AppSpec → Option Str → PulledImage → List Str → R RunningApp
  start_on cid spec netns_path image paths = do
    write_runtime_spec (join env.bundles_dir cid) cid spec image netns_path paths
    open_log_files spec.name
    pid ← launch_container cid
    report_started cid spec image pid

  abbrev pub start_with : Str → AppSpec → Option Str → PulledImage → R RunningApp
  start_with cid spec netns_path image = do
    prepare_bundle_dir (join env.bundles_dir cid) (join image.dir (codes "rootfs"))
    paths ←
        with_volumes (λ host. ensure_volume_host_dirs host env.volumes_dir spec.name spec.volumes)
    start_on cid spec netns_path image paths

  unfoldable pub start_app : Str → AppSpec → ImageId → Option Str → R RunningApp
  unfolding reject_if_already_running load_cached_image prepare_bundle_dir ensure_volume_host_dirs
      write_runtime_spec open_log_files launch_container ensure_log_tails join
  start_app cid spec image_id netns_path = do
    reject_if_already_running cid
    image ← lift (required_image image_id (load_cached_image env.from_slice env.images image_id))
    start_with cid spec netns_path image

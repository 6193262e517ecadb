-- ===== src/Runtime/Container/Ops.antt =====
-- crates/bugpot-runtime/src/runtime.rs: freezing, stopping and cleaning up, and what is read of a
-- container.
use bugpot.Base.{
  ℕ, Bool, true, false, Option, none, some, List, [], ◌∷◌, any, Result, ok, err, list_beq,
  if◌then◌else◌,
}
use bugpot.Base.Run.{◌>>=◌, ◌>>◌, lift}
use bugpot.Base.Text.{Str}
use bugpot.Core.Host.{RuntimeError, libcontainer}
use bugpot.Runtime.Volumes.{join, remove_volume_dirs}
use bugpot.Runtime.Cgroup.{cgroup_path_for_pid, read_memory_bytes, read_cpu_usec}
use bugpot.Runtime.Container.{
  Container, ContainerStatus, is_running, is_paused, Call, pause, resume, terminate, kill, delete,
  abort_tails, remove_dir, RuntimeEnv, Runtime, R, perform, attempt, state_dir, remove_existing,
  try_load_container, with_volumes,
}

abbrev without : Str → List Str → List Str
without app [] = []
without app (a ∷ apps) = let rest = without app apps in if list_beq app a then rest else a ∷ rest

abbrev both : Option ℕ → Option ℕ → Option (ℕ × ℕ)
both (some a) (some b) = some (a, b)
both (some a) none = none
both none _ = none

module _ (env : RuntimeEnv) where
  abbrev loaded_is : (ContainerStatus → Bool) → Result Container RuntimeError × Runtime → Bool
  loaded_is test (err e, r) = false
  loaded_is test (ok container, r) = test container.status

  unfoldable pub is_container_running : Str → Runtime → Bool
  unfolding try_load_container
  is_container_running cid r = loaded_is is_running (try_load_container env cid r)

  unfoldable pub is_container_paused : Str → Runtime → Bool
  unfolding try_load_container
  is_container_paused cid r = loaded_is is_paused (try_load_container env cid r)

  unfoldable pub freeze_app : Str → R (Unit {0})
  unfolding try_load_container
  freeze_app cid = do try_load_container env cid; perform env libcontainer (pause cid)

  unfoldable pub unfreeze_app : Str → R (Unit {0})
  unfolding try_load_container
  unfreeze_app cid = do try_load_container env cid; perform env libcontainer (resume cid)

  abbrev attempt_if : Bool → Call → R (Unit {0})
  attempt_if true c = attempt env c
  attempt_if false c = lift (ok tt)

  unfoldable pub stop_app : Str → R (Unit {0})
  unfolding try_load_container
  stop_app cid = do
    container ← try_load_container env cid
    attempt_if (is_running container.status) (terminate cid)
    perform env libcontainer (delete cid)

  -- The state directory goes by hand when libcontainer cannot delete it.
  abbrev deleted_or_removed :
      Str → Result (Unit {0}) RuntimeError × Runtime → Result (Unit {0}) RuntimeError × Runtime
  deleted_or_removed cid (ok _, r) = (ok tt, r)
  deleted_or_removed cid (err e, r) = attempt env (remove_dir (state_dir env cid)) r

  abbrev delete_loaded : Str → Result Container Str → R (Unit {0})
  delete_loaded cid (err why) = attempt env (remove_dir (state_dir env cid))
  delete_loaded cid (ok container) = do
    attempt_if (is_running container.status) (kill cid)
    λ r. deleted_or_removed cid (perform env libcontainer (delete cid) r)

  abbrev delete_existing : Str → R (Unit {0})
  delete_existing cid r =
      if env.exists r.calls (state_dir env cid)
      then delete_loaded cid (env.load r.calls cid) r
      else (ok tt, r)

  unfoldable cleanup_container : Str → R (Unit {0})
  unfolding join
  cleanup_container cid = do delete_existing cid; remove_existing env (join env.bundles_dir cid)

  abbrev abort_existing : Str → R (Unit {0})
  abort_existing app r =
      if any (list_beq app) r.log_tails
      then (
        ok tt,
        record { calls = abort_tails app ∷ r.calls; log_tails = without app r.log_tails },
      )
      else (ok tt, r)

  unfoldable cleanup_app_assets : Str → R (Unit {0})
  unfolding remove_volume_dirs
  cleanup_app_assets app = do
    abort_existing app
    with_volumes env (λ host. remove_volume_dirs host env.volumes_dir app)

  module _ (read_to_string : Str → Option Str) where
    abbrev usage_at : Option Str → Option (ℕ × ℕ)
    usage_at none = none
    usage_at (some cgroup) =
        both (read_memory_bytes read_to_string cgroup) (read_cpu_usec read_to_string cgroup)

    abbrev usage_of_pid : Option (Option ℕ) → Option (ℕ × ℕ)
    usage_of_pid none = none
    usage_of_pid (some none) = none
    usage_of_pid (some (some pid)) = usage_at (cgroup_path_for_pid read_to_string pid)

    abbrev usage_of : Result Container RuntimeError × Runtime → Option (ℕ × ℕ)
    usage_of (err e, r) = none
    usage_of (ok container, r) =
        if is_running container.status then usage_of_pid container.pid else none

    -- The memory and the CPU time.
    unfoldable pub resource_usage : Str → Runtime → Option (ℕ × ℕ)
    unfolding try_load_container cgroup_path_for_pid read_memory_bytes read_cpu_usec
    resource_usage cid r = usage_of (try_load_container env cid r)

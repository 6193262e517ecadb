-- ===== src/Core/Tests.antt =====
-- An app in a host whose every call succeeds, and the theorems at it.
use bugpot.Base.{
  ℕ, suc, ◌*◌, ◌+◌, ◌≡◌, ◌≤◌, refl, arith, true, false, none, some, List, [], ◌∷◌, ok, err, ◌↔◌,
  ◌<◌,
}
use bugpot.Base.Text.{Str, codes}
use bugpot.Config.Spec.{AppSpec, Rollout}
use bugpot.Core.Handle.{
  AppHandle, HandleInner, AppState, a, stopped, starting, running, frozen, rolling_over,
  container_id, claim_start_slot, claimed, needs_teardown,
}
use bugpot.Core.Host.{Env, World, Failure, started, allocated, libcontainer}
use bugpot.Core.Lifecycle.{freeze, do_start, ensure_running, stop}
use bugpot.Core.Lifecycle.Cleanup.{Outcome}
use bugpot.Core.Lifecycle.Running.{
  do_start-Outcome, Committed, ensure_running-Committed, Waiting, ensure_running-Waiting,
}
use bugpot.Core.Lifecycle.Stopping.{stop-TornDown, TornDown, targets}
use bugpot.Core.Rollout.{RolloutError, do_blue_green, drain_active_upgrades}
use bugpot.Core.Rollout.BlueGreen.{
  Rolled, do_blue_green-Rolled, LeftRollover, do_blue_green-LeftRollover,
}
use bugpot.Core.Rollout.Drain.{drain_active_upgrades-ends}
use bugpot.Core.Lifecycle.Freezing.{Froze, freeze-Froze}

abbrev pub demo : Str
demo = codes "demo"

abbrev pub demo_spec : AppSpec
demo_spec = record {
  repo = codes "ghcr.io/acme/demo";
  port = 8080;
  name = demo;
  subdomain_field = none;
  egress = record { allow = [] };
  env = [];
  scaling = record { idle_timeout = none };
  readiness = record { timeout = none; path = none };
  volumes = [];
}

abbrev pub first_rollout : Rollout
first_rollout = record { tag = codes "v1"; created_at = 0 }

abbrev pub demo_inner : AppState → HandleInner
demo_inner state = record {
  state = state;
  current_slot = a;
  last_access = 3;
  rollouts = first_rollout ∷ [];
  image_digest = none;
  cpu_baseline = 10;
}

abbrev pub demo_handle : AppState → AppHandle
demo_handle state = record {
  identity = record { name = demo; subdomain = demo };
  spec = demo_spec;
  active_upgrades = 0;
  inner = demo_inner state;
}

abbrev pub demo_env : Env
demo_env = record {
  others = λ n h. h;
  now = λ n. 100000000 * n;
  fresh = λ n. n;
  auth = record { registries = [] };
  parse_duration = λ s. err s;
  allocate_endpoint = λ es cid allow. ok (record { container_ip = 5; netns_path = [] });
  pull_image = λ es image_ref auth. ok (codes "sha256:aa");
  start_app = λ es cid spec image_id netns. ok 7;
  release_endpoint = λ es cid. err (codes "link busy");
  stop_app = λ es cid. err (libcontainer (codes "cgroup busy"));
  freeze_app = λ es cid. ok tt;
  unfreeze_app = λ es cid. ok tt;
  wait_for_ready = λ es ip port path timeout. ok tt;
}

abbrev pub demo_world : AppState → World
demo_world state = record {
  handle = demo_handle state;
  step = 0;
  events = started (codes "demo-a") true ∷ allocated (codes "demo-a") true ∷ [];
}

do_blue_green-Rolled_example :
    Rolled demo a
      (demo_world (rolling_over 4)).events
      (do_blue_green demo_env demo 600 4 (demo_world (rolling_over 4)))
do_blue_green-Rolled_example =
    do_blue_green-Rolled demo_env demo 600 4 (demo_world (rolling_over 4))

-- No image can be pulled.
abbrev no_image_env : Env
no_image_env = record demo_env {
  pull_image = λ es image_ref auth. err (libcontainer (codes "no image"));
}

do_blue_green-LeftRollover_example :
    LeftRollover (do_blue_green no_image_env demo 601 4 (demo_world (rolling_over 4)))
do_blue_green-LeftRollover_example =
    do_blue_green-LeftRollover no_image_env demo 601 4 (demo_world (rolling_over 4))

do_start-Outcome_example :
    Outcome
      (container_id demo a)
      (demo_world stopped).events
      (do_start demo_env demo (demo_world stopped))
do_start-Outcome_example = do_start-Outcome demo_env demo (demo_world stopped)

ensure_running-Committed_example :
    Committed demo_env demo (ensure_running demo_env demo 1 (demo_world stopped))
ensure_running-Committed_example = ensure_running-Committed demo_env demo 1 (demo_world stopped)

ensure_running-Waiting_example :
    ((ensure_running demo_env demo 1 (demo_world (starting 9))).0 ≡ ok none)
    ↔ Waiting demo_env demo 1 (demo_world (starting 9))
ensure_running-Waiting_example = ensure_running-Waiting demo_env demo 1 (demo_world (starting 9))

stop-TornDown_example :
    let w = demo_world (rolling_over 4) in
    let w' = (stop demo_env demo {E = Failure} w).1 in
    TornDown (targets demo w.handle.inner) w.events w'.events
    × (needs_teardown w'.handle.inner.state ≡ false)
stop-TornDown_example = stop-TornDown demo_env demo (demo_world (rolling_over 4))

granted : (claim_start_slot 8 1 (demo_inner (frozen 4))).0 ≡ claimed 1 (some 4)
unfolding claim_start_slot
granted = refl

ticking : (n : ℕ) → 0 < n → demo_env.now n + 100000000 ≤ demo_env.now (suc n)
ticking n late = omega arith

drain_active_upgrades-ends_example :
    (drain_active_upgrades demo_env demo {E = RolloutError} 601 (demo_world (rolling_over 4))).0
    ≡ ok true
drain_active_upgrades-ends_example =
    drain_active_upgrades-ends RolloutError demo_env demo 601 (demo_world (rolling_over 4))
      (omega arith) ticking (omega arith)

abbrev idle_apps : List AppHandle
idle_apps = demo_handle (running 4) ∷ demo_handle (frozen 5) ∷ []

freeze-Froze_example :
    Froze demo_env demo (demo_world (running 4)) (freeze demo_env demo (demo_world (running 4)))
freeze-Froze_example = freeze-Froze demo_env demo (demo_world (running 4))

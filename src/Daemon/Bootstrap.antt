-- ===== src/Daemon/Bootstrap.antt =====
-- cmd/bugpotd/src/bootstrap.rs: `Bootstrap::build` and the end of `run`. The parts that are modelled
-- elsewhere answer as parameters; the state is the steps so far, the latest first, and the tasks that
-- were spawned. Logging, and the monitor of the runtime's metrics, are left out.
pub mod Rollback
use bugpot.Base.{
  ℕ, Bool, true, false, Option, none, some, List, [], ◌∷◌, Result, ok, err, if◌then◌else◌, ◌*◌, ◌+◌,
  ◌-◌, leb, ◌&&◌, ◌^◌, ◌/◌, ◌%◌, ◌==◌, ltb, not, list_eq,
}
use bugpot.Base.Run.{Run, ◌>>=◌, ◌>>◌, lift}
use bugpot.Base.Text.{Str, codes}
use bugpot.Egress.Allocator.{Ipv4Net}
use bugpot.Daemon.Secrets.{Environment, read_admin_token, read_deploy_secret}
use bugpot.Daemon.Settings.{parse_router_config}

pub data Step : Type 0 where
  load_auth init_egress init_runtime gc_images init_controller : Step
  reattach_running cleanup_orphans deploy_always_on teardown : Step
  spawn_sweep spawn_memory_pressure spawn_router spawn_metrics spawn_admin : Step

pub record DaemonEnv : Type 0 where
  pub answer : Step → Result (Unit {0}) Str
  pub environment : Environment
  pub parse_net : Str → Result Ipv4Net Str
  pub parse_socket_addr : Str → Result ℕ Str

pub record Boot : Type 0 where
  pub steps : List Step
  pub tasks : List Step

abbrev pub new_boot : Boot
new_boot = record { steps = []; tasks = [] }

abbrev pub B : Type 0 → Type 0
B A = Run Boot A Str

module _ (env : DaemonEnv) where
  -- A step with its `?`.
  abbrev pub attempt : Step → B (Unit {0})
  attempt step s = (env.answer step, record s { steps = step ∷ s.steps })

  -- A step whose failure is logged, or that cannot fail.
  abbrev pub perform : Step → B (Unit {0})
  perform step s = (ok tt, record s { steps = step ∷ s.steps })

  abbrev pub spawn : Step → B (Unit {0})
  spawn task s = (ok tt, record { steps = task ∷ s.steps; tasks = task ∷ s.tasks })

  unfoldable pub bring_up : B (Unit {0})
  bring_up = do
    attempt load_auth
    attempt init_egress
    attempt init_runtime
    perform gc_images
    attempt init_controller
    perform reattach_running
    perform cleanup_orphans

  abbrev pub rolled_back : Result (Unit {0}) Str × Boot → Result (Unit {0}) Str × Boot
  rolled_back (ok _, s) = (ok tt, s)
  rolled_back (err why, s) = (err why, record s { steps = teardown ∷ s.steps })

  unfoldable pub start_apps : B (Unit {0})
  start_apps s = rolled_back (attempt deploy_always_on s)

  unfoldable pub spawn_router_task : B (Unit {0})
  unfolding parse_router_config
  spawn_router_task = do
    lift (parse_router_config env.environment.var env.parse_net)
    spawn spawn_router

  abbrev pub metrics_at : Option Str → B (Unit {0})
  metrics_at none = lift (ok tt)
  metrics_at (some raw) = do lift (env.parse_socket_addr raw); spawn spawn_metrics

  unfoldable pub spawn_metrics_task : B (Unit {0})
  spawn_metrics_task = metrics_at (env.environment.var (codes "BUGPOT_METRICS_LISTEN"))

  unfoldable pub spawn_admin_task : B (Unit {0})
  unfolding read_admin_token read_deploy_secret
  spawn_admin_task = do
    lift (read_admin_token env.environment)
    lift (read_deploy_secret env.environment)
    spawn spawn_admin

  unfoldable pub spawn_all : B (Unit {0})
  unfolding spawn_router_task spawn_metrics_task spawn_admin_task
  spawn_all = do
    spawn spawn_sweep
    spawn spawn_memory_pressure
    spawn_router_task
    spawn_metrics_task
    spawn_admin_task

  unfoldable pub build : B (Unit {0})
  unfolding bring_up start_apps spawn_all
  build = do bring_up; start_apps; spawn_all

  -- `Bootstrap::run`, after the signal: the tasks are aborted.
  unfoldable shut_down : Boot → Boot
  shut_down s = record { steps = teardown ∷ s.steps; tasks = [] }

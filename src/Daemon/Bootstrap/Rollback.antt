-- ===== src/Daemon/Bootstrap/Rollback.antt =====
-- When the controller is torn down during the bring-up.
use bugpot.Base.{
  Option, none, some, Bool, true, false, ◌∷◌, any, Result, ok, err, ◌≡◌, refl, ◌∙◌, ◌&&◌, arith,
}
use bugpot.Base.Run.{bind_on, ◌>>◌, lift}
use bugpot.Base.Text.{Str, codes}
use bugpot.Daemon.Secrets.{read_admin_token, read_deploy_secret}
use bugpot.Daemon.Settings.{parse_router_config}
use bugpot.Daemon.Bootstrap.{
  Step, deploy_always_on, teardown, load_auth, init_egress, init_runtime, gc_images,
  init_controller, reattach_running, cleanup_orphans, spawn_sweep, spawn_memory_pressure,
  spawn_router, spawn_metrics, spawn_admin, DaemonEnv, Boot, B, attempt, new_boot, perform, spawn,
  bring_up, rolled_back, start_apps, spawn_router_task, metrics_at, spawn_metrics_task,
  spawn_admin_task, spawn_all, build,
}

abbrev pub is_eager_start : Step → Bool
is_eager_start deploy_always_on = true
is_eager_start _ = false

abbrev pub is_teardown : Step → Bool
is_teardown teardown = true
is_teardown _ = false

abbrev pub failed : Result (Unit {0}) Str → Bool
failed (ok _) = false
failed (err _) = true

-- A part that neither starts apps nor tears down.
abbrev IsQuiet : {A : Type 0} → B A → Type 0
IsQuiet m =
    (s : Boot)
    → (any is_eager_start (m s).1.steps ≡ any is_eager_start s.steps)
      × (any is_teardown (m s).1.steps ≡ any is_teardown s.steps)

next_on-IsQuiet :
    {A C : Type 0} (k : B C) (p : Result A Str × Boot)
    → IsQuiet k
    → (any is_eager_start (bind_on (λ _. k) p).1.steps ≡ any is_eager_start p.1.steps)
      × (any is_teardown (bind_on (λ _. k) p).1.steps ≡ any is_teardown p.1.steps)
next_on-IsQuiet k (ok a, s) h = h s
next_on-IsQuiet k (err why, s) h = (refl, refl)

seq-IsQuiet : {A C : Type 0} (m : B A) (k : B C) → IsQuiet m → IsQuiet k → IsQuiet (m >> k)
seq-IsQuiet m k quiet rest s =
    let (a, b) = next_on-IsQuiet k (m s) rest in (a ∙ (quiet s).0, b ∙ (quiet s).1)

lift-IsQuiet : {A C : Type 0} (r : Result A Str) (k : B C) → IsQuiet k → IsQuiet (lift r >> k)
lift-IsQuiet r k rest = seq-IsQuiet (lift r) k (λ s. (refl, refl)) rest

module _ (env : DaemonEnv) where
  attempt-IsQuiet :
      {C : Type 0} (step : Step) (k : B C)
      → is_eager_start step ≡ false
      → is_teardown step ≡ false
      → IsQuiet k
      → IsQuiet (attempt env step >> k)
        × IsQuiet (perform env step >> k)
        × IsQuiet (spawn env step >> k)
  attempt-IsQuiet step k e t rest = (
    seq-IsQuiet (attempt env step) k (λ s. (rw e refl, rw t refl)) rest,
    seq-IsQuiet (perform env step) k (λ s. (rw e refl, rw t refl)) rest,
    seq-IsQuiet (spawn env step) k (λ s. (rw e refl, rw t refl)) rest,
  )

  bring_up-IsQuiet : IsQuiet (bring_up env)
  unfolding bring_up
  bring_up-IsQuiet =
      let f = perform env cleanup_orphans in
      let e = perform env reattach_running >> f in
      let d = attempt env init_controller >> e in
      let c = perform env gc_images >> d in
      let b = attempt env init_runtime >> c in
      let a = attempt env init_egress >> b in
      (attempt-IsQuiet load_auth a refl refl
        (attempt-IsQuiet init_egress b refl refl
          (attempt-IsQuiet init_runtime c refl refl
            (attempt-IsQuiet gc_images d refl refl
              (attempt-IsQuiet init_controller e refl refl
                (attempt-IsQuiet reattach_running f refl refl (λ s. (refl, refl))).1).0).1).0).0).0

  metrics_at-IsQuiet : (listen : Option Str) → IsQuiet (metrics_at env listen)
  metrics_at-IsQuiet none = λ s. (refl, refl)
  metrics_at-IsQuiet (some raw) =
      lift-IsQuiet (env.parse_socket_addr raw) (spawn env spawn_metrics) (λ s. (refl, refl))

  spawn_all-IsQuiet : IsQuiet (spawn_all env)
  unfolding spawn_all spawn_router_task spawn_metrics_task spawn_admin_task
  spawn_all-IsQuiet =
      let secret = lift (read_deploy_secret env.environment) >> spawn env spawn_admin in
      let admin = lift (read_admin_token env.environment) >> secret in
      let metrics = metrics_at env (env.environment.var (codes "BUGPOT_METRICS_LISTEN")) in
      let proxies =
        lift (parse_router_config env.environment.var env.parse_net) >> spawn env spawn_router in
      let rest = proxies >> (metrics >> admin) in
      (attempt-IsQuiet spawn_sweep (spawn env spawn_memory_pressure >> rest) refl refl
        (attempt-IsQuiet spawn_memory_pressure rest refl refl (
          seq-IsQuiet proxies (metrics >> admin)
            (lift-IsQuiet (parse_router_config env.environment.var env.parse_net)
              (spawn env spawn_router) (λ s. (refl, refl)))
            (seq-IsQuiet metrics admin
              (metrics_at-IsQuiet (env.environment.var (codes "BUGPOT_METRICS_LISTEN")))
              (lift-IsQuiet (read_admin_token env.environment) secret (
                lift-IsQuiet (read_deploy_secret env.environment) (spawn env spawn_admin)
                  (λ s. (refl, refl))))))).2).2

  after_eager_start :
      (r : Result (Unit {0}) Str) (s : Boot)
      → any is_teardown s.steps ≡ false
      → let steps =
          (bind_on
            (λ _. spawn_all env)
            (rolled_back env (r, record s { steps = deploy_always_on ∷ s.steps }))).1.steps in
        any is_teardown steps ≡ (any is_eager_start steps && failed r)
  after_eager_start (err why) s h = refl
  after_eager_start (ok _) s h =
      let (a, b) = spawn_all-IsQuiet (record s { steps = deploy_always_on ∷ s.steps }) in
      ground (arith, a, b, h)

  after_bring_up :
      (p : Result (Unit {0}) Str × Boot)
      → any is_eager_start p.1.steps ≡ false
      → any is_teardown p.1.steps ≡ false
      → let steps = (bind_on (λ _. start_apps env >> spawn_all env) p).1.steps in
        any is_teardown steps ≡ (any is_eager_start steps && failed (env.answer deploy_always_on))
  unfolding start_apps
  after_bring_up (err why, s) a b = ground (arith, a, b)
  after_bring_up (ok _, s) a b = after_eager_start (env.answer deploy_always_on) s b

  -- During the bring-up the controller is torn down exactly when the eager start was reached and has
  -- failed. A failure after it, such as a bad setting of the router or of the metrics, or a missing
  -- token, ends the bring-up without a teardown.
  pub build-teardown :
      let steps = (build env new_boot).1.steps in
      any is_teardown steps ≡ (any is_eager_start steps && failed (env.answer deploy_always_on))
  unfolding build
  build-teardown =
      let (a, b) = bring_up-IsQuiet new_boot in after_bring_up (bring_up env new_boot) a b

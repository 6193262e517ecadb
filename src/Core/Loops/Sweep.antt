-- ===== src/Core/Loops/Sweep.antt =====
-- `sweep_one`: what the background sweep does with one app. Whether the container is alive and what
-- it uses are the runtime's answers. The clock, like every duration, is in nanoseconds.
use bugpot.Base.{ℕ, Bool, Option, none, some, List, Result, ok, err, leb, if◌then◌else◌, ◌-◌}
use bugpot.Base.Text.{Str}
use bugpot.Config.Spec.{resolve_idle_timeout}
use bugpot.Core.Handle.{is_running}
use bugpot.Core.Host.{
  Env, M, Event, Failure, ◌>>=◌, ◌>>◌, pure, attempt, locked, read_spec, current_id,
}
use bugpot.Core.Lifecycle.{stop, freeze}
use bugpot.Core.Loops.Cpu.{emit_resource_metrics}

module _ (is_container_running : List Event → Str → Bool)
    (resource_usage : List Event → Str → Option ℕ) (env : Env) (name : Str) where
  -- Idle for that long: frozen; what comes of it is only logged.
  unfoldable pub freeze_if_idle : ℕ → M (Unit {0}) Failure
  unfolding freeze
  freeze_if_idle timeout = do
    last_access ← locked env (λ inner. (inner.last_access, inner))
    λ w.
        if leb timeout (env.now w.step - last_access)
        then (attempt (freeze env name) >> pure tt) w
        else pure tt w

  abbrev sample : Option ℕ → M (Unit {0}) Failure
  sample none = pure tt
  sample (some cpu_usec) = do locked env (emit_resource_metrics cpu_usec); pure tt

  abbrev idle_check : Result (Option ℕ) Str → M (Unit {0}) Failure
  idle_check (ok (some timeout)) = freeze_if_idle timeout
  idle_check (ok none) = pure tt
  idle_check (err e) = pure tt

  unfoldable pub sample_and_freeze : Str → M (Unit {0}) Failure
  unfolding freeze_if_idle emit_resource_metrics
  sample_and_freeze cid = do
    λ w. sample (resource_usage w.events cid) w
    spec ← read_spec env
    idle_check (resolve_idle_timeout env.parse_duration spec.scaling)

  abbrev sweep_running : Str → M (Unit {0}) Failure
  sweep_running cid w =
      (if is_container_running w.events cid then sample_and_freeze cid else stop env name) w

  unfoldable pub sweep_one : M (Unit {0}) Failure
  unfolding stop sample_and_freeze is_running
  sweep_one = do
    up ← locked env (λ inner. (is_running inner.state, inner))
    if up then (current_id env name >>= sweep_running) else pure tt

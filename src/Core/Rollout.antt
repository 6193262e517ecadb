-- ===== src/Core/Rollout.antt =====
-- crates/bugpot-core/src/ops/rollout.rs: a new image tag, brought up next to the old one on the
-- other slot, and the switch between the two.
pub mod History
pub mod Drain
pub mod Frame
pub mod BlueGreen
pub mod Entry
pub mod Errors
use bugpot.Base.{
  ℕ, zero, suc, Bool, true, false, Option, none, some, List, [], ◌∷◌, ◌++◌, Result, ok, err, leb,
  ◌==◌, ◌-◌, if◌then◌else◌, length, is_ok, ◌||◌,
}
use bugpot.Base.Text.{Str, trim, is_empty}
use bugpot.Config.Spec.{Rollout}
use bugpot.Core.Handle.{
  Slot, HandleInner, AppState, stopped, running, frozen, rolling_over, container_id, other, is_busy,
  is_frozen, max_rollout_history,
}
use bugpot.Core.Host.{
  Env, M, Failure, RuntimeError, is_registry_auth_error, ◌>>=◌, ◌>>◌, pure, lift, throw, map_error,
  attempt, log, locked, read_spec, load_upgrades, current_id, unfroze, unfreeze_failed,
  persisted_rollouts,
}
use bugpot.Core.Lifecycle.{
  reference, resolve_image_ref, bring_up, pull_image, ensure_running, teardown_containers,
}

-- crates/bugpot-core/src/error.rs. The errors keep their cause, without the added context text.
pub data RolloutError : Type 0 where
  empty_tag : RolloutError
  image_auth image_pull : RuntimeError → RolloutError
  conflict : (name : Str) → RolloutError
  start_failed : Failure → RolloutError

unfoldable pub classify_pull_error_for_rollout : RuntimeError → RolloutError
unfolding is_registry_auth_error
classify_pull_error_for_rollout e = if is_registry_auth_error e then image_auth e else image_pull e

pub data RolloverEntry : Type 0 where
  cold_start : RolloverEntry
  blue_green : (from_ip : ℕ) → RolloverEntry

-- `DRAIN_TIMEOUT` and `DRAIN_POLL`, in nanoseconds.
abbrev pub drain_timeout : ℕ
drain_timeout = 60000000000

abbrev pub drain_poll : ℕ
drain_poll = 100000000

-- The `while` of `record_rollout`.
unfoldable pub pop_oldest : List Rollout → List Rollout
pop_oldest [] = []
pop_oldest (r ∷ rs) =
    let rest = pop_oldest rs in if leb max_rollout_history (length (r ∷ rs)) then rest else r ∷ rs

unfoldable pub record_rollout : Rollout → Str → Str → HandleInner → HandleInner
unfolding pop_oldest
record_rollout rollout repo digest inner = record inner {
  rollouts = pop_oldest inner.rollouts ++ rollout ∷ [];
  image_digest = some (record { repo = repo; digest = digest });
}

-- The thaw of a `Frozen` app, under its own lock.
abbrev pub thawed : AppState → AppState
thawed (frozen ip) = running ip
thawed s = s

abbrev pub entry_of : Str → AppState → Result RolloverEntry RolloutError × AppState
entry_of name stopped = (ok cold_start, stopped)
entry_of name (running ip) = (ok (blue_green ip), rolling_over ip)
entry_of name s = (err (conflict name), s)

abbrev pub is_rolling_over : AppState → Bool
is_rolling_over (rolling_over _) = true
is_rolling_over _ = false

-- The compare-and-swap at the end of a build: on success and on failure.
unfoldable pub switch : ℕ → Slot → HandleInner → Bool × HandleInner
switch new_ip to_slot inner =
    if is_rolling_over inner.state
    then (true, record inner { state = running new_ip; current_slot = to_slot })
    else (false, inner)

unfoldable pub restore : ℕ → HandleInner → Bool × HandleInner
restore from_ip inner =
    if is_rolling_over inner.state
    then (true, record inner { state = running from_ip })
    else (false, inner)

module _ (env : Env) (name : Str) where
  unfoldable pub thaw : M (Unit {0}) RolloutError
  thaw = do
    cid ← current_id env name
    λ w.
        let r = env.unfreeze_app w.events cid in
        map_error (λ e. start_failed (unfreeze_failed e)) (λ w. (r, w))
          (log (unfroze cid (is_ok r)) w)
    locked env (λ inner. (tt, record inner { state = thawed inner.state }))

  abbrev pub claim_entry : M RolloverEntry RolloutError
  claim_entry = do
    entry ← locked env (λ inner.
        let (entry, state) = entry_of name inner.state in (entry, record inner { state = state }))
    lift entry

  unfoldable pub enter_rolling_over : M RolloverEntry RolloutError
  unfolding thaw
  enter_rolling_over = do
    needs_thaw ← locked env (λ inner. (is_frozen inner.state, inner))
    if needs_thaw then thaw else pure tt
    claim_entry

  -- `ok false`: the rounds are spent.
  unfoldable pub drain_from : {E : Type 0} → ℕ → ℕ → M Bool E
  drain_from start zero = pure false
  drain_from start (suc rounds) =
      let again = drain_from start rounds in
      do
        active ← load_upgrades env
        λ w.
            if active == 0 || leb drain_timeout (env.now w.step - start)
            then pure true w
            else again w

  unfoldable pub drain_active_upgrades : {E : Type 0} → ℕ → M Bool E
  unfolding drain_from
  drain_active_upgrades rounds w = drain_from (env.now w.step) rounds w

  unfoldable pub build_to_slot : Str → M ℕ Failure
  unfolding bring_up
  build_to_slot to_id = do
    spec ← read_spec env
    plain_image_ref ← resolve_image_ref env name spec
    bring_up env name to_id spec plain_image_ref

  unfoldable pub switched_over : ℕ → Slot → M (Unit {0}) RolloutError
  unfolding drain_active_upgrades
  switched_over rounds from_slot = do
    drain_active_upgrades rounds
    λ w. (ok tt, teardown_containers env (container_id name from_slot ∷ []) w)

  -- What follows the build, by its result.
  unfoldable pub conclude : ℕ → ℕ → Slot → Result ℕ Failure → M (Unit {0}) RolloutError
  unfolding switched_over
  conclude rounds from_ip from_slot (ok new_ip) = do
    switched ← locked env (switch new_ip (other from_slot))
    if switched then switched_over rounds from_slot else λ w.
        (err (conflict name), teardown_containers env (container_id name (other from_slot) ∷ []) w)
  conclude rounds from_ip from_slot (err e) = do
    locked env (restore from_ip)
    λ w.
        (err (start_failed e), teardown_containers env (container_id name (other from_slot) ∷ []) w)

  unfoldable pub do_blue_green : ℕ → ℕ → M (Unit {0}) RolloutError
  unfolding build_to_slot conclude
  do_blue_green rounds from_ip = do
    from_slot ← locked env (λ inner. (inner.current_slot, inner))
    build_result ← attempt (build_to_slot (container_id name (other from_slot)))
    conclude rounds from_ip from_slot build_result

  -- `none`: the cold start is still waiting for another task after that many rounds.
  abbrev pub apply_entry : ℕ → ℕ → RolloverEntry → M (Option (Unit {0})) RolloutError
  apply_entry drains rounds cold_start = do
    ip ← map_error start_failed (ensure_running env name rounds)
    pure (elim ip [ none ↦ none | some _ ↦ some tt ])
  apply_entry drains rounds (blue_green from_ip) = do do_blue_green drains from_ip; pure (some tt)

  unfoldable pub apply_change : ℕ → ℕ → M (Option (Unit {0})) RolloutError
  unfolding enter_rolling_over do_blue_green
  apply_change drains rounds = do entry ← enter_rolling_over; apply_entry drains rounds entry

  unfoldable pub pull_for_rollout : Str → Str → M Str RolloutError
  unfolding classify_pull_error_for_rollout
  pull_for_rollout repo tag =
      map_error classify_pull_error_for_rollout (pull_image env name (reference repo tag) repo)

  unfoldable pub record_and_apply : ℕ → ℕ → Str → Str → Str → M (Option Rollout) RolloutError
  unfolding record_rollout apply_change
  record_and_apply drains rounds tag repo digest w =
      let rollout : Rollout = record { tag = tag; created_at = env.now w.step } in
      (do
        locked env (λ inner. (tt, record_rollout rollout repo digest inner))
        λ w. (ok tt, log persisted_rollouts w)
        done ← apply_change drains rounds
        pure (elim done [ none ↦ none | some _ ↦ some rollout ]))
        w

  abbrev pub pull_and_record : ℕ → ℕ → Str → M (Option Rollout) RolloutError
  pull_and_record drains rounds tag = do
    spec ← read_spec env
    resolved_digest ← pull_for_rollout spec.repo tag
    record_and_apply drains rounds tag spec.repo resolved_digest

  unfoldable pub set_rollout : ℕ → ℕ → Str → M (Option Rollout) RolloutError
  unfolding pull_for_rollout record_and_apply
  set_rollout drains rounds tag = if is_empty (trim tag) then throw empty_tag else do
    busy ← locked env (λ inner. (is_busy inner.state, inner))
    if busy then throw (conflict name) else pull_and_record drains rounds tag

  unfoldable pub list_rollouts : {E : Type 0} → M (List Rollout) E
  list_rollouts = locked env (λ inner. (inner.rollouts, inner))

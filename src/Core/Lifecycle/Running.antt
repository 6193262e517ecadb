-- ===== src/Core/Lifecycle/Running.antt =====
-- `ensure_running`: what it commits, and when it answers.
use bugpot.Base.{
  ℕ, zero, suc, ◌≡◌, ◌≢◌, refl, ◌⊎◌, inl, inr, Option, none, some, Result, ok, err, arith, ap, sym,
  ◌↔◌, ◌∙◌,
}
use bugpot.Base.Text.{Str}
use bugpot.Core.Handle.{
  claim_of, AppState, stopped, starting, running, frozen, rolling_over, stopping, container_id,
  claim_start_slot, finish_start, HandleInner,
}
use mathlib.Core.Path.{subst}
use bugpot.Core.Host.{
  bind_on, Env, World, M, Failure, locked, read_spec, current_id, attempt, pure, ◌>>=◌,
}
use bugpot.Core.Host.Rules.{bind_cases}
use bugpot.Core.Lifecycle.{
  commit_start, turn, do_start, resolve_image_ref, bring_up, run_claimed, ensure_running,
  start_or_resume, AppSpec,
}
use bugpot.Core.Lifecycle.Cleanup.{Outcome, bring_up-Outcome}

-- The state that an operation's next critical section sees.
abbrev pub seen : Env → World → HandleInner
seen env w = (env.others w.step w.handle).inner

resolve_image_ref-events :
    (env : Env) (name : Str) (spec : _) (w : World)
    → (resolve_image_ref env name spec w).1.events ≡ w.events
unfolding resolve_image_ref locked
resolve_image_ref-events env name spec w = ground arith

-- A cold start, or the build of a slot, from the image reference on.
pub resolved-Outcome :
    (env : Env) (name cid : Str) (spec : AppSpec) (w : World)
    → Outcome cid w.events ((resolve_image_ref env name spec >>= bring_up env name cid spec) w)
resolved-Outcome env name cid spec w =
    bind_cases (resolve_image_ref env name spec) w (Outcome cid w.events)
      (bring_up env name cid spec)
      (λ image_ref w' e.
        let es = ap (λ p. p.1.events) (sym e) ∙ resolve_image_ref-events env name spec w in
        subst (λ es. Outcome cid es (bring_up env name cid spec image_ref w')) es
          (bring_up-Outcome env name cid spec image_ref w'))
      (λ f w' e.
        let es : w'.events ≡ w.events =
          ap (λ p. p.1.events) (sym e) ∙ resolve_image_ref-events env name spec w in
        rw es (record { endpoints = λ c h. h; containers = λ c h. h }))

-- About the calls of one cold start, for all answers of the environment and all changes of the handle
-- by other tasks, whose own calls are not counted. When it fails, for want of a rollout or in any of
-- its phases, it leaves no endpoint and no container owed that was not owed before: what it was
-- allocated, or started, it has called to release or stop, which may itself fail. When it succeeds, it has allocated the
-- endpoint and started the container of the slot that was current at its start, has not taken either
-- back, and its last call was a probe of the returned address that passed. A start that failed counts
-- as having started nothing.
pub do_start-Outcome :
    (env : Env) (name : Str) (w : World)
    → Outcome (container_id name (seen env w).current_slot) w.events (do_start env name w)
unfolding do_start current_id read_spec locked
do_start-Outcome env name w =
    let cid = container_id name (seen env w).current_slot in
    let w' = (current_id env {E = Failure} name w).1 in
    let w'' = (read_spec env {E = Failure} w').1 in
    resolved-Outcome env name cid (env.others w'.step w'.handle).spec w''

-- Not being started or stopped by another task.
abbrev pub IsSettled : AppState → Type 0
IsSettled (starting _) = ⊥
IsSettled stopping = ⊥
IsSettled _ = Unit {0}

module _ (env : Env) (name : Str) where
  -- What the handle's state says after a call that answered.
  abbrev pub Committed : Result (Option ℕ) Failure × World → Type 0
  Committed (ok none, w) = Unit
  Committed (ok (some ip), w) =
      (w.handle.inner.state ≡ running ip) ⊎ (w.handle.inner.state ≡ rolling_over ip)
  Committed (err e, w) = w.handle.inner.state ≡ stopped

  commit_start-Committed :
      (r : Result ℕ Failure) (w : World)
      → Committed ((do ip ← commit_start env name r; pure (some ip)) w)
  unfolding commit_start locked finish_start
  commit_start-Committed (ok ip) w = inl refl
  commit_start-Committed (err e) w = refl

  run_claimed-Committed :
      (resume_from : Option ℕ) (w : World)
      → Committed ((do ip ← run_claimed env name resume_from; pure (some ip)) w)
  unfolding run_claimed
  run_claimed-Committed resume_from w =
      bind_cases (attempt (start_or_resume env name resume_from)) w
        (λ p. Committed (bind_on (λ ip. pure (some ip)) p)) (commit_start env name)
        (λ r w' _. commit_start-Committed r w') (λ e w' h. cc)

  turn-Committed :
      (n : ℕ) (s : AppState) (again : M (Option ℕ) Failure) (w : World)
      → ((w : World) → Committed (again w))
      → w.handle.inner.state ≡ (claim_of n s).1
      → Committed (turn env name again (claim_of n s).0 w)
  turn-Committed n stopped again w ih e = run_claimed-Committed none w
  turn-Committed n (frozen ip) again w ih e = run_claimed-Committed (some ip) w
  turn-Committed n (starting m) again w ih e = ih w
  turn-Committed n stopping again w ih e = ih w
  turn-Committed n (running ip) again w ih e = inl e
  turn-Committed n (rolling_over ip) again w ih e = inr e

  -- Whatever the other tasks do: an answer with an address leaves the app running at it, or
  -- serving from it during a rollover, at that moment; an error leaves the app stopped.
  pub ensure_running-Committed :
      (rounds : ℕ) (w : World) → Committed (ensure_running env name rounds w)
  unfolding ensure_running locked claim_start_slot
  ensure_running-Committed zero w = tt
  ensure_running-Committed (suc rounds) w =
      turn-Committed (env.fresh w.step) (seen env w).state (ensure_running env name rounds) _
        (ensure_running-Committed rounds) refl

  some_answer : (m : M ℕ Failure) (w : World) → ((do ip ← m; pure (some ip)) w).0 ≢ ok none
  some_answer m w =
      bind_cases m w (λ p. p.0 ≢ ok none) (λ ip. pure (some ip)) (λ ip w' _. cc) (λ e w' _. cc)

  -- The world after the critical section of one turn.
  abbrev pub next_turn : World → World
  next_turn w =
      (locked env {E = Failure} (claim_start_slot (env.now w.step) (env.fresh w.step)) w).1

  -- Every one of that many turns finds the app being started or stopped by another task.
  abbrev pub Waiting : ℕ → World → Type 0
  Waiting zero w = Unit
  Waiting (suc rounds) w = ¬ (IsSettled (seen env w).state) × Waiting rounds (next_turn w)

  turn_waits_iff :
      (n : ℕ) (s : AppState) (again : M (Option ℕ) Failure) (w : World)
      → ((turn env name again (claim_of n s).0 w).0 ≡ ok none)
        ↔ (¬ (IsSettled s) × ((again w).0 ≡ ok none))
  turn_waits_iff n stopped again w =
      (λ h. absurd (some_answer (run_claimed env name none) w h), λ h. absurd (h.0 tt))
  turn_waits_iff n (frozen ip) again w =
      (λ h. absurd (some_answer (run_claimed env name (some ip)) w h), λ h. absurd (h.0 tt))
  turn_waits_iff n (running ip) again w = (λ h. cc, λ h. absurd (h.0 tt))
  turn_waits_iff n (rolling_over ip) again w = (λ h. cc, λ h. absurd (h.0 tt))
  turn_waits_iff n (starting m) again w = (λ h. (λ x. x, h), λ h. h.1)
  turn_waits_iff n stopping again w = (λ h. (λ x. x, h), λ h. h.1)

  -- The call is still waiting after that many turns exactly when each of them found the app being
  -- started or stopped by another task: it answers in the first turn that finds it settled.
  pub ensure_running-Waiting :
      (rounds : ℕ) (w : World) → ((ensure_running env name rounds w).0 ≡ ok none) ↔ Waiting rounds w
  unfolding ensure_running locked claim_start_slot
  ensure_running-Waiting zero w = (λ _. tt, λ _. refl)
  ensure_running-Waiting (suc rounds) w =
      let here =
        turn_waits_iff (env.fresh w.step) (seen env w).state (ensure_running env name rounds)
          (next_turn w) in
      let rest = ensure_running-Waiting rounds (next_turn w) in
      (λ h. ((here.0 h).0, rest.0 (here.0 h).1), λ h. here.1 (h.0, rest.1 h.1))

-- ===== src/Core/Rollout/Entry.antt =====
-- `enter_rolling_over`: the gate between a rollout and the containers.
use mathlib.Core.Path.{subst}
use bugpot.Base.{
  true, false, ◌∷◌, Result, ok, err, ◌≡◌, refl, ap, ap₂, is_ok, if-cases, if◌then◌else◌,
  Result-cases, inl, inr, ◌⊎◌, sym,
}
use bugpot.Base.Text.{Str}
use bugpot.Core.Handle.{
  AppState, stopped, starting, running, frozen, rolling_over, stopping, container_id, is_frozen,
  is_busy,
}
use bugpot.Core.Host.{
  Env, World, M, locked, current_id, unfroze, unfreeze_failed, RuntimeError, pure,
}
use bugpot.Core.Host.Rules.{bind_cases}
use bugpot.Core.Lifecycle.Running.{seen}
use bugpot.Core.Rollout.{
  RolloutError, empty_tag, image_auth, image_pull, conflict, start_failed, RolloverEntry,
  cold_start, blue_green, entry_of, thaw, enter_rolling_over, claim_entry,
}

module _ (env : Env) (name : Str) where
  -- What the state is at the end, by the answer; only a failed thaw is another error than a conflict.
  abbrev pub Entered : World → Result RolloverEntry RolloutError × World → Type 0
  Entered w (ok cold_start, w') = w'.handle.inner.state ≡ stopped
  Entered w (ok (blue_green ip), w') = w'.handle.inner.state ≡ rolling_over ip
  Entered w (err (conflict n), w') =
      (n ≡ name)
      × ((is_busy w'.handle.inner.state ≡ true) ⊎ (is_frozen w'.handle.inner.state ≡ true))
  Entered w (err (start_failed f), w') =
      (why : RuntimeError) × (f ≡ unfreeze_failed why)
      × ((cid : Str) × (w'.events ≡ unfroze cid false ∷ w.events))
  Entered w (err empty_tag, w') = ⊥
  Entered w (err (image_auth e), w') = ⊥
  Entered w (err (image_pull e), w') = ⊥

  by_state :
      (w v : World) (s : AppState)
      → v.handle.inner.state ≡ (entry_of name s).1
      → Entered w ((entry_of name s).0, v)
  unfolding is_busy is_frozen
  by_state w v stopped e = e
  by_state w v (running ip) e = e
  by_state w v (starting n) e = (refl, inl (ap is_busy e))
  by_state w v (frozen ip) e = (refl, inr (ap is_frozen e))
  by_state w v (rolling_over ip) e = (refl, inl (ap is_busy e))
  by_state w v stopping e = (refl, inl (ap is_busy e))

  claim_entry-Entered : (w v : World) → Entered w (claim_entry env name v)
  unfolding locked
  claim_entry-Entered w v = by_state w (claim_entry env name v).1 (seen env v).state refl

  abbrev ThawFailed : World → Result (Unit {0}) RolloutError × World → Type 0
  ThawFailed w (ok _, w') = Unit
  ThawFailed w (err e, w') =
      (why : RuntimeError) × (e ≡ start_failed (unfreeze_failed why))
      × ((cid : Str) × (w'.events ≡ unfroze cid false ∷ w.events))

  thaw-ThawFailed : (w v : World) → v.events ≡ w.events → ThawFailed w (thaw env name v)
  unfolding thaw current_id locked
  thaw-ThawFailed w v same =
      let cid = container_id name (seen env v).current_slot in
      elim (Result-cases (env.unfreeze_app v.events cid)) [
        | inl (u, e) ↦ rw e tt
        | inr (why, e) ↦ rw e (why, refl, (cid, ap₂ (λ b es. unfroze cid b ∷ es) (ap is_ok e) same))
      ]

  failed-Entered : (w v : World) (e : RolloutError) → ThawFailed w (err e, v) → Entered w (err e, v)
  failed-Entered w v e (why, is, called) =
      subst (λ e. Entered w (err e, v)) (sym is) (why, refl, called)

  -- Whatever the other tasks do: on a cold start the app is then stopped, on a blue-green entry it
  -- is rolling over from the address that is answered, on a conflict it is being started, stopped
  -- or rolled over, or is frozen; any other error is the runtime's failure to thaw.
  pub enter_rolling_over-Entered : (w : World) → Entered w (enter_rolling_over env name w)
  unfolding enter_rolling_over locked
  enter_rolling_over-Entered w =
      let w' = (locked env {E = RolloutError} (λ inner. (is_frozen inner.state, inner)) w).1 in
      let first : M (Unit {0}) RolloutError =
        if is_frozen (seen env w).state then thaw env name else pure tt in
      let safe : ThawFailed w (first w') =
        if-cases {A = M (Unit {0}) RolloutError} (λ m. ThawFailed w (m w'))
          (is_frozen (seen env w).state) (λ _. thaw-ThawFailed w w' refl) (λ _. tt) in
      bind_cases first w' (Entered w) (λ _. claim_entry env name) (λ u v e. claim_entry-Entered w v)
        (λ x v e. failed-Entered w v x (subst (ThawFailed w) e safe))

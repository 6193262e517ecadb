-- ===== src/Core/Rollout/Drain.antt =====
-- The wait for the old slot's upgraded connections.
use bugpot.Base.{
  is_ok, if◌then◌else◌, ◌-◌, ◌==◌, ◌||◌, ◌∙◌, ap, leb, Bool-cases, inl, inr, ℕ, zero, suc, true, ok,
  ◌≡◌, refl, ◌+◌, ◌*◌, ◌≤◌, ◌<◌, arith, ◌⊎◌, Bool, Result,
}
use bugpot.Base.Text.{Str}
use bugpot.Core.Host.{Env, World, load_upgrades}
use bugpot.Core.Rollout.{drain_from, drain_active_upgrades, drain_timeout, drain_poll}

module _ (E : Type 0) (env : Env) (name : Str) where
  -- A poll ends the drain, or leaves it to the remaining ones.
  drain_from-step :
      (start rounds : ℕ) (w : World)
      → let w' = (load_upgrades env {E = E} w).1 in
        (drain_from env name {E = E} start (suc rounds) w ≡ (ok true, w'))
        ⊎ ((env.now w'.step - start < drain_timeout)
            × (drain_from env name {E = E} start (suc rounds) w
                ≡ drain_from env name start rounds w'))
  unfolding drain_from load_upgrades
  drain_from-step start rounds w =
      let w' = (load_upgrades env {E = E} w).1 in
      let active = (env.others w.step w.handle).active_upgrades in
      let late = leb drain_timeout (env.now w'.step - start) in
      let ended : Bool → Result Bool E × World =
        λ b. if b then (ok true, w') else drain_from env name start rounds w' in
      elim (Bool-cases ((active == 0) || late)) [
        | inl e ↦ inl (ap ended e)
        | inr e ↦ inr (ground arith, ap ended e)
      ]

  pub drain_from-events :
      (start rounds : ℕ) (w : World)
      → (drain_from env name {E = E} start rounds w).1.events ≡ w.events
  unfolding drain_from load_upgrades
  drain_from-events start zero w = refl
  drain_from-events start (suc rounds) w =
      let w' = (load_upgrades env {E = E} w).1 in
      elim (drain_from-step start rounds w) [
        | inl e ↦ ap (λ p. p.1.events) e
        | inr (_, e) ↦ ap (λ p. p.1.events) e ∙ drain_from-events start rounds w'
      ]

  pub drain_from-is_ok :
      (start rounds : ℕ) (w : World) → is_ok (drain_from env name {E = E} start rounds w).0 ≡ true
  unfolding drain_from
  drain_from-is_ok start zero w = refl
  drain_from-is_ok start (suc rounds) w =
      let w' = (load_upgrades env {E = E} w).1 in
      elim (drain_from-step start rounds w) [
        | inl e ↦ ap (λ p. is_ok p.0) e
        | inr (_, e) ↦ ap (λ p. is_ok p.0) e ∙ drain_from-is_ok start rounds w'
      ]

  -- Before a poll with the poll interval still to pass between the later ones: `due` is the earliest
  -- that its clock can show.
  drain_from-ends :
      (start rounds due : ℕ) (w : World)
      → due ≤ env.now (suc w.step)
      → ((n : ℕ) → w.step < n → env.now n + drain_poll ≤ env.now (suc n))
      → 0 < rounds
      → start + drain_timeout ≤ due + drain_poll * (rounds - 1)
      → (drain_from env name {E = E} start rounds w).0 ≡ ok true
  unfolding drain_from load_upgrades
  drain_from-ends start zero due w clock tick some_round late = absurd (omega (arith, some_round))
  drain_from-ends start (suc zero) due w clock tick some_round late =
      elim (drain_from-step start zero w) [
        | inl e ↦ ap (λ p. p.0) e
        | inr (soon, e) ↦ absurd (omega (arith, soon, clock, late))
      ]
  drain_from-ends start (suc (suc rounds)) due w clock tick some_round late =
      let w' = (load_upgrades env {E = E} w).1 in
      elim (drain_from-step start (suc rounds) w) [
        | inl e ↦ ap (λ p. p.0) e
        | inr (soon, e) ↦
            ap (λ p. p.0) e
            ∙ drain_from-ends start (suc rounds) (due + drain_poll) w'
                (omega (arith, clock, tick (suc w.step) (omega arith)))
                (λ n after. tick n (omega (arith, after))) (omega arith) (omega (arith, late))
      ]

  -- The first look is made at once, and each later one after a sleep of the poll interval at least:
  -- 601 looks are then enough for the drain to end by itself, whatever the number of upgraded
  -- connections does meanwhile. This supposes a clock that does not run backwards.
  pub drain_active_upgrades-ends :
      (rounds : ℕ) (w : World)
      → env.now w.step ≤ env.now (suc w.step)
      → ((n : ℕ) → w.step < n → env.now n + drain_poll ≤ env.now (suc n))
      → 601 ≤ rounds
      → (drain_active_upgrades env name {E = E} rounds w).0 ≡ ok true
  unfolding drain_active_upgrades
  drain_active_upgrades-ends rounds w clock tick enough =
      drain_from-ends (env.now w.step) rounds (env.now w.step) w clock tick (omega (arith, enough))
        (omega (arith, enough))

-- ===== src/Core/Lifecycle/Freezing.antt =====
-- `freeze`: when it pauses the container, and what it then writes.
use bugpot.Base.{
  ◌∙◌, ap, ℕ, true, false, ◌∷◌, Result, ok, err, ◌≡◌, refl, ◌⊎◌, inl, inr, arith, ltb, if-cases,
  Result-cases, is_ok, ap₂,
}
use bugpot.Base.Text.{Str}
use bugpot.Core.Handle.{
  AppState, stopped, starting, running, frozen, rolling_over, stopping, container_id,
}
use bugpot.Core.Host.{M, Env, World, Failure, froze, locked, load_upgrades, current_id}
use bugpot.Core.Lifecycle.{freeze_seen, pause, freeze, freeze_at, freeze_commit, running_ip}
use bugpot.Core.Lifecycle.Running.{seen}

module _ (env : Env) (name : Str) where
  -- The world after the first critical section, and the connections that are then seen.
  abbrev pub looked : World → World
  looked w = (locked env {E = Failure} (λ inner. (running_ip env name inner.state, inner)) w).1

  abbrev pub upgrades_seen : World → ℕ
  upgrades_seen w = (env.others w.step w.handle).active_upgrades

  -- The container of the slot that is current when the call is made, after both looks.
  abbrev pub target : World → Str
  target w = container_id name (seen env (load_upgrades env {E = Failure} w).1).current_slot

  -- Nothing was called; or the container was paused, with no upgraded connection, and the state is
  -- `Frozen`; or the call failed.
  abbrev pub Paused : ℕ → World → Result (Unit {0}) Failure × World → Type 0
  Paused ip w (ok _, w') =
      (w'.events ≡ w.events)
      ⊎ ((upgrades_seen w ≡ 0)
          × (w'.handle.inner.state ≡ frozen ip)
          × (w'.events ≡ froze (target w) true ∷ w.events))
  Paused ip w (err e, w') = w'.events ≡ froze (target w) false ∷ w.events

  pause-Paused :
      (ip : ℕ) (v w : World)
      → upgrades_seen v ≡ 0
      → w ≡ (load_upgrades env {E = Failure} v).1
      → Paused ip v (pause env name ip w)
  unfolding pause current_id locked freeze_commit load_upgrades
  pause-Paused ip v w idle looked_at =
      let cid = container_id name (seen env w).current_slot in
      let same : w.events ≡ v.events = ap (λ u. u.events) looked_at in
      let at : cid ≡ target v = ap (λ u. container_id name (seen env u).current_slot) looked_at in
      elim (Result-cases (env.freeze_app w.events cid)) [
        | inl (u, e) ↦ rw e (
            inr (
              idle,
              refl,
              ap (λ b. froze cid b ∷ w.events) (ap is_ok e)
                  ∙ ap₂ (λ c es. froze c true ∷ es) at same,
            ))
        | inr (why, e) ↦ rw e (
            ap (λ b. froze cid b ∷ w.events) (ap is_ok e)
            ∙ ap₂ (λ c es. froze c false ∷ es) at same)
      ]

  freeze_at-Paused : (ip : ℕ) (w : World) → Paused ip w (freeze_at env name ip w)
  unfolding freeze_at load_upgrades
  freeze_at-Paused ip w =
      let w' = (load_upgrades env {E = Failure} w).1 in
      if-cases {A = M (Unit {0}) Failure} (λ m. Paused ip w (m w')) (ltb 0 (upgrades_seen w))
        (λ busy. inl refl) (λ idle. pause-Paused ip w w' (ground arith) refl)

  abbrev pub Froze : World → Result (Unit {0}) Failure × World → Type 0
  Froze w (ok _, w') =
      (w'.events ≡ w.events)
      ⊎ ((ip : ℕ) × ((seen env w).state ≡ running ip)
          × (upgrades_seen (looked w) ≡ 0)
          × (w'.handle.inner.state ≡ frozen ip)
          × (w'.events ≡ froze (target (looked w)) true ∷ w.events))
  Froze w (err e, w') = w'.events ≡ froze (target (looked w)) false ∷ w.events

  Paused-Froze :
      (ip : ℕ) (w : World) (p : Result (Unit {0}) Failure × World)
      → (seen env w).state ≡ running ip
      → Paused ip (looked w) p
      → Froze w p
  unfolding locked
  Paused-Froze ip w (ok _, w') run (inl same) = inl same
  Paused-Froze ip w (ok _, w') run (inr (idle, state, paused)) = inr (ip, run, idle, state, paused)
  Paused-Froze ip w (err e, w') run paused = paused

  seen-Froze :
      (s : AppState) (w : World)
      → (seen env w).state ≡ s
      → Froze w (freeze_seen env name (running_ip env name s) (looked w))
  unfolding locked
  seen-Froze (running ip) w e =
      Paused-Froze ip w (freeze_at env name ip (looked w)) e (freeze_at-Paused ip (looked w))
  seen-Froze stopped w e = inl refl
  seen-Froze (starting n) w e = inl refl
  seen-Froze (frozen ip) w e = inl refl
  seen-Froze (rolling_over ip) w e = inl refl
  seen-Froze stopping w e = inl refl

  -- Whatever the other tasks do to the handle, a freeze calls nothing, or the app was running when it
  -- began and had no upgraded connection when it looked, and its one call has paused the container
  -- of the slot that was current at the call; it has then written `Frozen` over whatever state there
  -- was by then. It fails only when that one call fails.
  pub freeze-Froze : (w : World) → Froze w (freeze env name w)
  unfolding freeze locked
  freeze-Froze w = seen-Froze (seen env w).state w refl

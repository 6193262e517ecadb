-- ===== src/Router/Splice/Watchdog.antt =====
-- When an idle connection is closed, and what each direction has delivered.
use native.Mathlib.Nat.{suc-mul}
use bugpot.Base.{
  if-cases, ℕ, zero, suc, Option, none, some, ◌+◌, ◌-◌, ◌*◌, ◌/◌, ◌≤◌, ◌<◌, ◌≡◌, arith, leb,
}
use bugpot.Router.Splice.{watchdog}

-- From time `since` on, nothing is read.
abbrev IsIdleSince : ℕ → (ℕ → ℕ) → Type 0
IsIdleSince since last = (t : ℕ) → since ≤ t → last t ≡ since

-- A sleep lasts as long as it is asked to, and `late` longer at most.
abbrev pub IsPunctual : ℕ → (ℕ → ℕ → ℕ) → Type 0
IsPunctual late sleep =
    (length now : ℕ) → (now + length ≤ sleep length now) × (sleep length now ≤ now + length + late)

-- The end of the watchdog, in time.
abbrev pub Fires : ℕ → ℕ → ℕ → Option ℕ → Type 0
Fires late idle since none = ⊥
Fires late idle since (some t) = (since + idle ≤ t) × (t < since + idle + idle / 2 + late)

-- With sleeps that are `late` too long at most, a connection on which nothing is read from some time
-- on is closed when it has been idle for the timeout, and before half of it and `late` more have
-- passed: with one turn for each half of the timeout that is left, and one more, the watchdog ends by
-- then, if its last sleep began before the connection had been idle for the timeout.
pub watchdog-Fires :
    (late : ℕ) (sleep : ℕ → ℕ → ℕ) (turns : ℕ) (last : ℕ → ℕ) (idle since now : ℕ)
    → IsPunctual late sleep
    → 2 ≤ idle
    → IsIdleSince since last
    → since ≤ now
    → now < since + idle
    → since + idle ≤ now + turns * (idle / 2)
    → Fires late idle since (watchdog sleep turns last idle now)
unfolding watchdog
watchdog-Fires late sleep zero last idle since now timer big quiet after before enough =
    absurd (omega (arith, before, enough))
watchdog-Fires late sleep (suc turns) last idle since now timer big quiet after before enough =
    let woken = sleep (idle / 2) now in
    let (slept, soon) = timer (idle / 2) now in
    let seen = quiet woken (omega (arith, after, slept)) in
    if-cases (Fires late idle since) (leb idle (woken - last woken))
      (λ due. ground (arith, due, seen, before, slept, soon))
      (λ early.
        watchdog-Fires late sleep turns last idle since woken timer big quiet
          (omega (arith, after, slept)) (ground (arith, early, seen, after, slept))
          (omega (arith, enough, slept, suc-mul turns (idle / 2))))

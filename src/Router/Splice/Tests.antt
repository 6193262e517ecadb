-- ===== src/Router/Splice/Tests.antt =====
-- Runs of a splice.
use bugpot.Base.Text.{codes}
use bugpot.Base.{
  ◌+◌, ℕ, ◌≡◌, refl, arith, [], ◌∷◌, none, some, ok, err, leb, if◌then◌else◌, true, false,
}
use bugpot.Router.Splice.{SinkOps, pump, watchdog, splice_with_idle, upgrade_idle_timeout}
use bugpot.Router.Splice.Watchdog.{watchdog-Fires, Fires}

-- Every sleep ends 7 ms too late.
abbrev late_sleep : ℕ → ℕ → ℕ
late_sleep length now = now + length + 7

-- Bytes at 70000, and none after.
abbrev read_at : ℕ → ℕ
read_at t = if leb 70000 t then 70000 else 0

watchdog-Fires_example :
    Fires 7 upgrade_idle_timeout 70000
      (watchdog late_sleep 3 (λ _. 70000) upgrade_idle_timeout 70000)
watchdog-Fires_example =
    watchdog-Fires 7 late_sleep 3 (λ _. 70000) upgrade_idle_timeout 70000 70000
      (λ length now. (omega arith, omega arith)) (omega (arith)) (λ _ _. refl) (omega (arith))
      (omega (arith)) (omega (arith))

-- The watchdog sleeps from the start, so that it wakes a little after the multiples of half the timeout.
fires_late : watchdog late_sleep 5 read_at upgrade_idle_timeout 0 ≡ some 450021
unfolding watchdog
fires_late = refl

abbrev working : SinkOps
working = record { write_all = λ _. ok tt; shutdown = ok tt }

abbrev broken : SinkOps
broken = record { write_all = λ _. err ([], (codes "reset")); shutdown = ok tt }

both_ways :
    splice_with_idle working working (ok (1 ∷ 2 ∷ []) ∷ ok [] ∷ []) (ok (3 ∷ []) ∷ ok [] ∷ []) none
    ≡ (
      some (ok tt),
      (record { written = 1 ∷ 2 ∷ []; closed = true }, record { written = 3 ∷ []; closed = true }),
    )
unfolding pump splice_with_idle
both_ways = refl

-- An error of one direction ends the splice, whatever the other one does.
one_fails : splice_with_idle broken working (ok (1 ∷ []) ∷ ok (2 ∷ []) ∷ []) [] none ≡ (
  some (err (codes "reset")),
  (record { written = []; closed = false }, record { written = []; closed = false }),
)
unfolding pump splice_with_idle
one_fails = refl

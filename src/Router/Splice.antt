-- ===== src/Router/Splice.antt =====
-- crates/bugpot-router/src/lib.rs: `splice_with_idle`. Each direction is a loop of its own, over what
-- its reads give; a read of no bytes is the end of the stream. The watchdog sees the time of the last
-- read of either direction, as a function of the time; times are milliseconds.
pub mod Tests
pub mod Watchdog
use bugpot.Base.{
  ℕ, zero, suc, Option, none, some, List, [], ◌∷◌, ◌++◌, ◌+◌, ◌-◌, ◌*◌, ◌/◌, leb, Result, ok, err,
  if◌then◌else◌, Bool, true, false,
}
use bugpot.Base.Text.{Str}

abbrev pub upgrade_idle_timeout : ℕ
upgrade_idle_timeout = 5 * 60 * 1000

-- What has been written, and whether the write half was shut down.
pub record Sink : Type 0 where
  pub written : List ℕ
  pub closed : Bool

-- What a write of some bytes adds, and whether it failed then; and the shutdown.
pub record SinkOps : Type 0 where
  pub write_all : List ℕ → Result (Unit {0}) (List ℕ × Str)
  pub shutdown : Result (Unit {0}) Str

module _ (ops : SinkOps) where
  abbrev pub write : List ℕ → Sink → Result (Unit {0}) Str × Sink
  write bytes sink = elim (ops.write_all bytes) [
    | ok _ ↦ (ok tt, record sink { written = sink.written ++ bytes })
    | err (part, why) ↦ (err why, record sink { written = sink.written ++ part })
  ]

  abbrev close : Sink → Option (Result (Unit {0}) Str) × Sink
  close sink = elim ops.shutdown [
    | ok _ ↦ (some (ok tt), record sink { closed = true })
    | err why ↦ (some (err why), sink)
  ]

  abbrev after_write :
      Result (Unit {0}) Str × Sink
      → (Sink → Option (Result (Unit {0}) Str) × Sink)
      → Option (Result (Unit {0}) Str) × Sink
  after_write (ok _, sink) rest = rest sink
  after_write (err why, sink) rest = (some (err why), sink)

  -- One direction; `none` waits for a further read.
  unfoldable pub pump : List (Result (List ℕ) Str) → Sink → Option (Result (Unit {0}) Str) × Sink
  pump [] sink = (none, sink)
  pump (err why ∷ reads) sink = (some (err why), sink)
  pump (ok [] ∷ reads) sink = close sink
  pump (ok (b ∷ bytes) ∷ reads) sink = after_write (write (b ∷ bytes) sink) (pump reads)

-- The watchdog, from the time at which it goes to sleep; `none` after that many turns. `sleep`
-- gives the time at which a sleep of some length from some time on has ended, which is the timer's.
-- `elapsed` stops at 0.
unfoldable pub watchdog : (ℕ → ℕ → ℕ) → ℕ → (ℕ → ℕ) → ℕ → ℕ → Option ℕ
watchdog sleep zero last idle now = none
watchdog sleep (suc turns) last idle now =
    let woken = sleep (idle / 2) now in
    let rest = watchdog sleep turns last idle woken in
    if leb idle (woken - last woken) then some woken else rest

-- The end of the splice: both directions, the first error of either, or the watchdog.
abbrev pub joined :
    Option (Result (Unit {0}) Str) → Option (Result (Unit {0}) Str) → Option (Result (Unit {0}) Str)
joined (some (err why)) _ = some (err why)
joined _ (some (err why)) = some (err why)
joined (some (ok _)) (some (ok _)) = some (ok tt)
joined _ _ = none

-- What `select!` gives: the two directions when they are done, the watchdog's end otherwise.
unfoldable pub splice_with_idle :
    SinkOps
    → SinkOps
    → List (Result (List ℕ) Str)
    → List (Result (List ℕ) Str)
    → Option ℕ
    → Option (Result (Unit {0}) Str) × (Sink × Sink)
unfolding pump
splice_with_idle server client from_client from_server fired =
    let new : Sink = record { written = []; closed = false } in
    let (up, to_server) = pump server from_client new in
    let (down, to_client) = pump client from_server new in
    (
      elim (joined up down) [
        | some r ↦ some r
        | none ↦ elim fired [ none ↦ none | some _ ↦ some (ok tt) ]
      ],
      (to_server, to_client),
    )

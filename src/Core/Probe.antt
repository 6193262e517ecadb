-- ===== src/Core/Probe.antt =====
-- crates/bugpot-core/src/probe.rs and mempressure.rs: the wait for a container to be ready, and the
-- reader of `/proc/meminfo`. The connection attempts are a parameter, by their number, and so is the
-- clock, in nanoseconds.
pub mod Tests
use mathlib.Core.Path.{subst}
use bugpot.Base.{
  ℕ, zero, suc, Bool, false, Option, none, some, List, [], ◌∷◌, Result, ok, err, ◌≡◌, ◌≢◌, refl,
  ◌+◌, ◌*◌, ◌≤◌, ◌<◌, ◌%◌, ◌^◌, ltb, leb, ◌==◌, arith, ◌&&◌, if◌then◌else◌, Bool-cases, inl, inr,
  sym, if-cases,
}
use bugpot.Base.Text.{Str, codes, strip_prefix, starts_with, split}
use bugpot.Base.Lines.{lines, first_word, parse_unsigned}

-- `READINESS_POLL`, in nanoseconds.
abbrev pub readiness_poll : ℕ
readiness_poll = 100000000

pub data ProbeError : Type 0 where
  timed_out : (last : Option Str) → ProbeError

-- The turn that is made after an attempt.
abbrev pub after :
    Result (Unit {0}) Str
    → (Str → Option (Result (Unit {0}) ProbeError))
    → Option (Result (Unit {0}) ProbeError)
after (ok _) again = some (ok tt)
after (err e) again = again e

module _ (now : ℕ → ℕ) (attempt : ℕ → Result (Unit {0}) Str) where
  -- The `while`, from turn `n` on; `none` when the rounds are spent.
  unfoldable pub probe_from : ℕ → ℕ → ℕ → Option Str → Option (Result (Unit {0}) ProbeError)
  probe_from zero deadline n last = none
  probe_from (suc rounds) deadline n last =
      let again = λ (e : Str). probe_from rounds deadline (suc n) (some e) in
      if ltb (now n) deadline then after (attempt n) again else some (err (timed_out last))

  -- From the instant `start` of the call.
  unfoldable pub wait_for_ready : ℕ → ℕ → ℕ → Option (Result (Unit {0}) ProbeError)
  unfolding probe_from
  wait_for_ready start rounds timeout = probe_from rounds (start + timeout) 0 none

  -- The attempts are at least a poll apart.
  module _ (sleeps : (n : ℕ) → now n + readiness_poll ≤ now (suc n)) where
    probe_from-ends :
        (rounds deadline n : ℕ) (last : Option Str)
        → deadline ≤ now n + rounds * readiness_poll
        → probe_from (suc rounds) deadline n last ≢ none
    unfolding probe_from
    probe_from-ends zero deadline n last h = elim (Bool-cases (ltb (now n) deadline)) [
      | inl early ↦ absurd (ground (arith, early, h))
      | inr late ↦ rw late λ e. cc e
    ]
    probe_from-ends (suc rounds) deadline n last h =
        let ends : (why : Str) → probe_from (suc rounds) deadline (suc n) (some why) ≢ none =
          λ why. probe_from-ends rounds deadline (suc n) (some why) (omega (arith, h, sleeps n)) in
        if-cases (λ r. r ≢ none) (ltb (now n) deadline) (λ early. go (attempt n) ends)
          (λ late e. cc e)
      where
        go :
            (r : Result (Unit {0}) Str)
            → ((why : Str) → probe_from (suc rounds) deadline (suc n) (some why) ≢ none)
            → after r (λ e. probe_from (suc rounds) deadline (suc n) (some e)) ≢ none
        go (ok _) ends = λ e. cc e
        go (err why) ends = ends why

    -- The wait always ends: at most one attempt for each poll that the timeout has room for, and one
    -- more.
    pub wait_for_ready-ends :
        (start timeout rounds : ℕ)
        → start ≤ now 0
        → timeout ≤ rounds * readiness_poll
        → wait_for_ready start (suc rounds) timeout ≢ none
    unfolding wait_for_ready
    wait_for_ready-ends start timeout rounds started enough =
        probe_from-ends rounds (start + timeout) 0 none (omega (arith, started, enough))

    -- `k` turns after turn `n`.
    abbrev turn : ℕ → ℕ → ℕ
    turn n zero = n
    turn n (suc k) = turn (suc n) k

    turn-add : (n k : ℕ) → turn n k ≡ n + k
    turn-add n zero = omega arith
    turn-add n (suc k) = omega (arith, turn-add (suc n) k)

    later : (n k : ℕ) → now n ≤ now (turn n k)
    later n zero = omega arith
    later n (suc k) = omega (arith, later (suc n) k, sleeps n)

    probe_from-finds :
        (rounds deadline n : ℕ) (last : Option Str) (k : ℕ)
        → k < rounds
        → now (turn n k) < deadline
        → attempt (turn n k) ≡ ok tt
        → probe_from rounds deadline n last ≡ some (ok tt)
    unfolding probe_from
    probe_from-finds zero deadline n last k h early ready = absurd (omega (arith, h))
    probe_from-finds (suc rounds) deadline n last zero h early ready = ground (arith, early, ready)
    probe_from-finds (suc rounds) deadline n last (suc k) h early ready =
        let found : (why : Str) → probe_from rounds deadline (suc n) (some why) ≡ some (ok tt) =
          λ why.
            probe_from-finds rounds deadline (suc n) (some why) k (omega (arith, h)) early ready in
        if-cases (λ r. r ≡ some (ok tt)) (ltb (now n) deadline) (λ e. go (attempt n) found)
          (λ late. absurd (ground (arith, late, early, later n (suc k))))
      where
        go :
            (r : Result (Unit {0}) Str)
            → ((why : Str) → probe_from rounds deadline (suc n) (some why) ≡ some (ok tt))
            → after r (λ e. probe_from rounds deadline (suc n) (some e)) ≡ some (ok tt)
        go (ok _) found = refl
        go (err why) found = found why

    -- An app that accepts an attempt made before the deadline is found ready, then or earlier,
    -- whatever the attempts before it gave.
    pub wait_for_ready-finds :
        (start timeout rounds k : ℕ)
        → k < rounds
        → now k < start + timeout
        → attempt k ≡ ok tt
        → wait_for_ready start rounds timeout ≡ some (ok tt)
    unfolding wait_for_ready
    wait_for_ready-finds start timeout rounds k enough early ready =
        let at : turn 0 k ≡ k = omega (arith, turn-add 0 k) in
        probe_from-finds rounds (start + timeout) 0 none k enough
          (subst (λ n. now n < start + timeout) (sym at) early)
          (subst (λ n. attempt n ≡ ok tt) (sym at) ready)

-- `head.split("\r\n").next()`.
unfoldable pub first_line : Str → Str
first_line [] = []
first_line (c ∷ []) = c ∷ []
first_line (c ∷ d ∷ s) =
    let rest = first_line (d ∷ s) in if c == 13 && d == 10 then [] else c ∷ rest

abbrev code_of : List Str → Option ℕ
code_of (version ∷ code ∷ _) =
    if starts_with (codes "HTTP/") version then parse_unsigned (2 ^ 16) code else none
code_of _ = none

unfoldable pub parse_http_status_code : Str → Option ℕ
unfolding first_line split starts_with parse_unsigned
parse_http_status_code head = code_of (split b' ' (first_line head))

-- The end of `http_probe`, for a response head that is there.
abbrev pub is_success : Option ℕ → Bool
is_success none = false
is_success (some status) = leb 200 status && ltb status 300

abbrev parse_kb : Option Str → Option ℕ
parse_kb none = none
parse_kb (some word) = parse_unsigned (2 ^ 64) word

abbrev in_bytes : Option ℕ → Option ℕ
in_bytes none = none
in_bytes (some kb) = some (kb * 1024 % 2 ^ 64)

abbrev mem_of_line : Option Str → Option ℕ → Option ℕ
mem_of_line none rest = rest
mem_of_line (some field) rest = in_bytes (parse_kb (first_word field))

unfoldable pub mem_available : List Str → Option ℕ
unfolding strip_prefix first_word parse_unsigned
mem_available [] = none
mem_available (l ∷ ls) = mem_of_line (strip_prefix (codes "MemAvailable:") l) (mem_available ls)

unfoldable pub parse_mem_available : Str → Option ℕ
unfolding lines mem_available
parse_mem_available meminfo = mem_available (lines meminfo)

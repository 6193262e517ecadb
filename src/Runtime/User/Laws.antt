-- ===== src/Runtime/User/Laws.antt =====
-- Numeric users: what is printed parses back, and what parses fits 32 bits.
use bugpot.Base.{
  ℕ, zero, suc, true, Option, none, some, [], ◌∷◌, ◌++◌, ok, ◌≡◌, refl, arith, ◌+◌, ◌-◌, ◌*◌, ◌/◌,
  ◌%◌, ◌^◌, ◌<◌, leb, ltb, ◌∙◌, if◌then◌else◌, All, All-append, Bool-cases, inl, inr, if-cases, ◌≢◌,
}
use bugpot.Base.Text.{Str, is_digit}
use bugpot.Base.Lines.{parse_digits, parse_unsigned, decimal_digits, to_string, split_once}
use bugpot.Runtime.User.{parse_uid_gid, resolve_user, resolve_group}

-- One more digit.
abbrev next_digit : ℕ → ℕ → Option ℕ → Option ℕ
next_digit bound d none = none
next_digit bound d (some n) =
    let next = n * 10 + (d - b'0') in
    if is_digit d then if ltb next bound then some next else none else none

parse_digits-append :
    (bound m : ℕ) (s : Str) (d : ℕ)
    → parse_digits bound m (s ++ d ∷ []) ≡ next_digit bound d (parse_digits bound m s)
unfolding parse_digits
parse_digits-append bound m [] d = ground arith
parse_digits-append bound m (c ∷ s) d =
    ground (arith, parse_digits-append bound (m * 10 + (c - b'0')) s d)

abbrev power_of_ten : ℕ → ℕ
power_of_ten zero = 1
power_of_ten (suc n) = 10 * power_of_ten n

next_digit-last :
    (bound n : ℕ) → n < bound → next_digit bound (b'0' + n % 10) (some (n / 10)) ≡ some n
unfolding is_digit
next_digit-last bound n h = ground (arith, h)

first_digit :
    (bound n : ℕ) → n < 10 → n < bound → parse_digits bound 0 ((b'0' + n % 10) ∷ []) ≡ some n
unfolding parse_digits is_digit
first_digit bound n small h = ground (arith, small, h)

parse_digits-decimal :
    (bound fuel n : ℕ)
    → n < bound
    → n < power_of_ten (suc fuel)
    → parse_digits bound 0 (decimal_digits (suc fuel) n) ≡ some n
unfolding decimal_digits
parse_digits-decimal bound zero n h fits = elim (Bool-cases (leb 10 n)) [
  | inl more ↦ absurd (ground (arith, more, fits))
  | inr last ↦ rw last (first_digit bound n (ground (arith, last)) h)
]
parse_digits-decimal bound (suc fuel) n h fits = elim (Bool-cases (leb 10 n)) [
  | inl more ↦ rw more (
      parse_digits-append bound 0 (decimal_digits (suc fuel) (n / 10)) (b'0' + n % 10)
      ∙ rw (parse_digits-decimal bound fuel (n / 10) (omega (arith, h)) (omega (arith, fits)))
          (next_digit-last bound n h))
  | inr last ↦ rw last (first_digit bound n (ground (arith, last)) h)
]

IsDigits : Str → Type 0
IsDigits s = All (λ c. is_digit c ≡ true) s

decimal_digits-IsDigits : (fuel n : ℕ) → IsDigits (decimal_digits fuel n)
unfolding decimal_digits IsDigits is_digit
decimal_digits-IsDigits zero n = tt
decimal_digits-IsDigits (suc fuel) n =
    All-append (λ c. is_digit c ≡ true) (if leb 10 n then decimal_digits fuel (n / 10) else [])
      ((b'0' + n % 10) ∷ [])
      (if-cases IsDigits (leb 10 n) (λ e. decimal_digits-IsDigits fuel (n / 10)) (λ e. tt))
      (ground arith, tt)

split_once-digits : (s t : Str) → IsDigits s → split_once b':' (s ++ b':' ∷ t) ≡ some (s, t)
unfolding split_once IsDigits is_digit
split_once-digits [] t h = refl
split_once-digits (c ∷ s) t (hc, hs) = ground (arith, hc, split_once-digits s t hs)

parse_unsigned-digits :
    (bound n : ℕ) (s : Str)
    → IsDigits s
    → parse_digits bound 0 s ≡ some n
    → s ≢ []
    → parse_unsigned bound s ≡ some n
unfolding parse_unsigned IsDigits is_digit
parse_unsigned-digits bound n [] h e ne = absurd (ne refl)
parse_unsigned-digits bound n (c ∷ s) (hc, hs) e ne = ground (arith, hc, e)

append-ne : (s : Str) (c : ℕ) → s ++ c ∷ [] ≢ []
append-ne [] c e = cc e
append-ne (d ∷ s) c e = cc e

decimal_digits-nonempty : (fuel n : ℕ) → decimal_digits (suc fuel) n ≢ []
unfolding decimal_digits
decimal_digits-nonempty fuel n =
    append-ne (if leb 10 n then decimal_digits fuel (n / 10) else []) (b'0' + n % 10)

to_string-IsDigits : (n : ℕ) → IsDigits (to_string n)
unfolding to_string
to_string-IsDigits n = decimal_digits-IsDigits 20 n

split_once-none : (s : Str) → IsDigits s → split_once b':' s ≡ none
unfolding split_once IsDigits is_digit
split_once-none [] h = refl
split_once-none (c ∷ s) (hc, hs) = ground (arith, hc, split_once-none s hs)

-- Numbers below the bound, of at most 20 digits, read back.
parse_unsigned-to_string :
    (bound n : ℕ) → n < bound → n < power_of_ten 20 → parse_unsigned bound (to_string n) ≡ some n
unfolding to_string
parse_unsigned-to_string bound n h fits =
    parse_unsigned-digits bound n (decimal_digits 20 n) (decimal_digits-IsDigits 20 n)
      (parse_digits-decimal bound 19 n h fits) (decimal_digits-nonempty 19 n)

module _ (passwd group : Option Str) where
  -- A user and a group that are given by their numbers are those numbers, and no file is read for
  -- them, whatever the image has; without a group it is 0.
  pub parse_uid_gid-numeric :
      (uid gid : ℕ)
      → uid < 2 ^ 32
      → gid < 2 ^ 32
      → (parse_uid_gid passwd group (to_string uid ++ b':' ∷ to_string gid) ≡ ok (uid, gid))
        × (parse_uid_gid passwd group (to_string uid) ≡ ok (uid, 0))
  unfolding parse_uid_gid resolve_user resolve_group
  parse_uid_gid-numeric uid gid hu hg =
      let user = parse_unsigned-to_string (2 ^ 32) uid hu (omega (arith, hu)) in
      let of_group = parse_unsigned-to_string (2 ^ 32) gid hg (omega (arith, hg)) in
      (
        rw
            (
              split_once-digits (to_string uid) (to_string gid) (to_string-IsDigits uid),
              user,
              of_group,
            )
            refl,
        rw (split_once-none (to_string uid) (to_string-IsDigits uid), user) refl,
      )

-- ===== src/Base/Lines.antt =====
-- More of Rust's `str`: lines, words, and the numbers of `FromStr` and `Display`.
use Prim.Native.Nat.{ℕ, zero, suc, ◌+◌, ◌-◌, ◌*◌, ◌/◌, ◌%◌}
use mathlib.Core.Option.{Option, none, some}
use mathlib.Core.List.{List, [], ◌∷◌, ◌++◌}
use bugpot.Base.Tests.{ltb, leb, ◌==◌, if◌then◌else◌}
use bugpot.Base.Text.{Str, split, is_whitespace, trim_start, is_digit, is_empty}

-- One line without its `\r`.
abbrev strip_cr : Str → Str
strip_cr [] = []
strip_cr (c ∷ []) = if c == 13 then [] else c ∷ []
strip_cr (c ∷ d ∷ s) = c ∷ strip_cr (d ∷ s)

-- The text after the last newline is a line of its own, unless it is empty.
abbrev lines_of : List Str → List Str
lines_of [] = []
lines_of (l ∷ []) = if is_empty l then [] else l ∷ []
lines_of (l ∷ m ∷ ls) = strip_cr l ∷ lines_of (m ∷ ls)

unfoldable pub lines : Str → List Str
unfolding split
lines s = lines_of (split 10 s)

unfoldable pub first_word_of : Str → Str
unfolding is_whitespace
first_word_of [] = []
first_word_of (c ∷ s) = let rest = first_word_of s in if is_whitespace c then [] else c ∷ rest

abbrev nonempty : Str → Option Str
nonempty [] = none
nonempty (c ∷ s) = some (c ∷ s)

-- `split_whitespace().next()`.
unfoldable pub first_word : Str → Option Str
unfolding first_word_of trim_start is_whitespace
first_word s = nonempty (first_word_of (trim_start is_whitespace s))

-- `split_once(d)`.
unfoldable pub split_once : ℕ → Str → Option (Str × Str)
split_once d [] = none
split_once d (c ∷ s) =
    if c == d
    then some ([], s)
    else elim (split_once d s) [ none ↦ none | some (before, after) ↦ some (c ∷ before, after) ]

-- The digits, as long as the number stays below the bound.
unfoldable pub parse_digits : ℕ → ℕ → Str → Option ℕ
unfolding is_digit
parse_digits bound n [] = some n
parse_digits bound n (c ∷ s) =
    let next = n * 10 + (c - b'0') in
    let rest = parse_digits bound next s in
    if is_digit c then if ltb next bound then rest else none else none

abbrev unsigned : ℕ → Str → Option ℕ
unsigned bound [] = none
unsigned bound (c ∷ s) = parse_digits bound 0 (c ∷ s)

-- `parse::<u32>()` and `parse::<u64>()`, by their bounds: a leading `+` is allowed.
unfoldable pub parse_unsigned : ℕ → Str → Option ℕ
unfolding parse_digits
parse_unsigned bound [] = none
parse_unsigned bound (c ∷ s) = if c == b'+' then unsigned bound s else unsigned bound (c ∷ s)

-- The last digits of a number, in the given base, at least one.
unfoldable pub decimal_digits : ℕ → ℕ → Str
decimal_digits zero n = []
decimal_digits (suc fuel) n =
    let front = decimal_digits fuel (n / 10) in
    (if leb 10 n then front else []) ++ (b'0' + n % 10) ∷ []

-- `to_string` of an unsigned number of at most 64 bits, which has at most 20 digits.
unfoldable pub to_string : ℕ → Str
to_string n = decimal_digits 20 n

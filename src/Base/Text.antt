-- ===== src/Base/Text.antt =====
-- The parts of Rust's `str` that the source uses, over lists of code points; `len` counts the
-- bytes of the UTF-8 form, as the source's `len()` does.
use Prim.Native.Nat.{ℕ, ◌+◌, ◌-◌, ◌/◌, ◌%◌}
use Prim.Native.Char.{code}
use Prim.Native.String.{String}
use mathlib.Core.Path.{◌≡◌, refl}
use native.Mathlib.Omega.{arith}
use mathlib.Core.Bool.{Bool, true, false, ◌&&◌, ◌||◌}
use mathlib.Core.Option.{Option, none, some}
use mathlib.Core.List.{List, [], ◌∷◌, ◌++◌, map, reverse}
use bugpot.Base.Tests.{ltb, leb, ◌==◌, if◌then◌else◌, list_beq}
use bugpot.Base.Lists.{length, drop}

-- A `String` or `&str`.
abbrev pub Str : Type 0
Str = List ℕ

-- A literal of the source.
abbrev pub codes : String → Str
codes String.[] = []
codes (String.◌∷◌ c s) = code c ∷ codes s

-- The UTF-8 bytes of one code point.
unfoldable pub encode_utf8 : ℕ → List ℕ
encode_utf8 c =
    if ltb c 0x80
    then c ∷ []
    else if ltb c 0x800
    then (0xC0 + c / 0x40) ∷ (0x80 + c % 0x40) ∷ []
    else if ltb c 0x10000
    then (0xE0 + c / 0x1000) ∷ (0x80 + c / 0x40 % 0x40) ∷ (0x80 + c % 0x40) ∷ []
    else (0xF0 + c / 0x40000)
      ∷ (0x80 + c / 0x1000 % 0x40)
      ∷ (0x80 + c / 0x40 % 0x40)
      ∷ (0x80 + c % 0x40)
      ∷ []

unfoldable pub bytes : Str → List ℕ
unfolding encode_utf8
bytes [] = []
bytes (c ∷ s) = encode_utf8 c ++ bytes s

unfoldable pub len : Str → ℕ
unfolding bytes
len s = length (bytes s)

abbrev pub is_empty : Str → Bool
is_empty [] = true
is_empty (_ ∷ _) = false

-- `contains(c)`, at a character.
unfoldable pub contains : ℕ → Str → Bool
contains c [] = false
contains c (d ∷ s) = d == c || contains c s

unfoldable pub starts_with : Str → Str → Bool
starts_with [] s = true
starts_with (_ ∷ _) [] = false
starts_with (c ∷ p) (d ∷ s) = d == c && starts_with p s

-- `contains(p)`, at a text.
unfoldable pub contains_str : Str → Str → Bool
unfolding starts_with
contains_str p [] = starts_with p []
contains_str p (c ∷ s) = starts_with p (c ∷ s) || contains_str p s

unfoldable pub strip_prefix : Str → Str → Option Str
strip_prefix [] s = some s
strip_prefix (_ ∷ _) [] = none
strip_prefix (c ∷ p) (d ∷ s) = if d == c then strip_prefix p s else none

-- `starts_with(c)` and `ends_with(c)`, at a character.
abbrev pub starts_with_char : ℕ → Str → Bool
starts_with_char c [] = false
starts_with_char c (d ∷ s) = d == c

abbrev pub ends_with_char : ℕ → Str → Bool
ends_with_char c [] = false
ends_with_char c (d ∷ []) = d == c
ends_with_char c (d ∷ e ∷ s) = ends_with_char c (e ∷ s)

unfoldable pub ends_with : Str → Str → Bool
ends_with p s = leb (length p) (length s) && list_beq (drop (length s - length p) s) p

-- Puts a character before the first part.
unfoldable pub cons_head : ℕ → List Str → List Str
cons_head c [] = (c ∷ []) ∷ []
cons_head c (p ∷ ps) = (c ∷ p) ∷ ps

-- `split(d)`: the parts between the separators, at least one.
unfoldable pub split : ℕ → Str → List Str
unfolding cons_head
split d [] = [] ∷ []
split d (c ∷ s) = let rest = split d s in if c == d then [] ∷ rest else cons_head c rest

-- `split(d).next()`: the text before the first separator.
unfoldable pub first_part : ℕ → Str → Str
first_part d [] = []
first_part d (c ∷ s) = let rest = first_part d s in if c == d then [] else c ∷ rest

-- `rsplit(d).next()`: the text after the last separator.
unfoldable pub last_part : ℕ → Str → Str
unfolding contains
last_part d [] = []
last_part d (c ∷ s) =
    let rest = last_part d s in if contains d s then rest else if c == d then s else c ∷ s

-- `char::is_whitespace`, the White_Space property of Unicode.
unfoldable pub is_whitespace : ℕ → Bool
is_whitespace c =
    (leb 9 c && leb c 13)
    || c == 0x20
    || c == 0x85
    || c == 0xA0
    || c == 0x1680
    || (leb 0x2000 c && leb c 0x200A)
    || c == 0x2028
    || c == 0x2029
    || c == 0x202F
    || c == 0x205F
    || c == 0x3000

unfoldable pub trim_start : (ℕ → Bool) → Str → Str
trim_start p [] = []
trim_start p (c ∷ s) = let rest = trim_start p s in if p c then rest else c ∷ s

unfoldable pub trim_end : (ℕ → Bool) → Str → Str
unfolding trim_start
trim_end p s = reverse (trim_start p (reverse s))

unfoldable pub trim : Str → Str
unfolding trim_end is_whitespace
trim s = trim_end is_whitespace (trim_start is_whitespace s)

unfoldable pub is_lowercase : ℕ → Bool
is_lowercase c = leb b'a' c && leb c b'z'

unfoldable pub is_uppercase : ℕ → Bool
is_uppercase c = leb b'A' c && leb c b'Z'

unfoldable pub is_digit : ℕ → Bool
is_digit c = leb b'0' c && leb c b'9'

unfoldable pub to_lower : ℕ → ℕ
unfolding is_uppercase
to_lower c = if is_uppercase c then c + 32 else c

unfoldable pub to_ascii_lowercase : Str → Str
unfolding to_lower
to_ascii_lowercase s = map to_lower s

pub strip_prefix-append : (p s : Str) → strip_prefix p (p ++ s) ≡ some s
unfolding strip_prefix
strip_prefix-append [] s = refl
strip_prefix-append (c ∷ p) s = ground (arith, strip_prefix-append p s)

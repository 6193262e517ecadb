-- ===== src/Config/Label.antt =====
-- `validate_dns_label`, which guards every name that becomes a path or a kernel object.
use bugpot.Base.{
  ℕ, suc, ◌≤◌, ◌≡◌, ◌↔◌, ◌⊎◌, refl, String, Bool, true, false, ◌||◌, [], ◌∷◌, Result, ok, err, ltb,
  ◌==◌, if◌then◌else◌, arith, length, All, ◌<◌, ap,
}
use bugpot.Base.Text.{
  Str, is_empty, len, bytes, encode_utf8, starts_with_char, ends_with_char, is_lowercase, is_digit,
}
use bugpot.Config.Spec.{InvalidSpec}

-- The characters that the loop lets pass.
unfoldable pub is_label_char : ℕ → Bool
unfolding is_lowercase is_digit
is_label_char c = is_lowercase c || is_digit c || c == b'-'

abbrev invalid : String → Str → String → Result (Unit {0}) InvalidSpec
invalid field value reason = err (record { field = field; value = value; reason = reason })

unfoldable pub validate_chars : String → Str → Str → Result (Unit {0}) InvalidSpec
unfolding is_label_char
validate_chars field s [] = ok tt
validate_chars field s (c ∷ cs) =
    if is_label_char c
    then validate_chars field s cs
    else invalid field s "must contain only lowercase ASCII letters, digits, and '-'"

unfoldable pub validate_dns_label : String → Str → Result (Unit {0}) InvalidSpec
unfolding validate_chars
validate_dns_label field s =
    if is_empty s
    then invalid field s "must not be empty"
    else if ltb 63 (len s)
    then invalid field s "must be at most 63 characters"
    else if starts_with_char b'-' s || ends_with_char b'-' s
    then invalid field s "must not start or end with '-'"
    else validate_chars field s s

-- A lowercase letter, a digit or a hyphen.
abbrev pub IsLabelChar : ℕ → Type 0
IsLabelChar c = ((b'a' ≤ c) × (c ≤ b'z')) ⊎ ((b'0' ≤ c) × (c ≤ b'9')) ⊎ (c ≡ b'-')

-- A strict DNS label, as RFC 1035 has it: 1 to 63 such characters, with no hyphen at either end.
pub record IsDnsLabel (s : Str) : Type 0 where
  pub nonempty : 1 ≤ length s
  pub short : length s ≤ 63
  pub chars : All IsLabelChar s
  pub head : starts_with_char b'-' s ≡ false
  pub last : ends_with_char b'-' s ≡ false

is_label_char_iff : (c : ℕ) → (is_label_char c ≡ true) ↔ IsLabelChar c
unfolding is_label_char
is_label_char_iff c = ground arith

validate_chars_iff :
    (field : String) (s cs : Str) → (validate_chars field s cs ≡ ok tt) ↔ All IsLabelChar cs
unfolding validate_chars
validate_chars_iff field s [] = (λ _. tt, λ _. refl)
validate_chars_iff field s (c ∷ cs) =
    ground (arith, is_label_char_iff c, validate_chars_iff field s cs)

bytes_ascii : (c : ℕ) → c < 128 → encode_utf8 c ≡ c ∷ []
unfolding encode_utf8
bytes_ascii c h = ground arith

-- A label's bytes are its characters.
len_of_label : (s : Str) → All IsLabelChar s → len s ≡ length s
unfolding len bytes
len_of_label [] _ = refl
len_of_label (c ∷ s) (h, hs) = rw (bytes_ascii c (omega arith)) (ap suc (len_of_label s hs))

-- The validator accepts exactly the strict DNS labels.
pub validate_dns_label_iff :
    (field : String) (s : Str) → (validate_dns_label field s ≡ ok tt) ↔ IsDnsLabel s
unfolding validate_dns_label
validate_dns_label_iff field [] = (λ h. cc, λ v. absurd (let h = v.nonempty in omega arith))
validate_dns_label_iff field (c ∷ s) = (
  λ h.
      let cs = (validate_chars_iff field (c ∷ s) (c ∷ s)).0 (ground arith) in
      let e = len_of_label (c ∷ s) cs in
      record {
        nonempty = omega arith;
        short = ground arith;
        chars = cs;
        head = ground arith;
        last = ground arith;
      },
  λ v.
      let e = len_of_label (c ∷ s) v.chars in
      let p = (validate_chars_iff field (c ∷ s) (c ∷ s)).1 v.chars in ground arith,
)

validate_chars_error :
    (field : String) (s cs : Str) {e : InvalidSpec}
    → validate_chars field s cs ≡ err e
    → (e.field ≡ field) × (e.value ≡ s)
unfolding validate_chars
validate_chars_error field s [] h = cc
validate_chars_error field s (c ∷ cs) {e} h =
    ground (arith, validate_chars_error field s cs {e = e})

-- A refusal names the field and the text that were given.
pub validate_dns_label_error :
    (field : String) (s : Str) {e : InvalidSpec}
    → validate_dns_label field s ≡ err e
    → (e.field ≡ field) × (e.value ≡ s)
unfolding validate_dns_label
validate_dns_label_error field s {e} h = ground (arith, validate_chars_error field s s {e = e})

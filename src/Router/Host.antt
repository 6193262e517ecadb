-- ===== src/Router/Host.antt =====
-- `subdomain_of`: which app a `Host` header names.
use mathlib.Core.Path.{subst}
use bugpot.Base.{
  ℕ, false, Option, none, some, [], ◌∷◌, ◌++◌, ◌≡◌, refl, ap, if◌then◌else◌, arith, All, ◌==◌,
}
use bugpot.Base.Text.{Str, first_part, starts_with_char}
use bugpot.Config.Label.{IsDnsLabel, IsLabelChar}

unfoldable pub subdomain_of : Str → Option Str
unfolding first_part
subdomain_of host =
    if starts_with_char b'[' host then none else some (first_part b'.' (first_part b':' host))

-- A separator that is no label character ends the part after a label.
first_part-label :
    (d : ℕ) (label rest : Str)
    → ((c : ℕ) → IsLabelChar c → (c == d) ≡ false)
    → All IsLabelChar label
    → first_part d (label ++ rest) ≡ label ++ first_part d rest
unfolding first_part
first_part-label d [] rest apart h = refl
first_part-label d (c ∷ label) rest apart (here, more) =
    rw (apart c here) (ap (◌∷◌ c) (first_part-label d label rest apart more))

no_dot : (c : ℕ) → IsLabelChar c → (c == b'.') ≡ false
no_dot c h = ground arith

no_colon : (c : ℕ) → IsLabelChar c → (c == b':') ≡ false
no_colon c h = ground arith

not_bracket : (label rest : Str) → IsDnsLabel label → starts_with_char b'[' (label ++ rest) ≡ false
not_bracket [] rest h = absurd (let n = h.nonempty in omega arith)
not_bracket (c ∷ label) rest h = let here = h.chars.0 in ground arith

append_nil : (s : Str) → s ++ [] ≡ s
append_nil [] = refl
append_nil (c ∷ s) = ap (◌∷◌ c) (append_nil s)

-- A request whose host is a valid subdomain, a dot and anything that is not to be split further, or
-- the subdomain alone with a port or without, is routed to that subdomain.
pub subdomain_of-label :
    (label domain : Str)
    → IsDnsLabel label
    → (subdomain_of (label ++ b'.' ∷ domain) ≡ some label)
      × (subdomain_of (label ++ b':' ∷ domain) ≡ some label)
      × (subdomain_of label ≡ some label)
unfolding subdomain_of first_part
subdomain_of-label label domain h =
    let colon = first_part-label b':' label in
    let dot = first_part-label b'.' label in
    (
      rw
          (
            not_bracket label (b'.' ∷ domain) h,
            colon (b'.' ∷ domain) no_colon h.chars,
            dot (b'.' ∷ first_part b':' domain) no_dot h.chars,
            append_nil label,
          )
          refl,
      rw
          (
            not_bracket label (b':' ∷ domain) h,
            colon (b':' ∷ domain) no_colon h.chars,
            dot [] no_dot h.chars,
            append_nil label,
          )
          refl,
      subst (λ s. subdomain_of s ≡ some label) (append_nil label)
          (rw (not_bracket label [] h, colon [] no_colon h.chars, dot [] no_dot h.chars)
            (ap some (append_nil label))),
    )

-- ===== src/Egress/Netns/Names.antt =====
-- The names of the interfaces fit what the kernel takes.
use bugpot.Base.{
  ℕ, zero, suc, none, some, [], ◌∷◌, ◌++◌, ◌≡◌, ◌≢◌, ◌<◌, ◌+◌, ◌/◌, ◌%◌, arith, refl, length,
  length-append, All, All-append, ap,
}
use bugpot.Base.Text.{Str, codes, len, bytes, encode_utf8, strip_prefix}
use bugpot.Egress.Netns.{
  hex_digit, hex_digits, take, short_name, fnv, layout, tmp_peer_name, render_attach_endpoint,
}

abbrev IsAscii : ℕ → Type 0
IsAscii c = c < 128

len-of-IsAscii : (s : Str) → All IsAscii s → len s ≡ length s
unfolding len bytes encode_utf8
len-of-IsAscii [] h = refl
len-of-IsAscii (c ∷ s) (hc, hs) = ground (arith, hc, len-of-IsAscii s hs)

hex_digit-IsAscii : (d : ℕ) → d < 16 → IsAscii (hex_digit d)
hex_digit-IsAscii d h = ground (arith, h)

length-hex_digits : (width n : ℕ) → length (hex_digits width n) ≡ width
unfolding hex_digits
length-hex_digits zero n = refl
length-hex_digits (suc width) n = omega (
  arith,
  length-append (hex_digits width (n / 16)) (hex_digit (n % 16) ∷ []),
  length-hex_digits width (n / 16),
)

hex_digits-IsAscii : (width n : ℕ) → All IsAscii (hex_digits width n)
unfolding hex_digits
hex_digits-IsAscii zero n = tt
hex_digits-IsAscii (suc width) n =
    All-append IsAscii (hex_digits width (n / 16)) (hex_digit (n % 16) ∷ [])
      (hex_digits-IsAscii width (n / 16)) (hex_digit-IsAscii (n % 16) (omega arith), tt)

take-IsAscii : (n : ℕ) (s : Str) → All IsAscii s → All IsAscii (take n s)
unfolding take
take-IsAscii zero s h = tt
take-IsAscii (suc n) [] h = tt
take-IsAscii (suc n) (c ∷ s) (hc, hs) = (hc, take-IsAscii n s hs)

length-take : (n m : ℕ) (s : Str) → length s ≡ n + m → length (take n s) ≡ n
unfolding take
length-take zero m s h = refl
length-take (suc n) m [] h = absurd (omega (arith, h))
length-take (suc n) m (c ∷ s) h = omega (arith, length-take n m s (omega (arith, h)))

short_name-fits : (name : Str) → (length (short_name name) ≡ 12) × All IsAscii (short_name name)
unfolding short_name
short_name-fits name =
    let digits = hex_digits 16 (fnv 0xcbf29ce484222325 (bytes name)) in
    (
      length-take 12 4 digits
          (omega (arith, length-hex_digits 16 (fnv 0xcbf29ce484222325 (bytes name)))),
      take-IsAscii 12 digits (hex_digits-IsAscii 16 (fnv 0xcbf29ce484222325 (bytes name))),
    )

abbrev second : Str → ℕ
second (_ ∷ c ∷ _) = c
second _ = 0

len-named :
    (p s : Str) → length p ≡ 3 → All IsAscii p → length s ≡ 12 → All IsAscii s → len (p ++ s) ≡ 15
len-named p s hp ap' hs as' =
    omega
      (arith, len-of-IsAscii (p ++ s) (All-append IsAscii p s ap' as'), length-append p s, hp, hs)

tmp_peer_name-host :
    (short : Str) → tmp_peer_name (codes "vh-" ++ short) ≡ some (codes "vc-" ++ short)
unfolding tmp_peer_name strip_prefix
tmp_peer_name-host short = refl

-- Whatever the name of an app, both names of its pair of interfaces have the 15 bytes that the
-- kernel allows, they differ, and the commands that attach it are always rendered.
pub layout_fits :
    (name ip bridge : Str) (prefix_len : ℕ)
    → let plan = layout name ip prefix_len in
      (len plan.host_veth ≡ 15)
      × (peer : Str) × (tmp_peer_name plan.host_veth ≡ some peer)
      × (len peer ≡ 15)
      × (peer ≢ plan.host_veth)
      × (render_attach_endpoint bridge plan ≢ none)
unfolding layout render_attach_endpoint
layout_fits name ip bridge prefix_len =
    let short = short_name name in
    let (twelve, ascii) = short_name-fits name in
    (
      len-named (codes "vh-") short refl (omega arith, (omega arith, (omega arith, tt))) twelve
          ascii,
      codes "vc-" ++ short,
      tmp_peer_name-host short,
      len-named (codes "vc-") short refl (omega arith, (omega arith, (omega arith, tt))) twelve
          ascii,
      λ e. absurd (omega (arith, ap second e)),
      λ e. ground (arith, e, tmp_peer_name-host short),
    )

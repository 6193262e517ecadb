-- ===== src/Admin/DeployKey/Laws.antt =====
-- What a deploy token admits, from what `hex` and HMAC-SHA256 document.
use bugpot.Base.{
  All, ℕ, true, none, some, List, [], ◌∷◌, ◌++◌, ◌≡◌, ◌≢◌, ◌⊎◌, ◌*◌, ◌+◌, ◌<◌, ◌^◌, inl, inr, arith,
  length, list_beq_iff, refl, sym, ◌∙◌, ◌↔◌, Bool-cases, ap,
}
use mathlib.Core.List.{append-nil}
use bugpot.Base.Text.{Str, bytes, len, strip_prefix, strip_prefix-append}
use bugpot.Admin.DeployKey.{
  Crypto, to_le_bytes, field, message, mac_bytes, derive, verify, wire_prefix, saturated, list_beq,
  Option, verify_hex, same_mac,
}

-- A number that is a byte.
abbrev pub IsByte : ℕ → Type 0
IsByte b = b < 256

-- `hex` reads back the bytes that it wrote, in two ASCII characters for each, and a SHA-256 code has
-- 32 bytes.
pub record IsDocumented (c : Crypto) : Type 0 where
  pub decodes : (bs : List ℕ) → All IsByte bs → c.hex_decode (c.hex_encode bs) ≡ some bs
  pub two_digits : (bs : List ℕ) → All IsByte bs → len (c.hex_encode bs) ≡ 2 * length bs
  pub hmac_length : (key msg : List ℕ) → length (c.hmac key msg) ≡ 32
  pub hmac_bytes : (key msg : List ℕ) → All IsByte (c.hmac key msg)

prefix_len : len wire_prefix ≡ 4
unfolding len bytes
prefix_len = refl

len-wire_prefix : (s : Str) → len (wire_prefix ++ s) ≡ 4 + len s
unfolding len bytes
len-wire_prefix s = omega arith

module _ {A : Type 0} where
  ++-inj :
      (xs ys zs ws : List A) → length xs ≡ length ys → xs ++ zs ≡ ys ++ ws → (xs ≡ ys) × (zs ≡ ws)
  ++-inj [] [] zs ws l e = (refl, e)
  ++-inj [] (y ∷ ys) zs ws l e = absurd (omega (arith, l))
  ++-inj (x ∷ xs) [] zs ws l e = absurd (omega (arith, l))
  ++-inj (x ∷ xs) (y ∷ ys) zs ws l e =
      let (p, q) = ++-inj xs ys zs ws (omega (arith, l)) (cc e) in (cc (e, p), q)

to_le_bytes-inj : (m n : ℕ) → m < 2 ^ 32 → n < 2 ^ 32 → to_le_bytes m ≡ to_le_bytes n → m ≡ n
unfolding to_le_bytes
to_le_bytes-inj m n hm hn e = ground arith

saturated-small : (n : ℕ) → n < 2 ^ 32 → saturated n ≡ n
saturated-small n h = ground arith

field-inj :
    (xs ys zs ws : List ℕ)
    → length xs < 2 ^ 32
    → length ys < 2 ^ 32
    → field xs ++ zs ≡ field ys ++ ws
    → (xs ≡ ys) × (zs ≡ ws)
unfolding field to_le_bytes
field-inj xs ys zs ws hx hy e =
    let same =
      to_le_bytes-inj (length xs) (length ys) hx hy
        (cc (e, saturated-small (length xs) hx, saturated-small (length ys) hy)) in
    ++-inj xs ys zs ws same (cc e)

-- The message that is authenticated determines the name and the repository, as long as both lengths
-- fit the 32 bits of their prefix: no two apps share a message by moving the boundary.
pub message-inj :
    (name repo name' repo' : Str)
    → length (bytes name) < 2 ^ 32
    → length (bytes name') < 2 ^ 32
    → length (bytes repo) < 2 ^ 32
    → length (bytes repo') < 2 ^ 32
    → message name repo ≡ message name' repo'
    → (bytes name ≡ bytes name') × (bytes repo ≡ bytes repo')
unfolding message
message-inj name repo name' repo' hn hn' hr hr' e =
    let (same_name, e') =
      field-inj (bytes name) (bytes name') (field (bytes repo)) (field (bytes repo')) hn hn'
        (cc e) in
    let (same_repo, _) =
      field-inj (bytes repo) (bytes repo') [] [] hr hr'
        (cc (e', append-nil (field (bytes repo)), append-nil (field (bytes repo')))) in
    (same_name, same_repo)

module _ (c : Crypto) (d : IsDocumented c) (secret : List ℕ) where
  mac_bytes-length : (name repo : Str) → length (mac_bytes c secret name repo) ≡ 32
  unfolding mac_bytes
  mac_bytes-length name repo = d.hmac_length secret (message name repo)

  mac_bytes-IsByte : (name repo : Str) → All IsByte (mac_bytes c secret name repo)
  unfolding mac_bytes
  mac_bytes-IsByte name repo = d.hmac_bytes secret (message name repo)

  token-len :
      (name repo : Str) → len (wire_prefix ++ c.hex_encode (mac_bytes c secret name repo)) ≡ 68
  token-len name repo =
      let mac = mac_bytes c secret name repo in
      omega (
        arith,
        len-wire_prefix (c.hex_encode mac),
        d.two_digits mac (mac_bytes-IsByte name repo),
        mac_bytes-length name repo,
      )

  verify_hex_iff :
      (mac : List ℕ) (stripped : Option Str)
      → (verify_hex c secret mac stripped ≡ true)
        ↔ ((hex_part : Str) × (stripped ≡ some hex_part) × (c.hex_decode hex_part ≡ some mac))
  verify_hex_iff mac none = (λ h. cc, λ h. cc)
  verify_hex_iff mac (some hex_part) = go (c.hex_decode hex_part) refl
    where
      go :
          (read : Option (List ℕ))
          → c.hex_decode hex_part ≡ read
          → (same_mac c secret mac (c.hex_decode hex_part) ≡ true)
            ↔ ((h : Str) × (some hex_part ≡ some h) × (c.hex_decode h ≡ some mac))
      go none e = (λ h. ground (arith, e), λ (h, same, reads). cc (e, same, reads))
      go (some bs) e = (
        λ h. (hex_part, refl, ground (arith, e, list_beq_iff bs mac)),
        λ (h, same, reads). ground (arith, e, same, reads, list_beq_iff bs mac),
      )

  verify-of-len :
      (presented name repo : Str)
      → len presented ≡ 68
      → verify c secret presented name repo
        ≡ verify_hex c secret (mac_bytes c secret name repo) (strip_prefix wire_prefix presented)
  unfolding verify
  verify-of-len presented name repo fits = ground (arith, fits, prefix_len)

  -- What `verify` sees of a token that `derive` made, for whichever app it is presented.
  verify-derive_eq :
      (name repo name' repo' : Str)
      → verify c secret (derive c secret name repo) name' repo'
        ≡ list_beq (mac_bytes c secret name repo) (mac_bytes c secret name' repo')
  unfolding derive
  verify-derive_eq name repo name' repo' =
      let mac = mac_bytes c secret name repo in
      let mac' = mac_bytes c secret name' repo' in
      verify-of-len (derive c secret name repo) name' repo' (token-len name repo)
      ∙ ap (verify_hex c secret mac') (strip_prefix-append wire_prefix (c.hex_encode mac))
      ∙ ap (same_mac c secret mac') (d.decodes mac (mac_bytes-IsByte name repo))

  -- A token is accepted for the app and repository that it was derived for.
  pub verify-derive :
      (name repo : Str) → verify c secret (derive c secret name repo) name repo ≡ true
  verify-derive name repo =
      let mac = mac_bytes c secret name repo in
      verify-derive_eq name repo name repo ∙ (list_beq_iff mac mac).1 refl

  -- For names and repositories shorter than 2^32 bytes: a token that passes for another app or another
  -- repository shows a collision of HMAC-SHA256 under the secret, two different messages with the same
  -- code.
  pub verify-derive_other :
      (name repo name' repo' : Str)
      → length (bytes name) < 2 ^ 32
      → length (bytes name') < 2 ^ 32
      → length (bytes repo) < 2 ^ 32
      → length (bytes repo') < 2 ^ 32
      → verify c secret (derive c secret name repo) name' repo' ≡ true
      → ((bytes name ≡ bytes name') × (bytes repo ≡ bytes repo'))
        ⊎ ((message name repo ≢ message name' repo')
            × (c.hmac secret (message name repo) ≡ c.hmac secret (message name' repo')))
  unfolding mac_bytes
  verify-derive_other name repo name' repo' hn hn' hr hr' e =
      let same =
        (list_beq_iff (mac_bytes c secret name repo) (mac_bytes c secret name' repo')).0
          (sym (verify-derive_eq name repo name' repo') ∙ e) in
      elim (Bool-cases (list_beq (message name repo) (message name' repo'))) [
        | inl same_message ↦
            inl
              (message-inj name repo name' repo' hn hn' hr hr' ((list_beq_iff _ _).0 same_message))
        | inr differ ↦ inr (
          λ eq. ground (arith, (list_beq_iff (message name repo) (message name' repo')).1 eq),
          same,
        )
      ]

  -- The presented token is accepted exactly when it is the version's prefix and 64 bytes that `hex`
  -- reads as the code of this app and repository.
  pub verify_iff :
      (presented name repo : Str)
      → (verify c secret presented name repo ≡ true) ↔ (
          (len presented ≡ 68)
          × (hex_part : Str) × (strip_prefix wire_prefix presented ≡ some hex_part)
          × (c.hex_decode hex_part ≡ some (mac_bytes c secret name repo)))
  unfolding verify
  verify_iff presented name repo =
      let (to, from) =
        verify_hex_iff (mac_bytes c secret name repo) (strip_prefix wire_prefix presented) in
      (
        λ h. ground (arith, to, prefix_len),
        λ (fits, hex_part, at, reads). ground (arith, from (hex_part, at, reads), fits, prefix_len),
      )

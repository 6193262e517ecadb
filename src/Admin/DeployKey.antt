-- ===== src/Admin/DeployKey.antt =====
-- crates/bugpot-admin/src/deploy_key.rs: the deploy tokens. HMAC-SHA256 and the `hex` crate are
-- parameters; bytes are numbers below 256.
pub mod Laws
use bugpot.Base.{
  ℕ, Bool, true, false, Option, none, some, List, [], ◌∷◌, ◌++◌, ◌==◌, ◌+◌, ◌/◌, ◌%◌, ◌^◌, ltb,
  length, list_beq, if◌then◌else◌,
}
use bugpot.Base.Text.{Str, codes, bytes, len, strip_prefix}

abbrev pub wire_prefix : Str
wire_prefix = codes "bp1."

abbrev pub hmac_domain_tag : List ℕ
hmac_domain_tag = b'b' ∷ b'p' ∷ b'1' ∷ 0 ∷ []

abbrev pub hex_mac_len : ℕ
hex_mac_len = 64

-- `u32::try_from(n).unwrap_or(u32::MAX)`.
abbrev pub saturated : ℕ → ℕ
saturated n = if ltb n (2 ^ 32) then n else 4294967295

-- `u32::to_le_bytes`.
unfoldable pub to_le_bytes : ℕ → List ℕ
to_le_bytes n = n % 256 ∷ n / 256 % 256 ∷ n / 65536 % 256 ∷ n / 16777216 % 256 ∷ []

-- A field of the authenticated message: its length, and its bytes.
unfoldable pub field : List ℕ → List ℕ
unfolding to_le_bytes
field bs = to_le_bytes (saturated (length bs)) ++ bs

-- All that `mac_bytes` feeds to the authenticator, in order.
unfoldable pub message : Str → Str → List ℕ
unfolding field bytes
message name repo = hmac_domain_tag ++ (field (bytes name) ++ field (bytes repo))

-- The third-party code: `Hmac<Sha256>`, `hex::encode` and `hex::decode`.
pub record Crypto : Type 0 where
  pub hmac : (key message : List ℕ) → List ℕ
  pub hex_encode : List ℕ → Str
  pub hex_decode : Str → Option (List ℕ)

module _ (crypto : Crypto) (secret : List ℕ) where
  unfoldable pub mac_bytes : Str → Str → List ℕ
  unfolding message
  mac_bytes name repo = crypto.hmac secret (message name repo)

  unfoldable pub derive : Str → Str → Str
  unfolding mac_bytes
  derive name repo = wire_prefix ++ crypto.hex_encode (mac_bytes name repo)

  -- `presented_mac.ct_eq(&expected_mac)`, once both are there.
  abbrev pub same_mac : List ℕ → Option (List ℕ) → Bool
  same_mac expected none = false
  same_mac expected (some presented) = list_beq presented expected

  abbrev pub verify_hex : List ℕ → Option Str → Bool
  verify_hex expected none = false
  verify_hex expected (some hex_part) = same_mac expected (crypto.hex_decode hex_part)

  unfoldable pub verify : Str → Str → Str → Bool
  unfolding mac_bytes strip_prefix len
  verify presented name repo =
      if len presented == len wire_prefix + hex_mac_len
      then verify_hex (mac_bytes name repo) (strip_prefix wire_prefix presented)
      else false

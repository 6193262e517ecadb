-- ===== src/Admin/Tests.antt =====
-- A `hex` and a message code of fixed length, and the theorems at them.
use bugpot.Base.{
  ℕ, zero, suc, ◌≡◌, ◌≢◌, ◌⊎◌, refl, arith, true, none, some, Option, List, [], ◌∷◌, ◌++◌, ok,
  length, ◌+◌, ◌<◌, ◌^◌, All, ◌*◌, ◌/◌, ◌%◌, list_eq, ap,
}
use bugpot.Base.Text.{Str, codes, len, bytes, encode_utf8}
use bugpot.Core.Registry.{find_by_name, insert_both, HandleRef}
use bugpot.Base.Map.{lookup, insert}
use bugpot.Core.Crud.{find_handle}
use bugpot.Core.Host.{read_spec}
use bugpot.Core.Crud.Tests.{
  services, services-IsQuiet, fresh_host, running_host, one_app, demo_ref, found,
}
use bugpot.Core.Registry.Laws.{empty-Synced}
use bugpot.Core.Tests.{demo, demo_spec}
use bugpot.Admin.DeployKey.{Crypto, derive, verify, message}
use bugpot.Admin.DeployKey.Laws.{IsByte, IsDocumented, verify-derive, verify-derive_other}
use bugpot.Admin.Auth.{require_deploy_token}
use bugpot.Admin.Handlers.{deploy, issue_deploy_key}
use bugpot.Admin.Answers.{Answered, deploy-Answered, issue_deploy_key-accepted}

-- Each byte as its two halves.
abbrev halves : List ℕ → Str
halves [] = []
halves (b ∷ bs) = b / 16 ∷ b % 16 ∷ halves bs

abbrev with_byte : ℕ → Option (List ℕ) → Option (List ℕ)
with_byte b none = none
with_byte b (some bs) = some (b ∷ bs)

abbrev joined : Str → Option (List ℕ)
joined [] = some []
joined (h ∷ []) = none
joined (h ∷ l ∷ s) = with_byte (h * 16 + l) (joined s)

joined-halves : (bs : List ℕ) → All IsByte bs → joined (halves bs) ≡ some bs
joined-halves [] h = refl
joined-halves (b ∷ bs) (hb, hs) = ground (arith, hb, joined-halves bs hs)

len-halves : (bs : List ℕ) → All IsByte bs → len (halves bs) ≡ 2 * length bs
unfolding len bytes encode_utf8
len-halves [] h = refl
len-halves (b ∷ bs) (hb, hs) = ground (arith, hb, len-halves bs hs)

-- The first 32 bytes of the message and the key.
abbrev padded : ℕ → List ℕ → List ℕ
padded zero xs = []
padded (suc n) [] = 0 ∷ padded n []
padded (suc n) (x ∷ xs) = x % 256 ∷ padded n xs

length-padded : (n : ℕ) (xs : List ℕ) → length (padded n xs) ≡ n
length-padded zero xs = refl
length-padded (suc n) [] = ap suc (length-padded n [])
length-padded (suc n) (x ∷ xs) = ap suc (length-padded n xs)

padded-IsByte : (n : ℕ) (xs : List ℕ) → All IsByte (padded n xs)
padded-IsByte zero xs = tt
padded-IsByte (suc n) [] = (omega arith, padded-IsByte n [])
padded-IsByte (suc n) (x ∷ xs) = (omega arith, padded-IsByte n xs)

abbrev toy : Crypto
toy = record { hmac = λ key msg. padded 32 (msg ++ key); hex_encode = halves; hex_decode = joined }

toy-IsDocumented : IsDocumented toy
toy-IsDocumented = record {
  decodes = joined-halves;
  two_digits = len-halves;
  hmac_length = λ key msg. length-padded 32 (msg ++ key);
  hmac_bytes = λ key msg. padded-IsByte 32 (msg ++ key);
}

abbrev secret : List ℕ
secret = 1 ∷ 2 ∷ 3 ∷ []

abbrev repo : Str
repo = codes "ghcr.io/acme/demo"

abbrev token : Str
token = derive toy secret demo repo

short : length (bytes demo) < 2 ^ 32
unfolding bytes
short = omega arith

small : length (bytes repo) < 2 ^ 32
unfolding bytes
small = omega arith

same_app : verify toy secret token demo repo ≡ true
same_app = verify-derive toy toy-IsDocumented secret demo repo

verify-derive_other_example :
    ((bytes demo ≡ bytes demo) × (bytes repo ≡ bytes repo))
    ⊎ ((message demo repo ≢ message demo repo)
        × (toy.hmac secret (message demo repo) ≡ toy.hmac secret (message demo repo)))
verify-derive_other_example =
    verify-derive_other toy toy-IsDocumented secret demo repo demo repo short short small small
      same_app

abbrev repo_of : HandleRef → Str
repo_of ref = repo

abbrev header : Str
header = codes "Bearer " ++ token

deploy-Answered_example :
    Answered services demo_spec fresh_host (deploy services demo_spec fresh_host)
deploy-Answered_example =
    deploy-Answered services demo_spec fresh_host services-IsQuiet empty-Synced

issued : (issue_deploy_key services toy secret demo running_host).0 ≡ ok (201, token)
unfolding issue_deploy_key find_handle find_by_name insert_both lookup insert read_spec
issued = refl

issue_deploy_key-accepted_example :
    require_deploy_token toy secret repo_of one_app (some demo) (some header) ≡ ok demo_ref
issue_deploy_key-accepted_example =
    issue_deploy_key-accepted services toy toy-IsDocumented secret demo demo_ref running_host
      repo_of token issued refl refl one_app found

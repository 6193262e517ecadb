-- ===== src/Config/Image.antt =====
-- `validate_repo`, `registry_host` and the registry credentials.
use bugpot.Base.{
  list_eq, ℕ, ◌≡◌, refl, String, false, ◌||◌, List, [], ◌∷◌, ◌++◌, Result, ok, err, if◌then◌else◌,
  arith, list_beq, Option, none, some,
}
use bugpot.Base.Text.{Str, is_empty, contains, last_part, first_part, codes}
use bugpot.Base.Map.{lookup}
use bugpot.Config.Spec.{InvalidSpec}

abbrev invalid : Str → String → Result (Unit {0}) InvalidSpec
invalid value reason = err (record { field = "repo"; value = value; reason = reason })

unfoldable pub validate_repo : Str → Result (Unit {0}) InvalidSpec
validate_repo s =
    if is_empty s
    then invalid s "must not be empty"
    else if contains b'@' s
    then invalid s "must not include a digest (`@sha256:…`); pin via a rollout instead"
    else if contains b':' (last_part b'/' s)
    then invalid s "must not include a tag (`:tag`); pin via a rollout instead"
    else ok tt

abbrev docker_io : Str
docker_io = codes "docker.io"

-- `image_ref.find('/')` is `none` where there is no slash.
unfoldable pub registry_host : Str → Str
registry_host image_ref =
    let first = first_part b'/' image_ref in
    if contains b'/' image_ref
    then (if contains b'.' first || contains b':' first || list_beq first (codes "localhost")
        then first
        else docker_io)
    else docker_io

pub data RegistryCredential : Type 0 where
  bearer : Str → RegistryCredential
  basic : Str → Str → RegistryCredential

pub record AuthConfig : Type 0 where
  pub registries : List (Str × RegistryCredential)

-- bugpot-runtime's `Auth`, which `resolve_auth` of crates/bugpot-core/src/lib.rs produces.
pub data Auth : Type 0 where
  anonymous : Auth
  bearer_token : Str → Auth
  basic_auth : Str → Str → Auth

abbrev credential_auth : Option RegistryCredential → Auth
credential_auth none = anonymous
credential_auth (some (bearer token)) = bearer_token token
credential_auth (some (basic username password)) = basic_auth username password

unfoldable pub resolve_auth : AuthConfig → Str → Auth
resolve_auth auth image_ref = credential_auth (lookup (registry_host image_ref) auth.registries)

-- The tag separator follows the last slash.
contains-append : (c : ℕ) (s t : Str) → contains c (s ++ t) ≡ (contains c s || contains c t)
unfolding contains
contains-append c [] t = refl
contains-append c (d ∷ s) t = ground (arith, contains-append c s t)

first_part-append : (d : ℕ) (s t : Str) → contains d s ≡ false → first_part d (s ++ d ∷ t) ≡ s
unfolding contains first_part
first_part-append d [] t h = ground arith
first_part-append d (c ∷ s) t h = ground (arith, first_part-append d s t)

-- Credentials are looked up by the registry alone: any two references that begin with the same
-- host name and a slash get the same credentials.
pub resolve_auth_of_host :
    (auth : AuthConfig) (host path path' : Str)
    → contains b'/' host ≡ false
    → resolve_auth auth (host ++ b'/' ∷ path) ≡ resolve_auth auth (host ++ b'/' ∷ path')
unfolding resolve_auth registry_host contains
resolve_auth_of_host auth host path path' h = ground (
  arith,
  first_part-append b'/' host path h,
  first_part-append b'/' host path' h,
  contains-append b'/' host (b'/' ∷ path),
  contains-append b'/' host (b'/' ∷ path'),
)

-- ===== src/Admin/Auth.antt =====
-- crates/bugpot-admin/src/auth.rs: the two bearer-token checks. Header values and their `to_str` are
-- the `http` crate's and an argument of `check`; `require_deploy_token` takes the text that `to_str`
-- gave, and the name of the matched route, which is axum's.
use mathlib.Core.Path.{subst}
use bugpot.Base.{
  ℕ, Option, none, some, List, Result, ok, err, ◌>>=◌, ok_or, list_beq, if◌then◌else◌, ◌≡◌, ◌≡◌,
  ◌↔◌, true, arith, Bool-cases, >>=-eq-ok, arith, inl, ◌∙◌, inr, ap,
}
use bugpot.Base.Text.{Str, codes, bytes, strip_prefix}
use bugpot.Core.Registry.{AppMaps, HandleRef, find_by_name}
use bugpot.Admin.DeployKey.{Crypto, verify}

abbrev pub unauthorized : ℕ
unauthorized = 401

-- `headers.get(AUTHORIZATION)`, as a text, without its scheme.
abbrev pub bearer : Option Str → Option Str
bearer none = none
bearer (some value) = strip_prefix (codes "Bearer ") value

pub record AdminAuth : Type 0 where
  pub expected_token : List ℕ

unfoldable pub from_token : Str → AdminAuth
unfolding bytes
from_token token = record { expected_token = bytes token }

-- `and_then(|v| v.to_str().ok())`: a header whose value is no visible text counts as missing.
abbrev pub text_of : {Value : Type 0} → (Value → Option Str) → Option Value → Option Str
text_of to_str none = none
text_of to_str (some value) = to_str value

unfoldable pub check :
    {Value : Type 0} → (Value → Option Str) → AdminAuth → Option Value → Result (Unit {0}) ℕ
unfolding bytes strip_prefix
check to_str auth authorization = do
  presented ← ok_or (bearer (text_of to_str authorization)) unauthorized
  if list_beq (bytes presented) auth.expected_token then ok tt else err unauthorized

ok_or-eq-ok {ℓ} :
    {A : Type ℓ} (status : ℕ) (o : Option A) {a : A} → ok_or o status ≡ ok a → o ≡ some a
ok_or-eq-ok status none e = cc
ok_or-eq-ok status (some a) e = ground arith

-- The handle that the deploy handlers get, by the route's name; `repo_of` reads the current
-- `repo` of a handle.
module _ (crypto : Crypto) (secret : List ℕ) (repo_of : HandleRef → Str) where
  unfoldable pub require_deploy_token : AppMaps → Option Str → Option Str → Result HandleRef ℕ
  unfolding verify find_by_name
  require_deploy_token registry path authorization = do
    name ← ok_or path unauthorized
    presented ← ok_or (bearer authorization) unauthorized
    handle ← ok_or (find_by_name name registry) unauthorized
    if verify crypto secret presented handle.name (repo_of handle)
        then ok handle
        else err unauthorized

  granted :
      (found : HandleRef) (presented : Str) {handle : HandleRef}
      → (if verify crypto secret presented found.name (repo_of found)
          then ok found
          else err unauthorized)
        ≡ ok handle
      → (found ≡ handle) × (verify crypto secret presented found.name (repo_of found) ≡ true)
  granted found presented e =
      elim (Bool-cases (verify crypto secret presented found.name (repo_of found))) [
        | inl accepted ↦ (ground (arith, e, accepted), accepted)
        | inr refused ↦ absurd (ground (arith, e, refused))
      ]

  -- A rollout request passes exactly when its route has a name, its bearer token is there, the name
  -- is a registered app's, and the token is that app's for its current repository; the handler gets
  -- that app's handle.
  pub require_deploy_token_iff :
      (registry : AppMaps) (path authorization : Option Str) (handle : HandleRef)
      → (require_deploy_token registry path authorization ≡ ok handle) ↔ (
          (name : Str) × (presented : Str) × (path ≡ some name)
          × (bearer authorization ≡ some presented)
          × (find_by_name name registry ≡ some handle)
          × (verify crypto secret presented handle.name (repo_of handle) ≡ true))
  unfolding require_deploy_token
  require_deploy_token_iff registry path authorization handle = (
    λ e.
        let (name, has_name, e) = >>=-eq-ok (ok_or path unauthorized) _ e in
        let (presented, has_token, e) = >>=-eq-ok (ok_or (bearer authorization) unauthorized) _ e in
        let (found, has_app, e) = >>=-eq-ok (ok_or (find_by_name name registry) unauthorized) _ e in
        let (same, accepted) = granted found presented e in
        (
          name,
          presented,
          ok_or-eq-ok unauthorized path has_name,
          ok_or-eq-ok unauthorized (bearer authorization) has_token,
          ok_or-eq-ok unauthorized (find_by_name name registry) has_app ∙ ap some same,
          subst (λ h. verify crypto secret presented h.name (repo_of h) ≡ true) same accepted,
        ),
    λ (name, presented, has_name, has_token, has_app, accepted).
        rw (has_name, has_token, has_app, accepted),
  )

  -- Every refusal is the same answer, 401, whatever it was that failed.
  pub require_deploy_token-uniform :
      (registry : AppMaps) (path authorization : Option Str) {status : ℕ}
      → require_deploy_token registry path authorization ≡ err status
      → status ≡ unauthorized
  unfolding require_deploy_token
  require_deploy_token-uniform registry path authorization e = ground (arith, e)

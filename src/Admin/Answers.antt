-- ===== src/Admin/Answers.antt =====
-- What the handlers answer, from what the controller does.
use bugpot.Base.{
  ℕ, some, List, ◌++◌, Result, ok, err, ◌≡◌, ◌⊎◌, refl, ap₂, ◌∙◌, inl, inr, ap, arith, Option-cases,
}
use bugpot.Base.Text.{Str, codes, strip_prefix-append}
use bugpot.Config.Spec.{AppSpec, InvalidSpec, subdomain}
use bugpot.Config.Validate.{validate}
use bugpot.Core.Crud.{
  DeployError, invalid_spec, already_exists, subdomain_in_use, internal, image_auth, image_pull,
  start_failed, deploy_app, find_handle,
}
use bugpot.Core.Crud.Deploy.{IsQuiet, Deployed, deploy_app-Deployed}
use bugpot.Core.Host.{read_spec}
use bugpot.Core.Registry.{
  AppMaps, HandleRef, InsertCollision, name_taken, subdomain_taken, would_collide, find_by_name,
  find_by_subdomain,
}
use bugpot.Core.Registry.Laws.{Synced}
use bugpot.Core.Store.{StoreError, persist_spec}
use bugpot.Core.View.{AppView}
use bugpot.Core.AppHost.{Services, AppHost, shared, map_error, bind_on, pure}
use bugpot.Admin.Auth.{require_deploy_token, require_deploy_token_iff}
use bugpot.Admin.DeployKey.{Crypto, derive, verify}
use bugpot.Admin.DeployKey.Laws.{IsDocumented, verify-derive}
use bugpot.Admin.Handlers.{created, deploy, issue_deploy_key}
use bugpot.Admin.Status.{deploy_status}

-- What `POST /apps` answers, from the host that it found.
abbrev pub Answered : Services → AppSpec → AppHost → Result (ℕ × AppView) ℕ × AppHost → Type 0
Answered s spec h (ok (status, view), h') =
    (status ≡ 201)
    × (view.name ≡ spec.name)
    × (ref : HandleRef) × (find_by_name spec.name h'.registry ≡ some ref)
    × (find_by_subdomain (subdomain spec) h'.registry ≡ some ref)
Answered s spec h (err status, h') =
    (h'.registry ≡ h.registry)
    × (((status ≡ 400) × (e : InvalidSpec) × (validate spec ≡ err e))
        ⊎ (((status ≡ 409)
              × (c : InsertCollision) × (would_collide spec.name (subdomain spec) h.registry
                  ≡ some c))
            ⊎ ((status ≡ 500)
                × (e : StoreError) × ((persist_spec s.toml s.fs spec.name spec h.store).0
                    ≡ err e))))

-- With no other task at the registry and the files: a deployment is answered with 201 when both
-- lookups find the app from then on. Otherwise the registry is as before, and the answer is 400 for
-- an invalid specification, 409 for a name or a label that is taken, and 500 for a file that could
-- not be written.
pub deploy-Answered :
    (s : Services) (spec : AppSpec) (h : AppHost)
    → IsQuiet s
    → Synced h.registry
    → Answered s spec h (deploy s spec h)
unfolding deploy deploy_status
deploy-Answered s spec h quiet synced =
    go (deploy_app s spec h) (deploy_app-Deployed s spec quiet h synced)
  where
    go :
        (p : Result AppView DeployError × AppHost)
        → Deployed s spec h p
        → Answered s spec h
            (bind_on (λ view. pure (created, view)) (map_error deploy_status (λ _. p) h))
    go (ok view, h') (_, _, _, ref, _, named, routed, _, view_name, _) =
        (refl, view_name, ref, named, routed)
    go (err (invalid_spec e), h') (invalid, same) =
        (ap (λ h. h.registry) same, inl (refl, e, invalid))
    go (err (already_exists _), h') (_, taken, same, _) =
        (same, inr (inl (refl, name_taken, taken)))
    go (err (subdomain_in_use _), h') (_, taken, same, _) =
        (same, inr (inl (refl, subdomain_taken, taken)))
    go (err (internal e), h') (failed, same) = (same, inr (inr (refl, e, ap (λ p. p.0) failed)))
    go (err (image_auth _), h') d = absurd d
    go (err (image_pull _), h') d = absurd d
    go (err (start_failed _), h') d = absurd d

token-derive :
    (s : Services) (crypto : Crypto) (secret : List ℕ) (name : Str) (h : AppHost) (token : Str)
    → (issue_deploy_key s crypto secret name h).0 ≡ ok (201, token)
    → token ≡ derive crypto secret name (s.env.others h.world.step h.world.handle).spec.repo
unfolding issue_deploy_key find_handle read_spec
token-derive s crypto secret name h token issued =
    elim (Option-cases (find_by_name name (shared s h).0)) [
      | inl missing ↦ absurd (ground (arith, issued, missing))
      | inr (ref, found) ↦ ground (arith, issued, found)
    ]

-- A token that was issued for a registered app opens that app's rollouts, as long as the app keeps
-- the repository that it had.
pub issue_deploy_key-accepted :
    (s : Services) (crypto : Crypto) (d : IsDocumented crypto) (secret : List ℕ) (name : Str)
    (ref : HandleRef) (h : AppHost) (repo_of : HandleRef → Str) (token : Str)
    → (issue_deploy_key s crypto secret name h).0 ≡ ok (201, token)
    → repo_of ref ≡ (s.env.others h.world.step h.world.handle).spec.repo
    → ref.name ≡ name
    → (registry : AppMaps) → find_by_name name registry ≡ some ref
    → require_deploy_token crypto secret repo_of registry
        (some name)
        (some (codes "Bearer " ++ token))
      ≡ ok ref
issue_deploy_key-accepted s crypto d secret name ref h repo_of token issued same_repo same_name
      registry here =
    let repo = (s.env.others h.world.step h.world.handle).spec.repo in
    (require_deploy_token_iff crypto secret repo_of registry (some name)
        (some (codes "Bearer " ++ token)) ref).1
      (
        name,
        token,
        refl,
        strip_prefix-append (codes "Bearer ") token,
        here,
        ap₂ (λ t n. verify crypto secret t n (repo_of ref))
              (token-derive s crypto secret name h token issued) same_name
            ∙ ap (verify crypto secret (derive crypto secret name repo) name) same_repo
            ∙ verify-derive crypto d secret name repo,
      )

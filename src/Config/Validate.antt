-- ===== src/Config/Validate.antt =====
-- `AppSpec::validate` and `AppSpec::identity`.
use bugpot.Base.{Result, ok, ◌>>◌, ◌≡◌, [], ◌↔◌, >>=-eq-ok, arith, >>-eq-ok_iff}
use bugpot.Config.Spec.{AppSpec, AppIdentity, InvalidSpec, subdomain}
use bugpot.Config.Label.{validate_dns_label, validate_dns_label_iff, IsDnsLabel}
use bugpot.Config.Volumes.{
  validate_volumes, validate_volumes_iff, AreVolumes, validate_readiness_path,
}
use bugpot.Config.Image.{validate_repo}

unfoldable pub validate : AppSpec → Result (Unit {0}) InvalidSpec
validate spec = do
  validate_dns_label "name" spec.name
  validate_dns_label "subdomain" (subdomain spec)
  validate_repo spec.repo
  validate_volumes spec.volumes
  validate_readiness_path spec.readiness.path

unfoldable pub identity : AppSpec → Result AppIdentity InvalidSpec
identity spec = do validate spec; ok (record { name = spec.name; subdomain = subdomain spec })

-- What the callers of `validate` rely on.
pub record IsValid (spec : AppSpec) : Type 0 where
  pub name : IsDnsLabel spec.name
  pub subdomain : IsDnsLabel (subdomain spec)
  pub repo : validate_repo spec.repo ≡ ok tt
  pub volumes : AreVolumes [] [] spec.volumes
  pub readiness : validate_readiness_path spec.readiness.path ≡ ok tt

-- A specification is accepted exactly when its name and its routing label are strict DNS labels,
-- its volumes are well formed and distinct, and its repository and its readiness path pass their
-- own checks.
pub validate_iff : (spec : AppSpec) → (validate spec ≡ ok tt) ↔ IsValid spec
unfolding validate
validate_iff spec =
    let (to_name, from_name) = validate_dns_label_iff "name" spec.name in
    let (to_sub, from_sub) = validate_dns_label_iff "subdomain" (subdomain spec) in
    let (to_vol, from_vol) = validate_volumes_iff spec.volumes in
    let (split, join) = >>-eq-ok_iff (validate_dns_label "name" spec.name) _ in
    let (split', join') = >>-eq-ok_iff (validate_dns_label "subdomain" (subdomain spec)) _ in
    let (split'', join'') = >>-eq-ok_iff (validate_repo spec.repo) _ in
    let (split''', join''') = >>-eq-ok_iff (validate_volumes spec.volumes) _ in
    (
      λ h.
          let (name, h) = split h in
          let (sub, h) = split' h in
          let (repo, h) = split'' h in
          let (vols, path) = split''' h in
          record {
            name = to_name name;
            subdomain = to_sub sub;
            repo = repo;
            volumes = to_vol vols;
            readiness = path;
          },
      λ v. join (
        from_name v.name,
        join' (from_sub v.subdomain, join'' (v.repo, join''' (from_vol v.volumes, v.readiness))),
      ),
    )

-- `identity` gives the name and the routing label of a valid specification, and nothing else.
pub identity-IsValid :
    (spec : AppSpec) {i : AppIdentity}
    → identity spec ≡ ok i
    → IsValid spec × (i.name ≡ spec.name) × (i.subdomain ≡ subdomain spec)
unfolding identity
identity-IsValid spec h =
    let (_, valid, e) = >>=-eq-ok (validate spec) _ h in
    ((validate_iff spec).0 valid, ground arith, ground arith)

-- ===== src/Egress/Store.antt =====
-- crates/bugpot-egress/src/endpoints.rs: the live endpoints, by name and by address.
use mathlib.Core.Option
use bugpot.Base.{
  Option-cases, inl, inr, ap, ℕ, Option, none, some, List, ◌≡◌, refl, list_eq, nat_eq, list_beq_iff,
  arith,
}
use bugpot.Base.Text.{Str}
use bugpot.Base.Map.{lookup, lookup-insert, lookup-remove}
use bugpot.Base.Map
use bugpot.Egress.Allowlist.{Rule}

-- Without the `plan` of netns.rs, which neither index reads.
pub record AllocatedApp : Type 0 where
  pub name : Str
  pub container_ip : ℕ
  pub allowlist : List Rule

pub record EndpointStore : Type 0 where
  pub by_name : List (Str × AllocatedApp)
  pub by_ip : List (ℕ × AllocatedApp)

unfoldable pub insert : AllocatedApp → EndpointStore → EndpointStore
insert app s = record {
  by_name = Map.insert app.name app s.by_name;
  by_ip = Map.insert app.container_ip app s.by_ip;
}

abbrev pub removed : Option AllocatedApp → Str → EndpointStore → EndpointStore
removed none name s = s
removed (some app) name s = record {
  by_name = Map.remove name s.by_name;
  by_ip = Map.remove app.container_ip s.by_ip;
}

unfoldable pub remove_by_name : Str → EndpointStore → Option AllocatedApp × EndpointStore
remove_by_name name s = let app = lookup name s.by_name in (app, removed app name s)

unfoldable pub lookup_by_ip : EndpointStore → ℕ → Option AllocatedApp
lookup_by_ip s ip = lookup ip s.by_ip

-- Both indexes have the same endpoints, each under its own keys.
pub record Synced (s : EndpointStore) : Type 0 where
  pub of_name :
      (name : Str) (app : AllocatedApp)
      → lookup name s.by_name ≡ some app
      → (app.name ≡ name) × (lookup app.container_ip s.by_ip ≡ some app)
  pub of_ip :
      (ip : ℕ) (app : AllocatedApp)
      → lookup ip s.by_ip ≡ some app
      → (app.container_ip ≡ ip) × (lookup app.name s.by_name ≡ some app)

-- An insertion under a name and an address that are both free keeps the indexes together, and the
-- address then leads to the endpoint.
pub insert-Synced :
    (app : AllocatedApp) (s : EndpointStore)
    → Synced s
    → lookup app.name s.by_name ≡ none
    → lookup app.container_ip s.by_ip ≡ none
    → Synced (insert app s) × (lookup_by_ip (insert app s) app.container_ip ≡ some app)
unfolding insert lookup_by_ip
insert-Synced app s h no_name no_ip = (
  record {
    of_name = λ name a e. ground (
      arith,
      lookup-insert app.name name app s.by_name,
      lookup-insert app.container_ip a.container_ip app s.by_ip,
      h.of_name name a,
      list_beq_iff app.name name,
    );
    of_ip = λ ip a e. ground (
      arith,
      lookup-insert app.container_ip ip app s.by_ip,
      lookup-insert app.name a.name app s.by_name,
      h.of_ip ip a,
      list_beq_iff app.name a.name,
      list_beq_iff app.name app.name,
    );
  },
  ground (arith, lookup-insert app.container_ip app.container_ip app s.by_ip),
)

pub remove_found :
    (name : Str) (app : AllocatedApp) (s : EndpointStore)
    → Synced s
    → lookup name s.by_name ≡ some app
    → Synced (removed (some app) name s)
remove_found name app s h found = record {
  of_name = λ k a e. ground (
    arith,
    lookup-remove name k s.by_name,
    lookup-remove app.container_ip a.container_ip s.by_ip,
    h.of_name k a,
    h.of_name name app found,
    h.of_ip app.container_ip a,
    h.of_ip a.container_ip app,
    list_beq_iff name k,
  );
  of_ip = λ ip a e. ground (
    arith,
    lookup-remove app.container_ip ip s.by_ip,
    lookup-remove name a.name s.by_name,
    h.of_ip ip a,
    h.of_name name app found,
    h.of_name name a,
    list_beq_iff name a.name,
  );
}

-- A removal answers what was stored under the name, keeps the indexes together, and leaves nothing
-- under that name and under the address of what was stored.
pub remove_by_name-Synced :
    (name : Str) (s : EndpointStore)
    → Synced s
    → let (app, s') = remove_by_name name s in
      (app ≡ lookup name s.by_name)
      × Synced s'
      × (lookup name s'.by_name ≡ none)
      × ((a : AllocatedApp) → app ≡ some a → lookup_by_ip s' a.container_ip ≡ none)
unfolding remove_by_name lookup_by_ip
remove_by_name-Synced name s h = elim (Option-cases (lookup name s.by_name)) [
  | inl none_there ↦ rw none_there (refl, h, none_there, λ a e. cc)
  | inr (app, found) ↦ rw found (
    refl,
    remove_found name app s h found,
    ground (arith, lookup-remove name name s.by_name, list_beq_iff name name),
    λ a e. ground (
      arith,
      lookup-remove app.container_ip a.container_ip s.by_ip,
      ap (λ o. Option.map (λ x. x.container_ip) o) e,
    ),
  )
]

-- ===== src/Egress/Engine/Laws.antt =====
-- The endpoints and the allocator stay together.
use mathlib.Core.Option
use bugpot.Base.{
  Result-cases, ℕ, true, false, Option, none, some, List, Result, ok, err, ◌≡◌, ap, arith, list_eq,
  nat_eq, Option-cases, inl, inr,
}
use bugpot.Base.Text.{Str}
use bugpot.Base.Map.{lookup, lookup-insert, lookup-remove}
use bugpot.Egress.Allocator.{IpAllocator, Ipv4Net, AllocError, allocate, is_allocated}
use bugpot.Egress.Allocator.Laws.{
  Allocated, allocate-Allocated, release-IsValid, release-mark_used_lem,
}
use bugpot.Egress.Allowlist.{parse, Rule}
use bugpot.Egress.Store.{
  removed, remove_found, AllocatedApp, Synced, insert, insert-Synced, remove_by_name,
}
use bugpot.Egress.Engine.{
  Egress, attach_allocated, allocated, allocate_endpoint, release_endpoint, EndpointStore,
}
use bugpot.Egress.Allocator.Laws

-- The allocator is valid, the two indexes agree, and the address of a live endpoint is allocated.
pub record IsValid (e : Egress) : Type 0 where
  pub allocator : Laws.IsValid e.allocator
  pub endpoints : Synced e.endpoints
  pub live :
      (ip : ℕ) (app : AllocatedApp)
      → lookup ip e.endpoints.by_ip ≡ some app
      → is_allocated e.allocator ip ≡ true

-- No live endpoint has an address that is not allocated.
not_live :
    (e : Egress) (ip : ℕ)
    → IsValid e
    → is_allocated e.allocator ip ≡ false
    → lookup ip e.endpoints.by_ip ≡ none
not_live e ip h was_free = elim (Option-cases (lookup ip e.endpoints.by_ip)) [
  | inl nothing ↦ nothing
  | inr (app, found) ↦ absurd (ground (arith, h.live ip app found))
]

module _ (parse_net : Str → Option Ipv4Net) (parse_addr : Str → Option Ipv4Net)
    (attach : Str → ℕ → Result (Unit {0}) Str) where
  attach_allocated-IsValid :
      (name : Str) (rules : List Rule) (ip : ℕ) (a : IpAllocator) (e : Egress)
      → IsValid e
      → lookup name e.endpoints.by_name ≡ none
      → Allocated e.allocator (ok ip, a)
      → IsValid
          (attach_allocated parse_net parse_addr attach name rules ip
            (record e { allocator = a })).1
  unfolding attach_allocated insert
  attach_allocated-IsValid name rules ip a e h free (was_free, now, others, lowest, valid) =
      let app : AllocatedApp = record { name = name; container_ip = ip; allowlist = rules } in
      let no_ip = not_live e ip h was_free in
      elim (Result-cases (attach name ip)) [
        | inl (u, at) ↦
            rw (at, attach_allocated)
              (record {
                allocator = valid;
                endpoints = (insert-Synced app e.endpoints h.endpoints free no_ip).0;
                live = λ j b found.
                    ground
                      (arith, lookup-insert ip j app e.endpoints.by_ip, others j, h.live j b, now);
              })
        | inr (why, at) ↦
            rw (at, attach_allocated)
              (record {
                allocator = release-IsValid ip a valid;
                endpoints = h.endpoints;
                live = λ j b found. ground (
                  arith,
                  (release-mark_used_lem ip a j valid).0,
                  others j,
                  h.live j b found,
                  no_ip,
                );
              })
      ]

  -- Under a name that has no live endpoint, an allocation keeps the state valid, whether it
  -- succeeds, is refused, or is rolled back.
  pub allocate_endpoint-IsValid :
      (name : Str) (allowlist : List Str) (e : Egress)
      → IsValid e
      → lookup name e.endpoints.by_name ≡ none
      → IsValid (allocate_endpoint parse_net parse_addr attach name allowlist e).1
  unfolding allocate_endpoint
  allocate_endpoint-IsValid name allowlist e h free =
      elim (Result-cases (parse parse_net parse_addr allowlist)) [
        | inl (rules, parsed) ↦
            rw (parsed, allocate_endpoint)
              (go rules (allocate e.allocator) (allocate-Allocated e.allocator h.allocator))
        | inr (why, parsed) ↦ rw (parsed, allocate_endpoint) h
      ]
    where
      go :
          (rules : List Rule) (p : Result ℕ AllocError × IpAllocator)
          → Allocated e.allocator p
          → IsValid
              (allocated parse_net parse_addr attach name rules p.0
                (record e { allocator = p.1 })).1
      go rules (ok ip, a) got = attach_allocated-IsValid name rules ip a e h free got
      go rules (err why, a) got = rw got.2 h

removing :
    (name : Str) (s : EndpointStore) {o : Option AllocatedApp}
    → lookup name s.by_name ≡ o
    → remove_by_name name s ≡ (o, removed o name s)
unfolding remove_by_name
removing name s e = ap (λ o. (o, removed o name s)) e

-- A release keeps the state valid, whether or not the kernel's part succeeds; the endpoint's address
-- can then be allocated again.
pub release_endpoint-IsValid :
    (detach : AllocatedApp → Result (Unit {0}) Str) (name : Str) (e : Egress)
    → IsValid e
    → let e' = (release_endpoint detach name e).1 in
      IsValid e'
      × ((app : AllocatedApp)
          → lookup name e.endpoints.by_name ≡ some app
          → is_allocated e'.allocator app.container_ip ≡ false)
unfolding release_endpoint
release_endpoint-IsValid detach name e h = elim (Option-cases (lookup name e.endpoints.by_name)) [
  | inl nothing ↦
      rw (nothing, removing name e.endpoints nothing, release_endpoint) (h, λ app found. cc)
  | inr (app, found) ↦
      rw
        (
          release_endpoint,
          removing name e.endpoints found,
          ap (λ p. p.1) (removing name e.endpoints found),
          found,
        )
        (
          record {
            allocator = release-IsValid app.container_ip e.allocator h.allocator;
            endpoints = remove_found name app e.endpoints h.endpoints found;
            live = λ j b there. ground (
              arith,
              lookup-remove app.container_ip j e.endpoints.by_ip,
              (release-mark_used_lem app.container_ip e.allocator j h.allocator).0,
              h.live j b,
            );
          },
          λ b same. ground (
            arith,
            (release-mark_used_lem app.container_ip e.allocator b.container_ip h.allocator).0,
            ap (λ o. Option.map (λ x. x.container_ip) o) same,
          ),
        )
]

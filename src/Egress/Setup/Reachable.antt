-- ===== src/Egress/Setup/Reachable.antt =====
-- Every state of the engine, from its start on.
use mathlib.Core.Path.{subst}
use bugpot.Base.{
  Result-cases, inl, inr, ℕ, true, Option, none, List, Result, ok, ◌≡◌, arith, list_eq, nat_eq,
}
use bugpot.Base.Text.{Str}
use bugpot.Base.Map.{lookup, lookup-insert}
use bugpot.Egress.IpSet.{member}
use bugpot.Egress.Allocator.{Ipv4Net, is_allocated}
use bugpot.Egress.Allocator.Laws.{release-IsValid, release-mark_used_lem}
use bugpot.Egress.Allowlist.{parse}
use bugpot.Egress.Store.{AllocatedApp, insert, insert-Synced}
use bugpot.Egress.Engine.{
  Egress, allocate_endpoint, reattach_endpoint, cleanup_orphan_endpoint, release_endpoint,
}
use bugpot.Egress.Engine.Laws.{allocate_endpoint-IsValid, release_endpoint-IsValid}
use bugpot.Egress.Engine.Laws
use bugpot.Egress.Setup.{NetnsHost, start}
use bugpot.Egress.Setup.Ready.{Ready, start-Ready}

module _ (parse_net parse_addr : Str → Option Ipv4Net) where
  -- One operation. A name is used for one endpoint at a time; an address of an earlier run that is
  -- taken over is an allocated one of the subnet without an endpoint, and one that is cleaned up has
  -- no endpoint.
  pub data Step : Egress → Egress → Type 0 where
    allocated :
        {e : Egress} (attach : Str → ℕ → Result (Unit {0}) Str) (name : Str) (allowlist : List Str)
        → lookup name e.endpoints.by_name ≡ none
        → Step e (allocate_endpoint parse_net parse_addr attach name allowlist e).1
    reattached :
        {e : Egress} (name : Str) (ip : ℕ) (allowlist : List Str)
        → lookup name e.endpoints.by_name ≡ none
        → lookup ip e.endpoints.by_ip ≡ none
        → is_allocated e.allocator ip ≡ true
        → Step e (reattach_endpoint parse_net parse_addr name ip allowlist e).1
    cleaned :
        {e : Egress} (ip : ℕ)
        → lookup ip e.endpoints.by_ip ≡ none
        → Step e (cleanup_orphan_endpoint ip e)
    released :
        {e : Egress} (detach : AllocatedApp → Result (Unit {0}) Str) (name : Str)
        → Step e (release_endpoint detach name e).1

  pub data Reachable (host : NetnsHost) (net : Ipv4Net) (b : ℕ) : Egress → Type 0 where
    started :
        {e : Egress} (claims : List (Str × ℕ))
        → start host net b ≡ ok (e, claims)
        → Reachable host net b e
    stepped : {e e' : Egress} → Reachable host net b e → Step e e' → Reachable host net b e'

  reattach_endpoint-IsValid :
      (name : Str) (ip : ℕ) (allowlist : List Str) (e : Egress)
      → Laws.IsValid e
      → lookup name e.endpoints.by_name ≡ none
      → lookup ip e.endpoints.by_ip ≡ none
      → is_allocated e.allocator ip ≡ true
      → Laws.IsValid (reattach_endpoint parse_net parse_addr name ip allowlist e).1
  unfolding reattach_endpoint insert
  reattach_endpoint-IsValid name ip allowlist e h no_name no_ip taken =
      elim (Result-cases (parse parse_net parse_addr allowlist)) [
        | inr (why, at) ↦ rw (at, reattach_endpoint) h
        | inl (rules, at) ↦
            let app : AllocatedApp = record { name = name; container_ip = ip; allowlist = rules } in
            rw (at, reattach_endpoint)
              (record {
                allocator = h.allocator;
                endpoints = (insert-Synced app e.endpoints h.endpoints no_name no_ip).0;
                live = λ j a found.
                    ground (arith, lookup-insert ip j app e.endpoints.by_ip, h.live j a, taken);
              })
      ]

  cleanup_orphan_endpoint-IsValid :
      (ip : ℕ) (e : Egress)
      → Laws.IsValid e
      → lookup ip e.endpoints.by_ip ≡ none
      → Laws.IsValid (cleanup_orphan_endpoint ip e)
  unfolding cleanup_orphan_endpoint
  cleanup_orphan_endpoint-IsValid ip e h no_ip = record {
    allocator = release-IsValid ip e.allocator h.allocator;
    endpoints = h.endpoints;
    live = λ j a found.
        ground (arith, (release-mark_used_lem ip e.allocator j h.allocator).0, h.live j a, no_ip);
  }

  Step-IsValid : (e e' : Egress) → Step e e' → Laws.IsValid e → Laws.IsValid e'
  Step-IsValid e _ (allocated attach name allowlist free) h =
      allocate_endpoint-IsValid parse_net parse_addr attach name allowlist e h free
  Step-IsValid e _ (reattached name ip allowlist no_name no_ip taken) h =
      reattach_endpoint-IsValid name ip allowlist e h no_name no_ip taken
  Step-IsValid e _ (cleaned ip no_ip) h = cleanup_orphan_endpoint-IsValid ip e h no_ip
  Step-IsValid e _ (released detach name) h = (release_endpoint-IsValid detach name e h).0

  -- Over a subnet that contains its hosts, every state of the engine is valid, from its start on and
  -- whatever becomes of each operation: the two indexes agree, and the address of a live endpoint is
  -- allocated. This supposes that a name has one endpoint at a time, and that an address of an earlier
  -- run is taken over or cleaned up only without an endpoint, and taken over only when allocated.
  pub Reachable-IsValid :
      (host : NetnsHost) (net : Ipv4Net) (b : ℕ) (e : Egress)
      → ((j : ℕ) → member j net.hosts ≡ true → net.contains j ≡ true)
      → Reachable host net b e
      → Laws.IsValid e
  Reachable-IsValid host net b e hosts (started claims at) =
      (subst (Ready host net b) at (start-Ready host net b hosts)).0
  Reachable-IsValid host net b e hosts (stepped {e = before} before_at step) =
      Step-IsValid before e step (Reachable-IsValid host net b before hosts before_at)

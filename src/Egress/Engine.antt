-- ===== src/Egress/Engine.antt =====
-- crates/bugpot-egress/src/lib.rs: `EgressOps for Egress`, and the claims at startup. The kernel
-- commands that attach and detach a network namespace are parameters; what comes of the best-effort
-- ones is never looked at, so they leave no trace in the state.
pub mod Laws
use bugpot.Base.{ℕ, Option, none, some, List, Result, ok, err, list_eq, length}
use bugpot.Base.Text.{Str}
use bugpot.Base.Map.{lookup}
use bugpot.Base.Map
use bugpot.Egress.Allocator.{IpAllocator, Ipv4Net, AllocError, allocate, release}
use bugpot.Egress.Allowlist.{Rule, ParseError, parse}
use bugpot.Egress.Store.{AllocatedApp, EndpointStore, insert, remove_by_name}

pub data EgressError : Type 0 where
  bad_allowlist : ParseError → EgressError
  no_address : AllocError → EgressError
  attach_endpoint detach_endpoint : Str → EgressError

pub record Egress : Type 0 where
  pub allocator : IpAllocator
  pub endpoints : EndpointStore

module _ (parse_net : Str → Option Ipv4Net) (parse_addr : Str → Option Ipv4Net) where
  module _ (attach : Str → ℕ → Result (Unit {0}) Str) where
    -- Past the allocation: attach, and roll the address back when it fails.
    unfoldable pub attach_allocated : Str → List Rule → ℕ → Egress → Result ℕ EgressError × Egress
    attach_allocated name rules ip e = elim (attach name ip) [
      | err why ↦ (err (attach_endpoint why), record e { allocator = release ip e.allocator })
      | ok _ ↦ (
        ok ip,
        record e {
          endpoints =
              insert (record { name = name; container_ip = ip; allowlist = rules }) e.endpoints;
        },
      )
    ]

    abbrev pub allocated :
        Str → List Rule → Result ℕ AllocError → Egress → Result ℕ EgressError × Egress
    allocated name rules (err why) e = (err (no_address why), e)
    allocated name rules (ok ip) e = attach_allocated name rules ip e

    unfoldable pub allocate_endpoint : Str → List Str → Egress → Result ℕ EgressError × Egress
    unfolding attach_allocated
    allocate_endpoint name allowlist e = elim (parse parse_net parse_addr allowlist) [
      | err why ↦ (err (bad_allowlist why), e)
      | ok rules ↦
          let (r, a) = allocate e.allocator in allocated name rules r (record e { allocator = a })
    ]

  unfoldable pub reattach_endpoint : Str → ℕ → List Str → Egress → Result ℕ EgressError × Egress
  reattach_endpoint name ip allowlist e = elim (parse parse_net parse_addr allowlist) [
    | err why ↦ (err (bad_allowlist why), e)
    | ok rules ↦ (
      ok ip,
      record e {
        endpoints =
            insert (record { name = name; container_ip = ip; allowlist = rules }) e.endpoints;
      },
    )
  ]

unfoldable pub cleanup_orphan_endpoint : ℕ → Egress → Egress
cleanup_orphan_endpoint ip e = record e { allocator = release ip e.allocator }

abbrev pub detached : Result (Unit {0}) Str → Result (Unit {0}) EgressError
detached (ok _) = ok tt
detached (err why) = err (detach_endpoint why)

unfoldable pub release_endpoint :
    (AllocatedApp → Result (Unit {0}) Str) → Str → Egress → Result (Unit {0}) EgressError × Egress
release_endpoint detach name e =
    let (found, endpoints) = remove_by_name name e.endpoints in
    elim found [
      | none ↦ (ok tt, e)
      | some app ↦ (
        detached (detach app),
        record { allocator = release app.container_ip e.allocator; endpoints = endpoints },
      )
    ]

-- `StartupClaims`: what was discovered and not yet claimed.
unfoldable pub claim : Str → List (Str × ℕ) → Option ℕ × List (Str × ℕ)
claim name discovered = (lookup name discovered, Map.remove name discovered)

unfoldable pub remaining : List (Str × ℕ) → ℕ
remaining discovered = length discovered

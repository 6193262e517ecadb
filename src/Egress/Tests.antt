-- ===== src/Egress/Tests.antt =====
-- A subnet of four hosts, and the theorems at it.
use mathlib.Core.Path.{subst}
use bugpot.Base.{
  err, list_beq, if◌then◌else◌, ℕ, ◌≡◌, ◌↔◌, ◌≢◌, refl, arith, true, false, none, some, List, [],
  ◌∷◌, ok, ◌==◌, leb, ◌&&◌, Some, list_eq, nat_eq, Result,
}
use bugpot.Base.Text.{Str, codes, len, trim_end}
use bugpot.Base.Map
use bugpot.Base.Map.{lookup}
use bugpot.Egress.IpSet
use bugpot.Egress.IpSet.{member}
use bugpot.Egress.Allocator.{Ipv4Net, IpAllocator, is_allocated}
use bugpot.Egress.Allocator.Laws.{IsValid}
use bugpot.Egress.Allowlist.{Rule, domain, wildcard, matches_domain, normalise_name}
use bugpot.Egress.Allowlist.Laws.{Covers, matches_domain_iff}
use bugpot.Egress.Store.{AllocatedApp, EndpointStore, Synced, insert, insert-Synced, lookup_by_ip}
use bugpot.Egress.Engine.{Egress, release_endpoint}
use bugpot.Egress.Engine.Laws.{allocate_endpoint-IsValid, release_endpoint-IsValid}
use bugpot.Egress.Engine.Laws
use bugpot.Egress.Setup.{NetnsHost, start, parse_dns_upstream}
use bugpot.Egress.Setup.Reachable.{started, stepped, reattached, released, Reachable-IsValid}
use bugpot.Egress.Engine.{reattach_endpoint}
use bugpot.Egress.Setup.Ready.{Ready, start-Ready}
use bugpot.Egress.Netns.{layout, tmp_peer_name, render_attach_endpoint, parse_app_namespaces}
use bugpot.Egress.Netns.Names.{layout_fits}
use bugpot.Egress.Dns.{Query, answer, handle_request, handle_request-answer_iff}

abbrev net : Ipv4Net
net = record { contains = λ ip. leb 10 ip && leb ip 13; hosts = 10 ∷ 11 ∷ 12 ∷ 13 ∷ [] }

hosts_inside : (j : ℕ) → member j net.hosts ≡ true → net.contains j ≡ true
hosts_inside j h = ground arith

abbrev addresses : IpAllocator
addresses = record { subnet = net; bridge_ip = 10; free = 11 ∷ 12 ∷ 13 ∷ [] }

addresses-IsValid : IsValid addresses
addresses-IsValid = record {
  order = (λ x h. ground arith, (λ x h. ground arith, (λ x h. ground arith, tt)));
  inside = λ ip h. ground arith;
  bridge = ground arith;
}

abbrev rules : List Rule
rules = domain (codes "example.com") ∷ wildcard (codes "acme.io") ∷ []

matches_domain_iff_example :
    (matches_domain rules (codes "API.example.com.") ≡ true)
    ↔ Some (Covers (normalise_name (codes "API.example.com."))) rules
matches_domain_iff_example = matches_domain_iff rules (codes "API.example.com.")

abbrev app : AllocatedApp
app = record { name = codes "demo"; container_ip = 11; allowlist = rules }

abbrev no_endpoints : EndpointStore
no_endpoints = record { by_name = []; by_ip = [] }

no_endpoints-Synced : Synced no_endpoints
unfolding lookup
no_endpoints-Synced = record { of_name = λ n a e. cc; of_ip = λ ip a e. cc }

nothing_named : lookup (codes "demo") no_endpoints.by_name ≡ none
unfolding lookup
nothing_named = refl

nothing_at : lookup 11 no_endpoints.by_ip ≡ none
unfolding lookup
nothing_at = refl

abbrev one_endpoint : EndpointStore
one_endpoint = record { by_name = (codes "demo", app) ∷ []; by_ip = (11, app) ∷ [] }

inserted : insert app no_endpoints ≡ one_endpoint
unfolding insert Map.insert
inserted = refl

one_endpoint-Synced : Synced one_endpoint
one_endpoint-Synced =
    subst Synced inserted
      (insert-Synced app no_endpoints no_endpoints-Synced nothing_named nothing_at).0

abbrev idle : Egress
idle = record { allocator = addresses; endpoints = no_endpoints }

idle-IsValid : Laws.IsValid idle
unfolding lookup
idle-IsValid = record {
  allocator = addresses-IsValid;
  endpoints = no_endpoints-Synced;
  live = λ ip a e. cc;
}

abbrev attach : Str → ℕ → Result (Unit {0}) Str
attach name ip = ok tt

abbrev busy : Egress
busy = record { allocator = record addresses { free = 12 ∷ 13 ∷ [] }; endpoints = one_endpoint }

busy-IsValid : Laws.IsValid busy
unfolding lookup is_allocated
busy-IsValid = record {
  allocator = record {
    order = (λ x h. ground arith, (λ x h. ground arith, tt));
    inside = λ ip h. ground arith;
    bridge = ground arith;
  };
  endpoints = one_endpoint-Synced;
  live = λ ip a e. ground arith;
}

release_endpoint-IsValid_example :
    let e' = (release_endpoint (λ a. ok tt) (codes "demo") busy).1 in
    Laws.IsValid e'
    × ((a : AllocatedApp)
        → lookup (codes "demo") busy.endpoints.by_name ≡ some a
        → is_allocated e'.allocator a.container_ip ≡ false)
release_endpoint-IsValid_example =
    release_endpoint-IsValid (λ a. ok tt) (codes "demo") busy busy-IsValid

abbrev query : Query
query = record { name = codes "api.example.com."; is_a = true }

abbrev upstream : Str → Result (List ℕ) Str
upstream name = ok (99 ∷ [])

handle_request-answer_iff_example :
    (handle_request upstream one_endpoint (some 11) (some query)
      ≡ (answer (99 ∷ []), (11, 99) ∷ []))
    ↔ ((true ≡ true)
        × (upstream (trim_end (λ c. c == b'.') query.name) ≡ ok (99 ∷ []))
        × ((a : AllocatedApp) × (lookup_by_ip one_endpoint 11 ≡ some a)
            × (matches_domain a.allowlist (trim_end (λ c. c == b'.') query.name) ≡ true)))
handle_request-answer_iff_example =
    handle_request-answer_iff upstream one_endpoint 11 query (99 ∷ [])

layout_fits_example :
    let plan = layout (codes "demo-a") (codes "172.20.0.2") 24 in
    (len plan.host_veth ≡ 15)
    × (peer : Str) × (tmp_peer_name plan.host_veth ≡ some peer)
    × (len peer ≡ 15)
    × (peer ≢ plan.host_veth)
    × (render_attach_endpoint (codes "bugpot0") plan ≢ none)
layout_fits_example = layout_fits (codes "demo-a") (codes "172.20.0.2") (codes "bugpot0") 24

listed :
    parse_app_namespaces (codes "bugpot-demo-a (id: 0)\nother\nbugpot-x\n")
    ≡ codes "demo-a" ∷ codes "x" ∷ []
unfolding parse_app_namespaces
listed = refl

-- An earlier run left a namespace with an address, and one without.
abbrev left_behind : NetnsHost
left_behind = record {
  netns_list = ok (record {
    success = true;
    stdout = codes "bugpot-web-a (id: 0)\nother\nbugpot-old-b\n";
    stderr = [];
  });
  addr_show = λ name. ok (record {
    success = true;
    stdout = if list_beq name (codes "web-a") then codes "2: eth0\n  inet 12/24 scope\n" else [];
    stderr = [];
  });
  parse_addr = λ s. if list_beq s (codes "12") then some 12 else none;
  install_ruleset = ok tt;
  start_dns_server = ok tt;
}

start-Ready_example : Ready left_behind net 10 (start left_behind net 10)
start-Ready_example = start-Ready left_behind net 10 hosts_inside

-- The address that was found is a claim and is not free.
starts_over :
    start left_behind net 10
    ≡ ok (
      record {
        allocator = record { subnet = net; bridge_ip = 10; free = 11 ∷ 13 ∷ [] };
        endpoints = no_endpoints;
      },
      (codes "web-a", 12) ∷ [],
    )
unfolding start IpSet.insert IpSet.remove
starts_over = refl

abbrev socket_addr : Str → Result ℕ Str
socket_addr s = if list_beq s (codes "bad") then err s else ok (len s)

upstreams : parse_dns_upstream socket_addr (codes " 1.1.1.1:53 ,,8.8.8.8:5353") ≡ ok (10 ∷ 12 ∷ [])
unfolding parse_dns_upstream len
upstreams = refl

upstream_refused : parse_dns_upstream socket_addr (codes "1.1.1.1:53,bad,,") ≡ err (codes "bad")
unfolding parse_dns_upstream
upstream_refused = refl

abbrev first : Egress
first = record {
  allocator = record { subnet = net; bridge_ip = 10; free = 11 ∷ 13 ∷ [] };
  endpoints = no_endpoints;
}

nothing_reattached :
    (lookup (codes "web-a") no_endpoints.by_name ≡ none) × (lookup 12 no_endpoints.by_ip ≡ none)
unfolding lookup
nothing_reattached = (refl, refl)

twelve_taken : is_allocated first.allocator 12 ≡ true
unfolding is_allocated
twelve_taken = refl

-- The endpoint of the earlier run is taken over, and released.
Reachable-IsValid_example :
    Laws.IsValid
      (release_endpoint
        (λ a. ok tt)
        (codes "web-a")
        (reattach_endpoint
          (λ s. none)
          (λ s. none)
          (codes "web-a")
          12
          (codes "example.com" ∷ [])
          first).1).1
Reachable-IsValid_example =
    Reachable-IsValid (λ s. none) (λ s. none) left_behind net 10
      (release_endpoint (λ a. ok tt) (codes "web-a")
        (reattach_endpoint (λ s. none) (λ s. none) (codes "web-a") 12 (codes "example.com" ∷ [])
          first).1).1
      hosts_inside
      (stepped
        (stepped (started ((codes "web-a", 12) ∷ []) starts_over) (
          reattached (codes "web-a") 12 (codes "example.com" ∷ []) nothing_reattached.0
            nothing_reattached.1 twelve_taken))
        (released (λ a. ok tt) (codes "web-a")))

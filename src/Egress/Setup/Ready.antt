-- ===== src/Egress/Setup/Ready.antt =====
-- What the engine starts with, after a run that left endpoints behind.
use bugpot.Base.{
  ◌>>◌, ◌>>=◌, map_err, ap, list_eq, nat_eq, if-cases, ℕ, Bool, true, false, List, [], ◌∷◌, Result,
  ok, err, ◌≡◌, refl, ◌∙◌, ap, arith, ◌==◌, ◌&&◌, ◌||◌, not, list_eq, nat_eq,
}
use bugpot.Base.Text.{Str}
use bugpot.Base.Map.{lookup}
use bugpot.Egress.IpSet.{member, remove, insert, member-insert, member-remove, insert-Increasing}
use bugpot.Egress.Allocator.{
  fill, IpAllocator, Ipv4Net, AllocError, exhausted, bridge_outside, new, allocate, release,
  mark_used, is_allocated,
}
use bugpot.Egress.Allocator.Laws.{IsValid, Created, new-Created, mark_used-IsValid}
use bugpot.Egress.Engine.{Egress}
use bugpot.Egress.Engine.Laws
use bugpot.Egress.Setup.{
  NetnsHost, SetupError, install_ruleset, start_dns, no_allocator, discover_endpoints, mark_all,
  probed, init_allocator, start,
}

abbrev at_net : Ipv4Net → ℕ → List ℕ → IpAllocator
at_net net b free = record { subnet = net; bridge_ip = b; free = free }

-- An address that an earlier run has left in use.
abbrev is_claimed : List (Str × ℕ) → ℕ → Bool
is_claimed [] j = false
is_claimed ((name, ip) ∷ discovered) j = j == ip || is_claimed discovered j

-- Every discovered address leaves the free set, and no other.
mark_all_lem :
    (discovered : List (Str × ℕ)) (net : Ipv4Net) (b : ℕ) (free : List ℕ)
    → IsValid (at_net net b free)
    → (left : List ℕ) × (mark_all discovered (at_net net b free) ≡ at_net net b left)
      × IsValid (at_net net b left)
      × ((j : ℕ) → member j left ≡ (member j free && not (is_claimed discovered j)))
unfolding mark_all mark_used
mark_all_lem [] net b free h = (free, refl, h, λ j. ground arith)
mark_all_lem ((name, ip) ∷ discovered) net b free h =
    let (left, same, valid, members) =
      mark_all_lem discovered net b (remove ip free) (mark_used-IsValid ip (at_net net b free) h) in
    (left, same, valid, λ j. members j ∙ ground (arith, member-remove ip j free h.order))

-- The probe gives its address back, so that the free set is as before.
abbrev Probed : Ipv4Net → ℕ → List ℕ → Result IpAllocator AllocError → Type 0
Probed net b free (err e) = (e ≡ exhausted) × (free ≡ [])
Probed net b free (ok a) =
    (left : List ℕ) × (a ≡ at_net net b left)
    × IsValid (at_net net b left)
    × ((j : ℕ) → member j left ≡ member j free)

probe_lem :
    (net : Ipv4Net) (b : ℕ) (free : List ℕ)
    → IsValid (at_net net b free)
    → Probed net b free (probed (allocate (at_net net b free)))
unfolding allocate release
probe_lem net b [] h = (refl, refl)
probe_lem net b (ip ∷ free) h =
    let ours : (not (ip == b) && net.contains ip) ≡ true = ground (arith, h.inside ip, h.bridge) in
    (
      insert ip free,
      rw ours refl,
      record {
        order = insert-Increasing ip free h.order.1;
        inside = λ j m. h.inside j (ground (arith, m, member-insert ip j free));
        bridge = ground (arith, h.bridge, member-insert ip b free);
      },
      λ j. ground (arith, member-insert ip j free),
    )

-- The allocator that the engine starts from: every host is free but the bridge's own address.
abbrev Initial : Ipv4Net → ℕ → Result IpAllocator AllocError → Type 0
Initial net b (err bridge_outside) = net.contains b ≡ false
Initial net b (err exhausted) = (j : ℕ) → (not (j == b) && member j net.hosts) ≡ false
Initial net b (ok a) =
    (left : List ℕ) × (a ≡ at_net net b left)
    × IsValid (at_net net b left)
    × ((j : ℕ) → member j left ≡ (not (j == b) && member j net.hosts))

probed_lem :
    (net : Ipv4Net) (b : ℕ) (free : List ℕ) (r : Result IpAllocator AllocError)
    → ((j : ℕ) → member j free ≡ (not (j == b) && member j net.hosts))
    → Probed net b free r
    → Initial net b r
probed_lem net b free (err exhausted) members (why, nothing) =
    λ j. ground (arith, members j, ap (member j) nothing)
probed_lem net b free (err bridge_outside) members (why, nothing) = cc
probed_lem net b free (ok a) members (left, same, valid, as_before) =
    (left, same, valid, λ j. as_before j ∙ members j)

init_allocator_lem :
    (net : Ipv4Net) (b : ℕ)
    → ((j : ℕ) → member j net.hosts ≡ true → net.contains j ≡ true)
    → Initial net b (init_allocator net b)
unfolding init_allocator new
init_allocator_lem net b hosts =
    if-cases (λ r. Created net b r → Initial net b (r >>= (λ a. probed (allocate a))))
      (net.contains b)
      (λ _ created.
        probed_lem net b (fill b net.hosts [])
          (probed (allocate (at_net net b (fill b net.hosts [])))) created.1
          (probe_lem net b (fill b net.hosts []) created.0))
      (λ _ created. created.1) (new-Created net b hosts)

-- The end of the set-up.
abbrev pub Ready : NetnsHost → Ipv4Net → ℕ → Result (Egress × List (Str × ℕ)) SetupError → Type 0
Ready host net b (err (install_ruleset why)) = host.install_ruleset ≡ err why
Ready host net b (err (start_dns why)) = host.start_dns_server ≡ err why
Ready host net b (err (no_allocator bridge_outside)) = net.contains b ≡ false
Ready host net b (err (no_allocator exhausted)) =
    (j : ℕ) → (not (j == b) && member j net.hosts) ≡ false
Ready host net b (ok (e, claims)) =
    Laws.IsValid e
    × (claims ≡ discover_endpoints host)
    × ((j : ℕ)
        → is_allocated e.allocator j
          ≡ ((not (j == b) && net.contains j) && (not (member j net.hosts) || is_claimed claims j)))

started_lem :
    (host : NetnsHost) (net : Ipv4Net) (b : ℕ) (r : Result IpAllocator AllocError)
    → Initial net b r
    → Ready host net b (
        map_err no_allocator r >>= (λ a. ok (
          record {
            allocator = mark_all (discover_endpoints host) a;
            endpoints = record { by_name = []; by_ip = [] };
          },
          discover_endpoints host,
        )))
unfolding lookup is_allocated
started_lem host net b (err bridge_outside) outside = outside
started_lem host net b (err exhausted) none_free = none_free
started_lem host net b (ok a) (free, same, valid, members) =
    let (left, marked, ready, free_after) =
      mark_all_lem (discover_endpoints host) net b free valid in
    rw (same, marked)
      (
        record {
          allocator = ready;
          endpoints = record { of_name = λ n app e. cc; of_ip = λ ip app e. cc };
          live = λ ip app e. cc;
        },
        refl,
        λ j. ground (arith, free_after j, members j),
      )

commanded_lem :
    (host : NetnsHost) (net : Ipv4Net) (b : ℕ) (i d : Result (Unit {0}) Str)
    (rest : Result (Egress × List (Str × ℕ)) SetupError)
    → host.install_ruleset ≡ i
    → host.start_dns_server ≡ d
    → Ready host net b rest
    → Ready host net b (map_err install_ruleset i >> (map_err start_dns d >> rest))
commanded_lem host net b (err why) d rest at at' h = at
commanded_lem host net b (ok _) (err why) rest at at' h = at'
commanded_lem host net b (ok _) (ok _) rest at at' h = h

-- Over a subnet that contains its hosts, the engine starts valid and hands the discovered endpoints
-- over as claims: an address is taken from the start exactly when it is in the subnet and not the
-- bridge's, and is either no host or that of a claim, so that no allocation can collide with an
-- endpoint of an earlier run before it is claimed. The start is refused only when the rules or the
-- DNS server fail, when the bridge's address is outside the subnet, or when no host is left.
pub start-Ready :
    (host : NetnsHost) (net : Ipv4Net) (b : ℕ)
    → ((j : ℕ) → member j net.hosts ≡ true → net.contains j ≡ true)
    → Ready host net b (start host net b)
unfolding start
start-Ready host net b hosts =
    commanded_lem host net b host.install_ruleset host.start_dns_server _ refl refl
      (started_lem host net b (init_allocator net b) (init_allocator_lem net b hosts))

-- ===== src/Egress/Setup.antt =====
-- crates/bugpot-egress/src/lib.rs: `Egress::new`, with the two readers of crates/bugpot-egress/src/netns.rs
-- that it discovers the endpoints of an earlier run with. What the commands and the binding of the
-- sockets give is a parameter; the set-up of the bridge, whose results are ignored, leaves no trace.
pub mod Ready
pub mod Reachable
use bugpot.Base.{
  ℕ, Bool, Option, none, some, List, [], ◌∷◌, ◌++◌, Result, ok, err, ◌>>=◌, ◌>>◌, map_err, list_eq,
  if◌then◌else◌,
}
use bugpot.Base.Text.{Str, codes, split, trim, is_empty}
use bugpot.Base.Map
use bugpot.Egress.Allocator.{IpAllocator, Ipv4Net, AllocError, new, allocate, release, mark_used}
use bugpot.Egress.Engine.{Egress}
use bugpot.Egress.Netns.{parse_app_namespaces, parse_inet_addr}

-- A socket address is its number.
pub record EgressConfig : Type 0 where
  pub dns_upstream : List ℕ

unfoldable pub validate : EgressConfig → Result (Unit {0}) Str
validate c = elim c.dns_upstream [ [] ↦ err (codes "dns_upstream is empty") | _ ∷ _ ↦ ok tt ]

module _ (parse_socket_addr : Str → Result ℕ Str) where
  unfoldable parse_parts : List Str → Result (List ℕ) Str
  unfolding trim
  parse_parts [] = ok []
  parse_parts (part ∷ parts) =
      let rest = parse_parts parts in
      if is_empty (trim part)
      then rest
      else do addr ← parse_socket_addr (trim part); addrs ← rest; ok (addr ∷ addrs)

  unfoldable pub parse_dns_upstream : Str → Result (List ℕ) Str
  unfolding parse_parts split
  parse_dns_upstream s = parse_parts (split b',' s)

-- The output of an `ip` command, its bytes decoded.
pub record Output : Type 0 where
  pub success : Bool
  pub stdout : Str
  pub stderr : Str

abbrev stdout_of : Result Output Str → Result Str Str
stdout_of (err why) = err why
stdout_of (ok output) = if output.success then ok output.stdout else err output.stderr

unfoldable list_app_namespaces : Result Output Str → Result (List Str) Str
unfolding parse_app_namespaces
list_app_namespaces output = do s ← stdout_of output; ok (parse_app_namespaces s)

pub record NetnsHost : Type 0 where
  pub netns_list : Result Output Str
  pub addr_show : Str → Result Output Str
  pub parse_addr : Str → Option ℕ
  pub install_ruleset : Result (Unit {0}) Str
  pub start_dns_server : Result (Unit {0}) Str

pub data SetupError : Type 0 where
  install_ruleset start_dns : Str → SetupError
  no_allocator : AllocError → SetupError

module _ (host : NetnsHost) where
  unfoldable read_eth0_ipv4 : Str → Result (Option ℕ) Str
  unfolding parse_inet_addr
  read_eth0_ipv4 name = do
    s ← stdout_of (host.addr_show name)
    ok (parse_inet_addr host.parse_addr s)

  abbrev found_at : Str → Result (Option ℕ) Str → List (Str × ℕ) → List (Str × ℕ)
  found_at name (err why) out = out
  found_at name (ok none) out = out
  found_at name (ok (some ip)) out = Map.insert name ip out

  unfoldable discover_each : List Str → List (Str × ℕ) → List (Str × ℕ)
  unfolding read_eth0_ipv4 Map.insert
  discover_each [] out = out
  discover_each (name ∷ names) out = discover_each names (found_at name (read_eth0_ipv4 name) out)

  abbrev discover_from : Result (List Str) Str → List (Str × ℕ)
  discover_from (err why) = []
  discover_from (ok names) = discover_each names []

  unfoldable pub discover_endpoints : List (Str × ℕ)
  unfolding discover_each list_app_namespaces
  discover_endpoints = discover_from (list_app_namespaces host.netns_list)

unfoldable pub mark_all : List (Str × ℕ) → IpAllocator → IpAllocator
unfolding mark_used
mark_all [] a = a
mark_all ((name, ip) ∷ discovered) a = mark_all discovered (mark_used ip a)

-- A probe: the lowest address is allocated and given back.
abbrev pub probed : Result ℕ AllocError × IpAllocator → Result IpAllocator AllocError
probed (err why, a) = err why
probed (ok ip, a) = ok (release ip a)

unfoldable pub init_allocator : Ipv4Net → ℕ → Result IpAllocator AllocError
unfolding new allocate release
init_allocator subnet bridge_ip = do a ← new subnet bridge_ip; probed (allocate a)

-- `Egress::new`: the engine, and the claims at startup.
unfoldable pub start : NetnsHost → Ipv4Net → ℕ → Result (Egress × List (Str × ℕ)) SetupError
unfolding init_allocator discover_endpoints mark_all
start host subnet bridge_ip = do
  map_err install_ruleset host.install_ruleset
  map_err start_dns host.start_dns_server
  a ← map_err no_allocator (init_allocator subnet bridge_ip)
  ok (
    record {
      allocator = mark_all (discover_endpoints host) a;
      endpoints = record { by_name = []; by_ip = [] };
    },
    discover_endpoints host,
  )

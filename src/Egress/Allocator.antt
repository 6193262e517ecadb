-- ===== src/Egress/Allocator.antt =====
-- crates/bugpot-egress/src/allocator.rs. An address is its number. `ipnet::Ipv4Net` is a parameter:
-- what the source asks of it is `contains` and the list `hosts`. The `BTreeSet` of free addresses
-- is a strictly increasing list.
pub mod Laws
use bugpot.Egress.IpSet.{insert, remove, member}
use bugpot.Base.{
  ℕ, Bool, true, false, Option, none, some, List, [], ◌∷◌, Result, ok, err, ◌==◌, ltb, not, ◌&&◌,
  if◌then◌else◌,
}

pub record Ipv4Net : Type 0 where
  pub contains : ℕ → Bool
  pub hosts : List ℕ

pub record IpAllocator : Type 0 where
  pub subnet : Ipv4Net
  pub bridge_ip : ℕ
  pub free : List ℕ

abbrev pub fill : ℕ → List ℕ → List ℕ → List ℕ
fill bridge_ip [] free = free
fill bridge_ip (ip ∷ hosts) free =
    fill bridge_ip hosts (if ip == bridge_ip then free else insert ip free)

pub data AllocError : Type 0 where
  bridge_outside exhausted : AllocError

unfoldable pub new : Ipv4Net → ℕ → Result IpAllocator AllocError
new subnet bridge_ip =
    if subnet.contains bridge_ip
    then ok
        (record { subnet = subnet; bridge_ip = bridge_ip; free = fill bridge_ip subnet.hosts [] })
    else err bridge_outside

unfoldable pub allocate : IpAllocator → Result ℕ AllocError × IpAllocator
allocate a = elim a.free [ [] ↦ (err exhausted, a) | ip ∷ free ↦ (ok ip, record a { free = free }) ]

unfoldable pub release : ℕ → IpAllocator → IpAllocator
release ip a =
    if not (ip == a.bridge_ip) && a.subnet.contains ip
    then record a { free = insert ip a.free }
    else a

unfoldable pub mark_used : ℕ → IpAllocator → IpAllocator
mark_used ip a = record a { free = remove ip a.free }

unfoldable pub is_allocated : IpAllocator → ℕ → Bool
is_allocated a ip = not (ip == a.bridge_ip) && a.subnet.contains ip && not (member ip a.free)

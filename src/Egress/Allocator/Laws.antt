-- ===== src/Egress/Allocator/Laws.antt =====
-- The allocator: which addresses it hands out, and that it tracks them.
use bugpot.Base.{
  if-cases, if◌then◌else◌, ◌∙◌, ℕ, true, false, List, [], ◌∷◌, Result, ok, err, ◌≡◌, refl, ◌==◌,
  not, ◌&&◌, ◌||◌, arith, ◌≤◌, if-cases,
}
use bugpot.Egress.IpSet.{
  remove-Increasing, member-remove, insert, member, Increasing, insert-Increasing,
  remove-Increasing, member-insert, member-remove,
}
use bugpot.Egress.Allocator.{
  bridge_outside, IpAllocator, Ipv4Net, AllocError, exhausted, new, allocate, release, mark_used,
  is_allocated, fill,
}

-- The free set is in order, inside the subnet, and without the bridge's own address.
pub record IsValid (a : IpAllocator) : Type 0 where
  pub order : Increasing a.free
  pub inside : (ip : ℕ) → member ip a.free ≡ true → a.subnet.contains ip ≡ true
  pub bridge : member a.bridge_ip a.free ≡ false

fill_lem :
    (b : ℕ) (hosts free : List ℕ)
    → Increasing free
    → Increasing (fill b hosts free)
      × ((j : ℕ)
          → member j (fill b hosts free) ≡ (member j free || (not (j == b) && member j hosts)))
fill_lem b [] free h = (h, λ j. ground arith)
fill_lem b (ip ∷ hosts) free h =
    let free' = if ip == b then free else insert ip free in
    let h' : Increasing free' =
      if-cases Increasing (ip == b) (λ _. h) (λ _. insert-Increasing ip free h) in
    let rest = fill_lem b hosts free' h' in
    (rest.0, λ j. rest.1 j ∙ ground (arith, member-insert ip j free))

-- The addresses of a new allocator: the hosts but the bridge's own address.
abbrev pub Created : Ipv4Net → ℕ → Result IpAllocator AllocError → Type 0
Created net b (err e) = (e ≡ bridge_outside) × (net.contains b ≡ false)
Created net b (ok a) =
    IsValid a × ((j : ℕ) → member j a.free ≡ (not (j == b) && member j net.hosts))

-- Over a subnet that contains its hosts, a new allocator is valid and has every host free but the
-- bridge's own address; it is refused only when the bridge's address is outside the subnet.
pub new-Created :
    (net : Ipv4Net) (b : ℕ)
    → ((j : ℕ) → member j net.hosts ≡ true → net.contains j ≡ true)
    → Created net b (new net b)
unfolding new
new-Created net b hosts =
    let (order, free) = fill_lem b net.hosts [] tt in
    if-cases (Created net b) (net.contains b)
      (λ e. (
        record {
          order = order;
          inside = λ j m. hosts j (ground (arith, free j));
          bridge = ground (arith, free b);
        },
        free,
      ))
      (λ e. (refl, e))

pub release-IsValid : (ip : ℕ) (a : IpAllocator) → IsValid a → IsValid (release ip a)
unfolding release
release-IsValid ip a h =
    if-cases IsValid (not (ip == a.bridge_ip) && a.subnet.contains ip)
      (λ e. record {
        order = insert-Increasing ip a.free h.order;
        inside = λ j m. ground (arith, h.inside j, member-insert ip j a.free);
        bridge = ground (arith, h.bridge, member-insert ip a.bridge_ip a.free);
      })
      (λ e. h)

pub mark_used-IsValid : (ip : ℕ) (a : IpAllocator) → IsValid a → IsValid (mark_used ip a)
unfolding mark_used
mark_used-IsValid ip a h = record {
  order = remove-Increasing ip a.free h.order;
  inside = λ j m. h.inside j (ground (arith, member-remove ip j a.free h.order));
  bridge = ground (arith, h.bridge, member-remove ip a.bridge_ip a.free h.order);
}

-- A release frees that address and no other; marking one as used takes it, when it is in the subnet
-- and not the bridge's, and no other.
pub release-mark_used_lem :
    (ip : ℕ) (a : IpAllocator) (j : ℕ)
    → IsValid a
    → (is_allocated (release ip a) j ≡ (not (j == ip) && is_allocated a j))
      × (is_allocated (mark_used ip a) j
          ≡ (if j == ip then not (j == a.bridge_ip) && a.subnet.contains j else is_allocated a j))
unfolding release mark_used is_allocated
release-mark_used_lem ip a j h =
    (ground (arith, member-insert ip j a.free), ground (arith, member-remove ip j a.free h.order))

-- The lowest free address, not allocated before and allocated from then on, with every other address
-- as before; or a refusal without a change when nothing is free.
abbrev pub Allocated : IpAllocator → Result ℕ AllocError × IpAllocator → Type 0
Allocated a (err e, a') = (e ≡ exhausted) × (a.free ≡ []) × (a' ≡ a)
Allocated a (ok ip, a') =
    (is_allocated a ip ≡ false)
    × (is_allocated a' ip ≡ true)
    × ((j : ℕ) → (j == ip) ≡ false → is_allocated a' j ≡ is_allocated a j)
    × ((j : ℕ) → member j a.free ≡ true → ip ≤ j)
    × IsValid a'

allocate_at :
    (net : Ipv4Net) (b : ℕ) (free : List ℕ)
    → let a : IpAllocator = record { subnet = net; bridge_ip = b; free = free } in
      IsValid a → Allocated a (allocate a)
unfolding allocate is_allocated
allocate_at net b [] h = (refl, refl, refl)
allocate_at net b (ip ∷ free) h = (
  ground arith,
  ground (arith, h.order.0 ip, h.inside ip),
  λ j ne. ground arith,
  λ j e. ground (arith, h.order.0 j),
  record { order = h.order.1; inside = λ j e. h.inside j (ground arith); bridge = ground arith },
)

-- A valid allocator hands out the lowest free address, which was not allocated; it is allocated from
-- then on, every other address is as before, and the allocator stays valid. It refuses only when
-- nothing is free, and is then unchanged.
pub allocate-Allocated : (a : IpAllocator) → IsValid a → Allocated a (allocate a)
allocate-Allocated a h = allocate_at a.subnet a.bridge_ip a.free h

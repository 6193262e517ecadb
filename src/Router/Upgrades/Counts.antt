-- ===== src/Router/Upgrades/Counts.antt =====
-- The permits and the counters agree with the tasks that are running.
use mathlib.Core.Option.{some-injective}
use mathlib.Core.Path.{subst}
use bugpot.Base.{
  ℕ, zero, suc, Option, none, some, List, [], ◌∷◌, ◌++◌, ◌+◌, ◌==◌, if◌then◌else◌, ◌≡◌, refl, arith,
  length, ◌≤◌, ap, ◌∙◌,
}
use bugpot.Router.Upgrades.{
  acquire_from, UpgradeSlots, new_slots, max_concurrent_upgrades, add_guard, drop_guard,
  try_acquire, drop_permit, spawn_splice, end_splice,
}

-- One step of some request or task, in any interleaving.
pub data Step : UpgradeSlots → UpgradeSlots → Type 0 where
  acquired : {p p' : UpgradeSlots} → try_acquire p ≡ some p' → Step p p'
  refused : {p : UpgradeSlots} (n : ℕ) → p.waiting ≡ suc n → Step p (drop_permit p)
  spliced :
      {p : UpgradeSlots} (counter : Option ℕ) (n : ℕ)
      → p.waiting ≡ suc n
      → Step p (spawn_splice counter p)
  ended :
      {p : UpgradeSlots} (before : List (Option ℕ)) (counter : Option ℕ) (after : List (Option ℕ))
      → p.splices ≡ before ++ counter ∷ after
      → Step p (end_splice counter (before ++ after) p)

pub data Reachable : UpgradeSlots → Type 0 where
  started : Reachable new_slots
  stepped : {p p' : UpgradeSlots} → Reachable p → Step p p' → Reachable p'

abbrev counts : ℕ → Option ℕ → ℕ
counts asked none = 0
counts asked (some id) = if id == asked then 1 else 0

-- How many tasks hold the counter.
abbrev pub held : ℕ → List (Option ℕ) → ℕ
held asked [] = 0
held asked (counter ∷ rest) = counts asked counter + held asked rest

pub record IsBalanced (p : UpgradeSlots) : Type 0 where
  pub permits : p.free + p.waiting + length p.splices ≡ max_concurrent_upgrades
  pub counted : (id : ℕ) → p.counters id ≡ held id p.splices

length-middle :
    (before : List (Option ℕ)) (counter : Option ℕ) (after : List (Option ℕ))
    → length (before ++ counter ∷ after) ≡ suc (length (before ++ after))
length-middle [] counter after = refl
length-middle (c ∷ before) counter after = ground (arith, length-middle before counter after)

held-middle :
    (id : ℕ) (before : List (Option ℕ)) (counter : Option ℕ) (after : List (Option ℕ))
    → held id (before ++ counter ∷ after) ≡ counts id counter + held id (before ++ after)
held-middle id [] counter after = refl
held-middle id (c ∷ before) counter after = omega (arith, held-middle id before counter after)

counts_small : (id : ℕ) (counter : Option ℕ) → counts id counter ≤ 1
counts_small id none = omega arith
counts_small id (some other) = ground arith

held_small : (id : ℕ) (cs : List (Option ℕ)) → held id cs ≤ length cs
held_small id [] = omega arith
held_small id (c ∷ cs) = omega (arith, counts_small id c, held_small id cs)

add_guard_lem :
    (counter : Option ℕ) (counters : ℕ → ℕ) (id : ℕ)
    → counters id ≤ 32
    → add_guard counter counters id ≡ counts id counter + counters id
unfolding add_guard
add_guard_lem none counters id small = omega arith
add_guard_lem (some other) counters id small = ground (arith, small)

drop_guard_lem :
    (counter : Option ℕ) (counters : ℕ → ℕ) (id n : ℕ)
    → counters id ≤ 32
    → counters id ≡ counts id counter + n
    → drop_guard counter counters id ≡ n
unfolding drop_guard
drop_guard_lem none counters id n small e = omega (arith, e)
drop_guard_lem (some other) counters id n small e = ground (arith, small, e)

acquire_from-IsBalanced :
    (n : ℕ) (p p' : UpgradeSlots)
    → p.free ≡ n
    → acquire_from n p ≡ some p'
    → IsBalanced p
    → IsBalanced p'
acquire_from-IsBalanced zero p p' free e b = absurd (ground (arith, e))
acquire_from-IsBalanced (suc n) p p' free e b =
    subst IsBalanced (some-injective (record p { free = n; waiting = suc p.waiting }) p' e)
      (record { permits = omega (arith, free, b.permits); counted = b.counted })

counters_small : (p : UpgradeSlots) → IsBalanced p → (id : ℕ) → p.counters id ≤ 32
counters_small p b id = omega (arith, b.counted id, held_small id p.splices, b.permits)

pub Step-IsBalanced : {p p' : UpgradeSlots} → Step p p' → IsBalanced p → IsBalanced p'
unfolding try_acquire drop_permit spawn_splice
Step-IsBalanced {p} {p'} (acquired e) b = acquire_from-IsBalanced p.free p p' refl e b
Step-IsBalanced {p} (refused n waits) b = record {
  permits = omega (arith, waits, b.permits);
  counted = b.counted;
}
Step-IsBalanced {p} (spliced counter n waits) b = record {
  permits = omega (arith, waits, b.permits);
  counted = λ id.
      omega (arith, add_guard_lem counter p.counters id (counters_small p b id), b.counted id);
}
Step-IsBalanced {p} (ended before counter after e) b = record {
  permits = omega (arith, b.permits, ap length e, length-middle before counter after);
  counted = λ id.
      drop_guard_lem counter p.counters id (held id (before ++ after)) (counters_small p b id)
        (b.counted id ∙ ap (held id) e ∙ held-middle id before counter after);
}

-- In every interleaving of requests and tasks, the free permits, those of the waiting requests and
-- those of the splicing tasks are 32 together, and each app's counter is the number of the tasks
-- that hold it: no permit is lost and no counter wraps.
pub Reachable-IsBalanced : {p : UpgradeSlots} → Reachable p → IsBalanced p
Reachable-IsBalanced started = record { permits = refl; counted = λ id. refl }
Reachable-IsBalanced (stepped reached step) = Step-IsBalanced step (Reachable-IsBalanced reached)

-- ===== src/Router/Upgrades.antt =====
-- crates/bugpot-router/src/lib.rs: the permits for upgraded connections and the apps' counters of
-- them. A counter is known by a number. Permits are held by requests that wait for the upstream and
-- by the tasks that splice; a task is its counter, if any.
pub mod Counts
use bugpot.Base.{
  ℕ, zero, suc, Bool, Option, none, some, List, [], ◌∷◌, ◌+◌, ◌-◌, ◌%◌, ◌^◌, ◌==◌, if◌then◌else◌,
}

abbrev pub max_concurrent_upgrades : ℕ
max_concurrent_upgrades = 32

pub record UpgradeSlots : Type 0 where
  pub free : ℕ
  pub waiting : ℕ
  pub splices : List (Option ℕ)
  pub counters : ℕ → ℕ

-- The state when the router starts.
abbrev pub new_slots : UpgradeSlots
new_slots = record { free = max_concurrent_upgrades; waiting = 0; splices = []; counters = λ id. 0 }

-- `fetch_add(1)` and `fetch_sub(1)` of a guard, on 64 bits.
unfoldable pub add_guard : Option ℕ → (ℕ → ℕ) → ℕ → ℕ
add_guard none counters asked = counters asked
add_guard (some id) counters asked =
    if id == asked then (counters asked + 1) % 2 ^ 64 else counters asked

unfoldable pub drop_guard : Option ℕ → (ℕ → ℕ) → ℕ → ℕ
drop_guard none counters asked = counters asked
drop_guard (some id) counters asked =
    if id == asked then (counters asked + (2 ^ 64 - 1)) % 2 ^ 64 else counters asked

abbrev pub acquire_from : ℕ → UpgradeSlots → Option UpgradeSlots
acquire_from zero p = none
acquire_from (suc free) p = some (record p { free = free; waiting = suc p.waiting })

-- `try_acquire_owned`.
unfoldable pub try_acquire : UpgradeSlots → Option UpgradeSlots
try_acquire p = acquire_from p.free p

-- The permit of a waiting request is dropped.
unfoldable pub drop_permit : UpgradeSlots → UpgradeSlots
drop_permit p = record p { free = suc p.free; waiting = p.waiting - 1 }

-- The permit goes to a new task, and the counter is raised before the task is detached.
unfoldable pub spawn_splice : Option ℕ → UpgradeSlots → UpgradeSlots
unfolding add_guard
spawn_splice counter p = record p {
  waiting = p.waiting - 1;
  splices = counter ∷ p.splices;
  counters = add_guard counter p.counters;
}

-- A task exits, however it does: its permit and its guard are dropped.
abbrev pub end_splice : Option ℕ → List (Option ℕ) → UpgradeSlots → UpgradeSlots
end_splice counter rest p = record p {
  free = suc p.free;
  splices = rest;
  counters = drop_guard counter p.counters;
}

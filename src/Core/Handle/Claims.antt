-- ===== src/Core/Handle/Claims.antt =====
-- Who may claim a start, and what a refused claim leaves.
use bugpot.Base.{ℕ, ◌≡◌, ◌≢◌, ◌↔◌, refl, Option, none, some, arith, ap}
use bugpot.Core.Handle.{
  claim_of, AppState, stopped, starting, running, frozen, rolling_over, stopping, HandleInner,
  claimed, claim_start_slot,
}

abbrev Grants : AppState → Option ℕ → Type 0
Grants s none = s ≡ stopped
Grants s (some ip) = s ≡ frozen ip

claim_of-claimed_iff :
    (n m : ℕ) (r : Option ℕ) (s : AppState)
    → ((claim_of n s).0 ≡ claimed m r) ↔ ((m ≡ n) × Grants s r)
claim_of-claimed_iff n m none stopped = ground arith
claim_of-claimed_iff n m (some ip) stopped = ground arith
claim_of-claimed_iff n m none _ = ground arith
claim_of-claimed_iff n m (some ip) _ = ground arith

-- A claim is granted exactly when the app is stopped, for a cold start, or frozen, for a resume at
-- the address that was kept; the caller then owns the new channel.
pub claim_start_slot-claimed_iff :
    (now n m : ℕ) (r : Option ℕ) (h : HandleInner)
    → ((claim_start_slot now n h).0 ≡ claimed m r) ↔ ((m ≡ n) × Grants h.state r)
unfolding claim_start_slot
claim_start_slot-claimed_iff now n m r h = claim_of-claimed_iff n m r h.state

claim_of_kept :
    (n : ℕ) (s : AppState)
    → ((r : Option ℕ) → (claim_of n s).0 ≢ claimed n r)
    → (claim_of n s).1 ≡ s
claim_of_kept n stopped h = absurd (h none refl)
claim_of_kept n (frozen ip) h = absurd (h (some ip) refl)
claim_of_kept n (starting m) h = refl
claim_of_kept n (running ip) h = refl
claim_of_kept n (rolling_over ip) h = refl
claim_of_kept n stopping h = refl

-- A claim that is not granted changes nothing but the time of the last access.
pub claim_start_slot_refused :
    (now n : ℕ) (h : HandleInner)
    → ((r : Option ℕ) → (claim_start_slot now n h).0 ≢ claimed n r)
    → (claim_start_slot now n h).1 ≡ record h { last_access = now }
unfolding claim_start_slot
claim_start_slot_refused now n h refused =
    ap (λ s. record h { last_access = now; state = s }) (claim_of_kept n h.state refused)

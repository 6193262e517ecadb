-- ===== src/Core/Handle.antt =====
-- crates/bugpot-core/src/handle.rs: the per-app handle and its state machine. A `Notify` channel
-- and an `Instant` are numbers; `Notify::new()` and `Instant::now()` are arguments.
pub mod Claims
pub mod Containers
use bugpot.Base.{
  ℕ, Bool, true, false, Option, none, some, List, [], ◌∷◌, ◌++◌, Result, ok, err, ◌==◌,
}
use bugpot.Base.Text.{Str}
use bugpot.Config.Spec.{Rollout, AppSpec, AppIdentity, InvalidSpec}
use bugpot.Config.Validate.{identity}

abbrev pub max_rollout_history : ℕ
max_rollout_history = 2

pub data Slot : Type 0 where
  a b : Slot

unfoldable pub other : Slot → Slot
other a = b
other b = a

unfoldable pub as_char : Slot → ℕ
as_char a = b'a'
as_char b = b'b'

unfoldable pub container_id : Str → Slot → Str
unfolding as_char
container_id name slot = name ++ b'-' ∷ as_char slot ∷ []

pub record DigestCache : Type 0 where
  pub repo : Str
  pub digest : Str

pub data AppState : Type 0 where
  stopped : AppState
  starting : (notify : ℕ) → AppState
  running : (container_ip : ℕ) → AppState
  frozen : (container_ip : ℕ) → AppState
  rolling_over : (from_ip : ℕ) → AppState
  stopping : AppState

pub record HandleInner : Type 0 where
  pub state : AppState
  pub current_slot : Slot
  pub last_access : ℕ
  pub rollouts : List Rollout
  pub image_digest : Option DigestCache
  pub cpu_baseline : ℕ

pub record AppHandle : Type 0 where
  pub identity : AppIdentity
  pub spec : AppSpec
  pub active_upgrades : ℕ
  pub inner : HandleInner

pub data StartClaim : Type 0 where
  ready : ℕ → StartClaim
  coalesce : ℕ → StartClaim
  wait_for_stopping : StartClaim
  claimed : (notify : ℕ) → (resume_from : Option ℕ) → StartClaim

abbrev pub live_ids : Str → Slot → AppState → List Str
live_ids name slot stopped = []
live_ids name slot (rolling_over _) = container_id name slot ∷ container_id name (other slot) ∷ []
live_ids name slot _ = container_id name slot ∷ []

unfoldable pub live_container_ids : HandleInner → Str → List Str
live_container_ids h name = live_ids name h.current_slot h.state

-- The claim that a state answers, and the state that it leaves.
abbrev pub claim_of : ℕ → AppState → StartClaim × AppState
claim_of n (running ip) = (ready ip, running ip)
claim_of n (rolling_over ip) = (ready ip, rolling_over ip)
claim_of n (starting notify) = (coalesce notify, starting notify)
claim_of n stopping = (wait_for_stopping, stopping)
claim_of n stopped = (claimed n none, starting n)
claim_of n (frozen ip) = (claimed n (some ip), starting n)

-- At the instant `now`, with `n` the channel that `Notify::new()` would give.
unfoldable pub claim_start_slot : ℕ → ℕ → HandleInner → StartClaim × HandleInner
claim_start_slot now n h =
    let (claim, state) = claim_of n h.state in
    (claim, record h { last_access = now; state = state })

unfoldable pub finish_start {ℓ} : {E : Type ℓ} → Result ℕ E → HandleInner → HandleInner
finish_start (ok ip) h = record h { state = running ip }
finish_start (err _) h = record h { state = stopped }

unfoldable pub is_running : AppState → Bool
is_running (running _) = true
is_running _ = false

unfoldable pub is_frozen : AppState → Bool
is_frozen (frozen _) = true
is_frozen _ = false

unfoldable pub is_busy : AppState → Bool
is_busy (starting _) = true
is_busy stopping = true
is_busy (rolling_over _) = true
is_busy _ = false

unfoldable pub needs_teardown : AppState → Bool
needs_teardown (running _) = true
needs_teardown (frozen _) = true
needs_teardown (starting _) = true
needs_teardown (rolling_over _) = true
needs_teardown _ = false

unfoldable pub make_handle_with_rollouts : ℕ → AppSpec → List Rollout → Result AppHandle InvalidSpec
unfolding identity
make_handle_with_rollouts now spec rollouts = elim (identity spec) [
  | err e ↦ err e
  | ok i ↦ ok (record {
    identity = i;
    spec = spec;
    active_upgrades = 0;
    inner = record {
      state = stopped;
      current_slot = a;
      last_access = now;
      rollouts = rollouts;
      image_digest = none;
      cpu_baseline = 0;
    };
  })
]

abbrev initial : Option Rollout → List Rollout
initial none = []
initial (some r) = r ∷ []

unfoldable pub make_handle : ℕ → AppSpec → Option Rollout → Result AppHandle InvalidSpec
unfolding make_handle_with_rollouts
make_handle now spec initial_rollout = make_handle_with_rollouts now spec (initial initial_rollout)

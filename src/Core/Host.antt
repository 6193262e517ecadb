-- ===== src/Core/Host.antt =====
-- What an operation of `AppHost` on one handle runs in: the traits `RuntimeOps` and `EgressOps`,
-- the readiness probe, the clock, and the other tasks, which may change the handle before each of
-- the operation's critical sections. The answers are arbitrary functions of the calls made so far.
pub mod Ledger
pub mod Rules
use bugpot.Base.{ℕ, suc, Bool, true, false, Option, List, ◌∷◌, Result, ok, err, is_ok, list_eq}
use bugpot.Base.Text.{Str}
use bugpot.Config.Spec.{AppSpec}
use bugpot.Config.Image.{Auth, AuthConfig}
use bugpot.Core.Handle.{AppHandle, HandleInner, container_id}

-- crates/bugpot-runtime/src/error.rs, its payloads as texts.
pub data RegistryError : Type 0 where
  authentication_failure unauthorized_error other_distribution_error : Str → RegistryError

pub data RuntimeError : Type 0 where
  io invalid_image_ref deserialize_config serialize_spec digest_mismatch : Str → RuntimeError
  unsupported_media_type invalid_resource oci_spec libcontainer : Str → RuntimeError
  app_not_found app_already_running other_error : Str → RuntimeError
  registry : RegistryError → RuntimeError

unfoldable pub is_registry_auth_error : RuntimeError → Bool
is_registry_auth_error (registry (authentication_failure _)) = true
is_registry_auth_error (registry (unauthorized_error _)) = true
is_registry_auth_error _ = false

-- The `anyhow::Error`s of the lifecycle, by where they come from.
pub data Failure : Type 0 where
  no_rollout : (name : Str) → Failure
  allocate_failed not_ready bad_timeout : Str → Failure
  pull_failed start_failed unfreeze_failed freeze_failed : RuntimeError → Failure

pub record Endpoint : Type 0 where
  pub container_ip : ℕ
  pub netns_path : Str

-- The calls that reach the runtime and the egress layer, with what came of them.
pub data Event : Type 0 where
  allocated : (cid : Str) → (done : Bool) → Event
  released : (cid : Str) → (done : Bool) → Event
  pulled : (image_ref : Str) → (done : Bool) → Event
  started : (cid : Str) → (done : Bool) → Event
  probed : (ip : ℕ) → (done : Bool) → Event
  stopped_app : (cid : Str) → (done : Bool) → Event
  froze : (cid : Str) → (done : Bool) → Event
  unfroze : (cid : Str) → (done : Bool) → Event
  persisted_rollouts : Event
  cleaned_container : (cid : Str) → Event
  cleaned_assets : (name : Str) → Event

pub record Env : Type 0 where
  pub others : ℕ → AppHandle → AppHandle
  pub now : ℕ → ℕ
  pub fresh : ℕ → ℕ
  pub auth : AuthConfig
  pub parse_duration : Str → Result ℕ Str
  pub allocate_endpoint : List Event → Str → List Str → Result Endpoint Str
  pub release_endpoint : List Event → Str → Result (Unit {0}) Str
  pub pull_image : List Event → Str → Auth → Result Str RuntimeError
  pub start_app : List Event → Str → AppSpec → Str → Str → Result ℕ RuntimeError
  pub stop_app : List Event → Str → Result (Unit {0}) RuntimeError
  pub freeze_app : List Event → Str → Result (Unit {0}) RuntimeError
  pub unfreeze_app : List Event → Str → Result (Unit {0}) RuntimeError
  pub wait_for_ready : List Event → ℕ → ℕ → Option Str → ℕ → Result (Unit {0}) Str

-- `step` counts the critical sections so far; `events` has the newest first.
pub record World : Type 0 where
  pub handle : AppHandle
  pub step : ℕ
  pub events : List Event

-- An `async fn` that returns a `Result`.
abbrev pub M : Type 0 → Type 0 → Type 0
M A E = World → Result A E × World

abbrev pub bind_on : {A B E : Type 0} → (A → M B E) → Result A E × World → Result B E × World
bind_on f (ok a, w) = f a w
bind_on f (err e, w) = (err e, w)

infixl 5 ◌>>=◌ ◌>>◌
abbrev pub ◌>>=◌ : {A B E : Type 0} → M A E → (A → M B E) → M B E
◌>>=◌ m f w = bind_on f (m w)

abbrev pub ◌>>◌ : {A B E : Type 0} → M A E → M B E → M B E
m >> k = m >>= λ _. k

abbrev pub pure : {A E : Type 0} → A → M A E
pure a w = (ok a, w)

abbrev pub throw : {A E : Type 0} → E → M A E
throw e w = (err e, w)

abbrev pub lift : {A E : Type 0} → Result A E → M A E
lift r w = (r, w)

abbrev pub map_error : {A E F : Type 0} → (E → F) → M A E → M A F
map_error f m w = let (r, w') = m w in elim r [ ok a ↦ (ok a, w') | err e ↦ (err (f e), w') ]

abbrev pub cleanup_on : {A E : Type 0} → (World → World) → Result A E × World → Result A E × World
cleanup_on cleanup (ok a, w) = (ok a, w)
cleanup_on cleanup (err e, w) = (err e, cleanup w)

-- `match m { Ok(a) => a, Err(e) => { cleanup; return Err(e) } }`.
abbrev pub or_cleanup : {A E : Type 0} → M A E → (World → World) → M A E
or_cleanup m cleanup w = cleanup_on cleanup (m w)

-- The result as a value: the caller goes on whichever it is.
abbrev pub attempt : {A E F : Type 0} → M A E → M (Result A E) F
attempt m w = let (r, w') = m w in (ok r, w')

abbrev pub log : Event → World → World
log e w = record w { events = e ∷ w.events }

module _ (env : Env) where
  -- Both may fail; every caller logs the failure and goes on as after a success.
  abbrev pub release_endpoint : Str → World → World
  release_endpoint cid w = log (released cid (is_ok (env.release_endpoint w.events cid))) w

  abbrev pub stop_app : Str → World → World
  stop_app cid w = log (stopped_app cid (is_ok (env.stop_app w.events cid))) w

  -- A critical section: the other tasks come first, then the lock is held for `f`.
  unfoldable pub locked : {A E : Type 0} → (HandleInner → A × HandleInner) → M A E
  locked f w =
      let h = env.others w.step w.handle in
      let (a, inner) = f h.inner in
      (ok a, record w { handle = record h { inner = inner }; step = suc w.step })

  unfoldable pub read_spec : {E : Type 0} → M AppSpec E
  read_spec w =
      let h = env.others w.step w.handle in (ok h.spec, record w { handle = h; step = suc w.step })

  unfoldable pub load_upgrades : {E : Type 0} → M ℕ E
  load_upgrades w =
      let h = env.others w.step w.handle in
      (ok h.active_upgrades, record w { handle = h; step = suc w.step })

  -- `AppHandle::current_id`; the identity never changes, so its name is an argument.
  unfoldable pub current_id : {E : Type 0} → Str → M Str E
  unfolding locked
  current_id name = locked λ inner. (container_id name inner.current_slot, inner)

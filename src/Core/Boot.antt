-- ===== src/Core/Boot.antt =====
-- crates/bugpot-core/src/ops/boot.rs: what happens before the first request, with no other task at
-- work: the containers that survived are taken over, and what has no owner is cleaned up.
pub mod Claims
pub mod Reattach
pub mod Tests
use bugpot.Base.{
  ℕ, Bool, true, false, Option, none, some, List, [], ◌∷◌, ◌++◌, Result, ok, err, map, list_eq,
  if◌then◌else◌, map_err,
}
use bugpot.Base.Text.{Str}
use bugpot.Config.Spec.{Scaling, resolve_idle_timeout}
use bugpot.Core.Handle.{
  Slot, a, b, AppState, running, frozen, starting, HandleInner, AppHandle, container_id,
}
use bugpot.Core.Host.{Env, World, M, Failure, ◌>>=◌, pure, locked}
use bugpot.Core.Lifecycle.{stop}
use bugpot.Core.Lifecycle.Running.{seen}
use bugpot.Egress.Engine.{claim}

-- The calls that reach the runtime and the egress layer. The results of the cleanups are logged and
-- never looked at.
pub data Call : Type 0 where
  cleaned_container : (cid : Str) → Call
  cleaned_orphan : (cid : Str) → (ip : ℕ) → Call
  reattached : (cid : Str) → (ip : ℕ) → Call
  ensured_log_tails : (name : Str) → Call

-- What libcontainer and the egress layer answer at startup.
pub record Survivors : Type 0 where
  pub is_container_paused : Str → Bool
  pub is_container_running : Str → Bool
  pub reattach_endpoint : Str → ℕ → List Str → Result ℕ Str
  pub now : ℕ

-- `StartupClaims`, and the calls made so far, the newest first.
pub record Boot : Type 0 where
  pub claims : List (Str × ℕ)
  pub calls : List Call

abbrev pub call : Call → Boot → Boot
call c boot = record boot { calls = c ∷ boot.calls }

abbrev pub restored : Bool → ℕ → AppState
restored true ip = frozen ip
restored false ip = running ip

module _ (s : Survivors) where
  -- `some true` for a paused container, `some false` for a running one.
  unfoldable pub is_live_slot : Str → Slot → Option Bool
  is_live_slot app_name slot =
      let cid = container_id app_name slot in
      if s.is_container_paused cid
      then some true
      else if s.is_container_running cid
      then some false
      else none

  abbrev pub purge_claimed : Str → Option ℕ → Boot → Boot
  purge_claimed cid none boot = boot
  purge_claimed cid (some ip) boot = call (cleaned_orphan cid ip) boot

  unfoldable pub purge_slot : Str → Slot → Boot → Boot
  unfolding claim
  purge_slot app_name slot boot =
      let cid = container_id app_name slot in
      let (ip, claims) = claim cid boot.claims in
      purge_claimed cid ip (record (call (cleaned_container cid) boot) { claims = claims })

  unfoldable pub purge_both_slots : Str → Boot → Boot
  unfolding purge_slot
  purge_both_slots app_name boot = purge_slot app_name b (purge_slot app_name a boot)

  abbrev pub reattach_done : AppHandle → Slot → Bool → Str → Result ℕ Str → Boot → AppHandle × Boot
  reattach_done handle slot is_paused name (err _) boot = (handle, boot)
  reattach_done handle slot is_paused name (ok ip) boot = (
    record handle {
      inner = record handle.inner {
        current_slot = slot;
        state = restored is_paused ip;
        last_access = s.now;
      };
    },
    call (ensured_log_tails name) boot,
  )

  unfoldable pub reattach_one : AppHandle → Slot → Str → ℕ → Bool → Boot → AppHandle × Boot
  reattach_one handle slot live_id container_ip is_paused boot =
      reattach_done handle slot is_paused handle.identity.name
        (s.reattach_endpoint live_id container_ip handle.spec.egress.allow)
        (call (reattached live_id container_ip) boot)

  -- A container without an endpoint is left alone, and the app stopped.
  abbrev pub reattach_claimed : AppHandle → Slot → Bool → Option ℕ → Boot → AppHandle × Boot
  reattach_claimed handle slot is_paused none boot = (handle, boot)
  reattach_claimed handle slot is_paused (some ip) boot =
      reattach_one handle slot (container_id handle.identity.name slot) ip is_paused boot

  unfoldable pub reattach_slot : AppHandle → Slot → Bool → Boot → AppHandle × Boot
  unfolding claim reattach_one
  reattach_slot handle slot is_paused boot =
      let (ip, claims) = claim (container_id handle.identity.name slot) boot.claims in
      reattach_claimed handle slot is_paused ip (record boot { claims = claims })

  -- The decision on the two slots.
  abbrev pub reattach_found : AppHandle → Option Bool → Option Bool → Boot → AppHandle × Boot
  reattach_found handle none none boot = (handle, boot)
  reattach_found handle (some is_paused) none boot = reattach_slot handle a is_paused boot
  reattach_found handle none (some is_paused) boot = reattach_slot handle b is_paused boot
  reattach_found handle (some _) (some _) boot =
      (handle, purge_both_slots handle.identity.name boot)

  unfoldable pub reattach_app : AppHandle → Boot → AppHandle × Boot
  unfolding is_live_slot reattach_slot purge_both_slots
  reattach_app handle boot =
      let name = handle.identity.name in
      reattach_found handle (is_live_slot name a) (is_live_slot name b) boot

  unfoldable pub reattach_all : List AppHandle → Boot → List AppHandle × Boot
  unfolding reattach_app
  reattach_all [] boot = ([], boot)
  reattach_all (handle ∷ handles) boot =
      let (handle', boot') = reattach_app handle boot in
      let (handles', boot'') = reattach_all handles boot' in (handle' ∷ handles', boot'')

  -- One shot: the flag is the first argument.
  unfoldable pub reattach_running : Bool → List AppHandle → Boot → List AppHandle × Boot
  unfolding reattach_all
  reattach_running true handles boot = (handles, boot)
  reattach_running false handles boot = reattach_all handles boot

-- `drain`: each endpoint that nobody claimed.
unfoldable pub cleanup_each : List (Str × ℕ) → List Call → List Call
cleanup_each [] calls = calls
cleanup_each ((cid, ip) ∷ claims) calls =
    cleanup_each claims (cleaned_orphan cid ip ∷ cleaned_container cid ∷ calls)

unfoldable pub cleanup_orphans : Boot → List Call
unfolding cleanup_each
cleanup_orphans boot = cleanup_each boot.claims boot.calls

module _ (parse_duration : Str → Result ℕ Str) where
  abbrev pub kept : AppHandle → Option ℕ → List AppHandle → List AppHandle
  kept handle (some _) rest = rest
  kept handle none rest = elim handle.inner.rollouts [ [] ↦ rest | _ ∷ _ ↦ handle ∷ rest ]

  abbrev pub after_rest :
      AppHandle
      → Option ℕ
      → Result (List AppHandle) (Str × Str)
      → Result (List AppHandle) (Str × Str)
  after_rest handle timeout (err e) = err e
  after_rest handle timeout (ok rest) = ok (kept handle timeout rest)

  -- The apps to start; a bad timeout, with the app's name, fails before any start.
  unfoldable pub always_on : List AppHandle → Result (List AppHandle) (Str × Str)
  unfolding resolve_idle_timeout
  always_on [] = ok []
  always_on (handle ∷ handles) =
      let rest = always_on handles in
      elim (resolve_idle_timeout parse_duration handle.spec.scaling) [
        | err e ↦ err (handle.identity.name, e)
        | ok timeout ↦ after_rest handle timeout rest
      ]

-- Of all the results, once they are there, the first error.
unfoldable pub first_error {ℓ} : {E : Type ℓ} → List (Result (Unit {0}) E) → Result (Unit {0}) E
first_error [] = ok tt
first_error (err e ∷ results) = err e
first_error (ok _ ∷ results) = first_error results

abbrev pub should_stop : AppState → Bool
should_stop (running _) = true
should_stop (starting _) = true
should_stop _ = false

-- `teardown`, app by app, each in its own host.
module _ (env : Env) where
  abbrev pub stop_if : Str → Bool → M (Unit {0}) Failure
  stop_if name true = stop env name
  stop_if name false = pure tt

  unfoldable pub teardown_app : Str → M (Unit {0}) Failure
  unfolding stop
  teardown_app name = do
    live ← locked env (λ inner. (should_stop inner.state, inner))
    stop_if name live

  unfoldable pub teardown : List World → List World
  unfolding teardown_app
  teardown [] = []
  teardown (w ∷ ws) = (teardown_app w.handle.identity.name w).1 ∷ teardown ws

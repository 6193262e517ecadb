-- ===== src/Core/Boot/Reattach.antt =====
-- A restart of the daemon keeps a frozen app frozen.
use bugpot.Base.{
  ℕ, true, false, none, some, List, ◌≡◌, refl, list_eq, ok, ap, ◌∙◌, sym, Bool, arith,
}
use bugpot.Base.Text.{Str}
use bugpot.Base.Map.{lookup}
use bugpot.Core.Handle.{AppHandle, Slot, a, b, other, frozen, container_id}
use bugpot.Core.Host.{Env, World, Failure, locked}
use bugpot.Core.Lifecycle.Running.{seen}
use bugpot.Core.Boot.{
  Survivors, Boot, reattach_app, reattach_slot, reattach_one, is_live_slot, teardown_app,
  should_stop, stop_if,
}
use bugpot.Egress.Engine.{claim}

-- The container of one slot is still paused, there is none in the other slot, and its endpoint is
-- there at its address.
pub record Survives (s : Survivors) (name : Str) (slot : Slot) (ip : ℕ) (boot : Boot) : Type 0 where
  pub paused : s.is_container_paused (container_id name slot) ≡ true
  pub alone_paused : s.is_container_paused (container_id name (other slot)) ≡ false
  pub alone_running : s.is_container_running (container_id name (other slot)) ≡ false
  pub endpoint : lookup (container_id name slot) boot.claims ≡ some ip
  pub reattaches :
      (allowlist : List Str) → s.reattach_endpoint (container_id name slot) ip allowlist ≡ ok ip

stop_if-idle :
    (env : Env) (name : Str) (live : Bool) (w : World)
    → live ≡ false
    → (stop_if env name live w).1 ≡ w
stop_if-idle env name false w h = refl
stop_if-idle env name true w h = absurd (ground (arith, h))

teardown_app-frozen :
    (env : Env) (name : Str) (w : World) (ip : ℕ)
    → (seen env w).state ≡ frozen ip
    → ((teardown_app env name w).1.events ≡ w.events)
      × ((teardown_app env name w).1.handle.inner ≡ seen env w)
unfolding teardown_app locked
teardown_app-frozen env name w ip at =
    let w' = (locked env {E = Failure} (λ inner. (tt, inner)) w).1 in
    let idle = stop_if-idle env name (should_stop (seen env w).state) w' (ap should_stop at) in
    (ap (λ w. w.events) idle, ap (λ w. w.handle.inner) idle)

is_live_slot-paused :
    (s : Survivors) (name : Str) (slot : Slot)
    → s.is_container_paused (container_id name slot) ≡ true
    → is_live_slot s name slot ≡ some true
unfolding is_live_slot
is_live_slot-paused s name slot h = rw h refl

is_live_slot-empty :
    (s : Survivors) (name : Str) (slot : Slot)
    → s.is_container_paused (container_id name slot) ≡ false
    → s.is_container_running (container_id name slot) ≡ false
    → is_live_slot s name slot ≡ none
unfolding is_live_slot
is_live_slot-empty s name slot h h' = rw (h, h') refl

reattach_slot-frozen :
    (s : Survivors) (handle : AppHandle) (slot : Slot) (ip : ℕ) (boot : Boot)
    → Survives s handle.identity.name slot ip boot
    → ((reattach_slot s handle slot true boot).0.inner.state ≡ frozen ip)
      × ((reattach_slot s handle slot true boot).0.inner.current_slot ≡ slot)
unfolding reattach_slot reattach_one claim
reattach_slot-frozen s handle slot ip boot v =
    rw (v.endpoint, v.reattaches handle.spec.egress.allow) (refl, refl)

reattach_app-frozen :
    (s : Survivors) (handle : AppHandle) (slot : Slot) (ip : ℕ) (boot : Boot)
    → Survives s handle.identity.name slot ip boot
    → ((reattach_app s handle boot).0.inner.state ≡ frozen ip)
      × ((reattach_app s handle boot).0.inner.current_slot ≡ slot)
unfolding reattach_app other
reattach_app-frozen s handle a ip boot v =
    let name = handle.identity.name in
    rw
      (
        is_live_slot-paused s name a v.paused,
        is_live_slot-empty s name b v.alone_paused v.alone_running,
      )
      (reattach_slot-frozen s handle a ip boot v)
reattach_app-frozen s handle b ip boot v =
    let name = handle.identity.name in
    rw
      (
        is_live_slot-paused s name b v.paused,
        is_live_slot-empty s name a v.alone_paused v.alone_running,
      )
      (reattach_slot-frozen s handle b ip boot v)

-- A frozen app goes through a restart: the shutdown makes no call for it and leaves it frozen at its
-- address; the next start, with the app loaded anew and its paused container and its endpoint still
-- there, makes it frozen again, on the same slot and at the same address.
pub restart-frozen :
    (env : Env) (w : World) (ip : ℕ) (s : Survivors) (loaded : AppHandle) (boot : Boot)
    → (seen env w).state ≡ frozen ip
    → Survives s loaded.identity.name (seen env w).current_slot ip boot
    → let before = (teardown_app env loaded.identity.name w).1 in
      let after = (reattach_app s loaded boot).0 in
      (before.events ≡ w.events)
      × (before.handle.inner.state ≡ frozen ip)
      × (after.inner.state ≡ before.handle.inner.state)
      × (after.inner.current_slot ≡ before.handle.inner.current_slot)
restart-frozen env w ip s loaded boot at v =
    let (quiet, same) = teardown_app-frozen env loaded.identity.name w ip at in
    let (state, slot) = reattach_app-frozen s loaded (seen env w).current_slot ip boot v in
    let left = ap (λ inner. inner.state) same ∙ at in
    (quiet, left, state ∙ sym left, slot ∙ sym (ap (λ inner. inner.current_slot) same))

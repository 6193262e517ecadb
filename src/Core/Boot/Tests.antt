-- ===== src/Core/Boot/Tests.antt =====
-- One surviving container, and the theorems at it.
use bugpot.Base.{ℕ, ◌≡◌, refl, false, List, [], ◌∷◌, ok, inl, inr, Some, list_beq, list_eq}
use bugpot.Base.Text.{Str, codes}
use bugpot.Base.Map.{lookup, remove}
use bugpot.Core.Handle.{AppHandle, a, other, stopped, frozen, container_id}
use bugpot.Core.Tests.{demo, demo_env, demo_handle, demo_world}
use bugpot.Core.Boot.{
  Survivors, Boot, reattach_app, reattach_running, cleanup_orphans, teardown_app, reattach_all,
  is_live_slot, reattach_slot, reattach_one,
}
use bugpot.Core.Boot.Claims.{TakesOver, CleansUp, cleanup_orphans-spares}
use bugpot.Core.Boot.Reattach.{Survives, restart-frozen}
use bugpot.Egress.Engine.{claim}

-- `demo-a` is paused, with its endpoint; `gone-b` has an endpoint, and no app.
abbrev survivors : Survivors
survivors = record {
  is_container_paused = λ cid. list_beq cid (codes "demo-a");
  is_container_running = λ cid. false;
  reattach_endpoint = λ cid ip allowlist. ok ip;
  now = 50;
}

abbrev discovered : List (Str × ℕ)
discovered = (codes "demo-a", 4) ∷ (codes "gone-b", 9) ∷ []

abbrev boot : Boot
boot = record { claims = discovered; calls = [] }

abbrev handles : List AppHandle
handles = demo_handle stopped ∷ []

demo-TakesOver :
    Some (TakesOver (codes "demo-a")) (reattach_running survivors false handles boot).1.calls
unfolding reattach_running reattach_all reattach_app is_live_slot reattach_slot reattach_one claim
    container_id lookup remove
demo-TakesOver = inr (inl refl)

cleanup_orphans-spares_example :
    Some
      (CleansUp (codes "demo-a"))
      (cleanup_orphans (record (reattach_running survivors false handles boot).1 { calls = [] }))
    → ⊥
cleanup_orphans-spares_example =
    cleanup_orphans-spares survivors handles discovered (codes "demo-a") demo-TakesOver

demo-Survives : Survives survivors demo a 4 boot
unfolding container_id lookup other
demo-Survives = record {
  paused = refl;
  alone_paused = refl;
  alone_running = refl;
  endpoint = refl;
  reattaches = λ allowlist. refl;
}

restart-frozen_example :
    let w = demo_world (frozen 4) in
    let before = (teardown_app demo_env demo w).1 in
    let after = (reattach_app survivors (demo_handle stopped) boot).0 in
    (before.events ≡ w.events)
    × (before.handle.inner.state ≡ frozen 4)
    × (after.inner.state ≡ before.handle.inner.state)
    × (after.inner.current_slot ≡ before.handle.inner.current_slot)
restart-frozen_example =
    restart-frozen demo_env (demo_world (frozen 4)) 4 survivors (demo_handle stopped) boot refl
      demo-Survives

-- ===== src/Core/Lifecycle/Cleanup.antt =====
-- A cold start that fails calls for the undoing of all that it did; one that succeeds ends in a probe
-- that passed.
use mathlib.Core.Path.{subst}
use bugpot.Base.{
  ℕ, ◌≡◌, refl, sym, ap, ◌∙◌, Bool, true, false, List, [], ◌∷◌, Result, ok, err, is_ok,
  list_beq_iff, arith, inl, inr, ◌⊎◌,
}
use bugpot.Base.Text.{Str}
use bugpot.Config.Spec.{AppSpec}
use bugpot.Core.Host.{
  Env, World, Event, Failure, Endpoint, allocated, released, pulled, started, probed, stopped_app,
  locked, release_endpoint, release_endpoint, stop_app, pure,
}
use bugpot.Core.Host.Rules.{bind_cases, guarded_cases}
use bugpot.Core.Host.Ledger.{NoDebt, owes_endpoint, owes_container}
use bugpot.Core.Lifecycle.{
  allocate_endpoint_phase, pull_image_phase, start_container_phase, readiness_phase, bring_up,
  await_ready, start_and_await, pull_and_start, digest_pinned_ref, cached_for,
}

-- What each phase adds to the calls, whatever the environment answers.
abbrev Adds : {A : Type 0} → World → Result A Failure × World → (Bool → Event) → Type 0
Adds w (r, w') e = w'.events ≡ e (is_ok r) ∷ w.events

module _ (env : Env) (name : Str) where
  allocate_endpoint_phase-events :
      (cid : Str) (spec : AppSpec) (w : World)
      → Adds w (allocate_endpoint_phase env name cid spec w) (allocated cid)
  unfolding allocate_endpoint_phase
  allocate_endpoint_phase-events cid spec w = ground arith

  pull_image_phase-events :
      (spec : AppSpec) (image_ref : Str) (w : World)
      → (ref : Str) × Adds w (pull_image_phase env name spec image_ref w) (pulled ref)
  unfolding pull_image_phase locked
  pull_image_phase-events spec image_ref w =
      let inner = (env.others w.step w.handle).inner in
      (digest_pinned_ref image_ref (cached_for spec.repo inner.image_digest), ground arith)

  start_container_phase-events :
      (cid : Str) (spec : AppSpec) (image_id : Str) (ep : Endpoint) (w : World)
      → Adds w (start_container_phase env name cid spec image_id ep w) (started cid)
  unfolding start_container_phase
  start_container_phase-events cid spec image_id ep w = ground arith

  -- A bad timeout ends the phase before any probe.
  readiness_phase-events :
      (ip : ℕ) (spec : AppSpec) (w : World)
      → Adds w (readiness_phase env name ip spec w) (probed ip)
        ⊎ (((readiness_phase env name ip spec w).1 ≡ w)
            × (is_ok (readiness_phase env name ip spec w).0 ≡ false))
  unfolding readiness_phase
  readiness_phase-events ip spec w = ground arith

-- A failed phase sequence owes nothing that was not owed before; a successful one owes the endpoint
-- and the container, and its last call was a probe of the returned address that passed.
abbrev pub Outcome : Str → List Event → Result ℕ Failure × World → Type 0
Outcome cid before (ok ip, w') =
    (owes_endpoint cid w'.events ≡ true)
    × (owes_container cid w'.events ≡ true)
    × ((es : List Event) × (w'.events ≡ probed ip true ∷ es))
Outcome cid before (err e, w') = NoDebt before w'.events

-- The calls that each failure leaves, with what was undone.
module _ (cid ref : Str) (before : List Event) where
  no_endpoint : NoDebt before (allocated cid false ∷ before)
  no_endpoint = record { endpoints = λ c h. h; containers = λ c h. h }

  no_image :
      (done : Bool)
      → NoDebt before (released cid done ∷ pulled ref false ∷ allocated cid true ∷ before)
  no_image done = record { endpoints = λ c h. ground arith; containers = λ c h. h }

  no_container :
      (done : Bool)
      → NoDebt before
          (released cid done ∷ started cid false ∷ pulled ref true ∷ allocated cid true ∷ before)
  no_container done = record { endpoints = λ c h. ground arith; containers = λ c h. h }

  abbrev up : List Event
  up = started cid true ∷ pulled ref true ∷ allocated cid true ∷ before

  not_probed : (done gone : Bool) → NoDebt before (released cid done ∷ stopped_app cid gone ∷ up)
  not_probed done gone = record {
    endpoints = λ c h. ground arith;
    containers = λ c h. ground arith;
  }

  unready :
      (ip : ℕ) (done gone : Bool)
      → NoDebt before (released cid done ∷ stopped_app cid gone ∷ probed ip false ∷ up)
  unready ip done gone = record {
    endpoints = λ c h. ground arith;
    containers = λ c h. ground arith;
  }

-- The calls after a phase, from what it adds and what it was seen to return.
calls :
    {A : Type 0} (w : World) {w' : World} {r : Result A Failure} {m : Result A Failure × World}
    {es : List Event}
    → (e : Bool → Event) → Adds w m e
    → m ≡ (r, w')
    → w.events ≡ es
    → w'.events ≡ e (is_ok r) ∷ es
calls w {r} e added same before = subst (λ r. Adds w r e) same added ∙ ap (◌∷◌ (e (is_ok r))) before

module _ (env : Env) (name cid : Str) (spec : AppSpec) (before : List Event) where
  await_ready-Outcome :
      (ref : Str) (ep : Endpoint) (w : World)
      → w.events ≡ up cid ref before
      → Outcome cid before (await_ready env name cid spec ep w)
  unfolding await_ready
  await_ready-Outcome ref ep w e =
      guarded_cases (readiness_phase env name ep.container_ip spec) w (Outcome cid before)
        (λ w. release_endpoint env cid (stop_app env cid w)) (λ _. pure ep.container_ip)
        (λ u w' r. elim (readiness_phase-events env name ep.container_ip spec w) [
          | inl added ↦
              let es = calls w (probed ep.container_ip) added r e in
              rw es (
                ground (arith, list_beq_iff cid cid),
                ground (arith, list_beq_iff cid cid),
                (up cid ref before, refl),
              )
          | inr (_, failed) ↦ cc
        ])
        (λ f w' r. elim (readiness_phase-events env name ep.container_ip spec w) [
          | inl added ↦
              rw (calls w (probed ep.container_ip) added r e) (unready cid ref before _ _ _)
          | inr (same, _) ↦
              let es : w'.events ≡ up cid ref before =
                ap (λ p. p.1.events) (sym r) ∙ ap (λ v. v.events) same ∙ e in
              rw es (not_probed cid ref before _ _)
        ])

  start_and_await-Outcome :
      (ref : Str) (ep : Endpoint) (image_id : Str) (w : World)
      → w.events ≡ pulled ref true ∷ allocated cid true ∷ before
      → Outcome cid before (start_and_await env name cid spec ep image_id w)
  unfolding start_and_await
  start_and_await-Outcome ref ep image_id w e =
      let added = start_container_phase-events env name cid spec image_id ep w in
      guarded_cases (start_container_phase env name cid spec image_id ep) w (Outcome cid before)
        (release_endpoint env cid) (λ _. await_ready env name cid spec ep)
        (λ u w' r. await_ready-Outcome ref ep w' (calls w (started cid) added r e))
        (λ f w' r. rw (calls w (started cid) added r e) (no_container cid ref before _))

  pull_and_start-Outcome :
      (image_ref : Str) (ep : Endpoint) (w : World)
      → w.events ≡ allocated cid true ∷ before
      → Outcome cid before (pull_and_start env name cid spec image_ref ep w)
  unfolding pull_and_start
  pull_and_start-Outcome image_ref ep w e =
      let (ref, added) = pull_image_phase-events env name spec image_ref w in
      guarded_cases (pull_image_phase env name spec image_ref) w (Outcome cid before)
        (release_endpoint env cid) (start_and_await env name cid spec ep)
        (λ image_id w' r.
          start_and_await-Outcome ref ep image_id w' (calls w (pulled ref) added r e))
        (λ f w' r. rw (calls w (pulled ref) added r e) (no_image cid ref before _))

-- Whatever the runtime and the egress layer answer: by its own calls, a sequence of phases that fails
-- owes no endpoint and no container that was not owed before it, and one that succeeds owes the
-- endpoint and the container, and its last call is a probe of the returned address that passed.
pub bring_up-Outcome :
    (env : Env) (name cid : Str) (spec : AppSpec) (image_ref : Str) (w : World)
    → Outcome cid w.events (bring_up env name cid spec image_ref w)
unfolding bring_up
bring_up-Outcome env name cid spec image_ref w =
    let added = allocate_endpoint_phase-events env name cid spec w in
    bind_cases (allocate_endpoint_phase env name cid spec) w (Outcome cid w.events)
      (pull_and_start env name cid spec image_ref)
      (λ ep w' r.
        pull_and_start-Outcome env name cid spec w.events image_ref ep w'
          (calls w (allocated cid) added r refl))
      (λ f w' r. rw (calls w (allocated cid) added r refl) (no_endpoint cid [] w.events))

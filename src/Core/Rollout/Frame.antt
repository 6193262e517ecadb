-- ===== src/Core/Rollout/Frame.antt =====
-- What a build of one slot leaves alone: the ledger of every other identifier.
use mathlib.Core.Path.{subst}
use bugpot.Base.{ℕ, false, List, ◌≡◌, refl, list_beq, arith, ◌∙◌}
use bugpot.Base.Text.{Str}
use bugpot.Config.Spec.{AppSpec}
use bugpot.Core.Host.{
  pure, Env, World, M, Event, Endpoint, ◌>>=◌, or_cleanup, locked, read_spec, release_endpoint,
  stop_app, Failure,
}
use bugpot.Core.Host.Rules.{bind_cases, cleanup_cases}
use bugpot.Core.Host.Ledger.{owes_endpoint, owes_container}
use bugpot.Core.Lifecycle.{
  allocate_endpoint_phase, pull_image_phase, pull_image, start_container_phase, readiness_phase,
  await_ready, start_and_await, pull_and_start, bring_up, resolve_image_ref,
}
use bugpot.Core.Rollout.{build_to_slot}

-- Between the two ledgers, only what belongs to `cid` has changed.
pub record Beside (cid : Str) (before after : List Event) : Type 0 where
  pub endpoints :
      (c : Str) → list_beq cid c ≡ false → owes_endpoint c after ≡ owes_endpoint c before
  pub containers :
      (c : Str) → list_beq cid c ≡ false → owes_container c after ≡ owes_container c before

module _ (cid : Str) where
  pub Beside-refl : (es : List Event) → Beside cid es es
  Beside-refl es = record { endpoints = λ c h. refl; containers = λ c h. refl }

  pub Beside-trans :
      {xs ys zs : List Event} → Beside cid xs ys → Beside cid ys zs → Beside cid xs zs
  Beside-trans p q = record {
    endpoints = λ c h. q.endpoints c h ∙ p.endpoints c h;
    containers = λ c h. q.containers c h ∙ p.containers c h;
  }

  -- The call, from any world, changes only what belongs to `cid`.
  abbrev pub Keeps : {A E : Type 0} → M A E → Type 0
  Keeps m = (w : World) → Beside cid w.events (m w).1.events

  pub Keeps-bind :
      {A B E : Type 0} (m : M A E) (f : A → M B E)
      → Keeps m
      → ((a : A) → Keeps (f a))
      → Keeps (m >>= f)
  Keeps-bind m f hm hf w =
      bind_cases m w (λ p. Beside cid w.events p.1.events) f
        (λ a w' e. Beside-trans (subst (λ p. Beside cid w.events p.1.events) e (hm w)) (hf a w'))
        (λ x w' e. subst (λ p. Beside cid w.events p.1.events) e (hm w))

  Keeps-cleanup :
      {A E : Type 0} (m : M A E) (cleanup : World → World)
      → Keeps m
      → ((w : World) → Beside cid w.events (cleanup w).events)
      → Keeps (or_cleanup m cleanup)
  Keeps-cleanup m cleanup hm hc w =
      cleanup_cases m w (λ p. Beside cid w.events p.1.events) cleanup
        (λ a w' e. subst (λ p. Beside cid w.events p.1.events) e (hm w))
        (λ x w' e. Beside-trans (subst (λ p. Beside cid w.events p.1.events) e (hm w)) (hc w'))

  released-Beside :
      (env : Env) (w : World) → Beside cid w.events (release_endpoint env cid w).events
  released-Beside env w = record { endpoints = λ c h. ground arith; containers = λ c h. refl }

  pub torn_down-Beside :
      (env : Env) (w : World)
      → Beside cid w.events (release_endpoint env cid (stop_app env cid w)).events
  torn_down-Beside env w = record {
    endpoints = λ c h. ground arith;
    containers = λ c h. ground arith;
  }

  module _ (env : Env) (name : Str) where
    allocate_endpoint_phase-Keeps :
        (spec : AppSpec) → Keeps (allocate_endpoint_phase env name cid spec)
    unfolding allocate_endpoint_phase
    allocate_endpoint_phase-Keeps spec w = record {
      endpoints = λ c h. ground arith;
      containers = λ c h. ground arith;
    }

    pull_image_phase-Keeps :
        (spec : AppSpec) (ref : Str) → Keeps (pull_image_phase env name spec ref)
    unfolding pull_image_phase pull_image locked
    pull_image_phase-Keeps spec ref w = record {
      endpoints = λ c h. ground arith;
      containers = λ c h. ground arith;
    }

    start_container_phase-Keeps :
        (spec : AppSpec) (image_id : Str) (ep : Endpoint)
        → Keeps (start_container_phase env name cid spec image_id ep)
    unfolding start_container_phase
    start_container_phase-Keeps spec image_id ep w = record {
      endpoints = λ c h. ground arith;
      containers = λ c h. ground arith;
    }

    readiness_phase-Keeps : (ip : ℕ) (spec : AppSpec) → Keeps (readiness_phase env name ip spec)
    unfolding readiness_phase
    readiness_phase-Keeps ip spec w = record {
      endpoints = λ c h. ground arith;
      containers = λ c h. ground arith;
    }

    await_ready-Keeps : (spec : AppSpec) (ep : Endpoint) → Keeps (await_ready env name cid spec ep)
    unfolding await_ready
    await_ready-Keeps spec ep =
        let undo : World → World = λ w. release_endpoint env cid (stop_app env cid w) in
        Keeps-bind (or_cleanup (readiness_phase env name ep.container_ip spec) undo)
          (λ _. pure ep.container_ip)
          (Keeps-cleanup (readiness_phase env name ep.container_ip spec) undo
            (readiness_phase-Keeps ep.container_ip spec) (torn_down-Beside env))
          (λ _ w. Beside-refl w.events)

    start_and_await-Keeps :
        (spec : AppSpec) (ep : Endpoint) (image_id : Str)
        → Keeps (start_and_await env name cid spec ep image_id)
    unfolding start_and_await
    start_and_await-Keeps spec ep image_id =
        let start = start_container_phase env name cid spec image_id ep in
        Keeps-bind (or_cleanup start (release_endpoint env cid))
          (λ _. await_ready env name cid spec ep)
          (Keeps-cleanup start (release_endpoint env cid)
            (start_container_phase-Keeps spec image_id ep) (released-Beside env))
          (λ _. await_ready-Keeps spec ep)

    pull_and_start-Keeps :
        (spec : AppSpec) (ref : Str) (ep : Endpoint)
        → Keeps (pull_and_start env name cid spec ref ep)
    unfolding pull_and_start
    pull_and_start-Keeps spec ref ep =
        let pull = pull_image_phase env name spec ref in
        Keeps-bind (or_cleanup pull (release_endpoint env cid))
          (start_and_await env name cid spec ep)
          (Keeps-cleanup pull (release_endpoint env cid) (pull_image_phase-Keeps spec ref)
            (released-Beside env))
          (start_and_await-Keeps spec ep)

    bring_up-Keeps : (spec : AppSpec) (ref : Str) → Keeps (bring_up env name cid spec ref)
    unfolding bring_up
    bring_up-Keeps spec ref =
        Keeps-bind (allocate_endpoint_phase env name cid spec)
          (pull_and_start env name cid spec ref) (allocate_endpoint_phase-Keeps spec)
          (pull_and_start-Keeps spec ref)

    resolve_image_ref-Keeps : (spec : AppSpec) → Keeps (resolve_image_ref env name spec)
    unfolding resolve_image_ref locked
    resolve_image_ref-Keeps spec w = record {
      endpoints = λ c h. ground arith;
      containers = λ c h. ground arith;
    }

    read_spec-Keeps : Keeps (read_spec env {E = Failure})
    unfolding read_spec
    read_spec-Keeps w = Beside-refl w.events

    -- Whatever the environment answers, the calls of a build change the ledger of that slot only.
    pub build_to_slot-Keeps : Keeps (build_to_slot env name cid)
    unfolding build_to_slot
    build_to_slot-Keeps =
        let build : AppSpec → M ℕ Failure =
          λ spec. resolve_image_ref env name spec >>= bring_up env name cid spec in
        Keeps-bind (read_spec env {E = Failure}) build read_spec-Keeps (λ spec.
          Keeps-bind (resolve_image_ref env name spec) (bring_up env name cid spec)
            (resolve_image_ref-Keeps spec) (bring_up-Keeps spec))

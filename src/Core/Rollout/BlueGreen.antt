-- ===== src/Core/Rollout/BlueGreen.antt =====
-- `do_blue_green`: which of its own calls it makes up for, and what it leaves of the other tasks'
-- work.
use mathlib.Core.Path.{subst}
use bugpot.Base.{
  refl, if◌then◌else◌, is_ok, true, false, List, [], ◌∷◌, Result, ok, err, ◌≡◌, list_beq,
  list_beq_iff, arith, sym, inl, inr, Bool-cases, ℕ, Bool, ◌∙◌, ◌∙◌, ap,
}
use bugpot.Base.Text.{Str}
use bugpot.Core.Handle.{Slot, container_id, other, HandleInner, HandleInner}
use bugpot.Core.Handle.Containers.{container_id-other-ne}
use bugpot.Core.Host.{Env, World, Event, Failure, read_spec, locked, locked, released, stopped_app}
use bugpot.Core.Host.Ledger.{owes_endpoint, owes_container}
use bugpot.Core.Lifecycle.{teardown_containers}
use bugpot.Core.Lifecycle.Cleanup.{Outcome}
use bugpot.Core.Lifecycle.Running.{resolved-Outcome, seen}
use bugpot.Core.Rollout.{
  conflict, start_failed, build_to_slot, switched_over, conclude, drain_active_upgrades,
  RolloutError, do_blue_green, switch, is_rolling_over, restore,
}
use bugpot.Core.Rollout.Frame.{Beside-trans, Beside, build_to_slot-Keeps}
use bugpot.Core.Rollout.Drain.{drain_from-events, drain_from-is_ok}
use bugpot.Core.Host.Rules.{bind_cases}

build_to_slot-Outcome :
    (env : Env) (name to : Str) (w : World) → Outcome to w.events (build_to_slot env name to w)
unfolding build_to_slot read_spec
build_to_slot-Outcome env name to w =
    let w' = (read_spec env {E = Failure} w).1 in
    resolved-Outcome env name to (env.others w.step w.handle).spec w'

-- Neither an endpoint to give up nor a container to stop: the last two calls were for them.
abbrev pub Cleared : Str → List Event → Type 0
Cleared cid es =
    (owes_endpoint cid es ≡ false)
    × (owes_container cid es ≡ false)
    × ((earlier : List Event) × (stopped : Bool) × (freed : Bool) × (es
          ≡ released cid freed ∷ stopped_app cid stopped ∷ earlier))

abbrev pub Owed : Str → List Event → Type 0
Owed cid es = (owes_endpoint cid es ≡ true) × (owes_container cid es ≡ true)

teardown_one :
    (env : Env) (cid : Str) (w : World) → Cleared cid (teardown_containers env (cid ∷ []) w).events
unfolding teardown_containers
teardown_one env cid w = (
  ground (arith, list_beq_iff cid cid),
  ground (arith, list_beq_iff cid cid),
  (w.events, _, _, refl),
)

teardown_other :
    (env : Env) (cid c : Str) (w : World)
    → list_beq cid c ≡ false
    → (owes_endpoint c (teardown_containers env (cid ∷ []) w).events ≡ owes_endpoint c w.events)
      × (owes_container c (teardown_containers env (cid ∷ []) w).events ≡ owes_container c w.events)
unfolding teardown_containers
teardown_other env cid c w h = (ground arith, ground arith)

teardown_one-Beside :
    (env : Env) (cid : Str) (w : World)
    → Beside cid w.events (teardown_containers env (cid ∷ []) w).events
teardown_one-Beside env cid w = record {
  endpoints = λ c h. (teardown_other env cid c w h).0;
  containers = λ c h. (teardown_other env cid c w h).1;
}

module _ (name : Str) (slot : Slot) where
  abbrev from_id : Str
  from_id = container_id name slot

  abbrev to_id : Str
  to_id = container_id name (other slot)

  ids_ne : list_beq from_id to_id ≡ false
  ids_ne = elim (Bool-cases (list_beq from_id to_id)) [
    | inl e ↦ absurd (container_id-other-ne name slot (sym ((list_beq_iff from_id to_id).0 e)))
    | inr e ↦ e
  ]

  -- After a switch, the new slot's calls stand and the old slot has been asked to go; after any
  -- error, the new slot has been asked to go. Of other identifiers, in the second case of the old
  -- slot too, no call has changed what is owed.
  abbrev pub Rolled : {E : Type 0} → List Event → Result (Unit {0}) E × World → Type 0
  Rolled before (ok _, w') =
      Owed to_id w'.events
      × Cleared from_id w'.events
      × ((c : Str)
          → list_beq to_id c ≡ false
          → list_beq from_id c ≡ false
          → (owes_endpoint c w'.events ≡ owes_endpoint c before)
            × (owes_container c w'.events ≡ owes_container c before))
  Rolled before (err e, w') = Cleared to_id w'.events × Beside to_id before w'.events

  module _ (env : Env) (before : List Event) where
    drained-Rolled :
        (w : World)
        → Owed to_id w.events
        → Beside to_id before w.events
        → Rolled {E = RolloutError} before (ok tt, teardown_containers env (from_id ∷ []) w)
    drained-Rolled w held beside =
        let at_to = teardown_other env from_id to_id w ids_ne in
        (
          (at_to.0 ∙ held.0, at_to.1 ∙ held.1),
          teardown_one env from_id w,
          λ c h h'.
              let at = teardown_other env from_id c w h' in
              (at.0 ∙ beside.endpoints c h, at.1 ∙ beside.containers c h),
        )

    switched_over-Rolled :
        (rounds : ℕ) (w : World)
        → Owed to_id w.events
        → Beside to_id before w.events
        → Rolled before (switched_over env name rounds slot w)
    unfolding switched_over drain_active_upgrades
    switched_over-Rolled rounds w held beside =
        let start = env.now w.step in
        let same = drain_from-events RolloutError env name start rounds w in
        bind_cases (drain_active_upgrades env name {E = RolloutError} rounds) w (Rolled before)
          (λ _ w. (ok tt, teardown_containers env (from_id ∷ []) w))
          (λ b u r.
            let es : w.events ≡ u.events = sym same ∙ ap (λ p. p.1.events) r in
            drained-Rolled u (subst (Owed to_id) es held) (subst (Beside to_id before) es beside))
          (λ x u r.
            let fine = drain_from-is_ok RolloutError env name start rounds w in
            absurd (ground (arith, sym (ap (λ p. is_ok p.0) r) ∙ fine)))

    abandoned-Rolled :
        (e : RolloutError) (w : World)
        → Beside to_id before w.events
        → Rolled before (err e, teardown_containers env (to_id ∷ []) w)
    abandoned-Rolled e w beside =
        (teardown_one env to_id w, Beside-trans to_id beside (teardown_one-Beside env to_id w))

    decided-Rolled :
        (rounds : ℕ) (switched : Bool) (w : World)
        → Owed to_id w.events
        → Beside to_id before w.events
        → Rolled before (
            (if switched then switched_over env name rounds slot else λ w.
            (err (conflict name), teardown_containers env (to_id ∷ []) w))
              w)
    decided-Rolled rounds true w held beside = switched_over-Rolled rounds w held beside
    decided-Rolled rounds false w held beside = abandoned-Rolled (conflict name) w beside

    conclude-Rolled :
        (rounds from_ip : ℕ) (r : Result ℕ Failure) (w : World)
        → Outcome to_id before (r, w)
        → Beside to_id before w.events
        → Rolled before (conclude env name rounds from_ip slot r w)
    unfolding conclude locked
    conclude-Rolled rounds from_ip (ok ip) w h beside =
        let swap = switch ip (other slot) in
        decided-Rolled rounds (swap (seen env w)).0 (locked env {E = RolloutError} swap w).1
          (h.0, h.1) beside
    conclude-Rolled rounds from_ip (err e) w h beside =
        abandoned-Rolled (start_failed e) (locked env {E = RolloutError} (restore from_ip) w).1
          beside

-- About the calls of one blue-green rollout, for all answers of the runtime and the egress layer and
-- all changes of the handle by other tasks, whose own calls are not counted. When it succeeds, it has
-- allocated the new slot's endpoint and started its container, has taken neither back, and its last
-- calls were for the stop of the old slot's container and the release of its endpoint. When it fails,
-- in the build, also one that has undone its own phases, or because the state drifted, its last calls
-- were for the stop and the release of the new slot, so that nothing allocated or started there is
-- without a later call to release or stop it. It neither adds to nor settles what is owed for any
-- other identifier; when it fails, that includes the old slot. A stop or release counts as called
-- for whether or not it then succeeds.
pub do_blue_green-Rolled :
    (env : Env) (name : Str) (rounds from_ip : ℕ) (w : World)
    → Rolled name (seen env w).current_slot w.events (do_blue_green env name rounds from_ip w)
unfolding do_blue_green locked
do_blue_green-Rolled env name rounds from_ip w =
    let slot = (seen env w).current_slot in
    let to = container_id name (other slot) in
    let w' = (locked env {E = RolloutError} (λ inner. (inner.current_slot, inner)) w).1 in
    let (r, u) = build_to_slot env name to w' in
    conclude-Rolled name slot env w.events rounds from_ip r u (build_to_slot-Outcome env name to w')
      (build_to_slot-Keeps to env name w')

-- The errors of a rollout that has pulled its image.
abbrev pub Late : RolloutError → Type 0
Late (conflict _) = Unit
Late (start_failed _) = Unit
Late _ = ⊥

-- No longer between the two slots.
abbrev pub LeftRollover : Result (Unit {0}) RolloutError × World → Type 0
LeftRollover (ok _, w) = Unit
LeftRollover (err e, w) = Late e × (is_rolling_over w.handle.inner.state ≡ false)

switch-false :
    (ip : ℕ) (slot : Slot) (inner : HandleInner)
    → (switch ip slot inner).0 ≡ false
    → is_rolling_over (switch ip slot inner).1.state ≡ false
unfolding switch
switch-false ip slot inner h = ground arith

restore-leaves : (ip : ℕ) (inner : HandleInner) → is_rolling_over (restore ip inner).1.state ≡ false
unfolding restore
restore-leaves ip inner = ground arith

module _ (env : Env) (name : Str) (rounds : ℕ) where
  switched_over-LeftRollover :
      (slot : Slot) (w : World) → LeftRollover (switched_over env name rounds slot w)
  unfolding switched_over drain_active_upgrades
  switched_over-LeftRollover slot w =
      let start = env.now w.step in
      bind_cases (drain_active_upgrades env name {E = RolloutError} rounds) w LeftRollover
        (λ _ w. (ok tt, teardown_containers env (container_id name slot ∷ []) w)) (λ b u r. tt)
        (λ x u r.
          let fine = drain_from-is_ok RolloutError env name start rounds w in
          absurd (ground (arith, sym (ap (λ p. is_ok p.0) r) ∙ fine)))

  decided-LeftRollover :
      (slot : Slot) (switched : Bool) (w : World)
      → (switched ≡ false → is_rolling_over w.handle.inner.state ≡ false)
      → LeftRollover (
          (if switched then switched_over env name rounds slot else λ w.
          (err (conflict name), teardown_containers env (container_id name (other slot) ∷ []) w))
            w)
  unfolding teardown_containers
  decided-LeftRollover slot true w h = switched_over-LeftRollover slot w
  decided-LeftRollover slot false w h = (tt, h refl)

  conclude-LeftRollover :
      (from_ip : ℕ) (slot : Slot) (r : Result ℕ Failure) (w : World)
      → LeftRollover (conclude env name rounds from_ip slot r w)
  unfolding conclude locked teardown_containers
  conclude-LeftRollover from_ip slot (ok ip) w =
      let swap = switch ip (other slot) in
      decided-LeftRollover slot (swap (seen env w)).0 (locked env {E = RolloutError} swap w).1
        (switch-false ip (other slot) (seen env w))
  conclude-LeftRollover from_ip slot (err e) w = (tt, restore-leaves from_ip (seen env w))

  -- Whatever the other tasks do to the handle and whatever the runtime answers, a blue-green rollout
  -- that fails has failed with a conflict or a failed start, and the state that its last critical
  -- section leaves is not that of a rollover.
  pub do_blue_green-LeftRollover :
      (from_ip : ℕ) (w : World) → LeftRollover (do_blue_green env name rounds from_ip w)
  unfolding do_blue_green locked
  do_blue_green-LeftRollover from_ip w =
      let slot = (seen env w).current_slot in
      let to = container_id name (other slot) in
      let w' = (locked env {E = RolloutError} (λ inner. (inner.current_slot, inner)) w).1 in
      let (r, u) = build_to_slot env name to w' in conclude-LeftRollover from_ip slot r u

-- ===== src/Core/Lifecycle/Stopping.antt =====
-- `stop`: what it calls to tear down, and the state that it leaves.
use mathlib.Core.Path.{subst}
use bugpot.Base.{
  Bool, false, List, [], ◌∷◌, ◌≡◌, refl, list_beq, arith, any, if◌then◌else◌, ◌∙◌, Option, none,
  some,
}
use bugpot.Base.Text.{Str}
use bugpot.Core.Handle.{HandleInner, live_container_ids, needs_teardown}
use bugpot.Core.Host.{Env, World, Event, Failure, locked}
use bugpot.Core.Host.Ledger.{owes_endpoint, owes_container}
use bugpot.Core.Lifecycle.{stop_claim, stop_claimed, stop, teardown_containers}
use bugpot.Core.Lifecycle.Running.{seen}

-- One of the identifiers.
abbrev pub among : Str → List Str → Bool
among c ids = any (λ cid. list_beq cid c) ids

teardown_containers-endpoint :
    (env : Env) (ids : List Str) (c : Str) (w : World)
    → owes_endpoint c (teardown_containers env ids w).events
      ≡ (if among c ids then false else owes_endpoint c w.events)
unfolding teardown_containers
teardown_containers-endpoint env [] c w = refl
teardown_containers-endpoint env (cid ∷ ids) c w =
    teardown_containers-endpoint env ids c _ ∙ ground arith

teardown_containers-container :
    (env : Env) (ids : List Str) (c : Str) (w : World)
    → owes_container c (teardown_containers env ids w).events
      ≡ (if among c ids then false else owes_container c w.events)
unfolding teardown_containers
teardown_containers-container env [] c w = refl
teardown_containers-container env (cid ∷ ids) c w =
    teardown_containers-container env ids c _ ∙ ground arith

-- Of those identifiers nothing is owed any more, and of the others what was owed before.
abbrev pub TornDown : List Str → List Event → List Event → Type 0
TornDown ids before after =
    (c : Str)
    → (owes_endpoint c after ≡ (if among c ids then false else owes_endpoint c before))
      × (owes_container c after ≡ (if among c ids then false else owes_container c before))

abbrev chosen : Option (List Str) → List Str
chosen none = []
chosen (some ids) = ids

-- The identifiers that a stop finds live.
abbrev pub targets : Str → HandleInner → List Str
targets name inner = if needs_teardown inner.state then live_container_ids inner name else []

stop_claim-chosen :
    (name : Str) (inner : HandleInner) → chosen (stop_claim name inner).0 ≡ targets name inner
stop_claim-chosen name inner = ground arith

stop_claim-none :
    (name : Str) (inner : HandleInner)
    → (stop_claim name inner).0 ≡ none
    → needs_teardown (stop_claim name inner).1.state ≡ false
stop_claim-none name inner h = ground arith

module _ (env : Env) (name : Str) where
  stop_claimed-TornDown :
      (ids : Option (List Str)) (w : World)
      → TornDown (chosen ids) w.events (stop_claimed env name {E = Failure} ids w).1.events
  unfolding locked
  stop_claimed-TornDown none w c = (refl, refl)
  stop_claimed-TornDown (some ids) w c =
      (teardown_containers-endpoint env ids c w, teardown_containers-container env ids c w)

  stop_claimed-state :
      (ids : Option (List Str)) (w : World)
      → (ids ≡ none → needs_teardown w.handle.inner.state ≡ false)
      → needs_teardown (stop_claimed env name {E = Failure} ids w).1.handle.inner.state ≡ false
  unfolding locked needs_teardown
  stop_claimed-state none w h = h refl
  stop_claimed-state (some ids) w h = refl

  -- A stop calls for the stop of the container and the release of the endpoint of exactly the
  -- identifiers that its first critical section finds live, both slots during a rollover and none
  -- when the app was stopped or being stopped: those are owed no more, whether or not the calls
  -- succeed, and the ledger of every other identifier is as before. The calls of other tasks are not
  -- counted, such as a start under way that goes on afterwards. The state that the stop's last
  -- critical section leaves is stopped, or being stopped.
  pub stop-TornDown :
      (w : World)
      → let w' = (stop env name {E = Failure} w).1 in
        TornDown (targets name (seen env w)) w.events w'.events
        × (needs_teardown w'.handle.inner.state ≡ false)
  unfolding stop locked
  stop-TornDown w =
      let inner = seen env w in
      let (ids, _) = stop_claim name inner in
      let w' = (locked env {E = Failure} (stop_claim name) w).1 in
      (
        subst (λ ids. TornDown ids w.events (stop env name {E = Failure} w).1.events)
            (stop_claim-chosen name inner) (stop_claimed-TornDown ids w'),
        stop_claimed-state ids w' (stop_claim-none name inner),
      )

-- ===== src/Core/Boot/Claims.antt =====
-- What was taken over at startup is not cleaned up.
use bugpot.Base.{
  ℕ, Bool, false, Option, none, some, List, [], ◌∷◌, ◌≡◌, inl, inr, refl, arith, list_eq, list_beq,
  list_beq_iff, ◌∙◌, Some, Result, ok, err, Bool-cases,
}
use mathlib.Core.Path.{subst}
use bugpot.Base.Text.{Str}
use bugpot.Base.Map.{lookup, remove, lookup-remove}
use bugpot.Core.Handle.{AppHandle, Slot, a, b, container_id}
use bugpot.Core.Boot.{
  Call, cleaned_container, cleaned_orphan, reattached, ensured_log_tails, Survivors, Boot,
  reattach_app, reattach_all, reattach_running, cleanup_each, cleanup_orphans, reattach_slot,
  purge_slot, purge_both_slots, purge_claimed, call, reattach_found, reattach_done,
  reattach_claimed, is_live_slot, reattach_one,
}
use bugpot.Egress.Engine.{claim}

-- What a call takes over, or cleans up.
abbrev pub TakesOver : Str → Call → Type 0
TakesOver cid (reattached c _) = c ≡ cid
TakesOver cid _ = ⊥

abbrev pub CleansUp : Str → Call → Type 0
CleansUp cid (cleaned_container c) = c ≡ cid
CleansUp cid (cleaned_orphan c _) = c ≡ cid
CleansUp cid _ = ⊥

-- A container that was taken over is not claimed any more.
record Owned (boot : Boot) : Type 0 where
  claimed : (cid : Str) → Some (TakesOver cid) boot.calls → lookup cid boot.claims ≡ none

Owned-call :
    (c : Call) (boot : Boot)
    → ((cid : Str) → TakesOver cid c → lookup cid boot.claims ≡ none)
    → Owned boot
    → Owned (call c boot)
Owned-call c boot here o = record {
  claimed = λ cid s. elim s [ inl this ↦ here cid this | inr earlier ↦ o.claimed cid earlier ];
}

lookup-removed : (k : Str) (m : List (Str × ℕ)) → lookup k (remove k m) ≡ none
lookup-removed k m = lookup-remove k k m ∙ rw ((list_beq_iff k k).1 refl) refl

Owned-remove :
    (k : Str) (boot : Boot) → Owned boot → Owned (record boot { claims = remove k boot.claims })
Owned-remove k boot o = record {
  claimed = λ cid s. ground (arith, lookup-remove k cid boot.claims, o.claimed cid s);
}

module _ (s : Survivors) where
  purge_slot-Owned :
      (name : Str) (slot : Slot) (boot : Boot) → Owned boot → Owned (purge_slot s name slot boot)
  unfolding purge_slot claim
  purge_slot-Owned name slot boot o = go (lookup cid boot.claims)
    where
      cid : Str
      cid = container_id name slot

      after : Boot
      after = record (call (cleaned_container cid) boot) { claims = remove cid boot.claims }

      after-Owned : Owned after
      after-Owned =
          Owned-remove cid (call (cleaned_container cid) boot)
            (Owned-call (cleaned_container cid) boot (λ c h. absurd h) o)

      go : (ip : Option ℕ) → Owned (purge_claimed s cid ip after)
      go none = after-Owned
      go (some ip) = Owned-call (cleaned_orphan cid ip) after (λ c h. absurd h) after-Owned

  reattach_done-Owned :
      (handle : AppHandle) (slot : Slot) (paused : Bool) (name : Str) (r : Result ℕ Str)
      (boot : Boot)
      → Owned boot
      → Owned (reattach_done s handle slot paused name r boot).1
  reattach_done-Owned handle slot paused name (err _) boot o = o
  reattach_done-Owned handle slot paused name (ok ip) boot o =
      Owned-call (ensured_log_tails name) boot (λ c h. absurd h) o

  reattach_slot-Owned :
      (handle : AppHandle) (slot : Slot) (paused : Bool) (boot : Boot)
      → Owned boot
      → Owned (reattach_slot s handle slot paused boot).1
  unfolding reattach_slot reattach_one claim
  reattach_slot-Owned handle slot paused boot o = go (lookup cid boot.claims)
    where
      cid : Str
      cid = container_id handle.identity.name slot

      after : Boot
      after = record boot { claims = remove cid boot.claims }

      go : (ip : Option ℕ) → Owned (reattach_claimed s handle slot paused ip after).1
      go none = Owned-remove cid boot o
      go (some ip) =
          reattach_done-Owned handle slot paused handle.identity.name
            (s.reattach_endpoint cid ip handle.spec.egress.allow) (call (reattached cid ip) after)
            (Owned-call (reattached cid ip) after
              (λ c same.
                subst (λ c. lookup c after.claims ≡ none) same (lookup-removed cid boot.claims))
              (Owned-remove cid boot o))

  reattach_app-Owned :
      (handle : AppHandle) (boot : Boot) → Owned boot → Owned (reattach_app s handle boot).1
  unfolding reattach_app purge_both_slots
  reattach_app-Owned handle boot o = go (is_live_slot s name a) (is_live_slot s name b)
    where
      name : Str
      name = handle.identity.name

      go : (x y : Option Bool) → Owned (reattach_found s handle x y boot).1
      go none none = o
      go (some p) none = reattach_slot-Owned handle a p boot o
      go none (some p) = reattach_slot-Owned handle b p boot o
      go (some _) (some _) =
          purge_slot-Owned name b (purge_slot s name a boot) (purge_slot-Owned name a boot o)

  reattach_all-Owned :
      (handles : List AppHandle) (boot : Boot) → Owned boot → Owned (reattach_all s handles boot).1
  unfolding reattach_all
  reattach_all-Owned [] boot o = o
  reattach_all-Owned (handle ∷ handles) boot o =
      reattach_all-Owned handles (reattach_app s handle boot).1 (reattach_app-Owned handle boot o)

cleanup_each-unclaimed :
    (cid : Str) (claims : List (Str × ℕ)) (calls : List Call)
    → lookup cid claims ≡ none
    → Some (CleansUp cid) (cleanup_each claims calls)
    → Some (CleansUp cid) calls
unfolding cleanup_each lookup
cleanup_each-unclaimed cid [] calls free s = s
cleanup_each-unclaimed cid ((k, ip) ∷ claims) calls free s = elim (Bool-cases (list_beq k cid)) [
  | inl same ↦ absurd (ground (arith, free, same))
  | inr differ ↦
      let earlier =
        cleanup_each-unclaimed cid claims (cleaned_orphan k ip ∷ cleaned_container k ∷ calls)
          (ground (arith, free, differ)) s in
      let other : ¬ (k ≡ cid) = λ e. ground (arith, differ, (list_beq_iff k cid).1 e) in
      elim earlier [ inl e ↦ absurd (other e) | inr (inl e) ↦ absurd (other e) | inr (inr s) ↦ s ]
]

-- A container that the startup took over is none of those that the cleanup of the orphans after it
-- kills or takes the endpoint of, whatever survived and whatever was discovered.
pub cleanup_orphans-spares :
    (s : Survivors) (handles : List AppHandle) (claims : List (Str × ℕ)) (cid : Str)
    → let boot = (reattach_running s false handles (record { claims = claims; calls = [] })).1 in
      Some (TakesOver cid) boot.calls
      → ¬ Some (CleansUp cid) (cleanup_orphans (record boot { calls = [] }))
unfolding reattach_running cleanup_orphans
cleanup_orphans-spares s handles claims cid taken cleaned =
    let boot : Boot = record { claims = claims; calls = [] } in
    cleanup_each-unclaimed cid (reattach_all s handles boot).1.claims []
      ((reattach_all-Owned s handles boot (record { claimed = λ c h. absurd h })).claimed cid taken)
      cleaned

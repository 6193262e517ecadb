-- ===== src/Runtime/Image/Puller/Singleflight.antt =====
-- The tasks that pull, interleaved in any order, one access to the puller at a time; any of them may
-- be dropped at any moment.
use bugpot.Base.{
  eq_cases, ℕ, false, Option, none, some, [], ◌<◌, ◌≡◌, ◌≢◌, refl, sym, ap, ◌∙◌, arith, list_eq,
  list_beq, list_beq_iff, ◌==◌, if◌then◌else◌, ◌⊎◌, inl, inr, Bool-cases,
}
use mathlib.Core.Option.{some-injective}
use bugpot.Base.Text.{Str}
use bugpot.Base.Map.{lookup, lookup-insert, lookup-remove}
use bugpot.Runtime.Image.{ImageId, Images}
use bugpot.Runtime.Image.Puller.{
  Puller, InflightRole, leader, waiter, claim_inflight, claim_at, release_inflight, publish,
}

pub data Pc : Type 0 where
  ended : Pc
  starting : (image_ref : Str) → Pc
  leading waiting : (image_ref : Str) (slot : ℕ) → Pc

abbrev pub pc_of : Str → InflightRole → Pc
pc_of image_ref (leader slot) = leading image_ref slot
pc_of image_ref (waiter slot) = waiting image_ref slot

-- One access of a task to the puller, or its end.
pub data Move (p : Puller) : Pc → Puller → Pc → Type 0 where
  call : (image_ref : Str) → Move p ended p (starting image_ref)
  claim :
      (image_ref : Str)
      → Move p
          (starting image_ref)
          (claim_inflight image_ref p).1
          (pc_of image_ref (claim_inflight image_ref p).0)
  publish_digest :
      (image_ref : Str) (slot : ℕ) (id : ImageId)
      → Move p (leading image_ref slot) (publish slot id p) (leading image_ref slot)
  release :
      (image_ref : Str) (slot : ℕ)
      → Move p (leading image_ref slot) (release_inflight image_ref p) ended
  retry : (image_ref : Str) (slot : ℕ) → Move p (waiting image_ref slot) p (starting image_ref)
  store : (pc : Pc) (images : Images) → Move p pc (record p { images = images }) pc
  drop : (pc : Pc) → Move p pc p ended

abbrev pub update : (ℕ → Pc) → ℕ → Pc → ℕ → Pc
update pc k now i = if k == i then now else pc i

pub record System : Type 0 where
  pub puller : Puller
  pub pc : ℕ → Pc

pub data Reach : System → Type 0 where
  start :
      (images : Images)
      → Reach (record {
        puller = record { inflight = []; resolved = λ slot. none; next_slot = 0; images = images };
        pc = λ i. ended;
      })
  later :
      {s : System} {p : Puller} {now : Pc} (k : ℕ)
      → Reach s
      → Move s.puller (s.pc k) p now
      → Reach (record { puller = p; pc = update s.pc k now })

pub record IsExclusive (p : Puller) (pc : ℕ → Pc) : Type 0 where
  pub held :
      (i : ℕ) (r : Str) (s : ℕ)
      → pc i ≡ leading r s
      → (lookup r p.inflight ≡ some s) × (s < p.next_slot)
  pub once : (i j : ℕ) (r q : Str) (s : ℕ) → pc i ≡ leading r s → pc j ≡ leading q s → i ≡ j

-- A task that leads after the move did before it.
abbrev Shrinks : (ℕ → Pc) → ℕ → Pc → Type 0
Shrinks pc k now = (r : Str) (s : ℕ) → now ≡ leading r s → pc k ≡ leading r s

update-cases :
    (pc : ℕ → Pc) (k : ℕ) (now : Pc) (i : ℕ)
    → ((k ≡ i) × (update pc k now i ≡ now)) ⊎ (((k == i) ≡ false) × (update pc k now i ≡ pc i))
update-cases pc k now i = elim (eq_cases k i) [
  | inl (same, test) ↦ inl (same, rw test refl)
  | inr differ ↦ inr (differ, rw differ refl)
]

leading_before :
    (pc : ℕ → Pc) (k : ℕ) (now : Pc)
    → Shrinks pc k now
    → (i : ℕ) (r : Str) (s : ℕ) → update pc k now i ≡ leading r s
    → pc i ≡ leading r s
leading_before pc k now shrinks i r s e = elim (update-cases pc k now i) [
  | inl (same, at) ↦ ap pc (sym same) ∙ shrinks r s (sym at ∙ e)
  | inr (differ, at) ↦ sym at ∙ e
]

shrink-IsExclusive :
    (p p' : Puller) (pc : ℕ → Pc) (k : ℕ) (now : Pc)
    → p'.inflight ≡ p.inflight
    → p'.next_slot ≡ p.next_slot
    → Shrinks pc k now
    → IsExclusive p pc
    → IsExclusive p' (update pc k now)
shrink-IsExclusive p p' pc k now same next shrinks x = record {
  held = λ i r s e.
      let h = x.held i r s (leading_before pc k now shrinks i r s e) in
      (ap (lookup r) same ∙ h.0, omega (arith, h.1, next));
  once = λ i j r q s e f.
      x.once i j r q s (leading_before pc k now shrinks i r s e)
        (leading_before pc k now shrinks j q s f);
}

-- Two tasks never lead the pull of one reference.
exclusive :
    {p : Puller} {pc : ℕ → Pc}
    → IsExclusive p pc
    → (i j : ℕ) (r : Str) (s t : ℕ) → pc i ≡ leading r s
    → pc j ≡ leading r t
    → i ≡ j
exclusive {p} {pc} x i j r s t e f =
    let same = some-injective t s (sym (x.held j r t f).0 ∙ (x.held i r s e).0) in
    x.once i j r r s e (f ∙ ap (leading r) same)

abbrev ref_of : Pc → Str
ref_of ended = []
ref_of (starting image_ref) = image_ref
ref_of (leading image_ref slot) = image_ref
ref_of (waiting image_ref slot) = image_ref

abbrev slot_of : Pc → ℕ
slot_of (leading image_ref slot) = slot
slot_of _ = 0

ended-ne-leading : (r : Str) (s : ℕ) → ended ≢ leading r s
ended-ne-leading r s e = ground (arith, e)

-- A task takes the lead of a reference that has no slot.
lead-IsExclusive :
    (p : Puller) (pc : ℕ → Pc) (k : ℕ) (image_ref : Str)
    → lookup image_ref p.inflight ≡ none
    → IsExclusive p pc
    → IsExclusive (claim_at image_ref p none).1 (update pc k (leading image_ref p.next_slot))
lead-IsExclusive p pc k image_ref free x = record {
  held = λ i r s e. elim (update-cases pc k (leading image_ref p.next_slot) i) [
    | inl (same, at) ↦
        let this = sym at ∙ e in
        (
          lookup-insert image_ref r p.next_slot p.inflight
              ∙ rw ((list_beq_iff image_ref r).1 (ap ref_of this)) (ap some (ap slot_of this)),
          omega (arith, ap slot_of this),
        )
    | inr (differ, at) ↦
        let h = x.held i r s (sym at ∙ e) in
        (
          lookup-insert image_ref r p.next_slot p.inflight
              ∙ elim (Bool-cases (list_beq image_ref r)) [
                | inl known ↦ absurd (ground (arith, free, h.0, (list_beq_iff image_ref r).0 known))
                | inr other ↦ rw other h.0
              ],
          omega (arith, h.1),
        )
  ];
  once = λ i j r q s e f. elim (update-cases pc k (leading image_ref p.next_slot) i) [
    | inl (same, at) ↦ elim (update-cases pc k (leading image_ref p.next_slot) j) [
      | inl (same', at') ↦ sym same ∙ same'
      | inr (differ', at') ↦
          absurd (omega (arith, ap slot_of (sym at ∙ e), (x.held j q s (sym at' ∙ f)).1))
    ]
    | inr (differ, at) ↦ elim (update-cases pc k (leading image_ref p.next_slot) j) [
      | inl (same', at') ↦
          absurd (omega (arith, ap slot_of (sym at' ∙ f), (x.held i r s (sym at ∙ e)).1))
      | inr (differ', at') ↦ x.once i j r q s (sym at ∙ e) (sym at' ∙ f)
    ]
  ];
}

release-IsExclusive :
    (p : Puller) (pc : ℕ → Pc) (k : ℕ) (image_ref : Str) (slot : ℕ)
    → pc k ≡ leading image_ref slot
    → IsExclusive p pc
    → IsExclusive (release_inflight image_ref p) (update pc k ended)
unfolding release_inflight
release-IsExclusive p pc k image_ref slot leads x =
    let before = leading_before pc k ended (λ r s e. absurd (ended-ne-leading r s e)) in
    record {
      held = λ i r s e. elim (update-cases pc k ended i) [
        | inl (same, at) ↦ absurd (ended-ne-leading r s (sym at ∙ e))
        | inr (differ, at) ↦
            let h = x.held i r s (sym at ∙ e) in
            (
              lookup-remove image_ref r p.inflight ∙ elim (Bool-cases (list_beq image_ref r)) [
                | inl known ↦
                    let same =
                      exclusive x k i r slot s
                        (leads ∙ ap (λ q. leading q slot) ((list_beq_iff image_ref r).0 known))
                        (sym at ∙ e) in
                    absurd (ground (arith, same, differ))
                | inr other ↦ rw other h.0
              ],
              h.1,
            )
      ];
      once = λ i j r q s e f. x.once i j r q s (before i r s e) (before j q s f);
    }

claim-IsExclusive :
    (p : Puller) (pc : ℕ → Pc) (k : ℕ) (image_ref : Str)
    → pc k ≡ starting image_ref
    → IsExclusive p pc
    → (found : Option ℕ) → lookup image_ref p.inflight ≡ found
    → IsExclusive
        (claim_at image_ref p found).1
        (update pc k (pc_of image_ref (claim_at image_ref p found).0))
claim-IsExclusive p pc k image_ref at x none free = lead-IsExclusive p pc k image_ref free x
claim-IsExclusive p pc k image_ref at x (some slot) taken =
    shrink-IsExclusive p p pc k (waiting image_ref slot) refl refl
      (λ r s e. absurd (ground (arith, e))) x

Move-IsExclusive :
    {p : Puller} {old : Pc} {p' : Puller} {now : Pc}
    → Move p old p' now
    → (pc : ℕ → Pc) (k : ℕ) → pc k ≡ old
    → IsExclusive p pc
    → IsExclusive p' (update pc k now)
unfolding claim_inflight publish
Move-IsExclusive {p} (call image_ref) pc k at x =
    shrink-IsExclusive p p pc k (starting image_ref) refl refl (λ r s e. absurd (ground (arith, e)))
      x
Move-IsExclusive {p} (claim image_ref) pc k at x =
    claim-IsExclusive p pc k image_ref at x (lookup image_ref p.inflight) refl
Move-IsExclusive {p} {old} {p'} (publish_digest image_ref slot id) pc k at x =
    shrink-IsExclusive p p' pc k (leading image_ref slot) refl refl (λ r s e. at ∙ e) x
Move-IsExclusive {p} (release image_ref slot) pc k at x =
    release-IsExclusive p pc k image_ref slot at x
Move-IsExclusive {p} (retry image_ref slot) pc k at x =
    shrink-IsExclusive p p pc k (starting image_ref) refl refl (λ r s e. absurd (ground (arith, e)))
      x
Move-IsExclusive {p} {old} {p'} (store now images) pc k at x =
    shrink-IsExclusive p p' pc k now refl refl (λ r s e. at ∙ e) x
Move-IsExclusive {p} (drop now) pc k at x =
    shrink-IsExclusive p p pc k ended refl refl (λ r s e. absurd (ended-ne-leading r s e)) x

Reach-IsExclusive : {s : System} → Reach s → IsExclusive s.puller s.pc
Reach-IsExclusive (start images) = record {
  held = λ i r s e. absurd (ended-ne-leading r s e);
  once = λ i j r q s e f. absurd (ended-ne-leading r s e);
}
Reach-IsExclusive (later {s} {p} {now} k reached move) =
    Move-IsExclusive move s.pc k refl (Reach-IsExclusive reached)

-- In every interleaving of the tasks that pull, of which any may be dropped at any moment, two tasks
-- never lead the pull of one reference together, and the reference of a task that leads has its slot.
pub claim_inflight-exclusive :
    {s : System}
    → Reach s
    → (i j : ℕ) (image_ref : Str) (a b : ℕ) → s.pc i ≡ leading image_ref a
    → s.pc j ≡ leading image_ref b
    → (i ≡ j) × (lookup image_ref s.puller.inflight ≡ some a)
claim_inflight-exclusive reached i j image_ref a b e f =
    let x = Reach-IsExclusive reached in
    (exclusive x i j image_ref a b e f, (x.held i image_ref a e).0)

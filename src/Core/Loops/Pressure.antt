-- ===== src/Core/Loops/Pressure.antt =====
-- `memory_pressure_loop`, one tick at a time, and the choice of `evict_lru_frozen`.
use bugpot.Base.{
  Some, ◌⊎◌, inl, inr, ℕ, Bool, true, false, not, ◌&&◌, ◌||◌, Option, none, some, List, [], ◌∷◌,
  ◌≡◌, refl, ltb, leb, if◌then◌else◌, arith, ◌≤◌, All, if-cases,
}
use bugpot.Core.Handle.{AppHandle, is_frozen}

-- What a tick does: whether it goes on evicting, and whether it asks for an eviction. `found` is
-- what `evict_lru_frozen` would answer.
abbrev engaged : ℕ → ℕ → Bool → Bool
engaged lo avail evicting = if not evicting && ltb avail lo then true else evicting

abbrev acted : ℕ → ℕ → Bool → Bool → Bool × Bool
acted hi avail found evicting =
    if evicting && leb hi avail
    then (false, false)
    else if not evicting
    then (evicting, false)
    else (found, true)

unfoldable pub pressure_tick : ℕ → ℕ → Bool → Bool → Option ℕ → Bool × Bool
pressure_tick lo hi found evicting none = (evicting, false)
pressure_tick lo hi found evicting (some avail) = acted hi avail found (engaged lo avail evicting)

-- With the thresholds in order, a tick asks for an eviction exactly when the available memory is
-- known and below the low mark, or below the high mark while evicting; it goes on evicting exactly
-- when it asked and an app was found, and without a reading nothing changes.
pub pressure_tick_lem :
    (lo hi : ℕ) (found evicting : Bool) (avail : ℕ)
    → lo ≤ hi
    → (pressure_tick lo hi found evicting none ≡ (evicting, false))
      × ((pressure_tick lo hi found evicting (some avail)).1
          ≡ (ltb avail lo || (evicting && ltb avail hi)))
      × ((pressure_tick lo hi found evicting (some avail)).0
          ≡ (found && (ltb avail lo || (evicting && ltb avail hi))))
unfolding pressure_tick
pressure_tick_lem lo hi found evicting avail le = ground arith

-- The fold over the handles, each read under its own lock.
abbrev pub better : AppHandle → Option (AppHandle × ℕ) → Option (AppHandle × ℕ)
better h none = if is_frozen h.inner.state then some (h, h.inner.last_access) else none
better h (some (best, oldest)) =
    if is_frozen h.inner.state && not (leb oldest h.inner.last_access)
    then some (h, h.inner.last_access)
    else some (best, oldest)

unfoldable pub lru_frozen : Option (AppHandle × ℕ) → List AppHandle → Option (AppHandle × ℕ)
unfolding is_frozen
lru_frozen candidate [] = candidate
lru_frozen candidate (h ∷ handles) = lru_frozen (better h candidate) handles

-- Not an older frozen app than that.
abbrev pub NotOlder : ℕ → AppHandle → Type 0
NotOlder oldest h = is_frozen h.inner.state ≡ true → oldest ≤ h.inner.last_access

abbrev Good : Option (AppHandle × ℕ) → Type 0
Good none = Unit
Good (some (best, oldest)) = (is_frozen best.inner.state ≡ true) × (oldest ≡ best.inner.last_access)

abbrev Bound : Option (AppHandle × ℕ) → ℕ → Type 0
Bound none n = Unit
Bound (some (best, oldest)) n = n ≤ oldest

-- Nothing when no app is frozen, and otherwise a frozen app of the list that no frozen app of it
-- has been idle for longer than.
abbrev pub Chosen : List AppHandle → Option (AppHandle × ℕ) → Type 0
Chosen handles none = All (λ h. is_frozen h.inner.state ≡ false) handles
Chosen handles (some (best, oldest)) =
    Some (λ h. h ≡ best) handles
    × (is_frozen best.inner.state ≡ true)
    × (oldest ≡ best.inner.last_access)
    × All (NotOlder oldest) handles

-- The same, from a candidate on.
abbrev Final : Option (AppHandle × ℕ) → List AppHandle → Option (AppHandle × ℕ) → Type 0
Final c handles none = (c ≡ none) × All (λ h. is_frozen h.inner.state ≡ false) handles
Final c handles (some (best, oldest)) =
    ((c ≡ some (best, oldest)) ⊎ Some (λ h. h ≡ best) handles)
    × Good (some (best, oldest))
    × Bound c oldest
    × All (NotOlder oldest) handles

better-Good : (h : AppHandle) (c : Option (AppHandle × ℕ)) → Good c → Good (better h c)
better-Good h none g = if-cases Good (is_frozen h.inner.state) (λ e. (e, refl)) (λ e. tt)
better-Good h (some (best, oldest)) g =
    if-cases Good (is_frozen h.inner.state && not (leb oldest h.inner.last_access))
      (λ e. (ground arith, refl)) (λ e. g)

module _ (h : AppHandle) (handles : List AppHandle) where
  abbrev me : Option (AppHandle × ℕ)
  me = some (h, h.inner.last_access)

  mine : (x : AppHandle × ℕ) → me ≡ some x → h ≡ x.0
  mine x e = cc

  -- The handle takes the place of no candidate, or of an older one.
  taken :
      (c r : Option (AppHandle × ℕ))
      → ((n : ℕ) → n ≤ h.inner.last_access → Bound c n)
      → Final me handles r
      → Final c (h ∷ handles) r
  taken c none under f = absurd (let e = f.0 in cc)
  taken c (some x) under (from, good, bound, all) = (
    elim from [ inl e ↦ inr (inl (mine x e)) | inr m ↦ inr (inr m) ],
    good,
    under x.1 bound,
    (λ _. bound, all),
  )

  kept_none :
      (r : Option (AppHandle × ℕ))
      → is_frozen h.inner.state ≡ false
      → Final none handles r
      → Final none (h ∷ handles) r
  kept_none none e f = (refl, (e, f.1))
  kept_none (some x) e (from, good, bound, all) = (
    elim from [ inl e ↦ absurd cc | inr m ↦ inr (inr m) ],
    good,
    bound,
    (λ is. absurd (ground arith), all),
  )

  kept_some :
      (best : AppHandle) (oldest : ℕ) (r : Option (AppHandle × ℕ))
      → (is_frozen h.inner.state && not (leb oldest h.inner.last_access)) ≡ false
      → Final (some (best, oldest)) handles r
      → Final (some (best, oldest)) (h ∷ handles) r
  kept_some best oldest none e f = absurd (let e = f.0 in cc)
  kept_some best oldest (some x) e (from, good, bound, all) =
      (elim from [ inl e ↦ inl e | inr m ↦ inr (inr m) ], good, bound, (λ is. ground arith, all))

  step-Final :
      (c r : Option (AppHandle × ℕ)) → Final (better h c) handles r → Final c (h ∷ handles) r
  step-Final none r =
      if-cases (λ c. Final c handles r → Final none (h ∷ handles) r) (is_frozen h.inner.state)
        (λ e. taken none r (λ n le. tt)) (λ e. kept_none r e)
  step-Final (some (best, oldest)) r =
      if-cases (λ c. Final c handles r → Final (some (best, oldest)) (h ∷ handles) r)
        (is_frozen h.inner.state && not (leb oldest h.inner.last_access))
        (λ e. taken (some (best, oldest)) r (λ n le. ground arith)) (λ e. kept_some best oldest r e)

lru_frozen-Final :
    (handles : List AppHandle) (c : Option (AppHandle × ℕ))
    → Good c
    → Final c handles (lru_frozen c handles)
unfolding lru_frozen
lru_frozen-Final [] none g = (refl, tt)
lru_frozen-Final [] (some x) g = (inl refl, g, omega arith, tt)
lru_frozen-Final (h ∷ handles) c g =
    step-Final h handles c (lru_frozen (better h c) handles)
      (lru_frozen-Final handles (better h c) (better-Good h c g))

Final-Chosen :
    (handles : List AppHandle) (r : Option (AppHandle × ℕ))
    → Final none handles r
    → Chosen handles r
Final-Chosen handles none f = f.1
Final-Chosen handles (some x) (from, good, _, all) =
    (elim from [ inl e ↦ absurd cc | inr m ↦ m ], good.0, good.1, all)

-- The eviction chooses a frozen app that has been idle for the longest time, and nothing exactly
-- when no app is frozen.
pub lru_frozen-Chosen : (handles : List AppHandle) → Chosen handles (lru_frozen none handles)
lru_frozen-Chosen handles =
    Final-Chosen handles (lru_frozen none handles) (lru_frozen-Final handles none tt)

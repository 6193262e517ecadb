-- ===== src/Core/Handle/Containers.antt =====
-- Container identifiers, and which containers a handle is responsible for.
use bugpot.Base.{ap₂, ℕ, ◌≡◌, ◌≢◌, ◌⊎◌, refl, [], ◌∷◌, ◌++◌, true, arith, inr, inl}
use bugpot.Base.Text.{Str}
use bugpot.Core.Handle.{
  live_ids, Slot, a, b, other, as_char, container_id, AppState, starting, running, frozen,
  rolling_over, HandleInner, live_container_ids, needs_teardown,
}

snoc_inj : (s t : Str) (c d : ℕ) → s ++ b'-' ∷ c ∷ [] ≡ t ++ b'-' ∷ d ∷ [] → (s ≡ t) × (c ≡ d)
snoc_inj [] [] c d h = (refl, cc)
snoc_inj [] (x ∷ []) c d h = cc
snoc_inj [] (x ∷ y ∷ []) c d h = cc
snoc_inj [] (x ∷ y ∷ z ∷ t) c d h = cc
snoc_inj (x ∷ []) [] c d h = cc
snoc_inj (x ∷ y ∷ []) [] c d h = cc
snoc_inj (x ∷ y ∷ z ∷ s) [] c d h = cc
snoc_inj (x ∷ s) (y ∷ t) c d h =
    let (same, last) = snoc_inj s t c d (cc) in (ap₂ ◌∷◌ (cc) same, last)

as_char_inj : (s t : Slot) → as_char s ≡ as_char t → s ≡ t
unfolding as_char
as_char_inj a a h = refl
as_char_inj a b h = absurd (omega arith)
as_char_inj b a h = absurd (omega arith)
as_char_inj b b h = refl

-- A container identifier determines the app and the slot: no two containers of two apps, and no
-- two slots of one app, ever share one.
pub container_id_inj :
    (name name' : Str) (s s' : Slot)
    → container_id name s ≡ container_id name' s'
    → (name ≡ name') × (s ≡ s')
unfolding container_id
container_id_inj name name' s s' h =
    let (same, chars) = snoc_inj name name' (as_char s) (as_char s') h in
    (same, as_char_inj s s' chars)

other-ne : (s : Slot) → other s ≢ s
unfolding other
other-ne a = cc
other-ne b = cc

-- The two slots of an app never share a container.
pub container_id-other-ne :
    (name : Str) (s : Slot) → container_id name (other s) ≢ container_id name s
container_id-other-ne name s h = other-ne s (container_id_inj name name (other s) s h).1

live_ids_lem :
    (name : Str) (slot : Slot) (s : AppState)
    → needs_teardown s ≡ true
    → (live_ids name slot s ≡ container_id name slot ∷ [])
      ⊎ ((ip : ℕ) × (s ≡ rolling_over ip)
          × (live_ids name slot s ≡ container_id name slot ∷ container_id name (other slot) ∷ []))
unfolding needs_teardown
live_ids_lem name slot (rolling_over ip) e = inr (ip, refl, refl)
live_ids_lem name slot (starting n) e = inl refl
live_ids_lem name slot (running ip) e = inl refl
live_ids_lem name slot (frozen ip) e = inl refl
live_ids_lem name slot _ e = cc

-- Wherever there is something to tear down, the list of containers to work on is the current slot,
-- and during a rollover both slots.
pub live_container_ids_lem :
    (h : HandleInner) (name : Str)
    → needs_teardown h.state ≡ true
    → (live_container_ids h name ≡ container_id name h.current_slot ∷ [])
      ⊎ ((ip : ℕ) × (h.state ≡ rolling_over ip)
          × (live_container_ids h name
              ≡ container_id name h.current_slot ∷ container_id name (other h.current_slot) ∷ []))
unfolding live_container_ids
live_container_ids_lem h name e = live_ids_lem name h.current_slot h.state e

-- ===== src/Base/Results.antt =====
-- `Result`, with its `?`.
use mathlib.Core.Path.{◌≡◌, refl}
use mathlib.Core.Logic.{◌↔◌, ◌⊎◌, inl, inr}
use mathlib.Core.Bool.{Bool, true, false}
use mathlib.Core.Option.{Option, none, some}

pub data Result {ℓ κ} (A : Type ℓ) (E : Type κ) : Type (ℓ ⊔ κ) where
  ok : A → Result A E
  err : E → Result A E

module _ {ℓ κ} {E : Type κ} where
  -- The source's `?`: an error ends the chain.
  infixl 5 ◌>>=◌
  abbrev pub ◌>>=◌ {μ} : {A : Type ℓ} {B : Type μ} → Result A E → (A → Result B E) → Result B E
  err why >>= next = err why
  ok value >>= next = next value

module _ {ℓ κ} {A : Type ℓ} {E : Type κ} where
  abbrev pub map_err {μ} : {F : Type μ} → (E → F) → Result A E → Result A F
  map_err f (ok a) = ok a
  map_err f (err e) = err (f e)

  abbrev pub is_ok : Result A E → Bool
  is_ok (ok a) = true
  is_ok (err e) = false

  abbrev pub ok_or : Option A → E → Result A E
  ok_or none e = err e
  ok_or (some a) e = ok a

  pub Result-cases : (r : Result A E) → ((a : A) × (r ≡ ok a)) ⊎ ((e : E) × (r ≡ err e))
  Result-cases (ok a) = inl (a, refl)
  Result-cases (err e) = inr (e, refl)

  -- A chain that succeeds went through every step.
  pub >>=-eq-ok {μ} :
      {B : Type μ} (m : Result A E) (next : A → Result B E) {result : B}
      → (m >>= next) ≡ ok result
      → (value : A) × (m ≡ ok value) × (next value ≡ ok result)
  >>=-eq-ok (err why) next went = cc
  >>=-eq-ok (ok value) next went = (value, refl, went)

module _ {ℓ κ} {E : Type κ} {B : Type ℓ} where
  infixl 5 ◌>>◌
  abbrev pub ◌>>◌ {μ} : {A : Type μ} → Result A E → Result B E → Result B E
  first >> second = first >>= (λ _. second)

  pub >>-eq-ok_iff :
      (m : Result (Unit {0}) E) (k : Result B E) {b : B}
      → ((m >> k) ≡ ok b) ↔ ((m ≡ ok tt) × (k ≡ ok b))
  >>-eq-ok_iff (ok tt) k = (λ h. (refl, h), λ h. h.1)
  >>-eq-ok_iff (err e) k = (λ h. cc, λ h. cc)

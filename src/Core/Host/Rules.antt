-- ===== src/Core/Host/Rules.antt =====
-- Case rules for the operators of the `M` monad: what holds of a composed call, from what holds in
-- each case of its first part.
use bugpot.Base.{Result, ok, err, ◌≡◌, refl, sym}
use mathlib.Core.Path.{subst}
use bugpot.Core.Host.{World, M, ◌>>=◌, or_cleanup, bind_on, cleanup_on, bind_on}

module _ {A E : Type 0} (m : M A E) (w : World) where
  pub bind_cases {ℓ} :
      {B : Type 0} (P : Result B E × World → Type ℓ) (f : A → M B E)
      → ((a : A) (w' : World) → m w ≡ (ok a, w') → P (f a w'))
      → ((e : E) (w' : World) → m w ≡ (err e, w') → P (err e, w'))
      → P ((m >>= f) w)
  bind_cases P f good bad = go (m w) refl
    where
      go : (r : Result A E × World) → m w ≡ r → P ((m >>= f) w)
      go (ok a, w') e = subst (λ r. P (bind_on f r)) (sym e) (good a w' e)
      go (err x, w') e = subst (λ r. P (bind_on f r)) (sym e) (bad x w' e)

  pub cleanup_cases {ℓ} :
      (P : Result A E × World → Type ℓ) (cleanup : World → World)
      → ((a : A) (w' : World) → m w ≡ (ok a, w') → P (ok a, w'))
      → ((e : E) (w' : World) → m w ≡ (err e, w') → P (err e, cleanup w'))
      → P (or_cleanup m cleanup w)
  cleanup_cases P cleanup good bad = go (m w) refl
    where
      go : (r : Result A E × World) → m w ≡ r → P (or_cleanup m cleanup w)
      go (ok a, w') e = subst (λ r. P (cleanup_on cleanup r)) (sym e) (good a w' e)
      go (err x, w') e = subst (λ r. P (cleanup_on cleanup r)) (sym e) (bad x w' e)

-- `match m { Ok(a) => f(a), Err(e) => { cleanup; return Err(e) } }`.
module _ {A E : Type 0} (m : M A E) (w : World) where
  pub guarded_cases {ℓ} :
      {B : Type 0} (P : Result B E × World → Type ℓ) (cleanup : World → World) (f : A → M B E)
      → ((a : A) (w' : World) → m w ≡ (ok a, w') → P (f a w'))
      → ((e : E) (w' : World) → m w ≡ (err e, w') → P (err e, cleanup w'))
      → P ((or_cleanup m cleanup >>= f) w)
  guarded_cases P cleanup f good bad = go (m w) refl
    where
      go : (r : Result A E × World) → m w ≡ r → P ((or_cleanup m cleanup >>= f) w)
      go (ok a, w') e = subst (λ r. P (bind_on f (cleanup_on cleanup r))) (sym e) (good a w' e)
      go (err x, w') e = subst (λ r. P (bind_on f (cleanup_on cleanup r))) (sym e) (bad x w' e)

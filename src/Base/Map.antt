-- ===== src/Base/Map.antt =====
-- `HashMap` as an association list: one entry for each key is kept by `insert`, and `remove` drops
-- them all.
use mathlib.Core.Path.{◌≡◌, refl}
use mathlib.Core.Option.{Option, none, some}
use mathlib.Core.List.{List, [], ◌∷◌}
use native.Mathlib.Omega.{arith}
use bugpot.Base.Tests.{Eq, ◌=?◌, if◌then◌else◌}

module _ {ℓ κ} {K : Type ℓ} {V : Type κ} ⦃e : Eq K⦄ where
  unfoldable pub lookup : K → List (K × V) → Option V
  lookup key [] = none
  lookup key ((key', value) ∷ rest) = if key' =? key then some value else lookup key rest

  unfoldable pub insert : K → V → List (K × V) → List (K × V)
  insert key new [] = (key, new) ∷ []
  insert key new ((key', old) ∷ rest) =
      if key' =? key then (key, new) ∷ rest else (key', old) ∷ insert key new rest

  unfoldable pub remove : K → List (K × V) → List (K × V)
  remove key [] = []
  remove key ((key', old) ∷ entries) =
      let rest = remove key entries in if key' =? key then rest else (key', old) ∷ rest

  pub lookup-insert :
      (key asked : K) (new : V) (entries : List (K × V))
      → lookup asked (insert key new entries)
        ≡ (if key =? asked then some new else lookup asked entries)
  unfolding lookup insert
  lookup-insert key asked new [] = refl
  lookup-insert key asked new ((key', old) ∷ rest) = ground (
    arith,
    lookup-insert key asked new rest,
    e.beq_iff key asked,
    e.beq_iff key' key,
    e.beq_iff key' asked,
  )

  pub lookup-remove :
      (key asked : K) (entries : List (K × V))
      → lookup asked (remove key entries) ≡ (if key =? asked then none else lookup asked entries)
  unfolding lookup remove
  lookup-remove key asked [] = ground arith
  lookup-remove key asked ((key', old) ∷ rest) = ground (
    arith,
    lookup-remove key asked rest,
    e.beq_iff key asked,
    e.beq_iff key' key,
    e.beq_iff key' asked,
  )

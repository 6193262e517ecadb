-- ===== src/Core/Rollout/History.antt =====
-- The rollout history: the running tag and the one before it.
use bugpot.Base.{none, some, List, [], ◌∷◌, ◌++◌, ◌≡◌, refl, last?, arith, ap}
use bugpot.Base.Text.{Str}
use bugpot.Config.Spec.{Rollout}
use bugpot.Core.Handle.{HandleInner}
use bugpot.Core.Rollout.{pop_oldest, record_rollout}

-- The newest entry alone.
abbrev newest : List Rollout → List Rollout
newest rs = elim (last? rs) [ none ↦ [] | some r ↦ r ∷ [] ]

pop_oldest_lem : (rs : List Rollout) → pop_oldest rs ≡ newest rs
unfolding pop_oldest
pop_oldest_lem [] = refl
pop_oldest_lem (r ∷ []) = refl
pop_oldest_lem (r ∷ s ∷ rs) = ground (arith, pop_oldest_lem (s ∷ rs))

-- Recording a rollout leaves exactly the newest earlier rollout, if there was one, and the new one
-- after it; the digest cache then holds the digest and the repository that it was pulled from.
pub record_rollout_lem :
    (r : Rollout) (repo digest : Str) (inner : HandleInner)
    → let inner' = record_rollout r repo digest inner in
      (inner'.rollouts ≡ newest inner.rollouts ++ r ∷ [])
      × (inner'.image_digest ≡ some (record { repo = repo; digest = digest }))
      × (inner'.state ≡ inner.state)
unfolding record_rollout
record_rollout_lem r repo digest inner =
    (ap (λ rs. rs ++ r ∷ []) (pop_oldest_lem inner.rollouts), refl, refl)

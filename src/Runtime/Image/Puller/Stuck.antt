-- ===== src/Runtime/Image/Puller/Stuck.antt =====
-- The turns of a pull.
use bugpot.Base.{
  ℕ, zero, suc, none, some, List, Result, ok, err, list_eq, ◌≡◌, refl, ap, ◌∙◌, list_beq_iff,
}
use bugpot.Base.Text.{Str}
use bugpot.Base.Map.{remove, lookup, lookup-remove}
use bugpot.Core.Host.{RuntimeError}
use bugpot.Config.Image.{Auth}
use bugpot.Runtime.Image.{PulledImage}
use bugpot.Runtime.Image.Puller.{
  waiter, publish, claimed_turn, wait_again, read_resolved, Puller, PullEnv, Reference,
  claim_inflight, release_inflight, coordinated_pull, finish_leader,
}

-- No other task touches the puller or the cache.
abbrev pub IsQuiet : PullEnv → Type 0
IsQuiet env = (p : Puller) → env.others p ≡ p

claim_inflight-waiter :
    (image_ref : Str) (p : Puller) (slot : ℕ)
    → lookup image_ref p.inflight ≡ some slot
    → claim_inflight image_ref p ≡ (waiter slot, p)
unfolding claim_inflight
claim_inflight-waiter image_ref p slot held = rw held refl

-- A reference whose leader is gone without its release, as a leader is whose future was dropped
-- before it had finished, is never pulled again: while no other task touches the puller, each turn
-- finds the slot of the gone leader without a digest in it, and a pull of the reference is still
-- waiting after any number of turns.
pub coordinated_pull_stuck :
    (env : PullEnv)
    → IsQuiet env
    → (turns : ℕ) (image_ref : Str) (reference : Reference) (auth : Auth) (p : Puller) (slot : ℕ)
    → lookup image_ref p.inflight ≡ some slot
    → p.resolved slot ≡ none
    → coordinated_pull env turns image_ref reference auth p ≡ (ok none, p)
unfolding coordinated_pull claim_inflight
coordinated_pull_stuck env quiet zero image_ref reference auth p slot held empty = refl
coordinated_pull_stuck env quiet (suc turns) image_ref reference auth p slot held empty =
    let again = coordinated_pull env turns image_ref reference auth in
    let claim =
      ap (claim_inflight image_ref) (quiet p) ∙ claim_inflight-waiter image_ref p slot held in
    ap (claimed_turn env image_ref reference auth again) claim
    ∙ ap (λ w. wait_again env w (again w) (read_resolved env w (w.resolved slot))) (quiet p)
    ∙ ap (λ r. wait_again env p (again p) (read_resolved env p r)) empty
    ∙ coordinated_pull_stuck env quiet turns image_ref reference auth p slot held empty

removed_lookup : (key : Str) (entries : List (Str × ℕ)) → lookup key (remove key entries) ≡ none
removed_lookup key entries = lookup-remove key key entries ∙ rw ((list_beq_iff key key).1 refl) refl

-- The end of a leader releases its reference, whatever came of its pull.
finish_leader-lookup :
    (env : PullEnv) (image_ref : Str) (slot : ℕ) (r : Result PulledImage RuntimeError × Puller)
    → lookup image_ref (finish_leader env image_ref slot r).1.inflight ≡ none
unfolding release_inflight
finish_leader-lookup env image_ref slot (ok pulled, p) =
    removed_lookup image_ref (env.others (publish slot pulled.id (env.others p))).inflight
finish_leader-lookup env image_ref slot (err e, p) =
    removed_lookup image_ref (env.others p).inflight

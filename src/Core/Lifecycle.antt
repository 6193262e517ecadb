-- ===== src/Core/Lifecycle.antt =====
-- crates/bugpot-core/src/ops/lifecycle.rs: cold start, resume, freeze and stop of one app.
pub mod Cleanup
pub mod Running
pub mod Stopping
pub mod Freezing
use bugpot.Base.{
  zero, suc, [], ◌∷◌, ltb, ℕ, Option, none, some, ◌∷◌, ◌++◌, is_ok, list_eq, if◌then◌else◌,
  list_beq, last?, ok_or, List, List, ok, ltb, Result,
}
use mathlib.Core.Option
use bugpot.Base.Text.{Str, contains}
use bugpot.Config.Spec.{AppSpec, resolve_timeout}
use bugpot.Config.Image.{resolve_auth}
use bugpot.Core.Handle.{
  HandleInner, DigestCache, AppState, frozen, stopped, finish_start, needs_teardown,
  live_container_ids, stopping, claim_start_slot, running, ready, coalesce, claimed,
  wait_for_stopping, StartClaim,
}
use bugpot.Core.Host.{
  Env, M, Failure, RuntimeError, Endpoint, ◌>>=◌, ◌>>◌, pure, lift, map_error, or_cleanup, log,
  locked, read_spec, current_id, release_endpoint, stop_app, allocated, pulled, started, probed,
  unfroze, no_rollout, allocate_failed, not_ready, bad_timeout, pull_failed, start_failed,
  unfreeze_failed, attempt, load_upgrades, World, freeze_failed, froze,
}

-- `repo:tag`.
abbrev pub reference : Str → Str → Str
reference repo tag = repo ++ b':' ∷ tag

unfoldable pub digest_pinned_ref : Str → Option Str → Str
digest_pinned_ref image none = image
digest_pinned_ref image (some d) = if contains b'@' image then image else image ++ b'@' ∷ d

-- The cached digest, if it was resolved against this repository.
unfoldable pub cached_for : Str → Option DigestCache → Option Str
cached_for repo none = none
cached_for repo (some cache) = if list_beq cache.repo repo then some cache.digest else none

unfoldable pub fill_cache : Str → Str → HandleInner → HandleInner
fill_cache repo digest inner = elim inner.image_digest [
  | none ↦ record inner { image_digest = some (record { repo = repo; digest = digest }) }
  | some _ ↦ inner
]

-- `READINESS_TIMEOUT_DEFAULT`, in nanoseconds.
abbrev pub readiness_timeout_default : ℕ
readiness_timeout_default = 10000000000

module _ (env : Env) (name : Str) where
  unfoldable pub resolve_image_ref : AppSpec → M Str Failure
  resolve_image_ref spec = do
    back ← locked env (λ inner. (last? inner.rollouts, inner))
    lift (ok_or (Option.map (λ r. reference spec.repo r.tag) back) (no_rollout name))

  unfoldable pub allocate_endpoint_phase : Str → AppSpec → M Endpoint Failure
  allocate_endpoint_phase cid spec w =
      let r = env.allocate_endpoint w.events cid spec.egress.allow in
      map_error allocate_failed (λ w. (r, w)) (log (allocated cid (is_ok r)) w)

  unfoldable pub pull_image : Str → Str → M Str RuntimeError
  pull_image image_ref repo w =
      let r = env.pull_image w.events image_ref (resolve_auth env.auth repo) in
      (r, log (pulled image_ref (is_ok r)) w)

  unfoldable pub pull_image_phase : AppSpec → Str → M Str Failure
  unfolding pull_image
  pull_image_phase spec plain_image_ref = do
    cached ← locked env (λ inner. (cached_for spec.repo inner.image_digest, inner))
    image_id ←
        map_error pull_failed (pull_image (digest_pinned_ref plain_image_ref cached) spec.repo)
    locked env (λ inner. (image_id, fill_cache spec.repo image_id inner))

  unfoldable pub start_container_phase : Str → AppSpec → Str → Endpoint → M ℕ Failure
  start_container_phase cid spec image_id endpoint w =
      let r = env.start_app w.events cid spec image_id endpoint.netns_path in
      map_error start_failed (λ w. (r, w)) (log (started cid (is_ok r)) w)

  unfoldable pub readiness_phase : ℕ → AppSpec → M (Unit {0}) Failure
  readiness_phase container_ip spec = do
    timeout ←
        map_error bad_timeout
          (lift (resolve_timeout env.parse_duration spec.readiness readiness_timeout_default))
    λ w.
        let r = env.wait_for_ready w.events container_ip spec.port spec.readiness.path timeout in
        map_error not_ready (λ w. (r, w)) (log (probed container_ip (is_ok r)) w)

  -- The phases past the image reference, which `do_start` and `build_to_slot` of ops/rollout.rs
  -- share line by line; each failure undoes what came before it.
  unfoldable pub await_ready : Str → AppSpec → Endpoint → M ℕ Failure
  await_ready cid spec endpoint = do
    or_cleanup (readiness_phase endpoint.container_ip spec)
        (λ w. release_endpoint env cid (stop_app env cid w))
    pure endpoint.container_ip

  unfoldable pub start_and_await : Str → AppSpec → Endpoint → Str → M ℕ Failure
  unfolding await_ready
  start_and_await cid spec endpoint image_id = do
    pid ← or_cleanup (start_container_phase cid spec image_id endpoint) (release_endpoint env cid)
    await_ready cid spec endpoint

  unfoldable pub pull_and_start : Str → AppSpec → Str → Endpoint → M ℕ Failure
  unfolding start_and_await
  pull_and_start cid spec plain_image_ref endpoint = do
    image_id ← or_cleanup (pull_image_phase spec plain_image_ref) (release_endpoint env cid)
    start_and_await cid spec endpoint image_id

  unfoldable pub bring_up : Str → AppSpec → Str → M ℕ Failure
  unfolding pull_and_start
  bring_up cid spec plain_image_ref = do
    endpoint ← allocate_endpoint_phase cid spec
    pull_and_start cid spec plain_image_ref endpoint

  unfoldable pub do_start : M ℕ Failure
  unfolding bring_up
  do_start = do
    cid ← current_id env name
    spec ← read_spec env
    plain_image_ref ← resolve_image_ref spec
    bring_up cid spec plain_image_ref

  unfoldable pub do_resume : ℕ → M ℕ Failure
  do_resume container_ip = do
    cid ← current_id env name
    λ w.
        let r = env.unfreeze_app w.events cid in
        map_error unfreeze_failed (λ w. (r, w)) (log (unfroze cid (is_ok r)) w)
    pure container_ip

  -- What the owner of the claim runs, without a claim's channel.
  abbrev start_or_resume : Option ℕ → M ℕ Failure
  start_or_resume none = do_start
  start_or_resume (some ip) = do_resume ip

  -- The result is committed before anything else, and then returned.
  unfoldable pub commit_start : Result ℕ Failure → M ℕ Failure
  commit_start result = do locked env (λ inner. (tt, finish_start result inner)); lift result

  unfoldable pub run_claimed : Option ℕ → M ℕ Failure
  unfolding commit_start
  run_claimed resume_from = do result ← attempt (start_or_resume resume_from); commit_start result

  -- What one turn of the `loop` does with its claim.
  abbrev pub turn : M (Option ℕ) Failure → StartClaim → M (Option ℕ) Failure
  turn again (ready ip) = pure (some ip)
  turn again (coalesce _) = again
  turn again wait_for_stopping = again
  turn again (claimed _ resume_from) = do ip ← run_claimed resume_from; pure (some ip)

  -- Each round is one turn; `ok none` means that all of them were spent waiting for another task's
  -- start or stop. The waits themselves are in `others`.
  unfoldable pub ensure_running : ℕ → M (Option ℕ) Failure
  unfolding run_claimed
  ensure_running zero = pure none
  ensure_running (suc rounds) =
      let again = ensure_running rounds in
      do
        claim ← λ w. locked env (claim_start_slot (env.now w.step) (env.fresh w.step)) w
        turn again claim

  abbrev pub running_ip : AppState → Option ℕ
  running_ip (running ip) = some ip
  running_ip _ = none

  unfoldable pub freeze_commit : ℕ → HandleInner → HandleInner
  freeze_commit ip inner = record inner { state = frozen ip }

  unfoldable pub pause : ℕ → M (Unit {0}) Failure
  unfolding freeze_commit
  pause container_ip = do
    cid ← current_id env name
    λ w.
        let r = env.freeze_app w.events cid in
        map_error freeze_failed (λ w. (r, w)) (log (froze cid (is_ok r)) w)
    locked env (λ inner. (tt, freeze_commit container_ip inner))

  unfoldable pub freeze_at : ℕ → M (Unit {0}) Failure
  unfolding pause
  freeze_at container_ip = do
    active ← load_upgrades env
    if ltb 0 active then pure tt else pause container_ip

  abbrev pub freeze_seen : Option ℕ → M (Unit {0}) Failure
  freeze_seen none = pure tt
  freeze_seen (some container_ip) = freeze_at container_ip

  unfoldable pub freeze : M (Unit {0}) Failure
  unfolding freeze_at
  freeze = do ip ← locked env (λ inner. (running_ip inner.state, inner)); freeze_seen ip

-- The snapshot of the containers and the transition, in one critical section.
abbrev pub stop_claim : Str → HandleInner → Option (List Str) × HandleInner
stop_claim name inner =
    if needs_teardown inner.state
    then (some (live_container_ids inner name), record inner { state = stopping })
    else (none, inner)

abbrev pub stop_commit : HandleInner → HandleInner
stop_commit inner = record inner { state = stopped; cpu_baseline = 0 }

unfoldable pub teardown_containers : Env → List Str → World → World
teardown_containers env [] w = w
teardown_containers env (cid ∷ ids) w =
    teardown_containers env ids (release_endpoint env cid (stop_app env cid w))

module _ (env : Env) (name : Str) where
  abbrev pub stop_claimed : {E : Type 0} → Option (List Str) → M (Unit {0}) E
  stop_claimed none = pure tt
  stop_claimed (some ids) = do
    λ w. (ok tt, teardown_containers env ids w)
    locked env (λ inner. (tt, stop_commit inner))

  unfoldable pub stop : {E : Type 0} → M (Unit {0}) E
  unfolding teardown_containers
  stop = do ids ← locked env (stop_claim name); stop_claimed ids

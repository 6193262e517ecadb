-- ===== src/Runtime/Image/Puller.antt =====
-- crates/bugpot-runtime/src/image.rs: `Puller`. A slot is a number; a waiter goes on when its barrier
-- is free, which `wait` leaves to the other tasks. The registry client and its references are
-- parameters. `others` is what the other tasks do before each access to the puller and the cache.
pub mod Stuck
pub mod Singleflight
use bugpot.Base.{
  ℕ, zero, suc, Bool, Option, none, some, List, [], ◌∷◌, ◌++◌, ◌+◌, ◌==◌, if◌then◌else◌, Result, ok,
  err, list_eq,
}
use bugpot.Base.Text.{Str, codes}
use bugpot.Base.Map.{lookup, insert, remove}
use bugpot.Core.Host.{RuntimeError, invalid_image_ref, other_error}
use bugpot.Config.Image.{Auth}
use bugpot.Runtime.Process.{ImageConfig}
use bugpot.Runtime.Image.{ImageId, Images, PulledImage, fs_component, load_cached_image}
use bugpot.Runtime.Image.Extract.{ExtractEnv, ImageData, Work, extract_to_image_dir}

pub record Puller : Type 0 where
  pub inflight : List (Str × ℕ)
  pub resolved : ℕ → Option ImageId
  pub next_slot : ℕ
  pub images : Images

pub data InflightRole : Type 0 where
  leader waiter : (slot : ℕ) → InflightRole

abbrev pub claim_at : Str → Puller → Option ℕ → InflightRole × Puller
claim_at image_ref p (some slot) = (waiter slot, p)
claim_at image_ref p none = (
  leader p.next_slot,
  record p { inflight = insert image_ref p.next_slot p.inflight; next_slot = suc p.next_slot },
)

unfoldable pub claim_inflight : Str → Puller → InflightRole × Puller
unfolding lookup insert
claim_inflight image_ref p = claim_at image_ref p (lookup image_ref p.inflight)

unfoldable pub release_inflight : Str → Puller → Puller
unfolding remove
release_inflight image_ref p = record p { inflight = remove image_ref p.inflight }

-- The leader writes the digest into its slot.
unfoldable pub publish : ℕ → ImageId → Puller → Puller
publish slot id p = record p {
  resolved = λ asked. if slot == asked then some id else p.resolved asked;
}

pub record Reference : Type 0 where
  pub digest : Option Str

pub record PullEnv : Type 0 where
  pub others : Puller → Puller
  pub parse : Str → Result Reference Str
  pub fetch_manifest_digest : Reference → Auth → Result Str RuntimeError
  pub client_pull : Reference → Auth → Result ImageData RuntimeError
  pub extraction : ExtractEnv
  pub tmp_suffix : Str

module _ (env : PullEnv) where
  abbrev pub load : ImageId → Puller → Result (Option PulledImage) RuntimeError
  load id p = load_cached_image env.extraction.from_slice p.images id

  abbrev pub extracted :
      ImageId
      → Puller
      → Result (Option ImageConfig) RuntimeError × Work
      → Result PulledImage RuntimeError × Puller
  extracted id p (err e, w) = (err e, record p { images = w.images })
  extracted id p (ok config, w) = (
    ok (record { id = id; dir = fs_component id; config = config }),
    record p { images = w.images },
  )

  -- The cache is looked at again after the download.
  abbrev extract_missing :
      ImageId
      → ImageData
      → Puller
      → Result (Option PulledImage) RuntimeError
      → Result PulledImage RuntimeError × Puller
  extract_missing id image p (err e) = (err e, p)
  extract_missing id image p (ok (some cached)) = (ok cached, p)
  extract_missing id image p (ok none) = extracted id p (
      extract_to_image_dir env.extraction (fs_component id ++ env.tmp_suffix) (fs_component id)
        image (record { tmp = none; images = p.images; seen = [] }))

  abbrev store_pulled : ImageData → Puller → Option Str → Result PulledImage RuntimeError × Puller
  store_pulled image p none = (err (other_error (codes "pulled image has no manifest digest")), p)
  store_pulled image p (some id) = extract_missing id image p (load id p)

  abbrev downloaded :
      Puller → Result ImageData RuntimeError → Result PulledImage RuntimeError × Puller
  downloaded p (err e) = (err e, p)
  downloaded p (ok image) = store_pulled image p image.digest

  unfoldable pub do_full_pull : Reference → Auth → Puller → Result PulledImage RuntimeError × Puller
  unfolding extract_to_image_dir load_cached_image fs_component
  do_full_pull reference auth p = downloaded (env.others p) (env.client_pull reference auth)

  -- The end of a leader, on success and on failure.
  abbrev pub finish_leader :
      Str
      → ℕ
      → Result PulledImage RuntimeError × Puller
      → Result (Option PulledImage) RuntimeError × Puller
  finish_leader image_ref slot (ok pulled, p) = (
    ok (some pulled),
    release_inflight image_ref (env.others (publish slot pulled.id (env.others p))),
  )
  finish_leader image_ref slot (err e, p) = (err e, release_inflight image_ref (env.others p))

  -- What a waiter makes of the digest; `ok none` is another turn of the loop.
  abbrev pub read_resolved : Puller → Option ImageId → Result (Option PulledImage) RuntimeError
  read_resolved p none = ok none
  read_resolved p (some id) = load id p

  abbrev pub wait_again :
      Puller
      → Result (Option PulledImage) RuntimeError × Puller
      → Result (Option PulledImage) RuntimeError
      → Result (Option PulledImage) RuntimeError × Puller
  wait_again woken again (err e) = (err e, woken)
  wait_again woken again (ok (some cached)) = (ok (some cached), woken)
  wait_again woken again (ok none) = again

  -- One turn of the loop; `again` is what the next ones give.
  abbrev turn_as :
      Str
      → Reference
      → Auth
      → Puller
      → (Puller → Result (Option PulledImage) RuntimeError × Puller)
      → InflightRole
      → Result (Option PulledImage) RuntimeError × Puller
  turn_as image_ref reference auth claimed again (leader slot) =
      finish_leader image_ref slot (do_full_pull reference auth claimed)
  turn_as image_ref reference auth claimed again (waiter slot) =
      let woken = env.others claimed in
      wait_again woken (again woken) (read_resolved woken (woken.resolved slot))

  abbrev pub claimed_turn :
      Str
      → Reference
      → Auth
      → (Puller → Result (Option PulledImage) RuntimeError × Puller)
      → InflightRole × Puller
      → Result (Option PulledImage) RuntimeError × Puller
  claimed_turn image_ref reference auth again (role, claimed) =
      turn_as image_ref reference auth claimed again role

  -- `ok none`: still waiting after that many turns.
  unfoldable pub coordinated_pull :
      ℕ → Str → Reference → Auth → Puller → Result (Option PulledImage) RuntimeError × Puller
  unfolding claim_inflight release_inflight publish do_full_pull load_cached_image
  coordinated_pull zero image_ref reference auth p = (ok none, p)
  coordinated_pull (suc turns) image_ref reference auth p =
      claimed_turn image_ref reference auth (coordinated_pull turns image_ref reference auth)
        (claim_inflight image_ref (env.others p))

  abbrev probe_at : Option Str → Reference → Auth → Result ImageId RuntimeError
  probe_at (some digest) reference auth = ok digest
  probe_at none reference auth = env.fetch_manifest_digest reference auth

  unfoldable probe_digest : Reference → Auth → Result ImageId RuntimeError
  probe_digest reference auth = probe_at reference.digest reference auth

  abbrev pull_missing :
      ℕ
      → Str
      → Reference
      → Auth
      → Puller
      → Result (Option PulledImage) RuntimeError
      → Result (Option PulledImage) RuntimeError × Puller
  pull_missing turns image_ref reference auth p (err e) = (err e, p)
  pull_missing turns image_ref reference auth p (ok (some cached)) = (ok (some cached), p)
  pull_missing turns image_ref reference auth p (ok none) =
      coordinated_pull turns image_ref reference auth p

  abbrev pull_probed :
      ℕ
      → Str
      → Reference
      → Auth
      → Puller
      → Result ImageId RuntimeError
      → Result (Option PulledImage) RuntimeError × Puller
  pull_probed turns image_ref reference auth p (err e) = (err e, p)
  pull_probed turns image_ref reference auth p (ok id) =
      pull_missing turns image_ref reference auth p (load id p)

  abbrev pull_parsed :
      ℕ
      → Str
      → Auth
      → Puller
      → Result Reference Str
      → Result (Option PulledImage) RuntimeError × Puller
  pull_parsed turns image_ref auth p (err why) = (err (invalid_image_ref image_ref), p)
  pull_parsed turns image_ref auth p (ok reference) =
      pull_probed turns image_ref reference auth (env.others p) (probe_digest reference auth)

  unfoldable pub pull : ℕ → Str → Auth → Puller → Result (Option PulledImage) RuntimeError × Puller
  unfolding coordinated_pull probe_digest load_cached_image
  pull turns image_ref auth p = pull_parsed turns image_ref auth p (env.parse image_ref)

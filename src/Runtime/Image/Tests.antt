-- ===== src/Runtime/Image/Tests.antt =====
-- An image of two layers: its extraction, its pulls and its collection.
use bugpot.Base.{ℕ, true, Option, none, some, List, [], ◌∷◌, ◌≡◌, ◌↔◌, refl, ok, list_eq, inl, inr}
use bugpot.Base.Text.{Str, codes, contains}
use bugpot.Base.Map.{lookup, insert}
use bugpot.Config.Image.{anonymous}
use bugpot.Runtime.Image.{ImageDir}
use bugpot.Runtime.Image.Layer.{MediaTypes, extract_layer_inner, extract_layer, media_of}
use bugpot.Runtime.Image.Layer.Limit.{Contents, extract_layer_inner_iff}
use bugpot.Runtime.Image.Extract.{ExtractEnv, ImageData, extract_to_image_dir}
use bugpot.Runtime.Image.Extract.Crash.{Extracted, extract_to_image_dir-Extracted}
use bugpot.Runtime.Image.Gc.{CacheEntry, collect_garbage}
use bugpot.Runtime.Image.Gc.Spares.{Kept, bundle_to, collect_garbage-Kept}
use bugpot.Runtime.Image.Puller.{Puller, PullEnv, claim_inflight, coordinated_pull, pull}
use bugpot.Runtime.Image.Puller.Stuck.{coordinated_pull_stuck}
use bugpot.Runtime.Image.Puller.Singleflight.{
  ended, starting, update, pc_of, System, Reach, start, later, call, claim, leading,
  claim_inflight-exclusive,
}

abbrev types : MediaTypes
types = record {
  image_layer = codes "oci-tar";
  image_layer_gzip = codes "oci-gzip";
  docker_layer_tar = codes "docker-tar";
  docker_layer_gzip = codes "docker-gzip";
}

-- Each byte stands for two.
abbrev double : List ℕ → List ℕ
double [] = []
double (b ∷ bs) = b ∷ b ∷ double bs

abbrev gunzip : List ℕ → List ℕ × Option Str
gunzip blob = (double blob, none)

extract_layer_inner_iff_example :
    (extract_layer_inner types gunzip (codes "rootfs") 4 (1 ∷ 2 ∷ []) (codes "oci-gzip")
      ≡ ok (1 ∷ 1 ∷ 2 ∷ 2 ∷ []))
    ↔ Contents types gunzip
        (codes "rootfs")
        4
        (1 ∷ 2 ∷ [])
        (media_of types (codes "oci-gzip"))
        (1 ∷ 1 ∷ 2 ∷ 2 ∷ [])
extract_layer_inner_iff_example =
    extract_layer_inner_iff types gunzip (codes "rootfs") 4 (1 ∷ 2 ∷ []) (codes "oci-gzip")
      (1 ∷ 1 ∷ 2 ∷ 2 ∷ [])

abbrev disk : ExtractEnv
disk = record {
  answer = λ c. ok tt;
  midway = λ c. none;
  to_vec_pretty = λ manifest. ok manifest;
  from_slice = λ body. ok none;
  extract_layer = extract_layer types gunzip (codes "rootfs");
}

abbrev image : ImageData
image = record {
  digest = some (codes "sha256:ab");
  manifest = some (codes "m");
  config = codes "{}";
  layers =
      record { blob = 1 ∷ []; media_type = codes "oci-tar" }
      ∷ record { blob = 2 ∷ []; media_type = codes "oci-tar" }
      ∷ [];
}

extract_to_image_dir-Extracted_example :
    Extracted disk (codes "sha256_ab.tmp.1.0") (codes "sha256_ab") [] image (
      extract_to_image_dir disk
        (codes "sha256_ab.tmp.1.0")
        (codes "sha256_ab")
        image
        (record { tmp = none; images = []; seen = [] }))
extract_to_image_dir-Extracted_example =
    extract_to_image_dir-Extracted disk (codes "sha256_ab.tmp.1.0") (codes "sha256_ab") [] image
      none

abbrev stored : ImageDir
stored = record {
  manifest = some (codes "m");
  config = some (codes "{}");
  rootfs = (1 ∷ []) ∷ (2 ∷ []) ∷ [];
  done = true;
}

abbrev registry : PullEnv
registry = record {
  others = λ p. p;
  parse = λ s. ok (record { digest = none });
  fetch_manifest_digest = λ reference auth. ok (codes "sha256:ab");
  client_pull = λ reference auth. ok image;
  extraction = disk;
  tmp_suffix = codes ".tmp.1.0";
}

abbrev empty : Puller
empty = record { inflight = []; resolved = λ slot. none; next_slot = 0; images = [] }

-- A pull of an image that is not there leaves it in the cache, and its reference free.
pulls :
    (pull registry 1 (codes "app:1") anonymous empty).1.images ≡ (codes "sha256_ab", stored) ∷ []
unfolding pull lookup insert extract_layer
pulls = refl

-- The leader of `app:1` was dropped.
abbrev abandoned : Puller
abandoned = record empty { inflight = (codes "app:1", 0) ∷ []; next_slot = 1 }

coordinated_pull_stuck_example :
    coordinated_pull registry 100 (codes "app:1") (record { digest = none }) anonymous abandoned
    ≡ (ok none, abandoned)
unfolding lookup
coordinated_pull_stuck_example =
    coordinated_pull_stuck registry (λ p. refl) 100 (codes "app:1") (record { digest = none })
      anonymous abandoned 0 refl refl

-- One task has taken the lead of `app:1`.
abbrev asked : System
asked = record { puller = empty; pc = update (λ i. ended) 0 (starting (codes "app:1")) }

abbrev led : System
led = record {
  puller = (claim_inflight (codes "app:1") empty).1;
  pc = update asked.pc 0 (pc_of (codes "app:1") (claim_inflight (codes "app:1") empty).0);
}

asked-reached : Reach asked
asked-reached = later 0 (start []) (call (codes "app:1"))

led-reached : Reach led
led-reached = later 0 asked-reached (claim (codes "app:1"))

leads : led.pc 0 ≡ leading (codes "app:1") 0
unfolding claim_inflight
leads = refl

claim_inflight-exclusive_example :
    ◌≡◌ {A = ℕ} 0 0 × (lookup (codes "app:1") led.puller.inflight ≡ some 0)
claim_inflight-exclusive_example =
    claim_inflight-exclusive led-reached 0 0 (codes "app:1") 0 0 leads leads

abbrev live_entry : CacheEntry
live_entry = record {
  readable = true;
  is_dir = true;
  name = some (codes "sha256_ab");
  has_done = true;
  removable = true;
}

abbrev target : List Str
target = codes "images" ∷ codes "sha256_ab" ∷ codes "rootfs" ∷ []

collect_garbage-Kept_example :
    Kept live_entry
      (collect_garbage
        (codes "bundles")
        (codes "images")
        (some (ok (bundle_to target ∷ [])))
        (some (ok (record live_entry { name = some (codes "old") } ∷ live_entry ∷ [])))).1
unfolding contains
collect_garbage-Kept_example =
    collect_garbage-Kept (codes "bundles") (codes "images") (bundle_to target ∷ [])
      (record live_entry { name = some (codes "old") } ∷ live_entry ∷ []) target (codes "sha256_ab")
      live_entry (inl refl) refl refl (inr (inl refl)) refl refl

-- The directory that no bundle leads to is gone.
collects :
    collect_garbage
      (codes "bundles")
      (codes "images")
      (some (ok (bundle_to target ∷ [])))
      (some (ok (record live_entry { name = some (codes "old") } ∷ live_entry ∷ [])))
    ≡ (ok 1, some (ok (live_entry ∷ [])))
unfolding collect_garbage
collects = refl

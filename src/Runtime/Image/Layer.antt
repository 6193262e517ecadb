-- ===== src/Runtime/Image/Layer.antt =====
-- crates/bugpot-runtime/src/image.rs: what is unpacked of a layer. The decoder of `flate2` is a
-- parameter: the bytes that it gives, and the error after them, if any.
pub mod Limit
use bugpot.Base.{
  ℕ, zero, suc, Option, none, some, List, [], ◌∷◌, ◌+◌, ◌*◌, Result, ok, err, length, ltb, list_beq,
  if◌then◌else◌, ◌||◌,
}
use bugpot.Base.Text.{Str, codes}
use bugpot.Core.Host.{RuntimeError, other_error, unsupported_media_type}
use bugpot.Runtime.Image.{io_at}

abbrev max_layer_decompressed_bytes : ℕ
max_layer_decompressed_bytes = 512 * 1024 * 1024

pub data Media : Type 0 where
  tar gzip : Media

-- The `match` on the media types that `oci_client::manifest` names.
pub record MediaTypes : Type 0 where
  pub image_layer : Str
  pub image_layer_gzip : Str
  pub docker_layer_tar : Str
  pub docker_layer_gzip : Str

unfoldable accepted_media_types : MediaTypes → List Str
accepted_media_types m =
    m.image_layer ∷ m.image_layer_gzip ∷ m.docker_layer_tar ∷ m.docker_layer_gzip ∷ []

abbrev pub media_of : MediaTypes → Str → Option Media
media_of m media_type =
    if list_beq media_type m.image_layer || list_beq media_type m.docker_layer_tar
    then some tar
    else if list_beq media_type m.image_layer_gzip || list_beq media_type m.docker_layer_gzip
    then some gzip
    else none

-- `take(limit)` before `read_to_end`: an error past the limit is not seen.
unfoldable pub read_limited : ℕ → List ℕ → Option Str → Result (List ℕ) Str
read_limited zero decoded fault = ok []
read_limited (suc limit) [] none = ok []
read_limited (suc limit) [] (some why) = err why
read_limited (suc limit) (b ∷ decoded) fault = elim (read_limited limit decoded fault) [
  | err why ↦ err why
  | ok bs ↦ ok (b ∷ bs)
]

module _ (types : MediaTypes) (gunzip : List ℕ → List ℕ × Option Str) (rootfs : Str) where
  abbrev pub check_decoded : ℕ → Result (List ℕ) Str → Result (List ℕ) RuntimeError
  check_decoded max_decompressed (err why) = err (io_at rootfs why)
  check_decoded max_decompressed (ok buf) =
      if ltb max_decompressed (length buf)
      then err (other_error (codes "gzipped image layer decompressed past size cap"))
      else ok buf

  abbrev pub bytes_by : ℕ → List ℕ → Str → Option Media → Result (List ℕ) RuntimeError
  bytes_by max_decompressed blob media_type none = err (unsupported_media_type media_type)
  bytes_by max_decompressed blob media_type (some tar) =
      if ltb max_decompressed (length blob)
      then err (other_error (codes "image layer exceeds decompressed size cap"))
      else ok blob
  bytes_by max_decompressed blob media_type (some gzip) =
      let (decoded, fault) = gunzip blob in
      check_decoded max_decompressed (read_limited (max_decompressed + 1) decoded fault)

  -- `extract_layer_inner`, up to the bytes that it hands to `unpack_tar`.
  unfoldable pub extract_layer_inner : ℕ → List ℕ → Str → Result (List ℕ) RuntimeError
  unfolding read_limited
  extract_layer_inner max_decompressed blob media_type =
      bytes_by max_decompressed blob media_type (media_of types media_type)

  unfoldable pub extract_layer : List ℕ → Str → Result (List ℕ) RuntimeError
  unfolding extract_layer_inner
  extract_layer blob media_type = extract_layer_inner max_layer_decompressed_bytes blob media_type

-- ===== src/Runtime/Image/Layer/Limit.antt =====
-- What of a layer reaches the unpacking of its archive.
use bugpot.Base.{
  ℕ, zero, suc, Option, none, some, List, [], ◌∷◌, ◌+◌, ◌≤◌, ◌<◌, ◌≡◌, ◌↔◌, inl, inr, refl, arith,
  Result, ok, err, length, ap, sym, ◌∙◌, Result-cases,
}
use bugpot.Base.Text.{Str}
use bugpot.Runtime.Image.Layer.{
  Media, tar, gzip, MediaTypes, media_of, read_limited, bytes_by, check_decoded,
  extract_layer_inner,
}

read_limited-short :
    (n : ℕ) (decoded : List ℕ) (fault : Option Str) (bs : List ℕ)
    → read_limited n decoded fault ≡ ok bs
    → length bs < n
    → (decoded ≡ bs) × (fault ≡ none)
unfolding read_limited
read_limited-short zero decoded fault bs e short = absurd (omega (arith, short))
read_limited-short (suc n) [] none bs e short = (ground (arith, e), refl)
read_limited-short (suc n) [] (some why) bs e short = absurd (ground (arith, e))
read_limited-short (suc n) (b ∷ decoded) fault bs e short =
    elim (Result-cases (read_limited n decoded fault)) [
      | inr (why, stopped) ↦ absurd (ground (arith, e, stopped))
      | inl (cs, got) ↦
          let whole : bs ≡ b ∷ cs = ground (arith, e, got) in
          let (same, clean) =
            read_limited-short n decoded fault cs got (omega (arith, ap length whole, short)) in
          (ap (λ ds. b ∷ ds) same ∙ sym whole, clean)
    ]

read_limited-all :
    (n : ℕ) (decoded : List ℕ) → length decoded < n → read_limited n decoded none ≡ ok decoded
unfolding read_limited
read_limited-all zero decoded short = absurd (omega (arith, short))
read_limited-all (suc n) [] short = refl
read_limited-all (suc n) (b ∷ decoded) short =
    rw (read_limited-all n decoded (omega (arith, short))) refl

module _ (types : MediaTypes) (gunzip : List ℕ → List ℕ × Option Str) (rootfs : Str) where
  -- The whole of the layer, decoded, within the limit.
  abbrev pub Contents : ℕ → List ℕ → Option Media → List ℕ → Type 0
  Contents max blob none bs = ⊥
  Contents max blob (some tar) bs = (length bs ≤ max) × (blob ≡ bs)
  Contents max blob (some gzip) bs =
      (length bs ≤ max) × ((gunzip blob).0 ≡ bs) × ((gunzip blob).1 ≡ none)

  check_decoded-ok :
      (max : ℕ) (r : Result (List ℕ) Str) (bs : List ℕ)
      → check_decoded types gunzip rootfs max r ≡ ok bs
      → (r ≡ ok bs) × (length bs ≤ max)
  check_decoded-ok max (err why) bs e = absurd (ground (arith, e))
  check_decoded-ok max (ok buf) bs e = ground (arith, e)

  bytes_by_iff :
      (max : ℕ) (blob : List ℕ) (media_type : Str) (media : Option Media) (bs : List ℕ)
      → (bytes_by types gunzip rootfs max blob media_type media ≡ ok bs)
        ↔ Contents max blob media bs
  bytes_by_iff max blob media_type none bs = (λ e. ground (arith, e), λ e. absurd e)
  bytes_by_iff max blob media_type (some tar) bs =
      (λ e. ground (arith, e), λ h. ground (arith, h.0, h.1))
  bytes_by_iff max blob media_type (some gzip) bs = (
    λ e.
        let (got, fits) =
          check_decoded-ok max (read_limited (max + 1) (gunzip blob).0 (gunzip blob).1) bs e in
        let whole =
          read_limited-short (max + 1) (gunzip blob).0 (gunzip blob).1 bs got
            (omega (arith, fits)) in
        (fits, whole.0, whole.1),
    λ (fits, same, clean).
        rw (same, clean, read_limited-all (max + 1) bs (omega (arith, fits)))
          (ground (arith, fits)),
  )

  -- What reaches the unpacking is exactly the whole of a layer of one of the four media types, that
  -- of a gzipped one decoded to its end without an error, of at most the given number of bytes.
  pub extract_layer_inner_iff :
      (max : ℕ) (blob : List ℕ) (media_type : Str) (bs : List ℕ)
      → (extract_layer_inner types gunzip rootfs max blob media_type ≡ ok bs)
        ↔ Contents max blob (media_of types media_type) bs
  unfolding extract_layer_inner
  extract_layer_inner_iff max blob media_type bs =
      bytes_by_iff max blob media_type (media_of types media_type) bs

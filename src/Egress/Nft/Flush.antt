-- ===== src/Egress/Nft/Flush.antt =====
-- What the release of an address deletes from the allow set.
use bugpot.Base.{
  eq_cases, inl, inr, Result-cases, ℕ, List, [], ◌∷◌, ◌++◌, Result, ok, ◌≡◌, refl, ◌==◌,
  if◌then◌else◌, sym, ◌∙◌, ap, ◌>>=◌,
}
use mathlib.Core.List.{append-nil, append_assoc}
use bugpot.Base.Text.{Str, codes}
use bugpot.Egress.Nft.{
  Nft, element, writeln, delete_script, list_allow_set, flush_src, run_unless_empty,
}

-- The destinations that the set has for a source.
abbrev pub destinations : ℕ → List (ℕ × ℕ) → List ℕ
destinations src [] = []
destinations src ((s, d) ∷ entries) =
    let rest = destinations src entries in if s == src then d ∷ rest else rest

-- One command on a line for each of them.
unfoldable pub command : Str → ℕ → ℕ → Str
command table src dst = codes "delete" ++ element table src dst ++ 10 ∷ []

abbrev pub deletions : Str → ℕ → List ℕ → Str
deletions table src [] = []
deletions table src (d ∷ ds) = command table src d ++ deletions table src ds

abbrev pub run_unless_none : Nft → Str → ℕ → List ℕ → Result (Unit {0}) Str
run_unless_none nft table src [] = ok tt
run_unless_none nft table src (d ∷ ds) = nft.run_script (deletions table src (d ∷ ds))

append-append : (out a e : Str) → out ++ a ++ e ++ 10 ∷ [] ≡ out ++ (a ++ e ++ 10 ∷ [])
append-append out a e =
    ap (λ s. s ++ 10 ∷ []) (append_assoc out a e) ∙ append_assoc out (a ++ e) (10 ∷ [])

writeln-command :
    (out table : Str) (s d : ℕ)
    → writeln out (codes "delete" ∷ element table s d ∷ []) ≡ out ++ command table s d
unfolding writeln command
writeln-command out table s d = append-append out (codes "delete") (element table s d)

module _ (nft : Nft) where
  delete_script_lem :
      (table : Str) (src : ℕ) (script : Str) (entries : List (ℕ × ℕ))
      → delete_script nft table src script entries
        ≡ script ++ deletions table src (destinations src entries)
  unfolding delete_script
  delete_script_lem table src script [] = sym (append-nil script)
  delete_script_lem table src script ((s, d) ∷ entries) = elim (eq_cases s src) [
    | inl (same, test) ↦
        rw (test, writeln-command script table s d, same)
          (delete_script_lem table src (script ++ command table src d) entries
            ∙ append_assoc script (command table src d)
                (deletions table src (destinations src entries)))
    | inr test ↦ rw test (delete_script_lem table src script entries)
  ]

  run_unless_empty_lem :
      (table : Str) (src : ℕ) (ds : List ℕ)
      → run_unless_empty nft (deletions table src ds) ≡ run_unless_none nft table src ds
  unfolding command
  run_unless_empty_lem table src [] = refl
  run_unless_empty_lem table src (d ∷ ds) = refl

  -- The release of an address reads the allow set and fails as that reading fails. Otherwise it runs
  -- one script, which has one command for each pair of the set from that address and none for a pair
  -- from another, in the order of the set; it runs nothing when there is no such pair.
  pub flush_src_lem :
      (table : Str) (src : ℕ)
      → flush_src nft table src ≡ (
          list_allow_set nft table >>= λ pairs.
          run_unless_none nft table src (destinations src pairs))
  unfolding flush_src
  flush_src_lem table src = elim (Result-cases (list_allow_set nft table)) [
    | inl (pairs, listed) ↦
        rw (listed, delete_script_lem table src [] pairs)
          (run_unless_empty_lem table src (destinations src pairs))
    | inr (why, failed) ↦ rw failed refl
  ]

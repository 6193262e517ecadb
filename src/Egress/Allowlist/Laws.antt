-- ===== src/Egress/Allowlist/Laws.antt =====
-- Which names and addresses an allowlist lets through.
use mathlib.Core.Path.{subst}
use bugpot.Base.{
  ◌<◌, Some, any_iff, ℕ, zero, suc, true, some, List, [], ◌∷◌, ◌++◌, ◌≡◌, refl, arith, length, drop,
  length-append, ◌↔◌, list_beq_iff, ◌⊎◌, inl, inr, ap, sym, ◌∙◌, list_beq, ◌+◌, ◌-◌, Bool-cases,
}
use bugpot.Base.Text.{Str, bytes, ends_with}
use bugpot.Egress.Allowlist.{
  Rule, domain, wildcard, cidr, is_subdomain_of, get_elem?, is_dot, matches_domain, domain_rule,
  normalise_name,
}

abbrev take : ℕ → List ℕ → List ℕ
take zero xs = []
take (suc n) [] = []
take (suc n) (x ∷ xs) = x ∷ take n xs

split_at_dot :
    (xs : List ℕ) (i : ℕ)
    → is_dot (get_elem? xs i) ≡ true
    → xs ≡ take i xs ++ b'.' ∷ drop (suc i) xs
split_at_dot [] i h = ground arith
split_at_dot (x ∷ xs) zero h = ap (λ y. y ∷ xs) (ground arith)
split_at_dot (x ∷ xs) (suc i) h = ap (◌∷◌ x) (split_at_dot xs i h)

get_elem?-append : (xs ys : List ℕ) (y : ℕ) → get_elem? (xs ++ y ∷ ys) (length xs) ≡ some y
get_elem?-append [] ys y = refl
get_elem?-append (x ∷ xs) ys y = get_elem?-append xs ys y

drop-append : (xs ys : List ℕ) (y : ℕ) → drop (suc (length xs)) (xs ++ y ∷ ys) ≡ ys
drop-append [] ys y = refl
drop-append (x ∷ xs) ys y = drop-append xs ys y

-- A name is a subdomain exactly when it is some bytes, a dot and the parent.
pub is_subdomain_of_iff :
    (parent name : List ℕ)
    → (is_subdomain_of parent name ≡ true) ↔ ((pre : List ℕ) × (name ≡ pre ++ b'.' ∷ parent))
unfolding is_subdomain_of ends_with
is_subdomain_of_iff parent name = (
  λ h.
      let i = length name - length parent - 1 in
      let lt : length parent < length name = ground arith in
      let same : list_beq (drop (length name - length parent) name) parent ≡ true = ground arith in
      let dot : is_dot (get_elem? name i) ≡ true = ground arith in
      let at : suc i ≡ length name - length parent = omega arith in
      (
        take i name,
        split_at_dot name i dot
            ∙ ap (λ ys. take i name ++ b'.' ∷ ys)
                (ap (λ k. drop k name) at ∙ (list_beq_iff _ parent).0 same),
      ),
  λ (pre, e). subst (λ n. is_subdomain_of parent n ≡ true) (sym e) (joined pre),
)
  where
    joined : (pre : List ℕ) → is_subdomain_of parent (pre ++ b'.' ∷ parent) ≡ true
    joined pre =
        let name' = pre ++ b'.' ∷ parent in
        let size : length name' ≡ length pre + suc (length parent) =
          length-append pre (b'.' ∷ parent) in
        let at : length name' - length parent ≡ suc (length pre) = omega arith in
        let at' : length name' - length parent - 1 ≡ length pre = omega arith in
        let same : drop (length name' - length parent) name' ≡ parent =
          ap (λ k. drop k name') at ∙ drop-append pre parent b'.' in
        let dot : is_dot (get_elem? name' (length name' - length parent - 1)) ≡ true =
          ap (λ k. is_dot (get_elem? name' k)) at' ∙ ap is_dot (get_elem?-append pre parent b'.') in
        ground (arith, (list_beq_iff (drop (length name' - length parent) name') parent).1 same)

-- The name, in normal form, is that of a domain rule or has it as a parent, on a dot boundary, or
-- has that of a wildcard as a parent.
abbrev pub Covers : Str → Rule → Type 0
Covers name (domain d) = (name ≡ d) ⊎ ((pre : List ℕ) × (bytes name ≡ pre ++ b'.' ∷ bytes d))
Covers name (wildcard d) = (pre : List ℕ) × (bytes name ≡ pre ++ b'.' ∷ bytes d)
Covers name (cidr net) = ⊥

domain_rule_iff : (name : Str) (r : Rule) → (domain_rule name r ≡ true) ↔ Covers name r
domain_rule_iff name (domain d) =
    let sub = is_subdomain_of_iff (bytes d) (bytes name) in
    (
      λ e. elim (Bool-cases (list_beq name d)) [
        | inl is ↦ inl ((list_beq_iff name d).0 is)
        | inr isnt ↦ inr (sub.0 (ground arith))
      ],
      λ s. elim s [
        | inl same ↦ ground (arith, (list_beq_iff name d).1 same)
        | inr under ↦ ground (arith, sub.1 under, Bool-cases (list_beq name d))
      ],
    )
domain_rule_iff name (wildcard d) = is_subdomain_of_iff (bytes d) (bytes name)
domain_rule_iff name (cidr net) = (λ e. ground arith, λ e. absurd e)

-- An allowlist lets a name through exactly when one of its domain or wildcard rules covers the name
-- without its trailing dots and in lower case; a CIDR rule never does.
pub matches_domain_iff :
    (rules : List Rule) (name : Str)
    → (matches_domain rules name ≡ true) ↔ Some (Covers (normalise_name name)) rules
unfolding matches_domain
matches_domain_iff rules name =
    any_iff (Covers (normalise_name name)) (domain_rule (normalise_name name))
      (domain_rule_iff (normalise_name name)) rules

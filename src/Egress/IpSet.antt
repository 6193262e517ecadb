-- ===== src/Egress/IpSet.antt =====
-- `BTreeSet<Ipv4Addr>`: a list that keeps its elements in increasing order.
use bugpot.Base.{
  ◌||◌, ℕ, Bool, true, false, List, [], ◌∷◌, ◌==◌, ltb, if◌then◌else◌, ◌≡◌, refl, arith, ◌<◌, not,
  ◌&&◌, if-cases, if-cases,
}

unfoldable pub insert : ℕ → List ℕ → List ℕ
insert x [] = x ∷ []
insert x (y ∷ ys) =
    let rest = insert x ys in if ltb x y then x ∷ y ∷ ys else if x == y then y ∷ ys else y ∷ rest

unfoldable pub remove : ℕ → List ℕ → List ℕ
remove x [] = []
remove x (y ∷ ys) = let rest = remove x ys in if x == y then ys else y ∷ rest

abbrev pub member : ℕ → List ℕ → Bool
member x [] = false
member x (y ∷ ys) = x == y || member x ys

abbrev pub Above : ℕ → List ℕ → Type 0
Above n xs = (x : ℕ) → member x xs ≡ true → n < x

abbrev pub Increasing : List ℕ → Type 0
Increasing [] = Unit
Increasing (x ∷ xs) = Above x xs × Increasing xs

pub member-insert : (x y : ℕ) (xs : List ℕ) → member y (insert x xs) ≡ (y == x || member y xs)
unfolding insert
member-insert x y [] = refl
member-insert x y (z ∷ zs) = ground (arith, member-insert x y zs)

pub insert-Increasing : (x : ℕ) (xs : List ℕ) → Increasing xs → Increasing (insert x xs)
unfolding insert
insert-Increasing x [] h = (λ y e. ground arith, tt)
insert-Increasing x (y ∷ ys) h =
    if-cases Increasing (ltb x y) (λ lt. (λ z e. ground (arith, h.0 z), h))
      (λ ge.
        if-cases Increasing (x == y) (λ eq. h)
          (λ ne. (λ z e. ground (arith, h.0 z, member-insert x z ys), insert-Increasing x ys h.1)))

pub member-remove :
    (x y : ℕ) (xs : List ℕ) → Increasing xs → member y (remove x xs) ≡ (not (y == x) && member y xs)
unfolding remove
member-remove x y [] h = ground arith
member-remove x y (z ∷ zs) h = ground (arith, h.0 x, h.0 y, member-remove x y zs h.1)

pub remove-Increasing : (x : ℕ) (xs : List ℕ) → Increasing xs → Increasing (remove x xs)
unfolding remove
remove-Increasing x [] h = tt
remove-Increasing x (y ∷ ys) h =
    if-cases Increasing (x == y) (λ e. h.1)
      (λ ne. (λ z e. h.0 z (ground (arith, member-remove x z ys h.1)), remove-Increasing x ys h.1))

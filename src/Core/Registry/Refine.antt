-- ===== src/Core/Registry/Refine.antt =====
-- The registry's two indexes stand for one map, from the names of the apps to their labels.
use mathlib.Core.Path.{subst}
use mathlib.Core.Option.{some-injective}
use bugpot.Base.{
  ◌↔◌, list_eq, ◌≡◌, ◌≢◌, Option, none, some, ok, err, Result, arith, ap, list_beq_iff,
  if◌then◌else◌, ◌=?◌, refl, ◌∙◌, Option-cases, inl, inr, Bool, true, false,
}
use bugpot.Base.Text.{Str}
use bugpot.Core.Registry.{
  HandleRef, AppMaps, InsertCollision, name_taken, subdomain_taken, try_insert, remove,
  find_by_name, find_by_subdomain, would_collide,
}
use bugpot.Core.Registry.Laws.{
  Synced, try_insert-Synced, try_insert_cases, find_by_name-insert_both, find_by_name-remove,
  find_by_subdomain-remove, remove-Synced,
}

-- The routing labels, by name.
abbrev pub Labels : Type 0
Labels = Str → Option Str

abbrev label_of : Option HandleRef → Option Str
label_of none = none
label_of (some h) = some h.subdomain

abbrev pub labels : AppMaps → Labels
labels m name = label_of (find_by_name name m)

-- The inverse: the app that a label routes to.
abbrev pub Routes : Type 0
Routes = Str → Option Str

abbrev name_of : Option HandleRef → Option Str
name_of none = none
name_of (some h) = some h.name

abbrev pub routes : AppMaps → Routes
routes m label = name_of (find_by_subdomain label m)

-- The second index routes each label to the app that has it, and no other label.
abbrev pub IsInverse : Labels → Routes → Type 0
IsInverse to_label to_name =
    (label name : Str) → (to_name label ≡ some name) ↔ (to_label name ≡ some label)

-- What an insertion promises: a taken name is refused first, then a label that some app has.
abbrev pub Inserts : Str → Str → Labels → Result (Unit {0}) InsertCollision → Labels → Type 0
Inserts name label before (ok _) after =
    (before name ≡ none)
    × ((n : Str) → before n ≢ some label)
    × ((n : Str) → after n ≡ (if name =? n then some label else before n))
Inserts name label before (err name_taken) after =
    (before name ≢ none) × ((n : Str) → after n ≡ before n)
Inserts name label before (err subdomain_taken) after =
    (before name ≡ none)
    × (holder : Str) × (before holder ≡ some label)
    × ((n : Str) → after n ≡ before n)

labels-free :
    (m : AppMaps) (label : Str)
    → Synced m
    → find_by_subdomain label m ≡ none
    → (n : Str) → labels m n ≢ some label
labels-free m label s free n e = go (find_by_name n m) refl e
  where
    go : (o : Option HandleRef) → find_by_name n m ≡ o → label_of o ≢ some label
    go none here has = cc has
    go (some h) here has = cc (has, (s.names n h here).1, free)

label_of-if :
    (b : Bool) (x y : Option HandleRef)
    → label_of (if b then x else y) ≡ (if b then label_of x else label_of y)
label_of-if true x y = refl
label_of-if false x y = refl

taken-name :
    (m : AppMaps) (h : HandleRef)
    → would_collide h.name h.subdomain m ≡ some name_taken
    → labels m h.name ≢ none
unfolding would_collide
taken-name m h e none_there = ground (arith, e, none_there)

taken-label :
    (m : AppMaps) (h : HandleRef)
    → would_collide h.name h.subdomain m ≡ some subdomain_taken
    → (find_by_name h.name m ≡ none) × (g : HandleRef) × (find_by_subdomain h.subdomain m ≡ some g)
unfolding would_collide
taken-label m h e = elim (Option-cases (find_by_subdomain h.subdomain m)) [
  | inl free ↦ absurd (ground (arith, e, free))
  | inr (g, routed) ↦ (ground (arith, e, routed), g, routed)
]

name_of-some :
    (o : Option HandleRef) (name : Str)
    → name_of o ≡ some name
    → (h : HandleRef) × (o ≡ some h) × (h.name ≡ name)
name_of-some none name e = cc
name_of-some (some h) name e = (h, refl, some-injective h.name name e)

label_of-some :
    (o : Option HandleRef) (label : Str)
    → label_of o ≡ some label
    → (h : HandleRef) × (o ≡ some h) × (h.subdomain ≡ label)
label_of-some none label e = cc
label_of-some (some h) label e = (h, refl, some-injective h.subdomain label e)

Synced-IsInverse : (m : AppMaps) → Synced m → IsInverse (labels m) (routes m)
Synced-IsInverse m s label name = (
  λ routed.
      let (h, at, named) = name_of-some (find_by_subdomain label m) name routed in
      let (own, back) = s.subdomains label h at in
      subst (λ n. labels m n ≡ some label) named (ap label_of back ∙ ap some own),
  λ labelled.
      let (h, at, labels_it) = label_of-some (find_by_name name m) label labelled in
      let (own, back) = s.names name h at in
      subst (λ l. routes m l ≡ some name) labels_it (ap name_of back ∙ ap some own),
)

inserts :
    (h : HandleRef) (m : AppMaps)
    → Synced m
    → let (r, m') = try_insert h m in Inserts h.name h.subdomain (labels m) r (labels m')
inserts h m s = elim (try_insert_cases h m) [
  | inl (free_name, free_label, e) ↦ rw e (
    ap label_of free_name,
    labels-free m h.subdomain s free_label,
    λ n.
        ap label_of (find_by_name-insert_both n h m)
        ∙ label_of-if (h.name =? n) (some h) (find_by_name n m),
  )
  | inr (name_taken, collides, e) ↦ rw e (taken-name m h collides, λ n. refl)
  | inr (subdomain_taken, collides, e) ↦
      let (free, g, routed) = taken-label m h collides in
      let (own, named) = s.subdomains h.subdomain g routed in
      rw e (ap label_of free, g.name, ap label_of named ∙ ap some own, λ n. refl)
]

-- From two indexes that agree, the insertion under the write lock does what one map from names to
-- labels promises: a taken name is refused first, then a label that some app has, both without a
-- change, and otherwise the app gets its label and no other app's changes; and the two indexes agree
-- afterwards, so that the index of labels is the inverse of that map.
pub try_insert_refines :
    (h : HandleRef) (m : AppMaps)
    → Synced m
    → let (r, m') = try_insert h m in
      Inserts h.name h.subdomain (labels m) r (labels m')
      × IsInverse (labels m') (routes m')
      × Synced m'
try_insert_refines h m s =
    let synced = try_insert-Synced h m s in
    (inserts h m s, Synced-IsInverse (try_insert h m).1 synced, synced)

-- The removal of a registered app takes its name out of the map, and frees its label.
pub remove_refines :
    (h : HandleRef) (m : AppMaps)
    → Synced m
    → find_by_name h.name m ≡ some h
    → ((n : Str)
        → labels (remove h.name h.subdomain m) n ≡ (if h.name =? n then none else labels m n))
      × ((n : Str) → labels (remove h.name h.subdomain m) n ≢ some h.subdomain)
remove_refines h m s here = (
  λ n.
      ap label_of (find_by_name-remove n h.name h.subdomain m)
      ∙ label_of-if (h.name =? n) none (find_by_name n m),
  labels-free (remove h.name h.subdomain m) h.subdomain (remove-Synced h m s here) (
      find_by_subdomain-remove h.subdomain h.name h.subdomain m
      ∙ rw ((list_beq_iff h.subdomain h.subdomain).1 refl) refl),
)

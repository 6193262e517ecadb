-- ===== src/Core/Registry/Laws.antt =====
-- The two indexes of the registry agree, whatever is inserted and removed.
use bugpot.Base.{
  list_eq, ◌≡◌, ◌⊎◌, refl, none, some, ok, err, arith, list_beq, list_beq_iff, inl, inr,
  if◌then◌else◌,
}
use bugpot.Base.Text.{Str}
use bugpot.Base.Map.{lookup, lookup-insert, lookup-remove}
use bugpot.Core.Registry.{
  HandleRef, AppMaps, InsertCollision, empty, insert_both, try_insert, remove, find_by_name,
  find_by_subdomain, would_collide,
}

-- Each index leads to a handle under its own key, and the other index leads to the same handle.
pub record Synced (m : AppMaps) : Type 0 where
  pub names :
      (k : Str) (h : HandleRef)
      → find_by_name k m ≡ some h
      → (h.name ≡ k) × (find_by_subdomain h.subdomain m ≡ some h)
  pub subdomains :
      (k : Str) (h : HandleRef)
      → find_by_subdomain k m ≡ some h
      → (h.subdomain ≡ k) × (find_by_name h.name m ≡ some h)

pub find_by_name-insert_both :
    (k : Str) (h : HandleRef) (m : AppMaps)
    → find_by_name k (insert_both h m) ≡ (if list_beq h.name k then some h else find_by_name k m)
unfolding find_by_name insert_both
find_by_name-insert_both k h m = lookup-insert h.name k h m.by_name

pub find_by_subdomain-insert_both :
    (k : Str) (h : HandleRef) (m : AppMaps)
    → find_by_subdomain k (insert_both h m)
      ≡ (if list_beq h.subdomain k then some h else find_by_subdomain k m)
unfolding find_by_subdomain insert_both
find_by_subdomain-insert_both k h m = lookup-insert h.subdomain k h m.by_subdomain

pub find_by_name-remove :
    (k name sub : Str) (m : AppMaps)
    → find_by_name k (remove name sub m) ≡ (if list_beq name k then none else find_by_name k m)
unfolding find_by_name remove
find_by_name-remove k name sub m = lookup-remove name k m.by_name

pub find_by_subdomain-remove :
    (k name sub : Str) (m : AppMaps)
    → find_by_subdomain k (remove name sub m)
      ≡ (if list_beq sub k then none else find_by_subdomain k m)
unfolding find_by_subdomain remove
find_by_subdomain-remove k name sub m = lookup-remove sub k m.by_subdomain

pub empty-Synced : Synced empty
unfolding find_by_name find_by_subdomain lookup
empty-Synced = record { names = λ k h e. cc; subdomains = λ k h e. cc }

module _ (h : HandleRef) (m : AppMaps) (s : Synced m) where
  insert_both-Synced :
      find_by_name h.name m ≡ none
      → find_by_subdomain h.subdomain m ≡ none
      → Synced (insert_both h m)
  insert_both-Synced free_name free_sub = record {
    names = λ k g e. ground (
      arith,
      find_by_name-insert_both k h m,
      find_by_subdomain-insert_both g.subdomain h m,
      s.names k g,
      list_beq_iff h.name k,
      list_beq_iff h.subdomain g.subdomain,
      list_beq_iff h.subdomain h.subdomain,
    );
    subdomains = λ k g e. ground (
      arith,
      find_by_subdomain-insert_both k h m,
      find_by_name-insert_both g.name h m,
      s.subdomains k g,
      list_beq_iff h.subdomain k,
      list_beq_iff h.name g.name,
      list_beq_iff h.name h.name,
    );
  }

pub try_insert_cases :
    (h : HandleRef) (m : AppMaps)
    → ((find_by_name h.name m ≡ none)
        × (find_by_subdomain h.subdomain m ≡ none)
        × (try_insert h m ≡ (ok tt, insert_both h m)))
      ⊎ ((c : InsertCollision) × (would_collide h.name h.subdomain m ≡ some c)
          × (try_insert h m ≡ (err c, m)))
unfolding try_insert would_collide
try_insert_cases h m = ground arith

-- The insertion under the write lock keeps the two indexes in step, accepted or refused.
pub try_insert-Synced : (h : HandleRef) (m : AppMaps) → Synced m → Synced (try_insert h m).1
try_insert-Synced h m s = elim (try_insert_cases h m) [
  | inl (free_name, free_sub, e) ↦ rw e (insert_both-Synced h m s free_name free_sub)
  | inr (c, _, e) ↦ rw e s
]

-- A handle is accepted exactly when the pre-check sees no collision, and both lookups find it from
-- then on; a refusal reports that collision and changes nothing.
pub try_insert-would_collide :
    (h : HandleRef) (m : AppMaps)
    → ((would_collide h.name h.subdomain m ≡ none)
        × ((try_insert h m).0 ≡ ok tt)
        × (find_by_name h.name (try_insert h m).1 ≡ some h)
        × (find_by_subdomain h.subdomain (try_insert h m).1 ≡ some h))
      ⊎ ((c : InsertCollision) × (would_collide h.name h.subdomain m ≡ some c)
          × (try_insert h m ≡ (err c, m)))
unfolding would_collide
try_insert-would_collide h m = elim (try_insert_cases h m) [
  | inl (free_name, free_sub, e) ↦ inl (
    rw (free_name, free_sub),
    rw e,
    rw (e, find_by_name-insert_both h.name h m, (list_beq_iff h.name h.name).1 refl),
    rw (
      e,
      find_by_subdomain-insert_both h.subdomain h m,
      (list_beq_iff h.subdomain h.subdomain).1 refl,
    ),
  )
  | inr (c, collides, e) ↦ inr (c, collides, e)
]

-- Removing a registered handle by its own two keys keeps the indexes in step.
pub remove-Synced :
    (h : HandleRef) (m : AppMaps)
    → Synced m
    → find_by_name h.name m ≡ some h
    → Synced (remove h.name h.subdomain m)
remove-Synced h m s here = record {
  names = λ k g e. ground (
    arith,
    find_by_name-remove k h.name h.subdomain m,
    find_by_subdomain-remove g.subdomain h.name h.subdomain m,
    s.names k g,
    s.names h.name h,
    s.subdomains h.subdomain g,
    list_beq_iff h.name k,
    list_beq_iff h.subdomain g.subdomain,
  );
  subdomains = λ k g e. ground (
    arith,
    find_by_subdomain-remove k h.name h.subdomain m,
    find_by_name-remove g.name h.name h.subdomain m,
    s.subdomains k g,
    s.names h.name h,
    list_beq_iff h.subdomain k,
    list_beq_iff h.name g.name,
  );
}

-- A stale handle, of an app that was removed and deployed anew under both its keys, removes the
-- new registration: the registry compares keys, not handles.
pub remove_stale :
    (h g : HandleRef) (m : AppMaps)
    → find_by_name g.name m ≡ some g
    → h.name ≡ g.name
    → find_by_name g.name (remove h.name h.subdomain m) ≡ none
remove_stale h g m registered same =
    rw (find_by_name-remove g.name h.name h.subdomain m, same, (list_beq_iff g.name g.name).1 refl)

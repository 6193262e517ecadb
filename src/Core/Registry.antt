-- ===== src/Core/Registry.antt =====
-- crates/bugpot-core/src/registry.rs: the registered apps under two keys. A shared handle is its
-- address with its immutable identity, which is all that the registry reads of it.
pub mod Laws
pub mod Refine
pub mod Tests
use bugpot.Base.{
  ℕ, list_eq, Bool, true, false, Option, none, some, List, [], ◌∷◌, Result, ok, err, map, length,
}
use bugpot.Base.Text.{Str}
use bugpot.Base.Map.{lookup, insert, remove as erase}
use bugpot.Config.Spec.{AppIdentity}

-- An `Arc<AppHandle>`.
pub record HandleRef : Type 0 where
  pub address : ℕ
  pub identity : AppIdentity
  pub open identity use *

pub record AppMaps : Type 0 where
  pub by_name : List (Str × HandleRef)
  pub by_subdomain : List (Str × HandleRef)

pub data InsertCollision : Type 0 where
  name_taken subdomain_taken : InsertCollision

abbrev pub empty : AppMaps
empty = record { by_name = []; by_subdomain = [] }

-- Both `insert`s, as `from_handles` and `try_insert` make them.
unfoldable pub insert_both : HandleRef → AppMaps → AppMaps
insert_both h m = record {
  by_name = insert h.name h m.by_name;
  by_subdomain = insert h.subdomain h m.by_subdomain;
}

unfoldable pub from_handles_into : AppMaps → List HandleRef → AppMaps
unfolding insert_both
from_handles_into m [] = m
from_handles_into m (h ∷ hs) = from_handles_into (insert_both h m) hs

unfoldable pub from_handles : List HandleRef → AppMaps
unfolding from_handles_into
from_handles = from_handles_into empty

unfoldable pub len_blocking : AppMaps → ℕ
len_blocking m = length m.by_name

unfoldable pub find_by_name : Str → AppMaps → Option HandleRef
find_by_name name m = lookup name m.by_name

unfoldable pub find_by_subdomain : Str → AppMaps → Option HandleRef
find_by_subdomain subdomain m = lookup subdomain m.by_subdomain

unfoldable pub list : AppMaps → List HandleRef
list m = map (λ e. e.1) m.by_name

-- `contains_key` on both maps, the name first.
abbrev collision : Option HandleRef → Option HandleRef → Option InsertCollision
collision (some _) _ = some name_taken
collision none (some _) = some subdomain_taken
collision none none = none

unfoldable pub would_collide : Str → Str → AppMaps → Option InsertCollision
would_collide name subdomain m = collision (find_by_name name m) (find_by_subdomain subdomain m)

abbrev insert_unless :
    Option InsertCollision → HandleRef → AppMaps → Result (Unit {0}) InsertCollision × AppMaps
insert_unless (some c) h m = (err c, m)
insert_unless none h m = (ok tt, insert_both h m)

unfoldable pub try_insert : HandleRef → AppMaps → Result (Unit {0}) InsertCollision × AppMaps
try_insert h m =
    insert_unless (collision (find_by_name h.name m) (find_by_subdomain h.subdomain m)) h m

unfoldable pub remove : Str → Str → AppMaps → AppMaps
remove name subdomain m = record {
  by_name = erase name m.by_name;
  by_subdomain = erase subdomain m.by_subdomain;
}

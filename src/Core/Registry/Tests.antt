-- ===== src/Core/Registry/Tests.antt =====
-- A registry of one app.
use mathlib.Core.Path.{subst}
use bugpot.Base.Map
use bugpot.Base.Map.{lookup}
use bugpot.Base.{◌∷◌, [], ◌≡◌, refl, some, list_eq}
use bugpot.Base.Text.{codes}
use bugpot.Core.Registry.{
  HandleRef, AppMaps, empty, try_insert, find_by_name, find_by_subdomain, insert_both, lookup,
}
use bugpot.Core.Registry.Laws.{Synced, empty-Synced, try_insert-Synced}

abbrev demo : HandleRef
demo = record { address = 1; identity = record { name = codes "demo"; subdomain = codes "www" } }

-- The same app, deployed anew.
abbrev demo_again : HandleRef
demo_again = record {
  address = 2;
  identity = record { name = codes "demo"; subdomain = codes "www" };
}

abbrev one_app : AppMaps
one_app = record {
  by_name = (codes "demo", demo_again) ∷ [];
  by_subdomain = (codes "www", demo_again) ∷ [];
}

registered : find_by_name (codes "demo") one_app ≡ some demo_again
unfolding find_by_name lookup
registered = refl

inserted : (try_insert demo_again empty).1 ≡ one_app
unfolding try_insert insert_both find_by_name find_by_subdomain lookup Map.insert
inserted = refl

one_app-Synced : Synced one_app
one_app-Synced = subst Synced inserted (try_insert-Synced demo_again empty empty-Synced)

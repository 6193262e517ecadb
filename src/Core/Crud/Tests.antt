-- ===== src/Core/Crud/Tests.antt =====
-- A host in which nothing fails, and the theorems at it.
use bugpot.Base.{
  ℕ, zero, suc, ◌≡◌, ◌≢◌, refl, arith, true, false, none, some, List, [], ◌∷◌, ok, err, Result,
  list_beq, if◌then◌else◌, list_eq, ◌==◌, All, Option, ◌=?◌, nat_eq, ap,
}
use mathlib.Core.Path.{subst}
use bugpot.Base.Map
use bugpot.Base.Map.{lookup, insert}
use bugpot.Base.Text.{Str, codes}
use bugpot.Config.Spec.{AppSpec, Rollout}
use bugpot.Config.Validate.{validate}
use bugpot.Core.Handle.{running, stopped}
use bugpot.Core.Registry.{
  HandleRef, AppMaps, empty, insert_both, try_insert, would_collide, find_by_name,
  find_by_subdomain,
}
use bugpot.Core.Registry.Laws.{Synced, empty-Synced, try_insert-Synced}
use bugpot.Core.Registry.Refine.{IsInverse, routes, Inserts, labels, try_insert_refines}
use bugpot.Core.Store.{AppStore, Toml, Fs, Dir, new, file_of, persist_spec, load, sort_by_name}
use bugpot.Core.Store.RoundTrip.{IsUp, IsStorable, save_all, load-save_all}
use bugpot.Core.Tests.{demo, demo_spec, demo_env, demo_world}
use bugpot.Core.AppHost.{Services, AppHost}
use bugpot.Core.Crud.{deploy_app, update_app, remove_app, already_exists}
use bugpot.Core.Crud.Deploy.{
  IsQuiet, Deployed, deploy_app-Deployed, IsOvertaken, deploy_app-IsOvertaken,
}
use bugpot.Core.Crud.Update.{Updated, update_app-Updated}
use bugpot.Core.Crud.Remove.{Removed, remove_app-Removed}

abbrev other_spec : AppSpec
other_spec = record demo_spec { name = codes "alpha" }

-- A `toml` for these two apps: a specification is written as its name, rollouts as nothing.
abbrev names_only : Toml
names_only = record {
  spec_to_string_pretty = λ spec. ok spec.name;
  spec_to_string = λ spec. ok spec.name;
  spec_from_str = λ body. ok (if list_beq body demo then demo_spec else other_spec);
  rollouts_to_string_pretty = λ rs. ok [];
  rollouts_from_str = λ body. ok [];
}

abbrev sound_fs : Fs
sound_fs = record {
  write = λ dir file body. ok tt;
  remove_file = λ dir file. ok tt;
  read_dir = ok tt;
  read_to_string = λ dir file. ok tt;
}

abbrev pub services : Services
services = record {
  env = demo_env;
  toml = names_only;
  fs = sound_fs;
  between = λ n x. x;
  address = λ n. n;
}

pub services-IsQuiet : IsQuiet services
services-IsQuiet n x = refl

abbrev pub fresh_host : AppHost
fresh_host = record { registry = empty; store = new; world = demo_world stopped; turn = 0 }

deploy_app-Deployed_example :
    Deployed services demo_spec fresh_host (deploy_app services demo_spec fresh_host)
deploy_app-Deployed_example =
    deploy_app-Deployed services demo_spec services-IsQuiet fresh_host empty-Synced

abbrev pub demo_ref : HandleRef
demo_ref = record { address = 7; identity = record { name = demo; subdomain = demo } }

abbrev pub one_app : AppMaps
one_app = insert_both demo_ref empty

pub found : find_by_name demo one_app ≡ some demo_ref
unfolding find_by_name insert_both lookup Map.insert
found = refl

abbrev first_letter : Str → ℕ
first_letter [] = 0
first_letter (c ∷ _) = c

-- Another task deploys the same name just before the insertion.
abbrev racing : ℕ → AppMaps × AppStore → AppMaps × AppStore
racing n x = if n == 2 then (one_app, x.1) else x

abbrev race : Services
race = record services { between = racing }

demo-valid : validate demo_spec ≡ ok tt
unfolding validate bugpot.Config.Label.validate_dns_label bugpot.Base.Text.len
    bugpot.Config.Spec.subdomain bugpot.Config.Image.validate_repo bugpot.Base.Text.contains
    bugpot.Base.Text.last_part bugpot.Config.Volumes.validate_volumes
    bugpot.Config.Volumes.validate_readiness_path
demo-valid = refl

alpha-valid : validate other_spec ≡ ok tt
unfolding validate bugpot.Config.Label.validate_dns_label bugpot.Base.Text.len
    bugpot.Config.Spec.subdomain bugpot.Config.Image.validate_repo bugpot.Base.Text.contains
    bugpot.Base.Text.last_part bugpot.Config.Volumes.validate_volumes
    bugpot.Config.Volumes.validate_readiness_path
alpha-valid = refl

nothing_there : would_collide demo demo empty ≡ none
unfolding would_collide find_by_name find_by_subdomain lookup
nothing_there = refl

file_written :
    persist_spec names_only sound_fs demo demo_spec new
    ≡ (ok tt, (persist_spec names_only sound_fs demo demo_spec new).1)
unfolding persist_spec
file_written = refl

demo-IsOvertaken : IsOvertaken race demo_spec fresh_host demo_ref
unfolding bugpot.Config.Spec.subdomain
demo-IsOvertaken = record {
  checked = (empty, new);
  written = (empty, new);
  inserted = (one_app, (persist_spec names_only sound_fs demo demo_spec new).1);
  discarded = (one_app, (persist_spec names_only sound_fs demo demo_spec new).1);
  files = (persist_spec names_only sound_fs demo demo_spec new).1;
  at_check = refl;
  at_write = refl;
  at_insert = refl;
  at_discard = refl;
  valid = demo-valid;
  free = nothing_there;
  stored = file_written;
  overtaken = found;
  still = found;
  removes = refl;
}

deploy_app-IsOvertaken_example :
    let (r, h') = deploy_app race demo_spec fresh_host in
    (r ≡ err (already_exists demo))
    × (find_by_name demo h'.registry ≡ some demo_ref)
    × (lookup (file_of demo) h'.store.specs ≡ none)
deploy_app-IsOvertaken_example =
    deploy_app-IsOvertaken race demo_spec fresh_host demo_ref demo-IsOvertaken

abbrev pub running_host : AppHost
running_host = record { registry = one_app; store = new; world = demo_world (running 4); turn = 0 }

update_app-Updated_example :
    Updated services demo_ref 600 1 demo_spec running_host
      (update_app services demo_ref 600 1 demo_spec running_host)
update_app-Updated_example = update_app-Updated services demo_ref 600 1 demo_spec running_host

inserted : (try_insert demo_ref empty).1 ≡ one_app
unfolding try_insert insert_both find_by_name find_by_subdomain lookup Map.insert
inserted = refl

one_app-Synced : Synced one_app
one_app-Synced = subst Synced inserted (try_insert-Synced demo_ref empty empty-Synced)

always_removed : (dir : Dir) (file : Str) → sound_fs.remove_file dir file ≡ ok tt
always_removed dir file = refl

remove_app-Removed_example :
    Removed services demo_ref running_host (remove_app services demo_ref running_host)
remove_app-Removed_example =
    remove_app-Removed services demo_ref services-IsQuiet always_removed running_host one_app-Synced
      found

try_insert_refines_example :
    let (r, m') = try_insert demo_ref one_app in
    Inserts demo demo (labels one_app) r (labels m') × IsInverse (labels m') (routes m') × Synced m'
try_insert_refines_example = try_insert_refines demo_ref one_app one_app-Synced

sound_fs-IsUp : IsUp sound_fs
sound_fs-IsUp = record { writes = λ dir file body. refl; reads = λ dir file. refl; lists = refl }

-- A rollout of the tag, and a history of at most one rollout as its tag.
abbrev tagged : Str → Rollout
tagged tag = record { tag = tag; created_at = 7 }

abbrev tag_text : List Rollout → Str
tag_text [] = []
tag_text (r ∷ rs) = r.tag

abbrev names_and_tags : Toml
names_and_tags = record names_only {
  rollouts_to_string_pretty = λ rs. ok (tag_text rs);
  rollouts_from_str = λ body. ok (if list_beq body [] then [] else tagged body ∷ []);
}

abbrev two_apps : List (AppSpec × List Rollout)
two_apps = (demo_spec, tagged (codes "v1") ∷ []) ∷ (other_spec, []) ∷ []

demo-IsStorable : IsStorable names_and_tags (demo_spec, tagged (codes "v1") ∷ [])
demo-IsStorable = record {
  valid = demo-valid;
  spec_body = demo;
  spec_text = refl;
  spec_reads = refl;
  rollouts_body = codes "v1";
  rollouts_text = refl;
  rollouts_read = refl;
}

alpha-IsStorable : IsStorable names_and_tags (other_spec, [])
alpha-IsStorable = record {
  valid = alpha-valid;
  spec_body = codes "alpha";
  spec_text = refl;
  spec_reads = refl;
  rollouts_body = [];
  rollouts_text = refl;
  rollouts_read = refl;
}

load-save_all_example :
    load names_and_tags sound_fs (save_all names_and_tags sound_fs two_apps new)
    ≡ ok (sort_by_name two_apps)
load-save_all_example =
    load-save_all names_and_tags sound_fs sound_fs-IsUp two_apps
      (demo-IsStorable, (alpha-IsStorable, tt))
      ((λ e. absurd (omega (arith, ap first_letter e)), tt), (tt, tt))

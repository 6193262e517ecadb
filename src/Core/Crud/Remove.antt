-- ===== src/Core/Crud/Remove.antt =====
-- `remove_app`: the indexes and files it clears, and the teardown and cleanup that it calls for.
use bugpot.Base.{
  suc, Option, none, some, List, [], ◌∷◌, Result, ok, ◌≡◌, refl, ap, list_eq, list_beq_iff, ◌∙◌,
  false, Bool, ◌||◌, true, list_beq, arith,
}
use bugpot.Base.Text.{Str}
use bugpot.Base.Map.{lookup, lookup-remove}
use bugpot.Core.Handle.{live_container_ids, needs_teardown}
use bugpot.Core.Host.{World, Failure, locked, log, cleaned_container, Event}
use bugpot.Core.Host.Ledger.{owes_endpoint, owes_container}
use bugpot.Core.Lifecycle.{stop, stop_claim, stop_claimed}
use bugpot.Core.Lifecycle.Running.{seen}
use bugpot.Core.Lifecycle.Stopping.{TornDown, targets, stop-TornDown, among, among}
use bugpot.Core.Registry.{HandleRef, AppMaps, find_by_name, find_by_subdomain, remove}
use bugpot.Core.Registry.Laws.{Synced, remove-Synced}
use bugpot.Core.Store.{AppStore, Dir, specs_dir, rollouts_dir, file_of}
use bugpot.Core.Store
use bugpot.Core.AppHost.{Services, AppHost}
use bugpot.Core.Crud.{RemoveError, remove_app, do_remove, clean_containers, cleaned_assets}
use bugpot.Core.Crud.Deploy.{IsQuiet}

clean_containers-holds :
    (ids : List Str) (c : Str) (w : World)
    → (owes_endpoint c (clean_containers ids w).events ≡ owes_endpoint c w.events)
      × (owes_container c (clean_containers ids w).events ≡ owes_container c w.events)
unfolding clean_containers
clean_containers-holds [] c w = (refl, refl)
clean_containers-holds (cid ∷ ids) c w =
    clean_containers-holds ids c (log (cleaned_container cid) w)

clean_containers-handle : (ids : List Str) (w : World) → (clean_containers ids w).handle ≡ w.handle
unfolding clean_containers
clean_containers-handle [] w = refl
clean_containers-handle (cid ∷ ids) w = clean_containers-handle ids (log (cleaned_container cid) w)

-- A call of `cleanup_container` for the identifier.
abbrev pub was_cleaned : Str → List Event → Bool
was_cleaned cid [] = false
was_cleaned cid (cleaned_container c ∷ es) = list_beq c cid || was_cleaned cid es
was_cleaned cid (_ ∷ es) = was_cleaned cid es

clean_containers-cleaned :
    (ids : List Str) (c : Str) (w : World)
    → was_cleaned c (clean_containers ids w).events ≡ (among c ids || was_cleaned c w.events)
unfolding clean_containers
clean_containers-cleaned [] c w = refl
clean_containers-cleaned (cid ∷ ids) c w =
    clean_containers-cleaned ids c (log (cleaned_container cid) w) ∙ ground arith

-- What a removal leaves. The containers that it stops are those that the stop finds live, in the
-- critical section after the one in which they were listed.
pub record Removed (s : Services) (ref : HandleRef) (h : AppHost)
    (p : Result (Unit {0}) RemoveError × AppHost) : Type 0 where
  pub succeeds : p.0 ≡ ok tt
  pub unnamed : find_by_name ref.name p.1.registry ≡ none
  pub unrouted : find_by_subdomain ref.subdomain p.1.registry ≡ none
  pub synced : Synced p.1.registry
  pub no_spec : lookup (file_of ref.name) p.1.store.specs ≡ none
  pub no_rollouts : lookup (file_of ref.name) p.1.store.rollouts ≡ none
  pub torn_down :
      TornDown
        (targets ref.name
          (seen s.env (locked s.env {E = RemoveError} (λ inner. (tt, inner)) h.world).1))
        h.world.events
        p.1.world.events
  pub cleaned :
      (c : Str)
      → among c (live_container_ids (seen s.env h.world) ref.name) ≡ true
      → was_cleaned c p.1.world.events ≡ true
  pub assets_last : (es : List Event) × (p.1.world.events ≡ cleaned_assets ref.name ∷ es)
  pub down : needs_teardown p.1.world.handle.inner.state ≡ false

remove-lookups :
    (name label : Str) (m : AppMaps)
    → (find_by_name name (remove name label m) ≡ none)
      × (find_by_subdomain label (remove name label m) ≡ none)
unfolding find_by_name find_by_subdomain remove
remove-lookups name label m = (
  lookup-remove name name m.by_name ∙ rw ((list_beq_iff name name).1 refl) refl,
  lookup-remove label label m.by_subdomain ∙ rw ((list_beq_iff label label).1 refl) refl,
)

-- A stop never fails, whatever type its errors would have.
stop-succeeds :
    (s : Services) (name : Str) (w : World)
    → stop s.env name {E = RemoveError} w ≡ (ok tt, (stop s.env name {E = Failure} w).1)
unfolding stop locked
stop-succeeds s name w = go (stop_claim name (seen s.env w)).0 _
  where
    go :
        (ids : Option (List Str)) (w : World)
        → stop_claimed s.env name {E = RemoveError} ids w
          ≡ (ok tt, (stop_claimed s.env name {E = Failure} ids w).1)
    go none w = refl
    go (some ids) w = refl

-- The files of a name, after both were removed.
remove-lookup :
    (s : Services) (name : Str) (files : AppStore)
    → ((dir : Dir) (file : Str) → s.fs.remove_file dir file ≡ ok tt)
    → (lookup (file_of name) (Store.remove s.toml s.fs name files).specs ≡ none)
      × (lookup (file_of name) (Store.remove s.toml s.fs name files).rollouts ≡ none)
unfolding Store.remove
remove-lookup s name files removes =
    let file = file_of name in
    let same = (list_beq_iff file file).1 refl in
    (
      rw (removes specs_dir file) (lookup-remove file file files.specs ∙ rw same refl),
      rw (removes rollouts_dir file) (lookup-remove file file files.rollouts ∙ rw same refl),
    )

module _ (s : Services) (ref : HandleRef) where
  -- With no other task at the registry and the files, and files that can be removed: a removal of a
  -- registered app succeeds, whether or not the stops and releases that it calls do. Neither lookup
  -- finds the app, both of its files are gone, and the indexes stay in step. It has called for the
  -- stop and the release of exactly the containers that its stop finds live, for the cleanup of
  -- every container that it found live before the stop, and last for that of the app's assets; the
  -- handle is stopped, or being stopped. Which of the calls succeed is not claimed.
  pub remove_app-Removed :
      IsQuiet s
      → ((dir : Dir) (file : Str) → s.fs.remove_file dir file ≡ ok tt)
      → (h : AppHost) → Synced h.registry
      → find_by_name ref.name h.registry ≡ some ref
      → Removed s ref h (remove_app s ref h)
  unfolding remove_app do_remove locked
  remove_app-Removed quiet removes h synced here =
      let w = (locked s.env {E = RemoveError} (λ inner. (tt, inner)) h.world).1 in
      let stopped = (stop s.env ref.name {E = Failure} w).1 in
      let ids = live_container_ids (seen s.env h.world) ref.name in
      let registry = remove ref.name ref.subdomain h.registry in
      let (torn, down) = stop-TornDown s.env ref.name w in
      let (specs, rollouts) = remove-lookup s ref.name h.store removes in
      let (unnamed, unrouted) = remove-lookups ref.name ref.subdomain h.registry in
      rw
        (
          quiet h.turn (h.registry, h.store),
          stop-succeeds s ref.name w,
          quiet (suc h.turn) (registry, h.store),
        )
        (record {
          succeeds = refl;
          unnamed = unnamed;
          unrouted = unrouted;
          synced = remove-Synced ref h.registry synced here;
          no_spec = specs;
          no_rollouts = rollouts;
          torn_down = λ c.
              let (es, cs) = clean_containers-holds ids c stopped in
              (es ∙ (torn c).0, cs ∙ (torn c).1);
          cleaned = λ c live. clean_containers-cleaned ids c stopped ∙ rw live refl;
          assets_last = ((clean_containers ids stopped).events, refl);
          down =
              ap (λ v. needs_teardown v.inner.state) (clean_containers-handle ids stopped) ∙ down;
        })

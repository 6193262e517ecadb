-- ===== src/Core/Crud.antt =====
-- crates/bugpot-core/src/ops/crud.rs: registering, updating and removing an app. The errors keep
-- their cause, without the added context text.
pub mod Deploy
pub mod Update
pub mod Remove
pub mod Tests
use bugpot.Base.{
  ℕ, suc, Bool, true, false, Option, none, some, List, [], ◌∷◌, Result, ok, err, map_err, list_beq,
  not, if◌then◌else◌, map,
}
use bugpot.Base.Text.{Str}
use bugpot.Config.Spec.{AppSpec, InvalidSpec, subdomain}
use bugpot.Config.Validate.{validate}
use bugpot.Core.Handle.{
  AppHandle, AppState, running, frozen, stopped, is_busy, make_handle, live_container_ids,
}
use bugpot.Core.Host.{
  Env, World, M, Failure, locked, read_spec, log, cleaned_container, cleaned_assets,
}
use bugpot.Core.Host
use bugpot.Core.Lifecycle.{stop}
use bugpot.Core.Registry.{
  AppMaps, HandleRef, InsertCollision, name_taken, subdomain_taken, would_collide, try_insert,
  find_by_name, list, remove as unregister,
}
use bugpot.Core.Rollout
use bugpot.Core.Rollout.{RolloutError, apply_change}
use bugpot.Core.Store.{
  AppStore, StoreError, persist_spec, discard_failed_spec, remove as remove_files,
}
use bugpot.Core.View.{AppView, view_of}
use bugpot.Core.AppHost.{
  Services, AppHost, H, ◌>>=◌, ◌>>◌, pure, throw, lift, map_error, on_handle, on_registry, on_store,
}

-- crates/bugpot-core/src/error.rs.
pub data DeployError : Type 0 where
  invalid_spec : InvalidSpec → DeployError
  already_exists subdomain_in_use : Str → DeployError
  image_auth image_pull start_failed : Failure → DeployError
  internal : StoreError → DeployError

pub data RemoveError : Type 0 where
  internal : StoreError → RemoveError

-- What a failed restart carries: the cause, or another error of the rollout.
pub data Restart : Type 0 where
  cause : Failure → Restart
  reconfigure : RolloutError → Restart

pub data UpdateError : Type 0 where
  invalid_spec : InvalidSpec → UpdateError
  name_immutable subdomain_immutable : UpdateError
  conflict : (name : Str) → UpdateError
  restart_failed : Restart → UpdateError
  internal : StoreError → UpdateError

abbrev pub collided : AppSpec → InsertCollision → DeployError
collided spec name_taken = already_exists spec.name
collided spec subdomain_taken = subdomain_in_use (subdomain spec)

abbrev pub has_live_container : AppState → Bool
has_live_container (running _) = true
has_live_container (frozen _) = true
has_live_container _ = false

-- `toml::to_string` of both, where a failure counts as a difference.
abbrev pub same_text : Result Str Str → Result Str Str → Bool
same_text (ok x) (ok y) = list_beq x y
same_text _ _ = false

unfoldable pub restart_error : RolloutError → UpdateError
restart_error (Rollout.conflict name) = conflict name
restart_error (Rollout.start_failed e) = restart_failed (cause e)
restart_error e = restart_failed (reconfigure e)

-- The result of each cleanup is logged and never looked at.
unfoldable pub clean_containers : List Str → World → World
clean_containers [] w = w
clean_containers (cid ∷ ids) w = clean_containers ids (log (cleaned_container cid) w)

module _ (s : Services) where
  -- After the insertion under the write lock.
  abbrev pub inserted :
      AppSpec → HandleRef → Result (Unit {0}) InsertCollision → H AppView DeployError
  inserted spec ref (ok _) = on_handle (view_of s.env ref)
  inserted spec ref (err collision) = do
    on_store s (λ files. (tt, discard_failed_spec s.toml s.fs spec.name files))
    throw (collided spec collision)

  abbrev pub reference : AppHost → AppHandle → HandleRef
  reference h handle = record { address = s.address h.turn; identity = handle.identity }

  -- The new handle is the one that the rest of the operation works on.
  abbrev pub place : AppHandle → AppHost → AppHost
  place handle h = record h { world = record h.world { handle = handle } }

  unfoldable pub register : AppSpec → AppHandle → H AppView DeployError
  register spec handle h =
      let ref = reference h handle in
      (do outcome ← on_registry s (try_insert ref); inserted spec ref outcome) (place handle h)

  unfoldable pub write_and_register : AppSpec → H AppView DeployError
  unfolding register make_handle
  write_and_register spec = do
    stored ← on_store s (persist_spec s.toml s.fs spec.name spec)
    map_error internal (lift stored)
    λ h.
        (do
          handle ← lift (map_err invalid_spec (make_handle (s.env.now h.world.step) spec none))
          register spec handle)
          h

  abbrev pub unless_taken : AppSpec → Option InsertCollision → H AppView DeployError
  unless_taken spec (some collision) = throw (collided spec collision)
  unless_taken spec none = write_and_register spec

  unfoldable pub deploy_app : AppSpec → H AppView DeployError
  unfolding validate write_and_register
  deploy_app spec = do
    lift (map_err invalid_spec (validate spec))
    taken ← on_registry s (λ m. (would_collide spec.name (subdomain spec) m, m))
    unless_taken spec taken

  -- `apply_spec_change`; `none` while the start waits for another task.
  unfoldable pub apply_spec_change : Str → ℕ → ℕ → H (Option (Unit {0})) UpdateError
  unfolding apply_change restart_error
  apply_spec_change name drains rounds =
      map_error restart_error (on_handle (apply_change s.env name drains rounds))

  abbrev pub view_when : HandleRef → Option (Unit {0}) → H (Option AppView) UpdateError
  view_when ref none = pure none
  view_when ref (some _) = do view ← on_handle (view_of s.env ref); pure (some view)

  abbrev pub restart_if : Str → ℕ → ℕ → Bool → H (Option (Unit {0})) UpdateError
  restart_if name drains rounds true = apply_spec_change name drains rounds
  restart_if name drains rounds false = pure (some tt)

  -- The write lock of the specification.
  unfoldable pub write_spec : {E : Type 0} → AppSpec → M (Unit {0}) E
  write_spec spec w =
      let h = s.env.others w.step w.handle in
      (ok tt, record w { handle = record h { spec = spec }; step = suc w.step })

  -- `persist_spec` reads the specification back under its own lock.
  unfoldable pub persist_current : Str → H (Unit {0}) UpdateError
  persist_current name = do
    spec ← on_handle (read_spec s.env)
    stored ← on_store s (persist_spec s.toml s.fs name spec)
    map_error internal (lift stored)

  abbrev pub restart_and_view : HandleRef → ℕ → ℕ → Bool → H (Option AppView) UpdateError
  restart_and_view ref drains rounds live = do
    done ← restart_if ref.name drains rounds live
    view_when ref done

  unfoldable pub replace_spec : HandleRef → ℕ → ℕ → AppSpec → H (Option AppView) UpdateError
  unfolding write_spec persist_current apply_spec_change
  replace_spec ref drains rounds spec = do
    live ← on_handle (locked s.env (λ inner. (has_live_container inner.state, inner)))
    on_handle (write_spec spec)
    persist_current ref.name
    restart_and_view ref drains rounds live

  abbrev pub unless_equal : HandleRef → ℕ → ℕ → AppSpec → Bool → H (Option AppView) UpdateError
  unless_equal ref drains rounds spec true = view_when ref (some tt)
  unless_equal ref drains rounds spec false = replace_spec ref drains rounds spec

  abbrev pub unless_busy : HandleRef → ℕ → ℕ → AppSpec → Bool → H (Option AppView) UpdateError
  unless_busy ref drains rounds spec true = throw (conflict ref.name)
  unless_busy ref drains rounds spec false = do
    existing ← on_handle (read_spec s.env)
    unless_equal ref drains rounds spec
        (same_text (s.toml.spec_to_string existing) (s.toml.spec_to_string spec))

  abbrev pub same_identity : HandleRef → AppSpec → Result (Unit {0}) UpdateError
  same_identity ref spec =
      if not (list_beq spec.name ref.name)
      then err name_immutable
      else if not (list_beq (subdomain spec) ref.subdomain)
      then err subdomain_immutable
      else ok tt

  unfoldable pub update_app : HandleRef → ℕ → ℕ → AppSpec → H (Option AppView) UpdateError
  unfolding validate replace_spec
  update_app ref drains rounds spec = do
    lift (map_err invalid_spec (validate spec))
    lift (same_identity ref spec)
    busy ← on_handle (locked s.env (λ inner. (is_busy inner.state, inner)))
    unless_busy ref drains rounds spec busy

  unfoldable pub do_remove : HandleRef → H (Unit {0}) RemoveError
  unfolding stop clean_containers
  do_remove ref = do
    live_ids ← on_handle (locked s.env (λ inner. (live_container_ids inner ref.name, inner)))
    on_registry s (λ m. (tt, unregister ref.name ref.subdomain m))
    on_handle (stop s.env ref.name)
    on_handle (λ w. (ok tt, log (cleaned_assets ref.name) (clean_containers live_ids w)))
    on_store s (λ files. (tt, remove_files s.toml s.fs ref.name files))

  unfoldable pub remove_app : HandleRef → H (Unit {0}) RemoveError
  unfolding do_remove
  remove_app = do_remove

  unfoldable pub find_handle : {E : Type 0} → Str → H (Option HandleRef) E
  find_handle name = on_registry s (λ m. (find_by_name name m, m))

  unfoldable pub list_handles : {E : Type 0} → H (List HandleRef) E
  list_handles = on_registry s (λ m. (list m, m))

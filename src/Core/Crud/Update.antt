-- ===== src/Core/Crud/Update.antt =====
-- `update_app`: which errors it gives, and when nothing happens.
use bugpot.Base.{
  ℕ, Bool, true, false, Option, none, some, Result, ok, err, ◌≡◌, ◌≢◌, refl, arith, Result-cases,
  Bool-cases, inl, inr, list_beq, list_beq_iff,
}
use bugpot.Config.Spec.{AppSpec, subdomain}
use bugpot.Config.Validate.{validate}
use bugpot.Core.Handle.{is_busy}
use bugpot.Core.Host.{World, locked, read_spec}
use bugpot.Core.Store.{StoreError}
use bugpot.Core.Lifecycle.Running.{seen}
use bugpot.Core.Registry.{HandleRef}
use bugpot.Core.Rollout
use bugpot.Core.Rollout.{RolloutError, apply_change}
use bugpot.Core.Rollout.Errors.{LateOnly, apply_change-LateOnly}
use bugpot.Core.View.{AppView, view_of}
use bugpot.Core.AppHost.{Services, AppHost, H, bind_on, on_handle, map_error, lift}
use bugpot.Core.Crud.{
  UpdateError, invalid_spec, name_immutable, subdomain_immutable, conflict, restart_failed, cause,
  reconfigure, internal, restart_error, apply_spec_change, restart_if, view_when, restart_and_view,
  has_live_container, replace_spec, write_spec, persist_current, unless_equal, unless_busy,
  update_app, same_text,
}

-- The errors that are left once the new specification is accepted for the handle.
abbrev pub Accepted : {A : Type 0} → Result A UpdateError × AppHost → Type 0
Accepted (ok _, h') = Unit
Accepted (err (conflict _), h') = Unit
Accepted (err (restart_failed (cause _)), h') = Unit
Accepted (err (internal _), h') = Unit
Accepted (err _, h') = ⊥

module _ {A B : Type 0} (f : A → H B UpdateError) where
  Accepted-bind :
      (p : Result A UpdateError × AppHost)
      → Accepted p
      → ((a : A) (h : AppHost) → Accepted (f a h))
      → Accepted (bind_on f p)
  Accepted-bind (ok a, h) here then = then a h
  Accepted-bind (err (conflict _), h) here then = tt
  Accepted-bind (err (restart_failed (cause _)), h) here then = tt
  Accepted-bind (err (restart_failed (reconfigure _)), h) here then = here
  Accepted-bind (err (internal _), h) here then = tt
  Accepted-bind (err (invalid_spec _), h) here then = here
  Accepted-bind (err name_immutable, h) here then = here
  Accepted-bind (err subdomain_immutable, h) here then = here

module _ (s : Services) (ref : HandleRef) (drains rounds : ℕ) (spec : AppSpec) where
  restarted :
      (h : AppHost) (p : Result (Option (Unit {0})) RolloutError × World)
      → LateOnly p
      → Accepted (map_error restart_error (λ h. (p.0, record h { world = p.1 })) h)
  unfolding restart_error
  restarted h (ok _, w) late = tt
  restarted h (err (Rollout.conflict _), w) late = tt
  restarted h (err (Rollout.start_failed _), w) late = tt
  restarted h (err Rollout.empty_tag, w) late = late
  restarted h (err (Rollout.image_auth _), w) late = late
  restarted h (err (Rollout.image_pull _), w) late = late

  restart_if-Accepted :
      (live : Bool) (h : AppHost) → Accepted (restart_if s ref.name drains rounds live h)
  unfolding apply_spec_change
  restart_if-Accepted true h =
      restarted h (apply_change s.env ref.name drains rounds h.world)
        (apply_change-LateOnly s.env ref.name drains rounds h.world)
  restart_if-Accepted false h = tt

  view_when-Accepted : (done : Option (Unit {0})) (h : AppHost) → Accepted (view_when s ref done h)
  unfolding view_of locked read_spec
  view_when-Accepted none h = tt
  view_when-Accepted (some _) h = tt

  restart_and_view-Accepted :
      (live : Bool) (h : AppHost) → Accepted (restart_and_view s ref drains rounds live h)
  restart_and_view-Accepted live h =
      Accepted-bind (view_when s ref) (restart_if s ref.name drains rounds live h)
        (restart_if-Accepted live h) view_when-Accepted

  stored-Accepted :
      (h : AppHost) (r : Result (Unit {0}) StoreError) → Accepted (map_error internal (lift r) h)
  stored-Accepted h (ok _) = tt
  stored-Accepted h (err _) = tt

  persist_current-Accepted : (h : AppHost) → Accepted (persist_current s ref.name h)
  unfolding persist_current read_spec
  persist_current-Accepted h = stored-Accepted _ _

  replace_spec-Accepted : (h : AppHost) → Accepted (replace_spec s ref drains rounds spec h)
  unfolding replace_spec write_spec locked
  replace_spec-Accepted h =
      let live = has_live_container (seen s.env h.world).state in
      let at = (locked s.env {E = UpdateError} (λ inner. (tt, inner)) h.world).1 in
      let at' = (write_spec s {E = UpdateError} spec at).1 in
      Accepted-bind {A = Unit {0}} {B = Option AppView}
        (λ _. restart_and_view s ref drains rounds live)
        (persist_current s ref.name (record h { world = at' }))
        (persist_current-Accepted (record h { world = at' }))
        (λ _ h. restart_and_view-Accepted live h)

  unless_busy-Accepted :
      (busy : Bool) (h : AppHost) → Accepted (unless_busy s ref drains rounds spec busy h)
  unfolding read_spec
  unless_busy-Accepted true h = tt
  unless_busy-Accepted false h =
      let existing = (s.env.others h.world.step h.world.handle).spec in
      go (same_text (s.toml.spec_to_string existing) (s.toml.spec_to_string spec))
        (on_handle (read_spec s.env {E = UpdateError}) h).1
    where
      go : (same : Bool) (h : AppHost) → Accepted (unless_equal s ref drains rounds spec same h)
      go true h = view_when-Accepted (some tt) h
      go false h = replace_spec-Accepted h

  -- What an update gives, and the host that a rejected one leaves.
  abbrev pub Updated : AppHost → Result (Option AppView) UpdateError × AppHost → Type 0
  Updated h (err (invalid_spec e), h') = (validate spec ≡ err e) × (h' ≡ h)
  Updated h (err name_immutable, h') = (spec.name ≢ ref.name) × (h' ≡ h)
  Updated h (err subdomain_immutable, h') =
      (spec.name ≡ ref.name) × (subdomain spec ≢ ref.subdomain) × (h' ≡ h)
  Updated h p =
      (validate spec ≡ ok tt)
      × (spec.name ≡ ref.name)
      × (subdomain spec ≡ ref.subdomain)
      × Accepted p

  Updated-of-Accepted :
      (h : AppHost) (p : Result (Option AppView) UpdateError × AppHost)
      → validate spec ≡ ok tt
      → spec.name ≡ ref.name
      → subdomain spec ≡ ref.subdomain
      → Accepted p
      → Updated h p
  Updated-of-Accepted h (ok _, h') v n l a = (v, n, l, a)
  Updated-of-Accepted h (err (conflict _), h') v n l a = (v, n, l, a)
  Updated-of-Accepted h (err (restart_failed _), h') v n l a = (v, n, l, a)
  Updated-of-Accepted h (err (internal _), h') v n l a = (v, n, l, a)
  Updated-of-Accepted h (err (invalid_spec _), h') v n l a = absurd a
  Updated-of-Accepted h (err name_immutable, h') v n l a = absurd a
  Updated-of-Accepted h (err subdomain_immutable, h') v n l a = absurd a

  -- Whatever the other tasks do: an update of an invalid specification, or of one that changes the
  -- app's name or its routing label, is rejected as such with nothing touched; past these checks the
  -- only errors are a conflict, the failure of a restart with its cause, and the failure to write
  -- the file, never another error of the rollout.
  pub update_app-Updated : (h : AppHost) → Updated h (update_app s ref drains rounds spec h)
  unfolding update_app locked
  update_app-Updated h =
      let name = list_beq_iff spec.name ref.name in
      let label = list_beq_iff (subdomain spec) ref.subdomain in
      elim (Result-cases (validate spec)) [
        | inr (e, invalid) ↦ rw invalid (invalid, refl)
        | inl (_, valid) ↦ rw valid (elim (Bool-cases (list_beq spec.name ref.name)) [
          | inr renamed ↦ rw renamed (λ same. ground (arith, same, renamed, name.1), refl)
          | inl named ↦ rw named (elim (Bool-cases (list_beq (subdomain spec) ref.subdomain)) [
            | inr moved ↦
                rw moved (name.0 named, λ same. ground (arith, same, moved, label.1), refl)
            | inl stays ↦ rw stays (
                Updated-of-Accepted h _ valid (name.0 named) (label.0 stays) (
                  unless_busy-Accepted (is_busy (seen s.env h.world).state)
                    (on_handle (locked s.env {E = UpdateError} (λ inner. (tt, inner))) h).1))
          ])
        ])
      ]

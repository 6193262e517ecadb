-- ===== src/Core/Crud/Deploy.antt =====
-- `deploy_app`: what it registers and writes, and what a refusal leaves.
use bugpot.Base.{
  ℕ, suc, none, some, Result, ok, err, ◌≡◌, refl, ap, arith, Result-cases, Option-cases, inl, inr,
  list_eq, ◌∙◌, sym, [], list_beq_iff,
}
use mathlib.Core.Path.{subst}
use bugpot.Base.Text.{Str}
use bugpot.Base.Map.{lookup, lookup-remove}
use bugpot.Config.Spec.{AppSpec, subdomain}
use bugpot.Config.Validate.{validate, identity}
use bugpot.Core.Handle.{AppHandle, stopped, a, make_handle, make_handle_with_rollouts}
use bugpot.Core.Registry.{
  AppMaps, HandleRef, name_taken, subdomain_taken, would_collide, try_insert, find_by_name,
  find_by_subdomain,
}
use bugpot.Core.Registry.Laws.{Synced, try_insert-Synced, try_insert-would_collide}
use bugpot.Core.Store.{AppStore, persist_spec, discard_failed_spec, file_of, specs_dir}
use bugpot.Core.Host.{locked, read_spec}
use bugpot.Core.View.{AppView, view_of}
use bugpot.Core.AppHost.{Services, AppHost}
use bugpot.Core.Crud.{
  DeployError, invalid_spec, already_exists, subdomain_in_use, internal, deploy_app,
  write_and_register, register, reference,
}

-- No other task touches the registry or the files.
abbrev pub IsQuiet : Services → Type 0
IsQuiet s = (n : ℕ) (x : AppMaps × AppStore) → s.between n x ≡ x

-- The registered handle of a specification.
abbrev pub IsFor : AppSpec → HandleRef → Type 0
IsFor spec ref = (ref.name ≡ spec.name) × (ref.subdomain ≡ subdomain spec)

-- What a deployment gives, from the host that it found.
abbrev pub Deployed : Services → AppSpec → AppHost → Result AppView DeployError × AppHost → Type 0
Deployed s spec h (ok view, h') =
    (validate spec ≡ ok tt)
    × (would_collide spec.name (subdomain spec) h.registry ≡ none)
    × (persist_spec s.toml s.fs spec.name spec h.store ≡ (ok tt, h'.store))
    × (ref : HandleRef) × IsFor spec ref
    × (find_by_name spec.name h'.registry ≡ some ref)
    × (find_by_subdomain (subdomain spec) h'.registry ≡ some ref)
    × Synced h'.registry
    × (view.name ≡ spec.name)
    × (view.subdomain ≡ subdomain spec)
Deployed s spec h (err (invalid_spec e), h') = (validate spec ≡ err e) × (h' ≡ h)
Deployed s spec h (err (already_exists name), h') =
    (name ≡ spec.name)
    × (would_collide spec.name (subdomain spec) h.registry ≡ some name_taken)
    × (h'.registry ≡ h.registry)
    × (h'.store ≡ h.store)
Deployed s spec h (err (subdomain_in_use label), h') =
    (label ≡ subdomain spec)
    × (would_collide spec.name (subdomain spec) h.registry ≡ some subdomain_taken)
    × (h'.registry ≡ h.registry)
    × (h'.store ≡ h.store)
Deployed s spec h (err (internal e), h') =
    (persist_spec s.toml s.fs spec.name spec h.store ≡ (err e, h'.store))
    × (h'.registry ≡ h.registry)
Deployed s spec h (err _, h') = ⊥

-- The handle of a valid specification is new: stopped, never rolled out, on the first slot.
abbrev fresh_handle : ℕ → AppSpec → AppHandle
fresh_handle now spec = record {
  identity = record { name = spec.name; subdomain = subdomain spec };
  spec = spec;
  active_upgrades = 0;
  inner = record {
    state = stopped;
    current_slot = a;
    last_access = now;
    rollouts = [];
    image_digest = none;
    cpu_baseline = 0;
  };
}

make_handle-of-validate :
    (now : ℕ) (spec : AppSpec)
    → validate spec ≡ ok tt
    → make_handle now spec none ≡ ok (fresh_handle now spec)
unfolding make_handle make_handle_with_rollouts identity
make_handle-of-validate now spec valid = ground (arith, valid)

module _ (s : Services) (spec : AppSpec) where
  -- The insertion of a handle that does not collide.
  register-Deployed :
      IsQuiet s
      → (h h1 : AppHost) (now : ℕ) → validate spec ≡ ok tt
      → would_collide spec.name (subdomain spec) h.registry ≡ none
      → h1.registry ≡ h.registry
      → persist_spec s.toml s.fs spec.name spec h.store ≡ (ok tt, h1.store)
      → Synced h.registry
      → Deployed s spec h (register s spec (fresh_handle now spec) h1)
  unfolding register view_of locked read_spec
  register-Deployed quiet h h1 now valid free same stored synced =
      let ref = reference s h1 (fresh_handle now spec) in
      elim (try_insert-would_collide ref h1.registry) [
        | inl (_, accepted, named, routed) ↦
            rw (quiet h1.turn (h1.registry, h1.store), accepted)
              (
                valid,
                free,
                stored,
                ref,
                (refl, refl),
                named,
                routed,
                try_insert-Synced ref h1.registry (subst Synced (sym same) synced),
                refl,
                refl,
              )
        | inr (c, collides, _) ↦ absurd (ground (arith, collides, free, same))
      ]

  stored-Deployed :
      IsQuiet s
      → (h : AppHost) → validate spec ≡ ok tt
      → would_collide spec.name (subdomain spec) h.registry ≡ none
      → Synced h.registry
      → Deployed s spec h (write_and_register s spec (record h { turn = suc h.turn }))
  unfolding write_and_register
  stored-Deployed quiet h valid free synced =
      let at = quiet (suc h.turn) (h.registry, h.store) in
      elim (Result-cases (persist_spec s.toml s.fs spec.name spec h.store).0) [
        | inl (_, stored) ↦
            rw (at, stored, make_handle-of-validate (s.env.now h.world.step) spec valid)
              (register-Deployed quiet h
                (record h {
                  store = (persist_spec s.toml s.fs spec.name spec h.store).1;
                  turn = suc (suc h.turn);
                })
                (s.env.now h.world.step) valid free refl
                (ap (λ r. (r, (persist_spec s.toml s.fs spec.name spec h.store).1)) stored) synced)
        | inr (e, failed) ↦
            rw (at, failed)
              (ap (λ r. (r, (persist_spec s.toml s.fs spec.name spec h.store).1)) failed, refl)
      ]

  -- With no other task at the registry and the files, a deployment registers a new handle exactly
  -- when the specification is valid, neither its name nor its label is taken, and its file could be
  -- written: the file is then there, both lookups find the new handle, and the two indexes stay in
  -- step. Each refusal says which of these failed; the registry is then unchanged, and so are the
  -- files unless it was the writing that failed. No other error is given.
  pub deploy_app-Deployed :
      IsQuiet s → (h : AppHost) → Synced h.registry → Deployed s spec h (deploy_app s spec h)
  unfolding deploy_app
  deploy_app-Deployed quiet h synced = elim (Result-cases (validate spec)) [
    | inr (e, invalid) ↦ rw invalid (invalid, refl)
    | inl (_, valid) ↦
        rw (valid, quiet h.turn (h.registry, h.store))
          (elim (Option-cases (would_collide spec.name (subdomain spec) h.registry)) [
            | inl free ↦ rw free (stored-Deployed quiet h valid free synced)
            | inr (name_taken, taken) ↦ rw taken (refl, taken, refl, refl)
            | inr (subdomain_taken, taken) ↦ rw taken (refl, taken, refl, refl)
          ])
  ]

-- Another task registers the name between the check of a deployment and its insertion: what the
-- deployment sees at each of its four uses of the registry and the files.
pub record IsOvertaken (s : Services) (spec : AppSpec) (h : AppHost) (g : HandleRef) : Type 0 where
  pub checked : AppMaps × AppStore
  pub written : AppMaps × AppStore
  pub inserted : AppMaps × AppStore
  pub discarded : AppMaps × AppStore
  pub files : AppStore
  pub at_check : s.between h.turn (h.registry, h.store) ≡ checked
  pub at_write : s.between (suc h.turn) checked ≡ written
  pub at_insert : s.between (suc (suc h.turn)) (written.0, files) ≡ inserted
  pub at_discard : s.between (suc (suc (suc h.turn))) inserted ≡ discarded
  pub valid : validate spec ≡ ok tt
  pub free : would_collide spec.name (subdomain spec) checked.0 ≡ none
  pub stored : persist_spec s.toml s.fs spec.name spec written.1 ≡ (ok tt, files)
  pub overtaken : find_by_name spec.name inserted.0 ≡ some g
  pub still : find_by_name spec.name discarded.0 ≡ some g
  pub removes : s.fs.remove_file specs_dir (file_of spec.name) ≡ ok tt

discard_failed_spec-lookup :
    (s : Services) (name : Str) (files : AppStore)
    → s.fs.remove_file specs_dir (file_of name) ≡ ok tt
    → lookup (file_of name) (discard_failed_spec s.toml s.fs name files).specs ≡ none
unfolding discard_failed_spec
discard_failed_spec-lookup s name files removes = rw removes (
    lookup-remove (file_of name) (file_of name) files.specs
    ∙ rw ((list_beq_iff (file_of name) (file_of name)).1 refl) refl)

try_insert-taken :
    (ref g : HandleRef) (m : AppMaps)
    → find_by_name ref.name m ≡ some g
    → try_insert ref m ≡ (err name_taken, m)
unfolding try_insert
try_insert-taken ref g m e = rw e refl

-- A deployment that another one of the same name overtakes is refused, and takes the file of the
-- specification with it: the other app stays registered, and has no file to be loaded from.
pub deploy_app-IsOvertaken :
    (s : Services) (spec : AppSpec) (h : AppHost) (g : HandleRef)
    → IsOvertaken s spec h g
    → let (r, h') = deploy_app s spec h in
      (r ≡ err (already_exists spec.name))
      × (find_by_name spec.name h'.registry ≡ some g)
      × (lookup (file_of spec.name) h'.store.specs ≡ none)
unfolding deploy_app write_and_register register
deploy_app-IsOvertaken s spec h g o =
    let handle = fresh_handle (s.env.now h.world.step) spec in
    let ref : HandleRef = record {
      address = s.address (suc (suc h.turn));
      identity = handle.identity;
    } in
    rw
      (
        o.valid,
        o.at_check,
        o.free,
        o.at_write,
        o.stored,
        make_handle-of-validate (s.env.now h.world.step) spec o.valid,
        o.at_insert,
        try_insert-taken ref g o.inserted.0 o.overtaken,
        o.at_discard,
      )
      (refl, o.still, discard_failed_spec-lookup s spec.name o.discarded.1 o.removes)

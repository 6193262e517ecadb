-- ===== src/Core/Store/RoundTrip.antt =====
-- What the store persists is what the next boot loads.
use bugpot.Base.{
  false, none, some, List, [], ◌∷◌, ◌++◌, Result, ok, err, ◌≡◌, ◌≢◌, refl, ap, ◌∙◌, map, arith,
  list_eq, list_beq, list_beq_iff, inl, inr, Bool-cases, All, ◌=?◌, ◌≤◌, length,
}
use mathlib.Core.List.{append-nil, append_assoc}
use bugpot.Base.Text.{Str, codes}
use bugpot.Base.Map.{lookup, insert, lookup-insert}
use bugpot.Config.Spec.{AppSpec, Rollout}
use bugpot.Config.Validate.{validate, validate_iff}
use bugpot.Core.Store.{
  Dir, specs_dir, rollouts_dir, AppStore, Toml, Fs, new, file_of, split_last_dot, persist_spec,
  persist_rollouts, load_file, load_files, read_rollouts_file, sort_by_name, load, extension_of,
  stem_of,
}

abbrev App : Type 0
App = AppSpec × List Rollout

split_last_dot-file_of : (name : Str) → split_last_dot (file_of name) ≡ some (name, codes "toml")
unfolding file_of split_last_dot
split_last_dot-file_of [] = refl
split_last_dot-file_of (c ∷ name) = rw (split_last_dot-file_of name)

file_of-inj : (name name' : Str) → file_of name ≡ file_of name' → name ≡ name'
file_of-inj name name' e =
    cc (ap split_last_dot e, split_last_dot-file_of name, split_last_dot-file_of name')

extension_of-some :
    (stem extension : Str)
    → 1 ≤ length stem
    → extension_of (some (stem, extension)) ≡ some extension
extension_of-some [] extension h = absurd (omega (arith, h))
extension_of-some (c ∷ stem) extension h = refl

stem_of-some :
    (file stem extension : Str) → 1 ≤ length stem → stem_of file (some (stem, extension)) ≡ stem
stem_of-some file [] extension h = absurd (omega (arith, h))
stem_of-some file (c ∷ stem) extension h = refl

module _ {V : Type 0} where
  insert-new :
      (key : Str) (v : V) (m : List (Str × V))
      → lookup key m ≡ none
      → insert key v m ≡ m ++ (key, v) ∷ []
  unfolding lookup insert
  insert-new key v [] e = refl
  insert-new key v ((k, old) ∷ m) e = ground (arith, e, insert-new key v m)

-- The file system answers every call.
pub record IsUp (fs : Fs) : Type 0 where
  pub writes : (dir : Dir) (file contents : Str) → fs.write dir file contents ≡ ok tt
  pub reads : (dir : Dir) (file : Str) → fs.read_to_string dir file ≡ ok tt
  pub lists : fs.read_dir ≡ ok tt

-- An app that the host accepts: it is valid, and `toml` has a text for both of its files, which it
-- reads back.
pub record IsStorable (toml : Toml) (app : AppSpec × List Rollout) : Type 0 where
  pub valid : validate app.0 ≡ ok tt
  pub spec_body : Str
  pub spec_text : toml.spec_to_string_pretty app.0 ≡ ok spec_body
  pub spec_reads : toml.spec_from_str spec_body ≡ ok app.0
  pub rollouts_body : Str
  pub rollouts_text : toml.rollouts_to_string_pretty app.1 ≡ ok rollouts_body
  pub rollouts_read : toml.rollouts_from_str rollouts_body ≡ ok app.1

abbrev pub Distinct : List (AppSpec × List Rollout) → Type 0
Distinct [] = Unit
Distinct (app ∷ apps) = All (λ b. app.0.name ≢ b.0.name) apps × Distinct apps

-- Each app's two files, one app after the other.
abbrev pub save : Toml → Fs → AppSpec × List Rollout → AppStore → AppStore
save toml fs (spec, rollouts) s =
    (persist_rollouts toml fs spec.name rollouts (persist_spec toml fs spec.name spec s).1).1

abbrev pub save_all : Toml → Fs → List (AppSpec × List Rollout) → AppStore → AppStore
save_all toml fs [] s = s
save_all toml fs (app ∷ apps) s = save_all toml fs apps (save toml fs app s)

module _ (toml : Toml) (fs : Fs) (d : IsUp fs) where
  -- The entry of an app in a directory.
  abbrev text_of : Result Str Str → Str
  text_of (ok body) = body
  text_of (err _) = []

  abbrev spec_entry : App → Str × Str
  spec_entry app = (file_of app.0.name, text_of (toml.spec_to_string_pretty app.0))

  abbrev rollouts_entry : App → Str × Str
  rollouts_entry app = (file_of app.0.name, text_of (toml.rollouts_to_string_pretty app.1))

  save-insert :
      (app : App) (s : AppStore)
      → IsStorable toml app
      → save toml fs app s ≡ record {
        specs = insert (spec_entry app).0 (spec_entry app).1 s.specs;
        rollouts = insert (rollouts_entry app).0 (rollouts_entry app).1 s.rollouts;
      }
  unfolding persist_spec persist_rollouts
  save-insert app s h = rw (
    h.spec_text,
    h.rollouts_text,
    d.writes specs_dir (file_of app.0.name) h.spec_body,
    d.writes rollouts_dir (file_of app.0.name) h.rollouts_body,
  )

  record Fresh (s : AppStore) (app : App) : Type 0 where
    specs : lookup (file_of app.0.name) s.specs ≡ none
    rollouts : lookup (file_of app.0.name) s.rollouts ≡ none

  key-ne : (a b : App) → a.0.name ≢ b.0.name → (file_of a.0.name =? file_of b.0.name) ≡ false
  key-ne a b differ = elim (Bool-cases (list_beq (file_of a.0.name) (file_of b.0.name))) [
    | inl same ↦ absurd (
        differ (
          file_of-inj a.0.name b.0.name
            ((list_beq_iff (file_of a.0.name) (file_of b.0.name)).0 same)))
    | inr other ↦ other
  ]

  Fresh-save :
      (app : App) (s : AppStore)
      → IsStorable toml app
      → (apps : List App) → All (λ b. app.0.name ≢ b.0.name) apps
      → All (Fresh s) apps
      → All (Fresh (save toml fs app s)) apps
  Fresh-save app s h [] differ fresh = tt
  Fresh-save app s h (b ∷ apps) (ne, differ) (f, fresh) =
      let file = file_of b.0.name in
      (
        record {
          specs =
              ap (λ s. lookup file s.specs) (save-insert app s h)
              ∙ lookup-insert (spec_entry app).0 file (spec_entry app).1 s.specs
              ∙ rw (key-ne app b ne) f.specs;
          rollouts =
              ap (λ s. lookup file s.rollouts) (save-insert app s h)
              ∙ lookup-insert (rollouts_entry app).0 file (rollouts_entry app).1 s.rollouts
              ∙ rw (key-ne app b ne) f.rollouts;
        },
        Fresh-save app s h apps differ fresh,
      )

  save_all_append :
      (apps : List App) (s : AppStore)
      → All (IsStorable toml) apps
      → Distinct apps
      → All (Fresh s) apps
      → save_all toml fs apps s ≡ record {
        specs = s.specs ++ map spec_entry apps;
        rollouts = s.rollouts ++ map rollouts_entry apps;
      }
  save_all_append [] s h di f = rw (append-nil s.specs, append-nil s.rollouts)
  save_all_append (app ∷ apps) s (h, hs) (ne, di) (f, fs') =
      save_all_append apps (save toml fs app s) hs di (Fresh-save app s h apps ne fs')
      ∙ rw (
        save-insert app s h,
        insert-new (spec_entry app).0 (spec_entry app).1 s.specs f.specs,
        insert-new (rollouts_entry app).0 (rollouts_entry app).1 s.rollouts f.rollouts,
        append_assoc,
        append_assoc,
      )

  -- The rollouts file of each app is found in the directory.
  Found : List (Str × Str) → App → Type 0
  Found dir app = lookup (rollouts_entry app).0 dir ≡ some (rollouts_entry app).1

  Found-cons :
      (app : App) (dir : List (Str × Str)) (apps : List App)
      → All (λ b. app.0.name ≢ b.0.name) apps
      → All (Found dir) apps
      → All (Found (rollouts_entry app ∷ dir)) apps
  unfolding lookup Found
  Found-cons app dir [] differ found = tt
  Found-cons app dir (b ∷ apps) (ne, differ) (f, found) =
      (rw (key-ne app b ne) f, Found-cons app dir apps differ found)

  Found-All : (apps : List App) → Distinct apps → All (Found (map rollouts_entry apps)) apps
  unfolding lookup Found
  Found-All [] di = tt
  Found-All (app ∷ apps) (ne, di) = (
    rw (list_beq_iff (file_of app.0.name) (file_of app.0.name)).1 refl,
    Found-cons app (map rollouts_entry apps) apps ne (Found-All apps di),
  )

  read_rollouts_file-Found :
      (dir : List (Str × Str)) (app : App)
      → IsStorable toml app
      → Found dir app
      → read_rollouts_file toml fs dir app.0.name ≡ ok app.1
  unfolding read_rollouts_file Found
  read_rollouts_file-Found dir app h found =
      rw (found, h.rollouts_text, d.reads rollouts_dir (file_of app.0.name), h.rollouts_read)

  load_file-entry :
      (dir : List (Str × Str)) (app : App)
      → IsStorable toml app
      → Found dir app
      → load_file toml fs dir (spec_entry app).0 app.0.name (spec_entry app).1 ≡ ok app
  unfolding load_file
  load_file-entry dir app h found =
      let file = file_of app.0.name in
      rw (
        d.reads specs_dir file,
        h.spec_text,
        h.spec_reads,
        h.valid,
        (list_beq_iff app.0.name app.0.name).1 refl,
        read_rollouts_file-Found dir app h found,
      )

  load_files-entries :
      (dir : List (Str × Str)) (apps : List App)
      → All (IsStorable toml) apps
      → All (Found dir) apps
      → load_files toml fs dir (map spec_entry apps) ≡ ok apps
  unfolding load_files
  load_files-entries dir [] h found = refl
  load_files-entries dir (app ∷ apps) (h, hs) (f, found) =
      let name = app.0.name in
      let named = ((validate_iff app.0).0 h.valid).name.nonempty in
      rw (
        split_last_dot-file_of name,
        extension_of-some name (codes "toml") named,
        stem_of-some (file_of name) name (codes "toml") named,
        load_file-entry dir app h f,
        load_files-entries dir apps hs found,
      )

  Fresh-new : (apps : List App) → All (Fresh new) apps
  unfolding lookup
  Fresh-new [] = tt
  Fresh-new (app ∷ apps) = (record { specs = refl; rollouts = refl }, Fresh-new apps)

  -- The apps that a host persisted, one after the other into an empty state directory, are what its
  -- next start loads: each with its own rollout history, in the order of their names.
  pub load-save_all :
      (apps : List (AppSpec × List Rollout))
      → All (IsStorable toml) apps
      → Distinct apps
      → load toml fs (save_all toml fs apps new) ≡ ok (sort_by_name apps)
  unfolding load
  load-save_all apps h di = rw (
    save_all_append apps new h di (Fresh-new apps),
    d.lists,
    load_files-entries (map rollouts_entry apps) apps h (Found-All apps di),
  )

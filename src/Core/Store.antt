-- ===== src/Core/Store.antt =====
-- crates/bugpot-core/src/store.rs and persist.rs: the files of the apps. Each of the two directories
-- is a map from file names to contents. `toml`, and what the operating system answers, are
-- parameters; `ensure_dirs` leaves the two directories in place, which they always are here.
pub mod RoundTrip
use bugpot.Base.{
  ℕ, Bool, true, false, Option, none, some, List, [], ◌∷◌, ◌++◌, Result, ok, err, ◌>>=◌, ◌>>◌,
  map_err, ltb, ◌==◌, ◌&&◌, list_beq, list_eq, if◌then◌else◌, is_ok,
}
use bugpot.Base.Text.{Str, codes, bytes}
use bugpot.Base.Map.{lookup, insert, remove as erase}
use bugpot.Config.Spec.{AppSpec, Rollout, InvalidSpec}
use bugpot.Config.Validate.{validate}

-- crates/bugpot-core/src/persist.rs: `RolloutsFile` is its list.
pub record AppStore : Type 0 where
  pub specs : List (Str × Str)
  pub rollouts : List (Str × Str)

abbrev pub new : AppStore
new = record { specs = []; rollouts = [] }

-- The two directories, `<state>/apps` and `<state>/rollouts`.
pub data Dir : Type 0 where
  specs_dir rollouts_dir : Dir

-- The `toml` crate at the two types.
pub record Toml : Type 0 where
  pub spec_to_string_pretty : AppSpec → Result Str Str
  pub spec_to_string : AppSpec → Result Str Str
  pub spec_from_str : Str → Result AppSpec Str
  pub rollouts_to_string_pretty : List Rollout → Result Str Str
  pub rollouts_from_str : Str → Result (List Rollout) Str

-- What the file system answers: a write of a file is done, or fails and leaves the contents given,
-- and a file is removed or not; a directory or a file is read or not.
pub record Fs : Type 0 where
  pub write : Dir → (name contents : Str) → Result (Unit {0}) (Str × Option Str)
  pub remove_file : Dir → (name : Str) → Result (Unit {0}) Str
  pub read_dir : Result (Unit {0}) Str
  pub read_to_string : Dir → (name : Str) → Result (Unit {0}) Str

pub data StoreError : Type 0 where
  serialize write read parse : Str → StoreError
  invalid : InvalidSpec → StoreError
  misnamed : (file declared : Str) → StoreError

-- `spec_path` and `rollouts_path`, within their directories.
unfoldable pub file_of : Str → Str
file_of name = name ++ codes ".toml"

-- `path.extension()` and `path.file_stem()`, from the text after the last dot and the text before
-- it; a name that begins with its only dot has no extension.
unfoldable pub split_last_dot : Str → Option (Str × Str)
split_last_dot [] = none
split_last_dot (c ∷ s) = elim (split_last_dot s) [
  | some (stem, extension) ↦ some (c ∷ stem, extension)
  | none ↦ if c == b'.' then some ([], s) else none
]

abbrev pub extension_of : Option (Str × Str) → Option Str
extension_of none = none
extension_of (some ([], _)) = none
extension_of (some (_ ∷ _, extension)) = some extension

abbrev pub stem_of : Str → Option (Str × Str) → Str
stem_of file none = file
stem_of file (some ([], _)) = file
stem_of file (some (c ∷ stem, _)) = c ∷ stem

-- The contents after a write that may fail.
abbrev pub written :
    Str
    → Str
    → Result (Unit {0}) (Str × Option Str)
    → List (Str × Str)
    → Result (Unit {0}) StoreError × List (Str × Str)
written file body (ok _) dir = (ok tt, insert file body dir)
written file body (err (why, none)) dir = (err (write why), erase file dir)
written file body (err (why, some left)) dir = (err (write why), insert file left dir)

abbrev pub removed : Str → Result (Unit {0}) Str → List (Str × Str) → List (Str × Str)
removed file (ok _) dir = erase file dir
removed file (err _) dir = dir

module _ (toml : Toml) (fs : Fs) where
  -- `persist_toml`, from the outcome of the serialisation.
  abbrev pub persist_toml :
      Dir
      → Str
      → Result Str Str
      → List (Str × Str)
      → Result (Unit {0}) StoreError × List (Str × Str)
  persist_toml at file (err why) dir = (err (serialize why), dir)
  persist_toml at file (ok body) dir = written file body (fs.write at file body) dir

  unfoldable pub persist_spec : Str → AppSpec → AppStore → Result (Unit {0}) StoreError × AppStore
  unfolding file_of
  persist_spec name spec s =
      let (r, specs) =
        persist_toml specs_dir (file_of name) (toml.spec_to_string_pretty spec) s.specs in
      (r, record s { specs = specs })

  unfoldable pub persist_rollouts :
      Str → List Rollout → AppStore → Result (Unit {0}) StoreError × AppStore
  unfolding file_of
  persist_rollouts name rollouts s =
      let (r, files) =
        persist_toml rollouts_dir (file_of name) (toml.rollouts_to_string_pretty rollouts)
          s.rollouts in
      (r, record s { rollouts = files })

  -- Best effort: no failure is reported, and an absent file is no failure.
  unfoldable pub remove : Str → AppStore → AppStore
  unfolding file_of
  remove name s = record {
    specs = removed (file_of name) (fs.remove_file specs_dir (file_of name)) s.specs;
    rollouts = removed (file_of name) (fs.remove_file rollouts_dir (file_of name)) s.rollouts;
  }

  unfoldable pub discard_failed_spec : Str → AppStore → AppStore
  unfolding file_of
  discard_failed_spec name s = record s {
    specs = removed (file_of name) (fs.remove_file specs_dir (file_of name)) s.specs;
  }

  abbrev pub parse_rollouts : Str → Option Str → Result (List Rollout) StoreError
  parse_rollouts file none = ok []
  parse_rollouts file (some body) = do
    map_err read (fs.read_to_string rollouts_dir file)
    map_err parse (toml.rollouts_from_str body)

  unfoldable pub read_rollouts_file : List (Str × Str) → Str → Result (List Rollout) StoreError
  unfolding file_of
  read_rollouts_file dir name = parse_rollouts (file_of name) (lookup (file_of name) dir)

  abbrev named : Str → Str → Str → Result (Unit {0}) StoreError
  named file stem declared = if list_beq stem declared then ok tt else err (misnamed file declared)

  -- One `.toml` file of the directory.
  unfoldable pub load_file :
      List (Str × Str) → Str → Str → Str → Result (AppSpec × List Rollout) StoreError
  unfolding read_rollouts_file validate
  load_file histories file stem body = do
    map_err read (fs.read_to_string specs_dir file)
    spec ← map_err parse (toml.spec_from_str body)
    map_err invalid (validate spec)
    named file stem spec.name
    rollouts ← read_rollouts_file histories spec.name
    ok (spec, rollouts)

  abbrev pub is_toml : Option Str → Bool
  is_toml none = false
  is_toml (some extension) = list_beq extension (codes "toml")

  unfoldable pub load_files :
      List (Str × Str) → List (Str × Str) → Result (List (AppSpec × List Rollout)) StoreError
  unfolding split_last_dot load_file
  load_files histories [] = ok []
  load_files histories ((file, body) ∷ files) =
      let rest = load_files histories files in
      let parts = split_last_dot file in
      if is_toml (extension_of parts)
      then (do
        app ← load_file histories file (stem_of file parts) body
        apps ← rest
        ok (app ∷ apps))
      else rest

-- `str::cmp`: the order of the bytes.
unfoldable pub le_bytes : List ℕ → List ℕ → Bool
le_bytes [] _ = true
le_bytes (_ ∷ _) [] = false
le_bytes (x ∷ xs) (y ∷ ys) = let rest = le_bytes xs ys in if ltb x y then true else x == y && rest

-- `sort_by`, which is stable.
unfoldable pub insert_by_name :
    AppSpec × List Rollout → List (AppSpec × List Rollout) → List (AppSpec × List Rollout)
unfolding le_bytes bytes
insert_by_name app [] = app ∷ []
insert_by_name app (other ∷ apps) =
    let rest = insert_by_name app apps in
    if le_bytes (bytes app.0.name) (bytes other.0.name) then app ∷ other ∷ apps else other ∷ rest

unfoldable pub sort_by_name : List (AppSpec × List Rollout) → List (AppSpec × List Rollout)
unfolding insert_by_name
sort_by_name [] = []
sort_by_name (app ∷ apps) = insert_by_name app (sort_by_name apps)

unfoldable pub load : Toml → Fs → AppStore → Result (List (AppSpec × List Rollout)) StoreError
unfolding load_files sort_by_name
load toml fs s = do
  map_err read fs.read_dir
  apps ← load_files toml fs s.rollouts s.specs
  ok (sort_by_name apps)

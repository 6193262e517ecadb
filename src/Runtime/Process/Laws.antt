-- ===== src/Runtime/Process/Laws.antt =====
-- Which values the process sees.
use bugpot.Base.{
  true, false, List, [], ◌∷◌, ◌++◌, ◌≡◌, ◌≢◌, refl, arith, Bool-cases, inl, inr, ap, ◌∙◌,
  if◌then◌else◌, Option, sym, none, some, list_eq, list_beq, list_beq_iff, ap₂,
}
use mathlib.Core.Path.{subst}
use mathlib.Core.List.{append-nil}
use bugpot.Base.Map.{lookup}
use bugpot.Base.Text.{Str, codes, starts_with, contains}
use bugpot.Base.Lines.{to_string}
use bugpot.Config.Spec.{AppSpec}
use bugpot.Runtime.Process.{
  ImageConfig, prefix_of, entry_of, retain, push_env, push_all, ensure_path, derive_env, image_env,
}

-- The entries of a variable.
abbrev pub entries_of : Str → List Str → List Str
entries_of key [] = []
entries_of key (e ∷ env) =
    let rest = entries_of key env in if starts_with (prefix_of key) e then e ∷ rest else rest

-- A name that has no `=` in it.
abbrev pub IsName : Str → Type 0
IsName key = contains b'=' key ≡ false

-- A text begins with the prefix of one name at most.
exclusive :
    (key key' e : Str)
    → IsName key
    → IsName key'
    → starts_with (prefix_of key) e ≡ true
    → starts_with (prefix_of key') e ≡ true
    → key ≡ key'
unfolding starts_with contains
exclusive [] [] e hk hk' h h' = refl
exclusive [] (c ∷ k') [] hk hk' h h' = absurd (ground (arith, h))
exclusive [] (c ∷ k') (x ∷ e) hk hk' h h' = absurd (ground (arith, hk', h, h'))
exclusive (c ∷ k) [] [] hk hk' h h' = absurd (ground (arith, h))
exclusive (c ∷ k) [] (x ∷ e) hk hk' h h' = absurd (ground (arith, hk, h, h'))
exclusive (c ∷ k) (d ∷ k') [] hk hk' h h' = absurd (ground (arith, h))
exclusive (c ∷ k) (d ∷ k') (x ∷ e) hk hk' h h' =
    let same : c ≡ d = ground (arith, h, h') in
    ap₂ ◌∷◌ same (
      exclusive k k' e (ground (arith, hk)) (ground (arith, hk')) (ground (arith, h))
        (ground (arith, h')))

starts_with-own : (key value : Str) → starts_with (prefix_of key) (entry_of key value) ≡ true
unfolding starts_with
starts_with-own [] value = refl
starts_with-own (c ∷ k) value = ground (arith, starts_with-own k value)

entries_of-append :
    (key e : Str) (env : List Str)
    → entries_of key (env ++ e ∷ [])
      ≡ entries_of key env ++ (if starts_with (prefix_of key) e then e ∷ [] else [])
entries_of-append key e [] = ground arith
entries_of-append key e (x ∷ env) = ground (arith, entries_of-append key e env)

entries_of-retain_own :
    (key : Str) (env : List Str) → entries_of key (retain (prefix_of key) env) ≡ []
unfolding retain
entries_of-retain_own key [] = refl
entries_of-retain_own key (x ∷ env) = ground (arith, entries_of-retain_own key env)

module _ (key key' : Str) (hk : IsName key) (hk' : IsName key') (differ : key ≢ key') where
  apart : (e : Str) → starts_with (prefix_of key') e ≡ true → starts_with (prefix_of key) e ≡ false
  apart e h' = elim (Bool-cases (starts_with (prefix_of key) e)) [
    | inl h ↦ absurd (differ (exclusive key key' e hk hk' h h'))
    | inr h ↦ h
  ]

  entries_of-retain_other :
      (env : List Str) → entries_of key (retain (prefix_of key') env) ≡ entries_of key env
  unfolding retain
  entries_of-retain_other [] = refl
  entries_of-retain_other (e ∷ env) = ground (arith, entries_of-retain_other env, apart e)

  entries_of-push_env_other :
      (value : Str) (env : List Str) → entries_of key (push_env key' value env) ≡ entries_of key env
  unfolding push_env
  entries_of-push_env_other value env =
      entries_of-append key (entry_of key' value) (retain (prefix_of key') env)
      ∙ rw
          (
            apart (entry_of key' value) (starts_with-own key' value),
            entries_of-retain_other env,
            append-nil (entries_of key env),
          )
          refl

entries_of-push_env_own :
    (key value : Str) (env : List Str)
    → entries_of key (push_env key value env) ≡ entry_of key value ∷ []
unfolding push_env
entries_of-push_env_own key value env =
    entries_of-append key (entry_of key value) (retain (prefix_of key) env)
    ∙ rw (starts_with-own key value, entries_of-retain_own key env) refl

entries_of-push_env :
    (key k : Str)
    → IsName key
    → IsName k
    → (value : Str) (env : List Str)
    → entries_of key (push_env k value env)
      ≡ (if list_beq k key then entry_of k value ∷ [] else entries_of key env)
entries_of-push_env key k hk hk' value env = elim (Bool-cases (list_beq k key)) [
  | inl same ↦
      let e = (list_beq_iff k key).0 same in
      rw same (
        subst (λ key. entries_of key (push_env k value env) ≡ entry_of k value ∷ []) e
          (entries_of-push_env_own k value env))
  | inr differ ↦ rw differ (
      entries_of-push_env_other key k hk hk'
        (λ e. ground (arith, differ, (list_beq_iff k key).1 (sym e))) value env)
]

-- The keys of a hash map: each once.
abbrev pub AreKeys : List (Str × Str) → Type 0
AreKeys [] = Unit
AreKeys ((key, _) ∷ vars) = IsName key × (lookup key vars ≡ none) × AreKeys vars

-- One entry for a variable that is set, and else what was there.
abbrev pub set_or : Str → Option Str → List Str → List Str
set_or key none rest = rest
set_or key (some value) rest = entry_of key value ∷ []

entries_of-push_all :
    (key : Str) (vars : List (Str × Str)) (env : List Str)
    → IsName key
    → AreKeys vars
    → entries_of key (push_all vars env) ≡ set_or key (lookup key vars) (entries_of key env)
unfolding push_all lookup
entries_of-push_all key [] env hk keys = refl
entries_of-push_all key ((k, v) ∷ vars) env hk (hk', once, keys) =
    entries_of-push_all key vars (push_env k v env) hk keys
    ∙ ap (set_or key (lookup key vars)) (entries_of-push_env key k hk hk' v env)
    ∙ elim (Bool-cases (list_beq k key)) [
      | inl same ↦
          let e = (list_beq_iff k key).0 same in
          rw (same, subst (λ k. lookup k vars ≡ none) e once, e) refl
      | inr differ ↦ rw differ refl
    ]

port_IsName : IsName (codes "PORT")
unfolding contains
port_IsName = refl

-- What the process sees of each variable: the app's own value where it sets one, once; otherwise the
-- app's port for `PORT`, once; and otherwise the entries of the image, with a `PATH` added where the
-- image has none. The names have no `=`, and the app sets each at most once.
pub derive_env-entries :
    (spec : AppSpec) (image_cfg : Option ImageConfig) (key : Str)
    → IsName key
    → AreKeys spec.env
    → entries_of key (derive_env spec image_cfg)
      ≡ set_or key (lookup key spec.env) (
          if list_beq (codes "PORT") key
          then entry_of (codes "PORT") (to_string spec.port) ∷ []
          else entries_of key (ensure_path (image_env image_cfg)))
unfolding derive_env
derive_env-entries spec image_cfg key hk keys =
    let env = ensure_path (image_env image_cfg) in
    entries_of-push_all key spec.env (push_env (codes "PORT") (to_string spec.port) env) hk keys
    ∙ ap (set_or key (lookup key spec.env))
        (entries_of-push_env key (codes "PORT") hk port_IsName (to_string spec.port) env)

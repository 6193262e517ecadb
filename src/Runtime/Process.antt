-- ===== src/Runtime/Process.antt =====
-- crates/bugpot-runtime/src/spec.rs: the arguments and the environment of the process. The user's
-- variables come from a hash map: they stand in the order of its iteration.
pub mod Laws
use bugpot.Base.{ℕ, Bool, true, false, Option, none, some, List, [], ◌∷◌, ◌++◌, any, if◌then◌else◌}
use bugpot.Base.Text.{Str, codes, starts_with}
use bugpot.Base.Lines.{to_string}
use bugpot.Config.Spec.{AppSpec}

-- What the builder reads of `oci_client::config::Config`.
pub record ImageConfig : Type 0 where
  pub entrypoint : Option (List Str)
  pub cmd : Option (List Str)
  pub env : Option (List Str)
  pub working_dir : Option Str
  pub user : Option Str

abbrev pub unwrap_or_default : Option (List Str) → List Str
unwrap_or_default none = []
unwrap_or_default (some xs) = xs

abbrev pub nonempty : List Str → Option (List Str)
nonempty [] = none
nonempty (x ∷ xs) = some (x ∷ xs)

abbrev combined : Option ImageConfig → List Str
combined none = []
combined (some c) = unwrap_or_default c.entrypoint ++ unwrap_or_default c.cmd

unfoldable pub derive_args : Option ImageConfig → Option (List Str)
derive_args image_cfg = nonempty (combined image_cfg)

-- `{key}=` and `{key}={value}`.
abbrev pub prefix_of : Str → Str
prefix_of key = key ++ b'=' ∷ []

abbrev pub entry_of : Str → Str → Str
entry_of key value = key ++ b'=' ∷ value

-- `retain`, of what does not start with the prefix.
unfoldable pub retain : Str → List Str → List Str
unfolding starts_with
retain p [] = []
retain p (e ∷ env) = let rest = retain p env in if starts_with p e then rest else e ∷ rest

unfoldable pub push_env : Str → Str → List Str → List Str
unfolding retain
push_env key value env = retain (prefix_of key) env ++ entry_of key value ∷ []

unfoldable pub push_all : List (Str × Str) → List Str → List Str
unfolding push_env
push_all [] env = env
push_all ((key, value) ∷ vars) env = push_all vars (push_env key value env)

abbrev pub default_path : Str
default_path = codes "PATH=/usr/local/sbin:/usr/local/bin:/usr/sbin:/usr/bin:/sbin:/bin"

unfoldable pub ensure_path : List Str → List Str
unfolding starts_with
ensure_path env = if any (starts_with (codes "PATH=")) env then env else env ++ default_path ∷ []

abbrev pub image_env : Option ImageConfig → List Str
image_env none = []
image_env (some c) = unwrap_or_default c.env

unfoldable pub derive_env : AppSpec → Option ImageConfig → List Str
unfolding ensure_path push_env push_all
derive_env spec image_cfg =
    push_all spec.env
      (push_env (codes "PORT") (to_string spec.port) (ensure_path (image_env image_cfg)))

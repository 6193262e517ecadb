-- ===== src/Daemon/Secrets.antt =====
-- cmd/bugpotd/src/secrets.rs, and `load_auth` of crates/bugpot-config/src/lib.rs. The environment, the
-- check of a file's owner, which is the package `fs-mistrust`'s, and the reading of a file are
-- parameters. An error is its text.
use bugpot.Config.Image.{AuthConfig}
use bugpot.Base.{
  Option, none, some, ◌++◌, [], Bool, Result, ok, ◌>>=◌, ◌>>◌, ok_or, if◌then◌else◌, List, ℕ,
}
use bugpot.Base.Text.{Str, codes, trim, is_empty, bytes}

abbrev no_auth : AuthConfig
no_auth = record { registries = [] }

pub record Environment : Type 0 where
  pub var : Str → Option Str
  pub require_owner_only : Str → Result (Unit {0}) Str
  pub read_to_string : Str → Result Str Str

unfoldable pub non_empty : Str → Option Str
unfolding trim
non_empty s = if is_empty (trim s) then none else some (trim s)

module _ (env : Environment) where
  unfoldable pub read_from_file : Str → Str → Result Str Str
  unfolding non_empty
  read_from_file kind path = do
    env.require_owner_only path
    body ← env.read_to_string path
    ok_or (non_empty body) (kind ++ codes " file is empty")

  abbrev present : Option Str → Option Str
  present none = none
  present (some raw) = non_empty raw

  abbrev read_direct : Str → Option Str → Result Str Str
  read_direct kind direct = ok_or (present direct) (kind ++ codes " is required")

  abbrev read_either : Str → Option Str → Option Str → Result Str Str
  read_either kind (some path) direct = read_from_file kind path
  read_either kind none direct = read_direct kind direct

  -- The file goes before the variable.
  unfoldable read_secret : Str → Str → Str → Result Str Str
  unfolding read_from_file non_empty
  read_secret kind file_var direct_var = read_either kind (env.var file_var) (env.var direct_var)

  unfoldable pub read_admin_token : Result Str Str
  unfolding read_secret
  read_admin_token =
      read_secret (codes "admin token") (codes "BUGPOT_ADMIN_TOKEN_FILE")
        (codes "BUGPOT_ADMIN_TOKEN")

  -- The secret is its bytes.
  unfoldable pub read_deploy_secret : Result (List ℕ) Str
  unfolding read_secret bytes
  read_deploy_secret = do
    secret ←
        read_secret (codes "deploy-key secret") (codes "BUGPOT_DEPLOY_SECRET_FILE")
          (codes "BUGPOT_DEPLOY_SECRET")
    ok (bytes secret)

  abbrev read_auth : (Str → Result AuthConfig Str) → Str → Result AuthConfig Str
  read_auth from_str path = do
    env.require_owner_only path
    body ← env.read_to_string path
    from_str body

  -- Without the file there are no credentials; `from_str` is the parser of `toml`.
  unfoldable pub load_auth :
      (Str → Bool) → (Str → Result AuthConfig Str) → Str → Result AuthConfig Str
  load_auth exists from_str path = if exists path then read_auth from_str path else ok no_auth

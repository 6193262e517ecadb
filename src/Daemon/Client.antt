-- ===== src/Daemon/Client.antt =====
-- cmd/bugpot/src/main.rs: the client of the admin API. The environment, the reading of files, the
-- sending of a request and the parsers of the answers are parameters; what is printed of an answer
-- is left out.
pub mod Tokens
use bugpot.Base.{
  ℕ, Bool, Option, none, some, List, [], ◌∷◌, ◌++◌, map, Result, ok, err, ◌>>=◌, ◌>>◌, map_err,
  if◌then◌else◌, leb, ltb, ◌&&◌,
}
use bugpot.Base.Text.{Str, codes, trim, is_empty}

abbrev default_admin_url : Str
default_admin_url = codes "http://127.0.0.1:8081"

pub data Method : Type 0 where
  get post patch delete : Method

pub data Body : Type 0 where
  empty : Body
  json toml : (body : Str) → Body

pub record Request : Type 0 where
  pub method : Method
  pub url : Str
  pub token : Str
  pub body : Body

pub record Response : Type 0 where
  pub status : ℕ
  pub text : Result Str Str

pub data ClientError : Type 0 where
  bad_token unreadable unsent unparsed : Str → ClientError
  refused : (url : Str) (status : ℕ) (body : Str) → ClientError

pub record ApiConfig : Type 0 where
  pub base_url : Str
  pub token : Str

module _ (read_to_string : Str → Result Str Str) where
  abbrev unless_blank : Str → Str → Result Str ClientError
  unless_blank why s = if is_empty (trim s) then err (bad_token why) else ok (trim s)

  abbrev pub token_in : Str → Result Str Str → Result Str ClientError
  token_in file_var (err why) = err (unreadable why)
  token_in file_var (ok s) = unless_blank (file_var ++ codes " points at an empty file") s

  -- The variable goes before the file.
  unfoldable pub resolve_token : Option Str → Option Str → Str → Str → Result Str ClientError
  unfolding trim
  resolve_token (some v) file_path direct_var file_var =
      unless_blank (direct_var ++ codes " is set but empty") v
  resolve_token none (some p) direct_var file_var = token_in file_var (read_to_string p)
  resolve_token none none direct_var file_var =
      err
        (bad_token (codes "Neither " ++ direct_var ++ codes " nor " ++ file_var ++ codes " is set"))

  module _ (var : Str → Option Str) where
    abbrev pub direct_var : Str → Str
    direct_var kind_upper = codes "BUGPOT_" ++ kind_upper ++ codes "_TOKEN"

    -- The kind in upper case.
    unfoldable read_token : Str → Result Str ClientError
    unfolding resolve_token
    read_token kind_upper =
        resolve_token (var (direct_var kind_upper)) (var (direct_var kind_upper ++ codes "_FILE"))
          (direct_var kind_upper) (direct_var kind_upper ++ codes "_FILE")

    abbrev base_url_of : Option Str → Str
    base_url_of none = default_admin_url
    base_url_of (some url) = url

    unfoldable pub from_env : Str → Result ApiConfig ClientError
    unfolding read_token
    from_env kind_upper = do
      token ← read_token kind_upper
      ok (record { base_url = base_url_of (var (codes "BUGPOT_ADMIN_URL")); token = token })

abbrev or_empty : Result Str Str → Str
or_empty (err why) = []
or_empty (ok s) = s

abbrev pub is_success : ℕ → Bool
is_success status = leb 200 status && ltb status 300

module _ (send : Request → Result Response Str) where
  module _ {A : Type 0} (parse : Str → Result A Str) where
    abbrev pub parsed : Result Str Str → Result A ClientError
    parsed (err why) = err (unparsed why)
    parsed (ok body) = map_err unparsed (parse body)

    unfoldable check_status : Str → Response → Result A ClientError
    unfolding trim
    check_status url resp =
        if is_success resp.status
        then parsed resp.text
        else err (refused url resp.status (trim (or_empty resp.text)))

    unfoldable http_request : Method → Str → Str → Str → Body → Result A ClientError
    unfolding check_status
    http_request method base path token body = do
      resp ←
          map_err unsent
            (send (record { method = method; url = base ++ path; token = token; body = body }))
      check_status (base ++ path) resp

  abbrev deleted : Str → Response → Result (Unit {0}) ClientError
  deleted url resp =
      if is_success resp.status
      then ok tt
      else err (refused url resp.status (trim (or_empty resp.text)))

  unfoldable http_delete : Str → Str → Str → Result (Unit {0}) ClientError
  unfolding trim
  http_delete base path token = do
    resp ←
        map_err unsent
          (send (record { method = delete; url = base ++ path; token = token; body = empty }))
    deleted (base ++ path) resp

pub data AppsCmd : Type 0 where
  list : AppsCmd
  get_app delete_app deploy_key : (name : Str) → AppsCmd
  create : (file : Str) → AppsCmd
  update : (name file : Str) → AppsCmd

pub data RolloutsCmd : Type 0 where
  list_rollouts : (app : Str) → RolloutsCmd
  push : (app tag : Str) → RolloutsCmd

-- The answers, with the types of their views.
pub data Report (V R : Type 0) : Type 0 where
  apps : List V → Report V R
  app created updated : V → Report V R
  removed key : Str → Report V R
  rollouts : List R → Report V R
  rolled_out : R → Report V R

pub record Parsers (V R : Type 0) : Type 0 where
  pub views : Str → Result (List V) Str
  pub view : Str → Result V Str
  pub token : Str → Result Str Str
  pub all_rollouts : Str → Result (List R) Str
  pub rollout : Str → Result R Str

-- `read_to_string` reads the files of the commands; `tag_json` is the body of a push.
module _ {V R : Type 0} (parsers : Parsers V R) (read_to_string : Str → Result Str Str)
    (tag_json : Str → Str) (send : Request → Result Response Str) (cfg : ApiConfig) where
  abbrev app_path : Str → Str
  app_path name = codes "/apps/" ++ name

  unfoldable pub cmd_apps : AppsCmd → Result (Report V R) ClientError
  unfolding http_request http_delete
  cmd_apps list = do
    v ← http_request send parsers.views get cfg.base_url (codes "/apps") cfg.token empty
    ok (apps v)
  cmd_apps (get_app name) = do
    v ← http_request send parsers.view get cfg.base_url (app_path name) cfg.token empty
    ok (app v)
  cmd_apps (create file) = do
    body ← map_err unreadable (read_to_string file)
    v ← http_request send parsers.view post cfg.base_url (codes "/apps") cfg.token (toml body)
    ok (created v)
  cmd_apps (update name file) = do
    body ← map_err unreadable (read_to_string file)
    v ← http_request send parsers.view patch cfg.base_url (app_path name) cfg.token (toml body)
    ok (updated v)
  cmd_apps (delete_app name) = do
    http_delete send cfg.base_url (app_path name) cfg.token
    ok (removed name)
  cmd_apps (deploy_key name) = do
    v ←
        http_request send parsers.token post cfg.base_url (app_path name ++ codes "/deploy-keys")
          cfg.token (json (codes "{}"))
    ok (key v)

  unfoldable cmd_rollouts : RolloutsCmd → Result (Report V R) ClientError
  unfolding http_request
  cmd_rollouts (list_rollouts name) = do
    v ←
        http_request send parsers.all_rollouts get cfg.base_url (app_path name ++ codes "/rollouts")
          cfg.token empty
    ok (rollouts v)
  cmd_rollouts (push name tag) = do
    v ←
        http_request send parsers.rollout post cfg.base_url (app_path name ++ codes "/rollouts")
          cfg.token (json (tag_json tag))
    ok (rolled_out v)

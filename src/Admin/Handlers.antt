-- ===== src/Admin/Handlers.antt =====
-- crates/bugpot-admin/src/handlers.rs: the request handlers, without the audit lines. A response is
-- its status with its body, or the status of an error. The handle that `find_handle` gives is the
-- one that the host works on.
use bugpot.Base.{
  ℕ, Bool, Option, none, some, List, [], Result, err, ok_or, ◌||◌, list_beq, if◌then◌else◌,
}
use bugpot.Base.Text.{Str, codes, first_part, trim, to_ascii_lowercase}
use bugpot.Config.Spec.{AppSpec, Rollout}
use bugpot.Core.Crud.{deploy_app, update_app, remove_app, find_handle}
use bugpot.Core.Registry.{HandleRef}
use bugpot.Core.Rollout.{set_rollout, list_rollouts}
use bugpot.Core.View.{AppView, view_of}
use bugpot.Core.Host.{read_spec}
use bugpot.Core.AppHost.{Services, H, ◌>>=◌, ◌>>◌, pure, lift, map_error, on_handle}
use bugpot.Admin.DeployKey.{Crypto, derive}
use bugpot.Admin.Status.{
  bad_request, not_found, deploy_status, update_status, remove_status, rollout_status,
}

abbrev pub created : ℕ
created = 201

abbrev pub okay : ℕ
okay = 200

abbrev pub no_content : ℕ
no_content = 204

-- `toml` and `serde_json` at the type, and the UTF-8 reader.
pub record Decoders : Type 0 where
  pub from_utf8 : List ℕ → Option Str
  pub toml_from_str : Str → Option AppSpec
  pub json_from_slice : List ℕ → Option AppSpec

-- The media type of a content type, without its parameters and without its case.
unfoldable pub media_type : Option Str → Str
unfolding first_part trim to_ascii_lowercase
media_type none = []
media_type (some content_type) = to_ascii_lowercase (trim (first_part b';' content_type))

abbrev pub is_toml : Str → Bool
is_toml media = list_beq media (codes "application/toml") || list_beq media (codes "text/toml")

unfoldable pub parse_app_spec : Decoders → Option Str → List ℕ → Result AppSpec ℕ
unfolding media_type
parse_app_spec d content_type body =
    if is_toml (media_type content_type)
    then elim (d.from_utf8 body) [
      | none ↦ err bad_request
      | some text ↦ ok_or (d.toml_from_str text) bad_request
    ]
    else ok_or (d.json_from_slice body) bad_request

module _ (s : Services) where
  unfoldable pub deploy : AppSpec → H (ℕ × AppView) ℕ
  unfolding deploy_app deploy_status
  deploy spec = do view ← map_error deploy_status (deploy_app s spec); pure (created, view)

  -- `app_not_found`, unless the registry has the name.
  abbrev pub found : Option HandleRef → H HandleRef ℕ
  found handle = lift (ok_or handle not_found)

  -- `none` while the start waits for another task.
  unfoldable pub update : Str → ℕ → ℕ → AppSpec → H (Option AppView) ℕ
  unfolding find_handle update_app update_status
  update name drains rounds spec = do
    handle ← find_handle s name
    ref ← found handle
    map_error update_status (update_app s ref drains rounds spec)

  unfoldable pub roll_out : HandleRef → ℕ → ℕ → Str → H (Option Rollout) ℕ
  unfolding set_rollout rollout_status
  roll_out ref drains rounds tag =
      map_error rollout_status (on_handle (set_rollout s.env ref.name drains rounds tag))

  unfoldable pub list_rollouts_of : HandleRef → H (List Rollout) ℕ
  unfolding list_rollouts
  list_rollouts_of ref = on_handle (list_rollouts s.env ref.name)

  unfoldable pub issue_deploy_key : Crypto → List ℕ → Str → H (ℕ × Str) ℕ
  unfolding find_handle derive
  issue_deploy_key crypto secret name = do
    handle ← find_handle s name
    found handle
    spec ← on_handle (read_spec s.env)
    pure (created, derive crypto secret name spec.repo)

  unfoldable pub remove : Str → H ℕ ℕ
  unfolding find_handle remove_app remove_status
  remove name = do
    handle ← find_handle s name
    ref ← found handle
    map_error remove_status (remove_app s ref)
    pure no_content

  -- `get_one`, with `AppHost::get_app`.
  unfoldable pub get_one : Str → H AppView ℕ
  unfolding find_handle
  get_one name = do handle ← find_handle s name; ref ← found handle; on_handle (view_of s.env ref)

-- ===== src/Admin/Status.antt =====
-- crates/bugpot-admin/src/error.rs: the HTTP status of each error; the message is not modelled.
use bugpot.Base.{ℕ}
use bugpot.Core.Crud.{DeployError, RemoveError, UpdateError}
use bugpot.Core.Crud
use bugpot.Core.Rollout.{RolloutError}
use bugpot.Core.Rollout

abbrev pub bad_request : ℕ
bad_request = 400

abbrev pub not_found : ℕ
not_found = 404

abbrev pub conflict : ℕ
conflict = 409

abbrev pub internal_server_error : ℕ
internal_server_error = 500

abbrev pub bad_gateway : ℕ
bad_gateway = 502

unfoldable pub deploy_status : DeployError → ℕ
deploy_status (Crud.DeployError.invalid_spec _) = bad_request
deploy_status (Crud.DeployError.already_exists _) = conflict
deploy_status (Crud.DeployError.subdomain_in_use _) = conflict
deploy_status (Crud.DeployError.image_auth _) = bad_gateway
deploy_status (Crud.DeployError.image_pull _) = bad_gateway
deploy_status (Crud.DeployError.start_failed _) = internal_server_error
deploy_status (Crud.DeployError.internal _) = internal_server_error

unfoldable pub remove_status : RemoveError → ℕ
remove_status (Crud.RemoveError.internal _) = internal_server_error

unfoldable pub update_status : UpdateError → ℕ
update_status (Crud.UpdateError.invalid_spec _) = bad_request
update_status Crud.UpdateError.name_immutable = bad_request
update_status Crud.UpdateError.subdomain_immutable = bad_request
update_status (Crud.UpdateError.conflict _) = conflict
update_status (Crud.UpdateError.restart_failed _) = internal_server_error
update_status (Crud.UpdateError.internal _) = internal_server_error

-- `RolloutError::Internal` is not in the model: nothing builds it.
unfoldable pub rollout_status : RolloutError → ℕ
rollout_status Rollout.empty_tag = bad_request
rollout_status (Rollout.conflict _) = conflict
rollout_status (Rollout.image_auth _) = bad_gateway
rollout_status (Rollout.image_pull _) = bad_gateway
rollout_status (Rollout.start_failed _) = internal_server_error

-- ===== src/Core/Host/Ledger.antt =====
-- What the recorded calls owe, by container identifier: an endpoint is owed from its allocation to
-- the next call of `release_endpoint`, a container from its start to the next call of `stop_app`; one
-- that was refused is not owed.
-- It is a ledger of calls, not of the kernel: a release or a stop settles the debt by being called,
-- also when it fails, and calls that other tasks make are not in it.
use bugpot.Base.{Bool, true, false, List, [], ◌∷◌, ◌≡◌, list_beq, if◌then◌else◌, ◌&&◌}
use bugpot.Base.Text.{Str}
use bugpot.Core.Host.{Event, allocated, released, started, stopped_app}

abbrev pub endpoint_step : Str → Event → Bool → Bool
endpoint_step cid (allocated c done) owed = if done && list_beq c cid then true else owed
endpoint_step cid (released c _) owed = if list_beq c cid then false else owed
endpoint_step cid _ owed = owed

abbrev pub container_step : Str → Event → Bool → Bool
container_step cid (started c done) owed = if done && list_beq c cid then true else owed
container_step cid (stopped_app c _) owed = if list_beq c cid then false else owed
container_step cid _ owed = owed

abbrev pub owes_endpoint : Str → List Event → Bool
owes_endpoint cid [] = false
owes_endpoint cid (e ∷ es) = endpoint_step cid e (owes_endpoint cid es)

abbrev pub owes_container : Str → List Event → Bool
owes_container cid [] = false
owes_container cid (e ∷ es) = container_step cid e (owes_container cid es)

-- Nothing is owed afterwards that was not owed before.
pub record NoDebt (before after : List Event) : Type 0 where
  pub endpoints : (cid : Str) → owes_endpoint cid after ≡ true → owes_endpoint cid before ≡ true
  pub containers : (cid : Str) → owes_container cid after ≡ true → owes_container cid before ≡ true

-- ===== src/Runtime/Container/Tests.antt =====
-- A host where every call succeeds.
use bugpot.Base.{true, none, some, List, [], ◌∷◌, ◌≡◌, refl, ok, err, list_eq, list_beq}
use bugpot.Base.Text.{codes}
use bugpot.Base.Map.{lookup}
use bugpot.Core.Tests.{demo_spec}
use bugpot.Core.Host.{app_not_found}
use bugpot.Runtime.Process.{ImageConfig}
use bugpot.Runtime.Image.{fs_component}
use bugpot.Runtime.Container.{
  Call, paused, RuntimeEnv, Runtime, delete, remove_dir, build, start_app,
}
use bugpot.Runtime.Container.Ops.{stop_app}
use bugpot.Runtime.Container.Allowed.{Extends}
use bugpot.Runtime.Container.Safety.{StartCall, start_app-Extends}

abbrev command : ImageConfig
command = record {
  entrypoint = none;
  cmd = some (codes "/bin/app" ∷ []);
  env = none;
  working_dir = none;
  user = none;
}

abbrev host : RuntimeEnv
host = record {
  answer = λ calls c. ok tt;
  exists = λ calls path. list_beq path (codes "/c/web-a");
  load = λ calls cid. ok (record { status = paused; pid = some (some 42) });
  images =
      (
        codes "sha256_ab",
        record { manifest = none; config = some (codes "{}"); rootfs = []; done = true },
      )
      ∷ [];
  from_slice = λ body. ok (some command);
  default_mounts = [];
  has_resolv_conf = true;
  passwd = none;
  group = none;
  bundles_dir = codes "/b";
  containers_dir = codes "/c";
  logs_dir = codes "/l";
  volumes_dir = codes "/v";
}

abbrev idle : Runtime
idle = record { calls = []; log_tails = [] }

start_app-Extends_example :
    Extends
      (StartCall host (codes "web-a") demo_spec.name demo_spec.volumes)
      []
      (start_app host (codes "web-a") demo_spec (codes "sha256:ab") none idle).1.calls
start_app-Extends_example =
    start_app-Extends host (codes "web-a") demo_spec none (codes "sha256:ab") idle

-- A container that is paused is no reason to refuse: its state is removed, and it is not killed.
abbrev mentions : List Call → List Call
mentions [] = []
mentions (remove_dir path ∷ calls) = remove_dir path ∷ mentions calls
mentions (build cid ∷ calls) = build cid ∷ mentions calls
mentions (_ ∷ calls) = mentions calls

starts_over_paused :
    mentions (start_app host (codes "web-a") demo_spec (codes "sha256:ab") none idle).1.calls
    ≡ build (codes "web-a") ∷ remove_dir (codes "/c/web-a") ∷ []
unfolding start_app lookup fs_component
starts_over_paused = refl

stops_paused :
    stop_app host (codes "web-a") idle
    ≡ (ok tt, record idle { calls = delete (codes "web-a") ∷ [] })
unfolding stop_app
stops_paused = refl

stops_unknown : stop_app host (codes "web-b") idle ≡ (err (app_not_found (codes "web-b")), idle)
unfolding stop_app
stops_unknown = refl

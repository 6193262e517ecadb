-- ===== src/Daemon/Tests.antt =====
-- A daemon with a token in a file, and its client.
use bugpot.Base.{
  Option, none, some, [], ◌∷◌, any, ok, err, ◌≡◌, refl, ◌&&◌, list_beq, if◌then◌else◌,
}
use bugpot.Base.Text.{Str, codes}
use bugpot.Admin.Auth.{from_token, check}
use bugpot.Daemon.Secrets.{Environment, read_from_file, read_deploy_secret}
use bugpot.Daemon.Settings.{derive_mem_pressure_thresholds}
use bugpot.Daemon.Bootstrap.{
  load_auth, init_egress, init_runtime, gc_images, init_controller, reattach_running,
  cleanup_orphans, deploy_always_on, spawn_sweep, spawn_memory_pressure, DaemonEnv, build, new_boot,
}
use bugpot.Daemon.Bootstrap.Rollback.{is_eager_start, is_teardown, failed, build-teardown}
use bugpot.Daemon.Client.{ApiConfig, Parsers, refused, delete_app, cmd_apps, resolve_token}
use bugpot.Daemon.Client.Tokens.{HeaderValues, is_visible, bearer_auth, token-accepted}

abbrev var : Str → Option Str
var name =
    if list_beq name (codes "BUGPOT_ADMIN_TOKEN_FILE")
    then some (codes "/etc/token")
    else if list_beq name (codes "BUGPOT_TRUSTED_PROXIES")
    then some (codes "bad")
    else none

abbrev environment : Environment
environment = record {
  var = var;
  require_owner_only = λ path. ok tt;
  read_to_string = λ path. ok (codes " secret\n");
}

has_token :
    read_from_file environment (codes "admin token") (codes "/etc/token") ≡ ok (codes "secret")
unfolding read_from_file
has_token = refl

-- Header values as texts, of which `to_str` gives the visible ones.
abbrev visible_texts : HeaderValues Str
visible_texts = record {
  from_str = λ s. some s;
  to_str = λ s. if is_visible s then some s else none;
  kept = λ s visible. (s, refl, rw visible refl);
}

-- A token with another character is refused.
refused_token :
    check visible_texts.to_str
      (from_token (codes "sécret"))
      (bearer_auth visible_texts (codes "sécret"))
    ≡ err 401
unfolding check from_token
refused_token = refl

token-accepted_example :
    (resolve_token
        (λ path. ok (codes " secret\n"))
        none
        (some (codes "token"))
        (codes "A")
        (codes "B")
      ≡ ok (codes "secret"))
    × (check visible_texts.to_str
          (from_token (codes "secret"))
          (bearer_auth visible_texts (codes "secret"))
        ≡ ok tt)
token-accepted_example =
    token-accepted visible_texts environment (codes "admin token") (codes "/etc/token")
      (λ path. ok (codes " secret\n")) (codes "token") (codes "A") (codes "B") has_token refl refl

abbrev daemon : DaemonEnv
daemon = record {
  answer = λ step. ok tt;
  environment = environment;
  parse_net = λ s. err (codes "bad network");
  parse_socket_addr = λ s. ok 8080;
}

build-teardown_example :
    let steps = (build daemon new_boot).1.steps in
    any is_teardown steps ≡ (any is_eager_start steps && failed (daemon.answer deploy_always_on))
build-teardown_example = build-teardown daemon

-- A bad list of proxies ends the bring-up with the apps started and two tasks running.
bad_proxies : build daemon new_boot ≡ (
  err (codes "bad network"),
  record {
    steps =
        spawn_memory_pressure ∷ spawn_sweep ∷ deploy_always_on ∷ cleanup_orphans ∷ reattach_running
        ∷ init_controller ∷ gc_images ∷ init_runtime ∷ init_egress ∷ load_auth ∷ [];
    tasks = spawn_memory_pressure ∷ spawn_sweep ∷ [];
  },
)
unfolding build
bad_proxies = refl

no_secret : read_deploy_secret environment ≡ err (codes "deploy-key secret is required")
unfolding read_deploy_secret
no_secret = refl

-- 15 and 25 percent of 1 GiB, and the caps on a large host.
small_host :
    derive_mem_pressure_thresholds (some (codes "MemFree: 12 kB\nMemTotal:  1048576 kB\n"))
    ≡ (161061273, 268435456)
unfolding derive_mem_pressure_thresholds
small_host = refl

large_host :
    derive_mem_pressure_thresholds (some (codes "MemTotal: 67108864 kB")) ≡ (1073741824, 2147483648)
unfolding derive_mem_pressure_thresholds
large_host = refl

abbrev texts : Parsers Str Str
texts = record {
  views = λ s. ok (s ∷ []);
  view = λ s. ok s;
  token = λ s. ok s;
  all_rollouts = λ s. ok (s ∷ []);
  rollout = λ s. ok s;
}

abbrev local : ApiConfig
local = record { base_url = codes "http://host"; token = codes "secret" }

refuses :
    cmd_apps texts
      (λ path. err [])
      (λ tag. tag)
      (λ req. ok (record { status = 404; text = ok (codes "no such app\n") }))
      local
      (delete_app (codes "web"))
    ≡ err (refused (codes "http://host/apps/web") 404 (codes "no such app"))
unfolding cmd_apps
refuses = refl

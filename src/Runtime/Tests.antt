-- ===== src/Runtime/Tests.antt =====
-- An image with its own variables, and users by number and by name.
use bugpot.Base.{◌≡◌, refl, none, some, [], ◌∷◌, ok, list_eq}
use bugpot.Base.Text.{Str, codes, contains}
use bugpot.Base.Map.{lookup}
use bugpot.Config.Spec.{AppSpec}
use bugpot.Core.Tests.{demo_spec}
use bugpot.Runtime.Process.{ImageConfig}
use bugpot.Runtime.Process.Laws.{IsName}
use bugpot.Runtime.User.{parse_uid_gid, resolve_user}

abbrev image : ImageConfig
image = record {
  entrypoint = none;
  cmd = some (codes "/bin/app" ∷ []);
  env = some (codes "LANG=C" ∷ codes "MODE=image" ∷ []);
  working_dir = none;
  user = none;
}

abbrev with_mode : AppSpec
with_mode = record demo_spec { env = (codes "MODE", codes "app") ∷ [] }

mode_IsName : IsName (codes "MODE")
unfolding contains
mode_IsName = refl

mode_once : lookup {V = Str} (codes "MODE") [] ≡ none
unfolding lookup
mode_once = refl

-- By name, with the primary group of `etc/passwd`.
named_user :
    parse_uid_gid
      (some (codes "root:x:0:0:root:/root:/bin/sh\napp:x:10:20::/:/bin/sh\n"))
      none
      (codes "app")
    ≡ ok (10, 20)
unfolding parse_uid_gid resolve_user
named_user = refl

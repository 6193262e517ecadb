-- ===== src/Config/Tests.antt =====
-- Accepted and refused inputs of the validators.
use bugpot.Base.{◌≡◌, refl, none, [], ◌∷◌, false}
use bugpot.Base.Text.{codes, contains}
use bugpot.Config.Spec.{AppSpec, VolumeSpec}
use bugpot.Config.Image.{AuthConfig, bearer}

abbrev demo_spec : AppSpec
demo_spec = record {
  repo = codes "ghcr.io/acme/demo";
  port = 8080;
  name = codes "demo";
  subdomain_field = none;
  egress = record { allow = [] };
  env = [];
  scaling = record { idle_timeout = none };
  readiness = record { timeout = none; path = none };
  volumes = [];
}

abbrev data_volume : VolumeSpec
data_volume = record { name = codes "data"; path = codes "/var/data"; user = none }

abbrev credentials : AuthConfig
credentials = record { registries = (codes "ghcr.io", bearer (codes "token")) ∷ [] }

no_slash : contains b'/' (codes "ghcr.io") ≡ false
unfolding contains
no_slash = refl

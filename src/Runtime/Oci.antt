-- ===== src/Runtime/Oci.antt =====
-- crates/bugpot-runtime/src/spec.rs: `build_spec`. What the builders of the `oci-spec` crate are given
-- is a record of the fields; they fail only for a missing field, and none is. The crate's default
-- mounts, and whether the host has `/etc/resolv.conf`, are arguments; the seccomp profile is not
-- modelled.
use bugpot.Base.{
  ℕ, Bool, true, Option, none, some, List, [], ◌∷◌, ◌++◌, Result, ok, ◌>>=◌, ok_or, map_err,
  if◌then◌else◌,
}
use bugpot.Base.Text.{Str, codes, is_empty}
use bugpot.Base.Lines.{to_string}
use bugpot.Config.Spec.{AppSpec, VolumeSpec}
use bugpot.Runtime.Process.{ImageConfig, derive_args, derive_env}
use bugpot.Runtime.User.{UserError, parse_user}

pub data Capability : Type 0 where
  audit_write chown dac_override fowner fsetid kill mknod : Capability
  net_bind_service net_raw setfcap setgid setpcap setuid sys_chroot : Capability

abbrev pub default_capabilities : List Capability
default_capabilities =
    audit_write ∷ chown ∷ dac_override ∷ fowner ∷ fsetid ∷ kill ∷ mknod ∷ net_bind_service ∷ net_raw
    ∷ setfcap ∷ setgid ∷ setpcap ∷ setuid ∷ sys_chroot ∷ []

pub data NamespaceType : Type 0 where
  pid ipc uts mount cgroup network : NamespaceType

pub record Namespace : Type 0 where
  pub typ : NamespaceType
  pub path : Option Str

pub record Mount : Type 0 where
  pub destination : Str
  pub source : Str
  pub options : List Str

pub record Process : Type 0 where
  pub user : ℕ × ℕ
  pub args : List Str
  pub env : List Str
  pub cwd : Str
  pub no_new_privileges : Bool
  pub bounding : List Capability
  pub effective : List Capability
  pub permitted : List Capability
  pub inheritable : List Capability
  pub ambient : List Capability

pub record Spec : Type 0 where
  pub hostname : Str
  pub root : Str
  pub process : Process
  pub namespaces : List Namespace
  pub cgroups_path : Str
  pub mounts : List Mount
  pub annotations : List (Str × Str)

pub data BuildError : Type 0 where
  no_command : (repo : Str) → BuildError
  bad_user : UserError → BuildError

-- All but the network's are new; that one joins the given path, if there is one.
unfoldable pub build_namespaces : Option Str → List Namespace
build_namespaces netns_path =
    record { typ = pid; path = none }
    ∷ record { typ = ipc; path = none }
    ∷ record { typ = uts; path = none }
    ∷ record { typ = mount; path = none }
    ∷ record { typ = cgroup; path = none }
    ∷ record { typ = network; path = netns_path }
    ∷ []

abbrev pub bind_options : Str → List Str
bind_options access = codes "rbind" ∷ access ∷ codes "nosuid" ∷ codes "nodev" ∷ []

abbrev pub resolv_conf : Mount
resolv_conf = record {
  destination = codes "/etc/resolv.conf";
  source = codes "/etc/resolv.conf";
  options = bind_options (codes "ro");
}

-- `zip`; the two lists have the same length, or the source panics.
unfoldable pub volume_mounts : List VolumeSpec → List Str → List Mount
volume_mounts (v ∷ vs) (host_path ∷ paths) =
    record { destination = v.path; source = host_path; options = bind_options (codes "rw") }
    ∷ volume_mounts vs paths
volume_mounts _ _ = []

unfoldable pub build_mounts : List Mount → Bool → AppSpec → List Str → List Mount
unfolding volume_mounts
build_mounts default_mounts has_resolv_conf spec volume_host_paths =
    default_mounts
    ++ ((if has_resolv_conf then resolv_conf ∷ [] else [])
        ++ volume_mounts spec.volumes volume_host_paths)

pub record SpecInputs : Type 0 where
  pub spec : AppSpec
  pub container_id : Str
  pub image_config : Option ImageConfig
  pub rootfs : Str
  pub netns_path : Option Str
  pub volume_host_paths : List Str

abbrev nonempty_dir : Option Str → Str
nonempty_dir none = codes "/"
nonempty_dir (some dir) = if is_empty dir then codes "/" else dir

abbrev working_dir_of : Option ImageConfig → Str
working_dir_of none = codes "/"
working_dir_of (some c) = nonempty_dir c.working_dir

abbrev user_of : Option ImageConfig → Option Str
user_of none = none
user_of (some c) = c.user

-- The image's file system: its `etc/passwd` and `etc/group`.
module _ (default_mounts : List Mount) (has_resolv_conf : Bool) (passwd group : Option Str) where
  unfoldable pub build_spec : SpecInputs → Result Spec BuildError
  unfolding derive_args derive_env parse_user build_namespaces build_mounts to_string
  build_spec inputs = do
    args ← ok_or (derive_args inputs.image_config) (no_command inputs.spec.repo)
    user ← map_err bad_user (parse_user passwd group (user_of inputs.image_config))
    ok (record {
      hostname = inputs.spec.name;
      root = inputs.rootfs;
      process = record {
        user = user;
        args = args;
        env = derive_env inputs.spec inputs.image_config;
        cwd = working_dir_of inputs.image_config;
        no_new_privileges = true;
        bounding = default_capabilities;
        effective = default_capabilities;
        permitted = default_capabilities;
        inheritable = [];
        ambient = [];
      };
      namespaces = build_namespaces inputs.netns_path;
      cgroups_path = codes "/bugpot/" ++ inputs.container_id;
      mounts = build_mounts default_mounts has_resolv_conf inputs.spec inputs.volume_host_paths;
      annotations =
          (codes "io.bugpot.app", inputs.spec.name)
          ∷ (codes "io.bugpot.port", to_string inputs.spec.port)
          ∷ (codes "io.bugpot.repo", inputs.spec.repo)
          ∷ [];
    })

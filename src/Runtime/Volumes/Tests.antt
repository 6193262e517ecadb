-- ===== src/Runtime/Volumes/Tests.antt =====
-- The files of a cgroup, and an app with two volumes on a host where an owner cannot be set.
use bugpot.Base.{true, none, some, List, [], ◌∷◌, ok, err, ◌≡◌, refl}
use bugpot.Base.Text.{Str, codes}
use bugpot.Config.Spec.{VolumeSpec}
use bugpot.Runtime.Cgroup.{parse_cgroup_v2_path, parse_cpu_usec, cgroup_path_for_pid}
use bugpot.Runtime.Volumes.{
  create_dir_all, remove_dir_all, chown, VolumesHost, io, ensure_volume_host_dirs,
}

ignores_v1 :
    parse_cgroup_v2_path (codes "13:misc:/\n12:cpuset:/\n11:cpu,cpuacct:/foo\n0::/unified/path\n")
    ≡ some (codes "/unified/path")
unfolding parse_cgroup_v2_path
ignores_v1 = refl

v1_only : parse_cgroup_v2_path (codes "1:cpu:/foo\n2:memory:/foo\n") ≡ none
unfolding parse_cgroup_v2_path
v1_only = refl

under_the_root :
    cgroup_path_for_pid (λ path. some (codes "0::/system.slice/x\n")) 42
    ≡ some (codes "/sys/fs/cgroup/system.slice/x")
unfolding cgroup_path_for_pid
under_the_root = refl

finds_usage :
    parse_cpu_usec (codes "usage_usec 123456789\nuser_usec 100000000\nsystem_usec 23456789\n")
    ≡ some 123456789
unfolding parse_cpu_usec
finds_usage = refl

no_usage : parse_cpu_usec (codes "user_usec 1\nsystem_usec 1\n") ≡ none
unfolding parse_cpu_usec
no_usage = refl

abbrev two_volumes : List VolumeSpec
two_volumes =
    record { name = codes "data"; path = codes "/data"; user = none }
    ∷ record { name = codes "logs"; path = codes "/logs"; user = some 1000 }
    ∷ []

abbrev without_owners : VolumesHost
without_owners = record {
  answer = λ before c. elim c [
    | create_dir_all path ↦ ok tt
    | remove_dir_all path ↦ ok tt
    | chown path uid gid ↦ err (codes "EPERM")
  ];
  exists = λ before path. true;
}

abbrev app_dir : Str
app_dir = codes "/volumes/web"

not_owned :
    ensure_volume_host_dirs without_owners (codes "/volumes") (codes "web") two_volumes [] ≡ (
      err (io (codes "/volumes/web/logs") (codes "EPERM")),
      chown (codes "/volumes/web/logs") 1000 1000
          ∷ create_dir_all (codes "/volumes/web/logs")
          ∷ create_dir_all (codes "/volumes/web/data")
          ∷ create_dir_all (codes "/volumes/web")
          ∷ [],
    )
unfolding ensure_volume_host_dirs
not_owned = refl

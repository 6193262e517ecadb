-- ===== src/Runtime/Seccomp.antt =====
-- crates/bugpot-runtime/src/seccomp.rs: `translate`. The parsed profile is an argument, and the
-- builders of `oci-spec`, whose required fields are all given, do not fail.
use bugpot.Base.Map.{lookup}
use bugpot.Base.{
  none, some, list_eq, nat_eq, ℕ, Option, List, [], ◌∷◌, ◌++◌, Result, ok, err, ◌>>=◌,
}
use bugpot.Base.Text.{Str, codes}
use bugpot.Core.Host.{RuntimeError, other_error}

pub data LinuxSeccompAction : Type 0 where
  errno allow kill kill_process kill_thread trap log notify : LinuxSeccompAction

pub data Arch : Type 0 where
  x86_64 aarch64 : Arch

pub record MobySyscall : Type 0 where
  pub names : List Str
  pub action : Str
  pub errno_ret : Option ℕ

pub record MobyProfile : Type 0 where
  pub default_action : Str
  pub default_errno_ret : Option ℕ
  pub syscalls : List MobySyscall

pub record LinuxSyscall : Type 0 where
  pub names : List Str
  pub action : LinuxSeccompAction
  pub errno_ret : Option ℕ

pub record LinuxSeccomp : Type 0 where
  pub default_action : LinuxSeccompAction
  pub default_errno_ret : Option ℕ
  pub architectures : List Arch
  pub syscalls : List LinuxSyscall

-- The names of the actions.
abbrev actions : List (Str × LinuxSeccompAction)
actions =
    (codes "SCMP_ACT_ERRNO", errno)
    ∷ (codes "SCMP_ACT_ALLOW", allow)
    ∷ (codes "SCMP_ACT_KILL", kill)
    ∷ (codes "SCMP_ACT_KILL_PROCESS", kill_process)
    ∷ (codes "SCMP_ACT_KILL_THREAD", kill_thread)
    ∷ (codes "SCMP_ACT_TRAP", trap)
    ∷ (codes "SCMP_ACT_LOG", log)
    ∷ (codes "SCMP_ACT_NOTIFY", notify)
    ∷ []

abbrev known_action : Str → Option LinuxSeccompAction → Result LinuxSeccompAction RuntimeError
known_action s none = err (other_error (codes "unknown seccomp action " ++ s))
known_action s (some action) = ok action

unfoldable parse_action : Str → Result LinuxSeccompAction RuntimeError
unfolding lookup
parse_action s = known_action s (lookup s actions)

unfoldable translate_rules : List MobySyscall → Result (List LinuxSyscall) RuntimeError
unfolding parse_action
translate_rules [] = ok []
translate_rules (rule ∷ rules) = do
  action ← parse_action rule.action
  rest ← translate_rules rules
  ok (record { names = rule.names; action = action; errno_ret = rule.errno_ret } ∷ rest)

unfoldable translate : MobyProfile → Result LinuxSeccomp RuntimeError
unfolding parse_action translate_rules
translate p = do
  default_action ← parse_action p.default_action
  syscalls ← translate_rules p.syscalls
  ok (record {
    default_action = default_action;
    default_errno_ret = p.default_errno_ret;
    architectures = x86_64 ∷ aarch64 ∷ [];
    syscalls = syscalls;
  })

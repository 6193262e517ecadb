-- ===== src/Runtime/Cgroup.antt =====
-- crates/bugpot-runtime/src/cgroup_stats.rs: where a process's cgroup is, and its memory and CPU
-- time. Reading a file is a parameter; a path is a text.
use bugpot.Base.{◌^◌, Option, none, some, List, [], ◌∷◌, ◌++◌, ◌==◌, ℕ, ℕ, ℕ, ℕ, ℕ}
use bugpot.Base.Text.{Str, codes, strip_prefix, trim, trim_start}
use bugpot.Base.Lines.{lines, parse_unsigned, to_string}

-- The rest of the first line that has the prefix.
unfoldable pub first_with_prefix : Str → List Str → Option Str
unfolding strip_prefix
first_with_prefix p [] = none
first_with_prefix p (line ∷ ls) = elim (strip_prefix p line) [
  | some rest ↦ some rest
  | none ↦ first_with_prefix p ls
]

unfoldable pub parse_cgroup_v2_path : Str → Option Str
unfolding first_with_prefix lines
parse_cgroup_v2_path s = first_with_prefix (codes "0::") (lines s)

-- `trim().parse::<u64>().ok()`.
abbrev parse_u64 : Str → Option ℕ
parse_u64 s = parse_unsigned (2 ^ 64) (trim s)

unfoldable pub parse_cpu_usec : Str → Option ℕ
unfolding first_with_prefix lines trim parse_unsigned
parse_cpu_usec stat_content = elim (first_with_prefix (codes "usage_usec ") (lines stat_content)) [
  | none ↦ none
  | some rest ↦ parse_u64 rest
]

abbrev under_root : Str → Str
under_root [] = codes "/sys/fs/cgroup"
under_root (c ∷ rel) = codes "/sys/fs/cgroup/" ++ c ∷ rel

abbrev map_option : {A B : Type 0} → (A → B) → Option A → Option B
map_option f none = none
map_option f (some x) = some (f x)

module _ (read_to_string : Str → Option Str) where
  abbrev read_with : {A : Type 0} → (Str → Option A) → Option Str → Option A
  read_with parse none = none
  read_with parse (some text) = parse text

  unfoldable pub cgroup_path_for_pid : ℕ → Option Str
  unfolding parse_cgroup_v2_path trim_start to_string
  cgroup_path_for_pid pid =
      map_option (λ rel. under_root (trim_start (λ c. c == b'/') rel))
        (read_with parse_cgroup_v2_path
          (read_to_string (codes "/proc/" ++ to_string pid ++ codes "/cgroup")))

  unfoldable pub read_memory_bytes : Str → Option ℕ
  unfolding trim parse_unsigned
  read_memory_bytes cgroup =
      read_with parse_u64 (read_to_string (cgroup ++ codes "/memory.current"))

  unfoldable pub read_cpu_usec : Str → Option ℕ
  unfolding parse_cpu_usec
  read_cpu_usec cgroup = read_with parse_cpu_usec (read_to_string (cgroup ++ codes "/cpu.stat"))

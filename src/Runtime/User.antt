-- ===== src/Runtime/User.antt =====
-- crates/bugpot-runtime/src/spec.rs: the user and the group that the process runs as. The contents of
-- the root file system's `etc/passwd` and `etc/group` are arguments, `none` where they cannot be read.
pub mod Laws
use bugpot.Base.{
  ℕ, Bool, true, false, Option, none, some, List, [], ◌∷◌, ◌++◌, Result, ok, err, ◌>>=◌, ok_or,
  ◌||◌, list_beq, ◌^◌, if◌then◌else◌,
}
use bugpot.Base.Text.{Str, codes, trim, split, is_empty}
use bugpot.Base.Lines.{lines, split_once, parse_unsigned}

pub data UserError : Type 0 where
  passwd_unreadable malformed_uid user_not_found : Str → UserError
  group_unreadable malformed_gid group_not_found : Str → UserError

abbrev pub parse_u32 : Str → Option ℕ
parse_u32 s = parse_unsigned (2 ^ 32) s

-- A line of `etc/passwd`: the fields 0, 2 and 3, if it has these.
abbrev pub passwd_fields : List Str → Option (Str × (Str × Str))
passwd_fields (name ∷ _ ∷ uid ∷ gid ∷ _) = some (name, (uid, gid))
passwd_fields _ = none

-- A line of `etc/group`: the fields 0 and 2.
abbrev pub group_fields : List Str → Option (Str × Str)
group_fields (name ∷ _ ∷ gid ∷ _) = some (name, gid)
group_fields _ = none

abbrev user_of_line :
    Str
    → Option (Str × (Str × Str))
    → Result (ℕ × Option ℕ) UserError
    → Result (ℕ × Option ℕ) UserError
user_of_line s none rest = rest
user_of_line s (some (name, (uid, gid))) rest =
    if list_beq name s
    then (ok_or (parse_u32 uid) (malformed_uid s) >>= λ id. ok (id, parse_u32 gid))
    else rest

unfoldable pub find_user : Str → List Str → Result (ℕ × Option ℕ) UserError
unfolding split parse_unsigned
find_user s [] = err (user_not_found s)
find_user s (l ∷ ls) = user_of_line s (passwd_fields (split b':' l)) (find_user s ls)

abbrev group_of_line : Str → Option (Str × Str) → Result ℕ UserError → Result ℕ UserError
group_of_line s none rest = rest
group_of_line s (some (name, gid)) rest =
    if list_beq name s then ok_or (parse_u32 gid) (malformed_gid s) else rest

unfoldable pub find_group : Str → List Str → Result ℕ UserError
unfolding split parse_unsigned
find_group s [] = err (group_not_found s)
find_group s (l ∷ ls) = group_of_line s (group_fields (split b':' l)) (find_group s ls)

abbrev user_in : Str → Option Str → Option ℕ → Result (ℕ × Option ℕ) UserError
user_in s passwd (some uid) = ok (uid, none)
user_in s none none = err (passwd_unreadable s)
user_in s (some content) none = find_user s (lines content)

-- The primary group is there only for a user that was given by name.
unfoldable pub resolve_user : Option Str → Str → Result (ℕ × Option ℕ) UserError
unfolding parse_unsigned find_user lines
resolve_user passwd s = user_in s passwd (parse_u32 s)

abbrev group_in : Str → Option Str → Option ℕ → Result ℕ UserError
group_in s group (some gid) = ok gid
group_in s none none = err (group_unreadable s)
group_in s (some content) none = find_group s (lines content)

unfoldable pub resolve_group : Option Str → Str → Result ℕ UserError
unfolding parse_unsigned find_group lines
resolve_group group s = group_in s group (parse_u32 s)

abbrev or_zero : Option ℕ → ℕ
or_zero none = 0
or_zero (some gid) = gid

-- The two parts of `splitn(2, ':')`.
abbrev pub parts : Str → Option (Str × Str) → Str × Option Str
parts s none = (s, none)
parts s (some (user, group)) = (user, some group)

module _ (passwd group : Option Str) where
  abbrev gid_of : Option Str → Option ℕ → Result ℕ UserError
  gid_of (some g) primary_gid = resolve_group group g
  gid_of none primary_gid = ok (or_zero primary_gid)

  unfoldable pub parse_uid_gid : Str → Result (ℕ × ℕ) UserError
  unfolding resolve_user resolve_group split_once
  parse_uid_gid raw =
      let (user_part, group_part) = parts raw (split_once b':' raw) in
      (do user ← resolve_user passwd user_part; gid ← gid_of group_part user.1; ok (user.0, gid))

  abbrev is_root : Str → Bool
  is_root s =
      is_empty s || list_beq s (codes "root") || list_beq s (codes "0") || list_beq s (codes "0:0")

  abbrev raw_of : Option Str → Str
  raw_of none = []
  raw_of (some s) = s

  unfoldable pub parse_user : Option Str → Result (ℕ × ℕ) UserError
  unfolding trim parse_uid_gid
  parse_user raw =
      let trimmed = trim (raw_of raw) in
      if is_root trimmed then ok (0, 0) else parse_uid_gid trimmed

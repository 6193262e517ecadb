-- ===== src/Egress/Allowlist.antt =====
-- crates/bugpot-egress/src/allowlist.rs. The parsers of addresses and CIDR blocks, of `std` and
-- `ipnet`, are parameters. Names are compared by their UTF-8 bytes.
pub mod Laws
use mathlib.Core.Option
use bugpot.Base.{
  ℕ, Bool, true, false, Option, none, some, List, [], ◌∷◌, Result, ok, err, ◌>>=◌, ◌>>◌, ◌==◌, ltb,
  ◌&&◌, ◌||◌, ◌-◌, if◌then◌else◌, length, all, any, list_beq, ok_or, zero, suc,
}
use bugpot.Base.Text.{
  Str, bytes, contains, trim, trim_end, is_empty, strip_prefix, to_ascii_lowercase, is_lowercase,
  is_uppercase, is_digit, ends_with,
}
use bugpot.Egress.Allocator.{Ipv4Net}

pub data Rule : Type 0 where
  domain wildcard : Str → Rule
  cidr : Ipv4Net → Rule

pub data ParseError : Type 0 where
  bad_cidr empty_wildcard unsupported : (entry : Str) → ParseError

abbrev get_elem? : List ℕ → ℕ → Option ℕ
get_elem? [] i = none
get_elem? (x ∷ xs) zero = some x
get_elem? (x ∷ xs) (suc i) = get_elem? xs i

abbrev is_dot : Option ℕ → Bool
is_dot none = false
is_dot (some c) = c == b'.'

-- The lengths and the index count bytes.
unfoldable pub is_subdomain_of : List ℕ → List ℕ → Bool
unfolding ends_with
is_subdomain_of parent name =
    ltb (length parent) (length name)
    && ends_with parent name
    && is_dot (get_elem? name (length name - length parent - 1))

unfoldable pub is_domain_char : ℕ → Bool
unfolding is_lowercase is_uppercase is_digit
is_domain_char c =
    is_lowercase c || is_uppercase c || is_digit c || c == b'.' || c == b'-' || c == b'_'

unfoldable pub normalise_name : Str → Str
unfolding trim_end to_ascii_lowercase
normalise_name s = to_ascii_lowercase (trim_end (λ c. c == b'.') s)

-- What `matches_domain` and `matches_ip` ask of one rule.
abbrev pub domain_rule : Str → Rule → Bool
domain_rule name (domain d) = list_beq name d || is_subdomain_of (bytes d) (bytes name)
domain_rule name (wildcard d) = is_subdomain_of (bytes d) (bytes name)
domain_rule name (cidr net) = false

abbrev pub ip_rule : ℕ → Rule → Bool
ip_rule ip (cidr net) = net.contains ip
ip_rule ip _ = false

unfoldable pub matches_domain : List Rule → Str → Bool
unfolding normalise_name
matches_domain rules name = any (domain_rule (normalise_name name)) rules

unfoldable pub matches_ip : List Rule → ℕ → Bool
matches_ip rules ip = any (ip_rule ip) rules

module _ (parse_net : Str → Option Ipv4Net) (parse_addr : Str → Option Ipv4Net) where
  -- An entry that is not an address: a wildcard or a domain.
  abbrev named_rule : Str → Option Str → Result Rule ParseError
  named_rule s (some rest) =
      let d = normalise_name rest in if is_empty d then err (empty_wildcard s) else ok (wildcard d)
  named_rule s none =
      if all is_domain_char s then ok (domain (normalise_name s)) else err (unsupported s)

  -- `parse_addr` gives the `/32` of an address.
  unfoldable pub parse_rule : Str → Result Rule ParseError
  unfolding normalise_name strip_prefix contains
  parse_rule s =
      if contains b'/' s
      then ok_or (Option.map cidr (parse_net s)) (bad_cidr s)
      else elim (parse_addr s) [
        | some net ↦ ok (cidr net)
        | none ↦ named_rule s (strip_prefix (b'*' ∷ b'.' ∷ []) s)
      ]

  unfoldable pub parse : List Str → Result (List Rule) ParseError
  unfolding parse_rule trim
  parse [] = ok []
  parse (raw ∷ rest) =
      let entry = trim raw in
      let others = parse rest in
      if is_empty entry
      then others
      else do rule ← parse_rule entry; rules ← others; ok (rule ∷ rules)

-- ===== src/Daemon/Settings.antt =====
-- cmd/bugpotd/src/config.rs, and the thresholds of cmd/bugpotd/src/bootstrap.rs. A socket address is
-- its number and a network is what it contains; their parsers are parameters.
use bugpot.Base.{
  ℕ, Option, none, some, List, [], ◌∷◌, Result, ok, ◌>>=◌, ◌>>◌, if◌then◌else◌, leb, ◌*◌, ◌/◌, ◌%◌,
  ◌^◌,
}
use bugpot.Base.Text.{Str, codes, split, trim, is_empty, strip_prefix}
use bugpot.Base.Lines.{lines, first_word, parse_unsigned}
use bugpot.Egress.Allocator.{Ipv4Net}
use bugpot.Egress.Setup.{EgressConfig, validate, parse_dns_upstream}

pub record Config : Type 0 where
  pub listen : ℕ
  pub admin_listen : ℕ
  pub egress : EgressConfig

abbrev or_default : Str → Option Str → Str
or_default default none = default
or_default default (some raw) = raw

module _ (var : Str → Option Str) (parse_socket_addr : Str → Result ℕ Str) where
  abbrev upstreams_of : EgressConfig → Option Str → Result EgressConfig Str
  upstreams_of default none = ok default
  upstreams_of default (some raw) = do
    addrs ← parse_dns_upstream parse_socket_addr raw
    ok (record { dns_upstream = addrs })

  -- `default` is `EgressConfig::default`.
  unfoldable parse_egress_config : EgressConfig → Result EgressConfig Str
  unfolding validate parse_dns_upstream
  parse_egress_config default = do
    c ← upstreams_of default (var (codes "BUGPOT_EGRESS_DNS_UPSTREAM"))
    validate c
    ok c

  unfoldable pub from_env : EgressConfig → Result Config Str
  unfolding parse_egress_config
  from_env default = do
    listen ← parse_socket_addr (or_default (codes "127.0.0.1:8080") (var (codes "BUGPOT_LISTEN")))
    admin_listen ←
        parse_socket_addr (or_default (codes "127.0.0.1:8081") (var (codes "BUGPOT_ADMIN_LISTEN")))
    egress ← parse_egress_config default
    ok (record { listen = listen; admin_listen = admin_listen; egress = egress })

module _ (var : Str → Option Str) (parse_net : Str → Result Ipv4Net Str) where
  unfoldable parse_tokens : List Str → Result (List Ipv4Net) Str
  unfolding trim
  parse_tokens [] = ok []
  parse_tokens (token ∷ tokens) =
      let rest = parse_tokens tokens in
      if is_empty (trim token)
      then rest
      else do net ← parse_net (trim token); nets ← rest; ok (net ∷ nets)

  abbrev proxies_of : Option Str → Result (List Ipv4Net) Str
  proxies_of none = ok []
  proxies_of (some raw) = parse_tokens (split b',' raw)

  -- The trusted proxies of `parse_router_config`; the default has none.
  unfoldable pub parse_router_config : Result (List Ipv4Net) Str
  unfolding parse_tokens split
  parse_router_config = proxies_of (var (codes "BUGPOT_TRUSTED_PROXIES"))

abbrev min : ℕ → ℕ → ℕ
min a b = if leb a b then a else b

abbrev gib : ℕ
gib = 1024 * 1024 * 1024

abbrev mem_pressure_lo_cap : ℕ
mem_pressure_lo_cap = gib

abbrev mem_pressure_hi_cap : ℕ
mem_pressure_hi_cap = 2 * gib

abbrev mem_total_fallback : ℕ
mem_total_fallback = gib

abbrev kb_of : Option Str → Option ℕ
kb_of none = none
kb_of (some word) = parse_unsigned (2 ^ 64) word

abbrev bytes_of : Option ℕ → Option ℕ
bytes_of none = none
bytes_of (some kb) = some (kb * 1024 % 2 ^ 64)

abbrev total_of : Option Str → Option ℕ → Option ℕ
total_of none rest = rest
total_of (some field) rest = bytes_of (kb_of (first_word field))

unfoldable mem_total : List Str → Option ℕ
unfolding strip_prefix first_word parse_unsigned
mem_total [] = none
mem_total (l ∷ ls) = total_of (strip_prefix (codes "MemTotal:") l) (mem_total ls)

-- `meminfo` is the text of `/proc/meminfo`, when it can be read.
abbrev read_mem_total : Option Str → Option ℕ
read_mem_total none = none
read_mem_total (some meminfo) = mem_total (lines meminfo)

-- The 64-bit products wrap.
unfoldable thresholds : ℕ → ℕ × ℕ
thresholds total = (
  min (total * 15 % 2 ^ 64 / 100) mem_pressure_lo_cap,
  min (total * 25 % 2 ^ 64 / 100) mem_pressure_hi_cap,
)

abbrev or_fallback : Option ℕ → ℕ
or_fallback none = mem_total_fallback
or_fallback (some total) = total

unfoldable pub derive_mem_pressure_thresholds : Option Str → ℕ × ℕ
unfolding thresholds mem_total lines
derive_mem_pressure_thresholds meminfo = thresholds (or_fallback (read_mem_total meminfo))

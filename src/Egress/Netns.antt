-- ===== src/Egress/Netns.antt =====
-- crates/bugpot-egress/src/netns.rs: the names of an app's network interfaces, the `ip` commands that
-- make and remove them, and what is read back from `ip`. Addresses are texts where they are printed.
pub mod Names
use Prim.Native.Nat.{bit_xor}
use bugpot.Base.{
  ℕ, zero, suc, Bool, true, false, Option, none, some, List, [], ◌∷◌, ◌++◌, ◌+◌, ◌-◌, ◌*◌, ◌/◌, ◌%◌,
  ◌^◌, ltb, if◌then◌else◌,
}
use bugpot.Base.Text.{Str, codes, bytes, strip_prefix, trim_start, is_whitespace}
use bugpot.Base.Lines.{lines, first_word, split_once, to_string}

abbrev pub ns_prefix : Str
ns_prefix = codes "bugpot-"

-- FNV-1a on 64 bits.
abbrev pub fnv_offset : ℕ
fnv_offset = 0xcbf29ce484222325

abbrev pub fnv_prime : ℕ
fnv_prime = 0x100000001b3

unfoldable pub fnv : ℕ → List ℕ → ℕ
fnv h [] = h
fnv h (b ∷ bs) = fnv (bit_xor h b * fnv_prime % 2 ^ 64) bs

abbrev pub hex_digit : ℕ → ℕ
hex_digit d = if ltb d 10 then b'0' + d else b'a' + (d - 10)

-- `{n:016x}` has the 16 last digits, which are all of a 64-bit number.
unfoldable pub hex_digits : ℕ → ℕ → Str
hex_digits zero n = []
hex_digits (suc width) n = hex_digits width (n / 16) ++ hex_digit (n % 16) ∷ []

unfoldable pub take : ℕ → Str → Str
take zero s = []
take (suc n) [] = []
take (suc n) (c ∷ s) = c ∷ take n s

unfoldable pub short_name : Str → Str
unfolding fnv hex_digits take bytes
short_name name = take 12 (hex_digits 16 (fnv fnv_offset (bytes name)))

pub record EndpointLayout : Type 0 where
  pub host_veth : Str
  pub ns_veth : Str
  pub ns_name : Str
  pub ns_path : Str
  pub container_ip : Str
  pub subnet_prefix : ℕ

unfoldable pub layout : Str → Str → ℕ → EndpointLayout
layout name container_ip prefix_len = record {
  host_veth = codes "vh-" ++ short_name name;
  ns_veth = codes "eth0";
  ns_name = ns_prefix ++ name;
  ns_path = codes "/var/run/netns/" ++ (ns_prefix ++ name);
  container_ip = container_ip;
  subnet_prefix = prefix_len;
}

abbrev named_peer : Option Str → Option Str
named_peer none = none
named_peer (some short) = some (codes "vc-" ++ short)

-- `none` is the panic of `expect`.
unfoldable pub tmp_peer_name : Str → Option Str
unfolding strip_prefix
tmp_peer_name host_veth = named_peer (strip_prefix (codes "vh-") host_veth)

abbrev pub IpCmd : Type 0
IpCmd = List Str

unfoldable pub render_setup_bridge : Str → Str → ℕ → List IpCmd
unfolding to_string
render_setup_bridge bridge bridge_ip prefix_len =
    (codes "ip" ∷ codes "link" ∷ codes "add" ∷ bridge ∷ codes "type" ∷ codes "bridge" ∷ [])
    ∷ (codes "ip"
        ∷ codes "addr"
        ∷ codes "add"
        ∷ (bridge_ip ++ b'/' ∷ to_string prefix_len)
        ∷ codes "dev"
        ∷ bridge
        ∷ [])
    ∷ (codes "ip" ∷ codes "link" ∷ codes "set" ∷ bridge ∷ codes "up" ∷ [])
    ∷ (codes "sysctl" ∷ codes "-w" ∷ codes "net.ipv4.ip_forward=1" ∷ [])
    ∷ []

abbrev attach_commands : Str → EndpointLayout → Str → List IpCmd
attach_commands bridge plan tmp =
    (codes "ip" ∷ codes "netns" ∷ codes "add" ∷ plan.ns_name ∷ [])
    ∷ (codes "ip"
        ∷ codes "link"
        ∷ codes "add"
        ∷ plan.host_veth
        ∷ codes "type"
        ∷ codes "veth"
        ∷ codes "peer"
        ∷ codes "name"
        ∷ tmp
        ∷ [])
    ∷ (codes "ip" ∷ codes "link" ∷ codes "set" ∷ plan.host_veth ∷ codes "master" ∷ bridge ∷ [])
    ∷ (codes "ip" ∷ codes "link" ∷ codes "set" ∷ plan.host_veth ∷ codes "up" ∷ [])
    ∷ (codes "ip" ∷ codes "link" ∷ codes "set" ∷ tmp ∷ codes "netns" ∷ plan.ns_name ∷ [])
    ∷ (codes "ip"
        ∷ codes "-n"
        ∷ plan.ns_name
        ∷ codes "link"
        ∷ codes "set"
        ∷ tmp
        ∷ codes "name"
        ∷ plan.ns_veth
        ∷ [])
    ∷ (codes "ip"
        ∷ codes "-n"
        ∷ plan.ns_name
        ∷ codes "addr"
        ∷ codes "add"
        ∷ (plan.container_ip ++ b'/' ∷ to_string plan.subnet_prefix)
        ∷ codes "dev"
        ∷ plan.ns_veth
        ∷ [])
    ∷ (codes "ip"
        ∷ codes "-n"
        ∷ plan.ns_name
        ∷ codes "link"
        ∷ codes "set"
        ∷ plan.ns_veth
        ∷ codes "up"
        ∷ [])
    ∷ (codes "ip"
        ∷ codes "-n"
        ∷ plan.ns_name
        ∷ codes "link"
        ∷ codes "set"
        ∷ codes "lo"
        ∷ codes "up"
        ∷ [])
    ∷ []

abbrev attach_named : Str → EndpointLayout → Option Str → Option (List IpCmd)
attach_named bridge plan none = none
attach_named bridge plan (some tmp) = some (attach_commands bridge plan tmp)

unfoldable pub render_attach_endpoint : Str → EndpointLayout → Option (List IpCmd)
render_attach_endpoint bridge plan = attach_named bridge plan (tmp_peer_name plan.host_veth)

unfoldable pub render_detach_endpoint : EndpointLayout → List IpCmd
render_detach_endpoint plan =
    (codes "ip" ∷ codes "link" ∷ codes "del" ∷ plan.host_veth ∷ [])
    ∷ (codes "ip" ∷ codes "netns" ∷ codes "del" ∷ plan.ns_name ∷ [])
    ∷ []

abbrev app_of : Option Str → Option Str
app_of none = none
app_of (some word) = strip_prefix ns_prefix word

abbrev cons_some : Option Str → List Str → List Str
cons_some none names = names
cons_some (some name) names = name ∷ names

-- The first word of each line, where it has the prefix.
unfoldable pub app_namespaces : List Str → List Str
unfolding first_word strip_prefix
app_namespaces [] = []
app_namespaces (l ∷ ls) = cons_some (app_of (first_word l)) (app_namespaces ls)

unfoldable pub parse_app_namespaces : Str → List Str
unfolding lines app_namespaces
parse_app_namespaces s = app_namespaces (lines s)

-- The address of a line `inet <address>/<prefix> ..`, with `parse::<Ipv4Addr>()`.
module _ (parse_addr : Str → Option ℕ) where
  abbrev addr_of_pair : Option (Str × Str) → Option ℕ
  addr_of_pair none = none
  addr_of_pair (some (ip, _)) = parse_addr ip

  abbrev addr_of_word : Option Str → Option ℕ
  addr_of_word none = none
  addr_of_word (some cidr) = addr_of_pair (split_once b'/' cidr)

  abbrev addr_of_rest : Option Str → Option ℕ
  addr_of_rest none = none
  addr_of_rest (some rest) = addr_of_word (first_word rest)

  abbrev first_some : Option ℕ → Option ℕ → Option ℕ
  first_some (some ip) _ = some ip
  first_some none rest = rest

  unfoldable pub inet_addr : List Str → Option ℕ
  unfolding trim_start is_whitespace strip_prefix first_word split_once
  inet_addr [] = none
  inet_addr (l ∷ ls) =
      first_some (addr_of_rest (strip_prefix (codes "inet ") (trim_start is_whitespace l)))
        (inet_addr ls)

  unfoldable pub parse_inet_addr : Str → Option ℕ
  unfolding lines inet_addr
  parse_inet_addr s = inet_addr (lines s)

-- ===== src/Egress/Nft.antt =====
-- crates/bugpot-egress/src/nft.rs: the scripts for `nft`, and the pairs read back from its allow set.
-- The runs of `nft` and the parsers of its JSON output and of addresses are parameters; the network
-- is the text that it is printed as.
pub mod Flush
pub mod Tests
use bugpot.Base.{
  ℕ, Option, none, some, List, [], ◌∷◌, ◌++◌, ◌/◌, ◌%◌, ◌^◌, ◌==◌, if◌then◌else◌, Result, ok,
}
use bugpot.Base.{◌>>=◌}
use bugpot.Base.Text.{Str, codes}
use bugpot.Base.Lines.{to_string}

-- `{ip}` of an `Ipv4Addr`.
unfoldable pub display_ip : ℕ → Str
unfolding to_string
display_ip ip =
    to_string (ip / 2 ^ 24 % 256)
    ++ b'.' ∷ to_string (ip / 2 ^ 16 % 256)
    ++ b'.' ∷ to_string (ip / 2 ^ 8 % 256)
    ++ b'.' ∷ to_string (ip % 256)

-- `writeln!` of the parts of a line.
unfoldable pub writeln : Str → List Str → Str
writeln out [] = out ++ 10 ∷ []
writeln out (part ∷ parts) = writeln (out ++ part) parts

pub record NftConfig : Type 0 where
  pub table : Str
  pub bridge : Str
  pub subnet : Str
  pub bridge_ip : ℕ
  pub dns_port : ℕ
  pub allow_ttl_secs : ℕ

unfoldable pub render_table_and_set : Str → NftConfig → Str
unfolding writeln to_string
render_table_and_set out cfg =
    let out = writeln out (codes "add table inet " ∷ cfg.table ∷ []) in
    let out = writeln out (codes "delete table inet " ∷ cfg.table ∷ []) in
    let out = writeln out (codes "add table inet " ∷ cfg.table ∷ []) in
    writeln out (
      codes "add set inet "
      ∷ cfg.table
      ∷ codes " allow4 { type ipv4_addr . ipv4_addr; flags timeout; timeout "
      ∷ to_string cfg.allow_ttl_secs
      ∷ codes "s; }"
      ∷ [])

unfoldable pub render_forward_chain : Str → NftConfig → Str
unfolding writeln
render_forward_chain out cfg =
    let rule = codes "add rule inet " ++ cfg.table ++ codes " forward " in
    let out = writeln out (
      codes "add chain inet "
      ∷ cfg.table
      ∷ codes " forward { type filter hook forward priority filter; policy drop; }"
      ∷ []) in
    let out = writeln out (rule ∷ codes "ct state established,related accept" ∷ []) in
    let out =
      writeln out
        (rule ∷ codes "ip saddr " ∷ cfg.subnet ∷ codes " udp dport { 53, 853 } drop" ∷ []) in
    let out =
      writeln out
        (rule ∷ codes "ip saddr " ∷ cfg.subnet ∷ codes " tcp dport { 53, 853 } drop" ∷ []) in
    let out = writeln out (rule ∷ codes "ip saddr . ip daddr @allow4 accept" ∷ []) in
    writeln out
      (rule ∷ codes "ip saddr " ∷ cfg.subnet ∷ codes " log prefix \"bugpot-drop \" drop" ∷ [])

unfoldable pub render_input_chain : Str → NftConfig → Str
unfolding writeln display_ip to_string
render_input_chain out cfg =
    let rule = codes "add rule inet " ++ cfg.table ++ codes " input iifname \"" ++ cfg.bridge in
    let dns = to_string cfg.dns_port in
    let out = writeln out (
      codes "add chain inet "
      ∷ cfg.table
      ∷ codes " input { type filter hook input priority filter; policy accept; }"
      ∷ []) in
    let out = writeln out (rule ∷ codes "\" ct state established,related accept" ∷ []) in
    let to_bridge = rule ++ codes "\" ip daddr " ++ display_ip cfg.bridge_ip in
    let out = writeln out (to_bridge ∷ codes " udp dport " ∷ dns ∷ codes " accept" ∷ []) in
    let out = writeln out (to_bridge ∷ codes " tcp dport " ∷ dns ∷ codes " accept" ∷ []) in
    writeln out (rule ∷ codes "\" ip saddr " ∷ cfg.subnet ∷ codes " drop" ∷ [])

unfoldable pub render_bootstrap : NftConfig → Str
unfolding render_table_and_set render_forward_chain render_input_chain
render_bootstrap cfg =
    render_input_chain (render_forward_chain (render_table_and_set [] cfg) cfg) cfg

-- `allow4 {{ {src} . {dst} }}`.
abbrev element : Str → ℕ → ℕ → Str
element table src dst =
    codes " element inet "
    ++ table
    ++ codes " allow4 { "
    ++ display_ip src
    ++ codes " . "
    ++ display_ip dst
    ++ codes " }"

unfoldable pub render_add_allow : Str → ℕ → ℕ → Str
unfolding display_ip
render_add_allow table src dst = codes "add" ++ element table src dst

pub record NftElemVal : Type 0 where
  pub concat : List Str

pub record NftElem : Type 0 where
  pub val : NftElemVal

pub record NftElemEntry : Type 0 where
  pub elem : NftElem

pub record NftSet : Type 0 where
  pub elem : List NftElemEntry

pub record NftListBlock : Type 0 where
  pub set : Option NftSet

pub record NftListOutput : Type 0 where
  pub nftables : List NftListBlock

-- `nft` itself, and the two parsers of its output.
pub record Nft : Type 0 where
  pub list_set : (table : Str) → Result Str Str
  pub from_slice : Str → Result NftListOutput Str
  pub parse_addr : Str → Option ℕ
  pub run_script : Str → Result (Unit {0}) Str

module _ (nft : Nft) where
  abbrev pair_of : Option ℕ → Option ℕ → List (ℕ × ℕ)
  pair_of (some src) (some dst) = (src, dst) ∷ []
  pair_of (some src) none = []
  pair_of none _ = []

  abbrev entry_pairs : List Str → List (ℕ × ℕ)
  entry_pairs [] = []
  entry_pairs (_ ∷ []) = []
  entry_pairs (s ∷ d ∷ _) = pair_of (nft.parse_addr s) (nft.parse_addr d)

  unfoldable pub set_pairs : List NftElemEntry → List (ℕ × ℕ)
  set_pairs [] = []
  set_pairs (entry ∷ entries) = entry_pairs entry.elem.val.concat ++ set_pairs entries

  abbrev block_pairs : Option NftSet → List (ℕ × ℕ)
  block_pairs none = []
  block_pairs (some set) = set_pairs set.elem

  unfoldable pub pairs_of : List NftListBlock → List (ℕ × ℕ)
  unfolding set_pairs
  pairs_of [] = []
  pairs_of (block ∷ blocks) = block_pairs block.set ++ pairs_of blocks

  unfoldable pub list_allow_set : Str → Result (List (ℕ × ℕ)) Str
  unfolding pairs_of
  list_allow_set table = do
    stdout ← nft.list_set table
    parsed ← nft.from_slice stdout
    ok (pairs_of parsed.nftables)

  -- The script that deletes the pairs of a source.
  unfoldable pub delete_script : Str → ℕ → Str → List (ℕ × ℕ) → Str
  unfolding writeln display_ip
  delete_script table src script [] = script
  delete_script table src script ((s, d) ∷ entries) =
      if s == src
      then delete_script table src (writeln script (codes "delete" ∷ element table s d ∷ []))
          entries
      else delete_script table src script entries

  abbrev run_unless_empty : Str → Result (Unit {0}) Str
  run_unless_empty [] = ok tt
  run_unless_empty (c ∷ script) = nft.run_script (c ∷ script)

  unfoldable pub flush_src : Str → ℕ → Result (Unit {0}) Str
  unfolding list_allow_set delete_script
  flush_src table src = do
    entries ← list_allow_set table
    run_unless_empty (delete_script table src [] entries)

  unfoldable pub add_allow : Str → ℕ → ℕ → Result (Unit {0}) Str
  unfolding render_add_allow
  add_allow table src dst = nft.run_script (render_add_allow table src dst)

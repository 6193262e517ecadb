-- ===== src/Egress/Nft/Tests.antt =====
-- A bridge, and an allow set of three pairs.
use bugpot.Base.{true, none, some, [], ◌∷◌, ok, err, ◌≡◌, refl, ◌>>=◌}
use bugpot.Base.Lines.{decimal_digits}
use bugpot.Base.Text.{Str, codes, contains_str}
use bugpot.Egress.Nft.{
  NftConfig, Nft, NftElemEntry, render_bootstrap, render_add_allow, list_allow_set, flush_src,
}
use bugpot.Egress.Nft.Flush.{destinations, run_unless_none, flush_src_lem}

abbrev cfg : NftConfig
cfg = record {
  table = codes "bugpot";
  bridge = codes "bugpot0";
  subnet = codes "172.20.0.0/24";
  bridge_ip = 0xac140001;
  dns_port = 5353;
  allow_ttl_secs = 60;
}

drops_by_default :
    contains_str (codes "hook forward priority filter; policy drop") (render_bootstrap cfg) ≡ true
unfolding render_bootstrap contains_str decimal_digits
drops_by_default = refl

keeps_ttl : contains_str (codes "timeout 60s") (render_bootstrap cfg) ≡ true
unfolding render_bootstrap contains_str decimal_digits
keeps_ttl = refl

add_allow_text :
    render_add_allow (codes "bugpot") 0xac140002 0x5db8d822
    ≡ codes "add element inet bugpot allow4 { 172.20.0.2 . 93.184.216.34 }"
unfolding render_add_allow decimal_digits
add_allow_text = refl

abbrev entry_of : Str → Str → NftElemEntry
entry_of src dst = record { elem = record { val = record { concat = src ∷ dst ∷ [] } } }

-- Addresses are single letters, and a script fails.
abbrev kernel : Nft
kernel = record {
  list_set = λ table. ok [];
  from_slice = λ stdout. ok (record {
    nftables =
        record { set = none }
        ∷ record {
          set = some (record {
            elem =
                entry_of (codes "a") (codes "x")
                ∷ entry_of (codes "b") (codes "x")
                ∷ entry_of (codes "a") (codes "y")
                ∷ [];
          });
        }
        ∷ [];
  });
  parse_addr = λ s. elim s [ [] ↦ none | ◌∷◌ c _ ↦ some c ];
  run_script = λ script. err script;
}

flush_src_lem_example : flush_src kernel (codes "bugpot") b'a' ≡ (
    list_allow_set kernel (codes "bugpot") >>= λ pairs.
    run_unless_none kernel (codes "bugpot") b'a' (destinations b'a' pairs))
flush_src_lem_example = flush_src_lem kernel (codes "bugpot") b'a'

flushed :
    flush_src kernel (codes "bugpot") b'a'
    ≡ err (
        codes
          "delete element inet bugpot allow4 { 0.0.0.97 . 0.0.0.120 }\ndelete element inet bugpot allow4 { 0.0.0.97 . 0.0.0.121 }\n")
unfolding flush_src decimal_digits
flushed = refl

nothing_to_flush : flush_src kernel (codes "bugpot") b'c' ≡ ok tt
unfolding flush_src
nothing_to_flush = refl

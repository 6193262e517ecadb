-- ===== src/Router/Tests.antt =====
-- The routing of one host.
use bugpot.Base.{
  list_beq_iff, if◌then◌else◌, List, [], false, list_eq, list_beq, ◌≡◌, ◌∷◌, some, refl, arith, inl,
}
use bugpot.Base.Text.{Str, codes, to_ascii_lowercase}
use bugpot.Base.Map.{lookup, remove, lookup-remove}
use bugpot.Router.Headers.{
  HeaderOps, IsDocumented, inject_forwarded_headers, inject_forwarded_headers-untrusted,
}
use bugpot.Config.Label.{IsDnsLabel}

abbrev demo : Str
demo = codes "ab"

demo-IsDnsLabel : IsDnsLabel demo
demo-IsDnsLabel = record {
  nonempty = omega arith;
  short = omega arith;
  chars = (inl (omega arith, omega arith), (inl (omega arith, omega arith), tt));
  head = refl;
  last = refl;
}

-- Headers as a list of texts, in which a name may stand more than once.
abbrev all_values : Str → List (Str × Str) → List Str
all_values name [] = []
all_values name ((n, v) ∷ headers) =
    let rest = all_values name headers in if list_beq n name then v ∷ rest else rest

abbrev pub headers_of_texts : HeaderOps (List (Str × Str)) Str
headers_of_texts = record {
  get = lookup;
  get_all = all_values;
  insert = λ name v headers. (name, v) ∷ remove name headers;
  remove = remove;
  to_str = λ v. some v;
  from_str = λ s. some s;
  parse_name = λ s. some (to_ascii_lowercase s);
}

all_values-remove :
    (name asked : Str) (headers : List (Str × Str))
    → all_values asked (remove name headers)
      ≡ (if list_beq name asked then [] else all_values asked headers)
unfolding remove
all_values-remove name asked [] = ground arith
all_values-remove name asked ((n, v) ∷ headers) = ground (
  arith,
  all_values-remove name asked headers,
  list_beq_iff name asked,
  list_beq_iff n name,
  list_beq_iff n asked,
)

headers_of_texts-IsDocumented : IsDocumented headers_of_texts
unfolding lookup
headers_of_texts-IsDocumented = record {
  get-insert = λ name asked v headers. ground (arith, lookup-remove name asked headers);
  get-remove = λ name asked headers. lookup-remove name asked headers;
  get_all-insert = λ name asked v headers. ground (arith, all_values-remove name asked headers);
}

abbrev pub spoofed : List (Str × Str)
spoofed =
    (codes "x-forwarded-for", codes "1.2.3.4")
    ∷ (codes "x-forwarded-for", codes "5.6.7.8")
    ∷ (codes "connection", codes "close, X-Secret")
    ∷ (codes "x-secret", codes "1")
    ∷ (codes "accept", codes "*/*")
    ∷ []

inject_forwarded_headers-untrusted_example :
    let headers' =
      inject_forwarded_headers headers_of_texts false
        (some (codes "9.9.9.9"))
        demo
        (codes "http")
        spoofed in
    (all_values (codes "x-forwarded-for") headers' ≡ codes "9.9.9.9" ∷ [])
    × ((asked : Str)
        → list_beq (codes "x-forwarded-for") asked ≡ false
        → list_beq (codes "x-forwarded-proto") asked ≡ false
        → list_beq (codes "x-forwarded-host") asked ≡ false
        → all_values asked headers' ≡ all_values asked spoofed)
inject_forwarded_headers-untrusted_example =
    inject_forwarded_headers-untrusted headers_of_texts headers_of_texts-IsDocumented
      (codes "9.9.9.9") demo (codes "http") (codes "9.9.9.9") spoofed refl

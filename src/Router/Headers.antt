-- ===== src/Router/Headers.antt =====
-- crates/bugpot-router/src/lib.rs: the headers of a proxied request. `HeaderMap`, `HeaderName` and
-- `HeaderValue` are the `http` crate's: an interface, with the laws that the router relies on. A
-- name is its lower-case text, a value that is no text has `none` as its text.
use bugpot.Base.{
  Bool, true, false, Option, none, some, List, [], ◌∷◌, ◌++◌, ◌≡◌, refl, list_eq, list_beq, any,
  if◌then◌else◌, arith, ◌∙◌, if-cases, ap,
}
use bugpot.Base.Text.{Str, codes, split, trim, to_ascii_lowercase}

pub record HeaderOps (HeaderMap Value : Type 0) : Type 0 where
  pub get : Str → HeaderMap → Option Value
  pub get_all : Str → HeaderMap → List Value
  pub insert : Str → Value → HeaderMap → HeaderMap
  pub remove : Str → HeaderMap → HeaderMap
  pub to_str : Value → Option Str
  pub from_str : Str → Option Value
  pub parse_name : Str → Option Str

module _ {HeaderMap Value : Type 0} (http : HeaderOps HeaderMap Value) where
  abbrev pub contains_key : Str → HeaderMap → Bool
  contains_key name headers = elim (http.get name headers) [ none ↦ false | some _ ↦ true ]

  abbrev pub text_of : Option Value → Option Str
  text_of none = none
  text_of (some v) = http.to_str v

  abbrev says_upgrade : Option Str → Bool
  says_upgrade none = false
  says_upgrade (some v) =
      any (λ t. list_beq (to_ascii_lowercase (trim t)) (codes "upgrade")) (split b',' v)

  unfoldable pub is_upgrade_request : HeaderMap → Bool
  unfolding to_ascii_lowercase trim split
  is_upgrade_request headers =
      if contains_key (codes "upgrade") headers
      then says_upgrade (text_of (http.get (codes "connection") headers))
      else false

  abbrev insert_if : Str → Option Value → HeaderMap → HeaderMap
  insert_if name none headers = headers
  insert_if name (some v) headers = http.insert name v headers

  abbrev appended : Str → Option Str → Str
  appended peer none = peer
  appended peer (some chain) = chain ++ codes ", " ++ peer

  -- `trusts` is whether one of the trusted networks has the peer.
  unfoldable pub rewrite_forwarded_for : Bool → Str → HeaderMap → HeaderMap
  rewrite_forwarded_for trusts peer headers =
      let chain = text_of (http.get (codes "x-forwarded-for") headers) in
      insert_if (codes "x-forwarded-for")
        (http.from_str (if trusts then appended peer chain else peer)) headers

  abbrev insert_missing : Str → Str → HeaderMap → HeaderMap
  insert_missing name value headers =
      if contains_key name headers then headers else insert_if name (http.from_str value) headers

  abbrev for_peer : Bool → Option Str → HeaderMap → HeaderMap
  for_peer trusts none headers = headers
  for_peer trusts (some ip) headers = rewrite_forwarded_for trusts ip headers

  unfoldable pub inject_forwarded_headers : Bool → Option Str → Str → Str → HeaderMap → HeaderMap
  unfolding rewrite_forwarded_for
  inject_forwarded_headers trusts peer_ip original_host forwarded_proto headers =
      insert_missing (codes "x-forwarded-host") original_host (
        insert_missing (codes "x-forwarded-proto") forwarded_proto
          (for_peer trusts peer_ip headers))

  abbrev pub hop_by_hop_headers : List Str
  hop_by_hop_headers =
      codes "connection"
      ∷ codes "keep-alive"
      ∷ codes "proxy-authenticate"
      ∷ codes "proxy-authorization"
      ∷ codes "te"
      ∷ codes "trailer"
      ∷ codes "transfer-encoding"
      ∷ codes "upgrade"
      ∷ []

  abbrev cons_name : Option Str → List Str → List Str
  cons_name none names = names
  cons_name (some name) names = name ∷ names

  unfoldable pub names_in : List Str → List Str
  unfolding trim
  names_in [] = []
  names_in (part ∷ parts) = cons_name (http.parse_name (trim part)) (names_in parts)

  abbrev names_of : Option Str → List Str
  names_of none = []
  names_of (some s) = names_in (split b',' s)

  -- The names that the values of `Connection` list.
  unfoldable pub extras : List Value → List Str
  unfolding names_in split
  extras [] = []
  extras (v ∷ vs) = names_of (http.to_str v) ++ extras vs

  unfoldable pub remove_all : List Str → HeaderMap → HeaderMap
  remove_all [] headers = headers
  remove_all (name ∷ names) headers = remove_all names (http.remove name headers)

  unfoldable pub strip_hop_by_hop_headers : HeaderMap → HeaderMap
  unfolding extras remove_all
  strip_hop_by_hop_headers headers =
      remove_all (extras (http.get_all (codes "connection") headers))
        (remove_all hop_by_hop_headers headers)

  -- What the `http` crate documents of `get` and `get_all` after `insert`, which replaces all the
  -- values of a name, and of `get` after `remove`.
  pub record IsDocumented : Type 0 where
    pub get-insert :
        (name asked : Str) (v : Value) (headers : HeaderMap)
        → http.get asked (http.insert name v headers)
          ≡ (if list_beq name asked then some v else http.get asked headers)
    pub get-remove :
        (name asked : Str) (headers : HeaderMap)
        → http.get asked (http.remove name headers)
          ≡ (if list_beq name asked then none else http.get asked headers)
    pub get_all-insert :
        (name asked : Str) (v : Value) (headers : HeaderMap)
        → http.get_all asked (http.insert name v headers)
          ≡ (if list_beq name asked then v ∷ [] else http.get_all asked headers)

  abbrev pub listed : Str → List Str → Bool
  listed name = any (λ n. list_beq n name)

  module _ (d : IsDocumented) where
    get-remove_all :
        (names : List Str) (asked : Str) (headers : HeaderMap)
        → http.get asked (remove_all names headers)
          ≡ (if listed asked names then none else http.get asked headers)
    unfolding remove_all
    get-remove_all [] asked headers = refl
    get-remove_all (name ∷ names) asked headers = ground (
      arith,
      get-remove_all names asked (http.remove name headers),
      d.get-remove name asked headers,
    )

    -- After the strip, the headers that are left are those that are neither hop-by-hop nor named by
    -- `Connection`, with the value that they had.
    pub strip_hop_by_hop_headers-get :
        (asked : Str) (headers : HeaderMap)
        → http.get asked (strip_hop_by_hop_headers headers) ≡ (
            if listed asked (extras (http.get_all (codes "connection") headers))
            then none
            else if listed asked hop_by_hop_headers
            then none
            else http.get asked headers)
    unfolding strip_hop_by_hop_headers
    strip_hop_by_hop_headers-get asked headers =
        let names = extras (http.get_all (codes "connection") headers) in
        get-remove_all names asked (remove_all hop_by_hop_headers headers)
        ∙ ap (λ o. if listed asked names then none else o)
            (get-remove_all hop_by_hop_headers asked headers)

    -- The values of another name.
    insert_if-get_all :
        (name asked : Str) (v : Option Value) (headers : HeaderMap)
        → list_beq name asked ≡ false
        → http.get_all asked (insert_if name v headers) ≡ http.get_all asked headers
    insert_if-get_all name asked none headers other = refl
    insert_if-get_all name asked (some v) headers other =
        d.get_all-insert name asked v headers ∙ rw other refl

    insert_missing-get_all :
        (name asked value : Str) (headers : HeaderMap)
        → list_beq name asked ≡ false
        → http.get_all asked (insert_missing name value headers) ≡ http.get_all asked headers
    insert_missing-get_all name asked value headers other =
        if-cases (λ h. http.get_all asked h ≡ http.get_all asked headers)
          (contains_key name headers) (λ e. refl)
          (λ e. insert_if-get_all name asked (http.from_str value) headers other)

    -- The two headers that are set only where they are missing.
    described-get_all :
        (host proto asked : Str) (headers : HeaderMap)
        → list_beq (codes "x-forwarded-proto") asked ≡ false
        → list_beq (codes "x-forwarded-host") asked ≡ false
        → http.get_all asked (
            insert_missing
              (codes "x-forwarded-host")
              host
              (insert_missing (codes "x-forwarded-proto") proto headers))
          ≡ http.get_all asked headers
    described-get_all host proto asked headers not_proto not_host =
        insert_missing-get_all (codes "x-forwarded-host") asked host
          (insert_missing (codes "x-forwarded-proto") proto headers) not_host
        ∙ insert_missing-get_all (codes "x-forwarded-proto") asked proto headers not_proto

    -- A peer that is not trusted cannot pass on a chain of its own: however many `X-Forwarded-For`
    -- values the request has, the peer's address is the only one that is left. All the values of every
    -- other name are as they were, but for `X-Forwarded-Proto` and `X-Forwarded-Host`. This supposes an
    -- address that is a header value.
    pub inject_forwarded_headers-untrusted :
        (peer host proto : Str) (v : Value) (headers : HeaderMap)
        → http.from_str peer ≡ some v
        → let headers' = inject_forwarded_headers false (some peer) host proto headers in
          (http.get_all (codes "x-forwarded-for") headers' ≡ v ∷ [])
          × ((asked : Str)
              → list_beq (codes "x-forwarded-for") asked ≡ false
              → list_beq (codes "x-forwarded-proto") asked ≡ false
              → list_beq (codes "x-forwarded-host") asked ≡ false
              → http.get_all asked headers' ≡ http.get_all asked headers)
    unfolding inject_forwarded_headers rewrite_forwarded_for
    inject_forwarded_headers-untrusted peer host proto v headers e = (
      described-get_all host proto (codes "x-forwarded-for")
            (insert_if (codes "x-forwarded-for") (http.from_str peer) headers) refl refl
          ∙ rw e (d.get_all-insert (codes "x-forwarded-for") (codes "x-forwarded-for") v headers),
      λ asked not_for not_proto not_host.
          described-get_all host proto asked
            (insert_if (codes "x-forwarded-for") (http.from_str peer) headers) not_proto not_host
          ∙ insert_if-get_all (codes "x-forwarded-for") asked (http.from_str peer) headers not_for,
    )

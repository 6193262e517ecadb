-- ===== src/Egress/Dns.antt =====
-- crates/bugpot-egress/src/dns.rs: the decision on a query, and the handler. The upstream resolver
-- is a parameter; registrations in the allow set are best effort, and are listed in order.
use bugpot.Base.{
  ℕ, Bool, true, Option, none, some, List, [], Result, ok, err, ◌==◌, if◌then◌else◌, map, ◌≡◌, ◌≡◌,
  ◌↔◌, arith,
}
use bugpot.Base.Text.{Str, trim_end}
use bugpot.Egress.Allowlist.{matches_domain}
use bugpot.Egress.Store.{AllocatedApp, EndpointStore, lookup_by_ip}

pub data Decision : Type 0 where
  unknown_source : Decision
  denied allowed : (name : Str) → Decision

abbrev pub decide_for : Str → Option AllocatedApp → Decision
decide_for query_name none = unknown_source
decide_for query_name (some app) =
    if matches_domain app.allowlist query_name then allowed app.name else denied app.name

unfoldable pub decide : EndpointStore → ℕ → Str → Decision
decide endpoints src query_name = decide_for query_name (lookup_by_ip endpoints src)

pub data ResponseCode : Type 0 where
  refused form_err nx_domain serv_fail : ResponseCode

pub data Reply : Type 0 where
  code : ResponseCode → Reply
  answer : List ℕ → Reply

-- The first query of a request: its name, and whether it asks for an A record.
pub record Query : Type 0 where
  pub name : Str
  pub is_a : Bool

module _ (resolve_a : Str → Result (List ℕ) Str) where
  abbrev pub resolved : ℕ → Result (List ℕ) Str → Reply × List (ℕ × ℕ)
  resolved src (err e) = (code serv_fail, [])
  resolved src (ok ips) = (answer ips, map (λ ip. (src, ip)) ips)

  abbrev pub respond : ℕ → Str → Decision → Reply × List (ℕ × ℕ)
  respond src qname unknown_source = (code refused, [])
  respond src qname (denied name) = (code nx_domain, [])
  respond src qname (allowed name) = resolved src (resolve_a qname)

  abbrev pub answer_query : EndpointStore → ℕ → Option Query → Reply × List (ℕ × ℕ)
  answer_query endpoints src none = (code form_err, [])
  answer_query endpoints src (some query) =
      let qname_stripped = trim_end (λ c. c == b'.') query.name in
      if query.is_a
      then respond src qname_stripped (decide endpoints src qname_stripped)
      else (code nx_domain, [])

  -- `none` for the source is an IPv6 address, and for the query one that does not parse.
  unfoldable pub handle_request : EndpointStore → Option ℕ → Option Query → Reply × List (ℕ × ℕ)
  unfolding decide
  handle_request endpoints none query = (code refused, [])
  handle_request endpoints (some src) query = answer_query endpoints src query

  -- An address is answered, and registered for the source, exactly for an A query from the address
  -- of a live endpoint whose allowlist lets the name through and that the upstream resolves.
  pub handle_request-answer_iff :
      (endpoints : EndpointStore) (src : ℕ) (query : Query) (ips : List ℕ)
      → let qname = trim_end (λ c. c == b'.') query.name in
        (handle_request endpoints (some src) (some query) ≡ (answer ips, map (λ ip. (src, ip)) ips))
        ↔ ((query.is_a ≡ true)
            × (resolve_a qname ≡ ok ips)
            × ((app : AllocatedApp) × (lookup_by_ip endpoints src ≡ some app)
                × (matches_domain app.allowlist qname ≡ true)))
  unfolding handle_request decide
  handle_request-answer_iff endpoints src query ips = ground arith

  -- Any other reply registers nothing.
  pub handle_request-registers :
      (endpoints : EndpointStore) (src : Option ℕ) (query : Option Query) (c : ResponseCode)
      → (handle_request endpoints src query).0 ≡ code c
      → (handle_request endpoints src query).1 ≡ []
  unfolding handle_request decide
  handle_request-registers endpoints src query c h = ground arith

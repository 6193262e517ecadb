-- ===== src/Router/Forward.antt =====
-- crates/bugpot-router/src/lib.rs: the answer to one request. The resolver, the rewriting of the URI
-- and the upstream are parameters; other requests and tasks change the permits while the request
-- waits for its upstream. A body is a text. The limits on the time and the size of a body, and the
-- counting of requests, are left out.
pub mod Permits
pub mod Tests
use bugpot.Base.{ℕ, Bool, Option, none, some, [], ◌++◌, Result, ok, err, ◌==◌, if◌then◌else◌}
use bugpot.Base.Text.{Str, codes}
use bugpot.Router.Headers.{
  HeaderOps, is_upgrade_request, inject_forwarded_headers, strip_hop_by_hop_headers, text_of,
}
use bugpot.Router.Upgrades.{UpgradeSlots, try_acquire, drop_permit, spawn_splice}

-- The address, and the counter of the app.
pub record Upstream (Address : Type 0) : Type 0 where
  pub addr : Address
  pub active_upgrades : Option ℕ

pub data ResolveError : Type 0 where
  no_such_app unhealthy : ResolveError

pub record Request (Uri HeaderMap : Type 0) : Type 0 where
  pub uri : Uri
  pub headers : HeaderMap
  pub body : Str

pub record Response (HeaderMap : Type 0) : Type 0 where
  pub status : ℕ
  pub headers : HeaderMap
  pub body : Str

-- What comes of a request to the upstream.
pub data Sent (HeaderMap : Type 0) : Type 0 where
  answered : Response HeaderMap → Sent HeaderMap
  failed timed_out : Sent HeaderMap

pub record RouterEnv (Address Uri HeaderMap Value : Type 0) : Type 0 where
  pub http : HeaderOps HeaderMap Value
  pub resolve : Str → Result (Upstream Address) ResolveError
  pub rewrite_uri : Uri → Address → Option Uri
  pub request : Request Uri HeaderMap → Sent HeaderMap
  pub meanwhile : UpgradeSlots → UpgradeSlots
  pub trusts : Bool
  pub peer_ip : Option Str
  pub forwarded_proto : Str
  pub plain_text : HeaderMap

module _ {Address Uri HeaderMap Value : Type 0} (env : RouterEnv Address Uri HeaderMap Value) where
  abbrev pub Answer : Type 0
  Answer = Response HeaderMap × UpgradeSlots

  abbrev pub error_response : ℕ → Str → Response HeaderMap
  error_response status body = record { status = status; headers = env.plain_text; body = body }

  abbrev pub send_upstream :
      Request Uri HeaderMap → Result (Response HeaderMap) (Response HeaderMap)
  send_upstream req = elim (env.request req) [
    | answered res ↦ ok res
    | failed ↦ err (error_response 502 (codes "upstream connection failed\n"))
    | timed_out ↦ err (error_response 504 (codes "upstream request timed out\n"))
  ]

  abbrev pub stripped : Response HeaderMap → Response HeaderMap
  stripped res = record res { headers = strip_hop_by_hop_headers env.http res.headers }

  -- The upstream's answer, the permit being held.
  abbrev pub conclude_upgrade :
      Option ℕ → Result (Response HeaderMap) (Response HeaderMap) → UpgradeSlots → Answer
  conclude_upgrade counter (err resp) p = (resp, drop_permit p)
  conclude_upgrade counter (ok res) p =
      if res.status == 101 then (res, spawn_splice counter p) else (stripped res, drop_permit p)

  abbrev pub upgrade_with :
      Request Uri HeaderMap → Option ℕ → UpgradeSlots → Option UpgradeSlots → Answer
  upgrade_with req counter p none =
      (error_response 503 (codes "upgrade limit reached; retry later\n"), p)
  upgrade_with req counter p (some held) =
      conclude_upgrade counter (send_upstream req) (env.meanwhile held)

  unfoldable pub forward_upgrade : Request Uri HeaderMap → Option ℕ → UpgradeSlots → Answer
  unfolding try_acquire drop_permit spawn_splice strip_hop_by_hop_headers
  forward_upgrade req counter p = upgrade_with req counter p (try_acquire p)

  abbrev pub conclude_request :
      Result (Response HeaderMap) (Response HeaderMap) → Response HeaderMap
  conclude_request (err resp) = resp
  conclude_request (ok res) = stripped res

  -- Past the rewriting of the URI.
  unfoldable pub forward_to : Request Uri HeaderMap → Option ℕ → Str → UpgradeSlots → Answer
  unfolding is_upgrade_request inject_forwarded_headers strip_hop_by_hop_headers forward_upgrade
  forward_to req counter original_host p =
      let headers =
        inject_forwarded_headers env.http env.trusts env.peer_ip original_host env.forwarded_proto
          req.headers in
      if is_upgrade_request env.http req.headers
      then forward_upgrade (record req { headers = headers }) counter p
      else (
        conclude_request
            (send_upstream (record req { headers = strip_hop_by_hop_headers env.http headers })),
        p,
      )

  abbrev pub forward_at :
      Request Uri HeaderMap → Option ℕ → Str → UpgradeSlots → Option Uri → Answer
  forward_at req counter original_host p none =
      (error_response 502 (codes "upstream URI rewrite failed\n"), p)
  forward_at req counter original_host p (some uri) =
      forward_to (record req { uri = uri }) counter original_host p

  unfoldable pub forward : Request Uri HeaderMap → Upstream Address → Str → UpgradeSlots → Answer
  unfolding forward_to
  forward req upstream original_host p =
      forward_at req upstream.active_upgrades original_host p
        (env.rewrite_uri req.uri upstream.addr)

  abbrev pub host_of : HeaderMap → Str
  host_of headers = elim (text_of env.http (env.http.get (codes "host") headers)) [
    | none ↦ []
    | some host ↦ host
  ]

  abbrev pub answer_resolved :
      Request Uri HeaderMap → Str → UpgradeSlots → Result (Upstream Address) ResolveError → Answer
  answer_resolved req host p (err no_such_app) =
      (error_response 404 (codes "no app matched host '" ++ host ++ codes "'\n"), p)
  answer_resolved req host p (err unhealthy) =
      (error_response 502 (codes "upstream for '" ++ host ++ codes "' failed to come up\n"), p)
  answer_resolved req host p (ok upstream) = forward req upstream host p

  unfoldable pub handler : Request Uri HeaderMap → UpgradeSlots → Answer
  unfolding forward
  handler req p = answer_resolved req (host_of req.headers) p (env.resolve (host_of req.headers))

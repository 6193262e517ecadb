-- ===== src/Router/Forward/Permits.antt =====
-- What a request does to the permits, whatever comes of it.
use bugpot.Base.{
  sym, ap, zero, ℕ, suc, zero, some, none, Option, ok, err, Result, ◌≡◌, refl, arith, ◌==◌,
  if-cases,
}
use bugpot.Base.Text.{Str}
use mathlib.Core.Option.{some-injective}
use bugpot.Router.Upgrades.{acquire_from, UpgradeSlots, try_acquire}
use bugpot.Router.Upgrades.Counts.{IsBalanced, acquired, refused, spliced, Step-IsBalanced}
use bugpot.Router.Headers.{is_upgrade_request, inject_forwarded_headers}
use bugpot.Router.Forward.{
  Answer, no_such_app, unhealthy, ResolveError, upgrade_with, forward_at, host_of, answer_resolved,
  Request, Response, RouterEnv, Upstream, conclude_upgrade, send_upstream, forward_upgrade,
  forward_to, forward, handler,
}

-- The other requests and tasks keep the balance, and leave this request its permit.
pub record IsFair (meanwhile : UpgradeSlots → UpgradeSlots) : Type 0 where
  pub keeps : (q : UpgradeSlots) → IsBalanced q → IsBalanced (meanwhile q)
  pub holds :
      (q : UpgradeSlots) (n : ℕ) → q.waiting ≡ suc n → (m : ℕ) × ((meanwhile q).waiting ≡ suc m)

acquire_from-waiting :
    (n : ℕ) (p held : UpgradeSlots) → acquire_from n p ≡ some held → held.waiting ≡ suc p.waiting
acquire_from-waiting zero p held e = absurd (ground (arith, e))
acquire_from-waiting (suc n) p held e =
    sym
      (ap (λ q. q.waiting) (some-injective (record p { free = n; waiting = suc p.waiting }) held e))

try_acquire-waiting :
    (p held : UpgradeSlots) → try_acquire p ≡ some held → held.waiting ≡ suc p.waiting
unfolding try_acquire
try_acquire-waiting p held e = acquire_from-waiting p.free p held e

module _ {Address Uri HeaderMap Value : Type 0} (env : RouterEnv Address Uri HeaderMap Value) where
  conclude_upgrade-IsBalanced :
      (counter : Option ℕ) (sent : Result (Response HeaderMap) (Response HeaderMap))
      (q : UpgradeSlots) (n : ℕ)
      → q.waiting ≡ suc n
      → IsBalanced q
      → IsBalanced (conclude_upgrade env counter sent q).1
  conclude_upgrade-IsBalanced counter (err resp) q n holds b = Step-IsBalanced (refused n holds) b
  conclude_upgrade-IsBalanced counter (ok res) q n holds b =
      if-cases {A = Answer env} (λ a. IsBalanced a.1) (res.status == 101)
        (λ _. Step-IsBalanced (spliced counter n holds) b)
        (λ _. Step-IsBalanced (refused n holds) b)

  upgrade_with-IsBalanced :
      IsFair env.meanwhile
      → (req : Request Uri HeaderMap) (counter : Option ℕ) (p : UpgradeSlots)
      → (permit : Option UpgradeSlots) → try_acquire p ≡ permit
      → IsBalanced p
      → IsBalanced (upgrade_with env req counter p permit).1
  upgrade_with-IsBalanced fair req counter p none e b = b
  upgrade_with-IsBalanced fair req counter p (some held) e b =
      let (m, holds) = fair.holds held p.waiting (try_acquire-waiting p held e) in
      conclude_upgrade-IsBalanced counter (send_upstream env req) (env.meanwhile held) m holds
        (fair.keeps held (Step-IsBalanced (acquired e) b))

  forward_upgrade-IsBalanced :
      IsFair env.meanwhile
      → (req : Request Uri HeaderMap) (counter : Option ℕ) (p : UpgradeSlots) → IsBalanced p
      → IsBalanced (forward_upgrade env req counter p).1
  unfolding forward_upgrade
  forward_upgrade-IsBalanced fair req counter p b =
      upgrade_with-IsBalanced fair req counter p (try_acquire p) refl b

  forward_to-IsBalanced :
      IsFair env.meanwhile
      → (req : Request Uri HeaderMap) (counter : Option ℕ) (host : Str) (p : UpgradeSlots)
      → IsBalanced p
      → IsBalanced (forward_to env req counter host p).1
  unfolding forward_to
  forward_to-IsBalanced fair req counter host p b =
      if-cases {A = Answer env} (λ a. IsBalanced a.1) (is_upgrade_request env.http req.headers)
        (λ _.
          forward_upgrade-IsBalanced fair
            (record req {
              headers =
                  inject_forwarded_headers env.http env.trusts env.peer_ip host env.forwarded_proto
                    req.headers;
            })
            counter p b)
        (λ _. b)

  forward_at-IsBalanced :
      IsFair env.meanwhile
      → (req : Request Uri HeaderMap) (counter : Option ℕ) (host : Str) (p : UpgradeSlots)
      → (uri : Option Uri) → IsBalanced p
      → IsBalanced (forward_at env req counter host p uri).1
  forward_at-IsBalanced fair req counter host p none b = b
  forward_at-IsBalanced fair req counter host p (some uri) b =
      forward_to-IsBalanced fair (record req { uri = uri }) counter host p b

  answer_resolved-IsBalanced :
      IsFair env.meanwhile
      → (req : Request Uri HeaderMap) (host : Str) (p : UpgradeSlots)
      → (resolved : Result (Upstream Address) ResolveError) → IsBalanced p
      → IsBalanced (answer_resolved env req host p resolved).1
  unfolding forward
  answer_resolved-IsBalanced fair req host p (err no_such_app) b = b
  answer_resolved-IsBalanced fair req host p (err unhealthy) b = b
  answer_resolved-IsBalanced fair req host p (ok upstream) b =
      forward_at-IsBalanced fair req upstream.active_upgrades host p
        (env.rewrite_uri req.uri upstream.addr) b

  -- Whatever the host resolves to and the upstream answers: when the other requests and tasks keep
  -- the balance and leave the request its permit, a request that finds the permits balanced leaves
  -- them so, with each app's counter equal to the number of the tasks that hold it.
  pub handler-IsBalanced :
      IsFair env.meanwhile
      → (req : Request Uri HeaderMap) (p : UpgradeSlots) → IsBalanced p
      → IsBalanced (handler env req p).1
  unfolding handler
  handler-IsBalanced fair req p b =
      answer_resolved-IsBalanced fair req (host_of env req.headers) p
        (env.resolve (host_of env req.headers)) b

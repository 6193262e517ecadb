-- ===== src/Core/View.antt =====
-- crates/bugpot-core/src/view.rs and ops/resolver.rs: what the admin API sees of an app, and what the
-- router gets for a host.
use bugpot.Base.{ℕ, Option, none, some, Result, ok, err, last?}
use bugpot.Base.Text.{Str}
use bugpot.Config.Spec.{Rollout}
use bugpot.Core.Handle.{AppState, HandleInner}
use bugpot.Core.Handle
use bugpot.Core.Host.{Env, M, Failure, ◌>>=◌, pure, throw, locked, read_spec, attempt}
use bugpot.Core.Lifecycle.{ensure_running}
use bugpot.Core.Registry.{AppMaps, HandleRef, find_by_subdomain}
use bugpot.Router.Host.{subdomain_of}

pub data AppStateView : Type 0 where
  stopped starting running frozen rolling_over stopping : AppStateView

pub record AppView : Type 0 where
  pub name : Str
  pub subdomain : Str
  pub repo : Str
  pub port : ℕ
  pub state : AppStateView
  pub current_rollout : Option Rollout

abbrev pub state_view : AppState → AppStateView
state_view Handle.stopped = stopped
state_view (Handle.starting _) = starting
state_view (Handle.running _) = running
state_view (Handle.frozen _) = frozen
state_view (Handle.rolling_over _) = rolling_over
state_view Handle.stopping = stopping

-- The state and the newest rollout, in one critical section.
abbrev snapshot : HandleInner → (AppStateView × Option Rollout) × HandleInner
snapshot inner = ((state_view inner.state, last? inner.rollouts), inner)

pub data ResolveError : Type 0 where
  no_such_app : ResolveError
  unhealthy : Failure → ResolveError

module _ (env : Env) where
  -- The handle is the world's, and its identity is that of the registry's reference.
  unfoldable pub view_of : {E : Type 0} → HandleRef → M AppView E
  view_of h = do
    seen ← locked env snapshot
    spec ← read_spec env
    pure (record {
      name = h.name;
      subdomain = h.subdomain;
      repo = spec.repo;
      port = spec.port;
      state = seen.0;
      current_rollout = seen.1;
    })

  abbrev answer_of : ℕ → Result (Option ℕ) Failure → M (Option (ℕ × ℕ)) ResolveError
  answer_of port (ok none) = pure none
  answer_of port (ok (some ip)) = pure (some (ip, port))
  answer_of port (err e) = throw (unhealthy e)

  abbrev resolve_in : ℕ → Option HandleRef → M (Option (ℕ × ℕ)) ResolveError
  resolve_in rounds none = throw no_such_app
  resolve_in rounds (some h) = do
    spec ← read_spec env
    answer ← attempt (ensure_running env h.name rounds)
    answer_of spec.port answer

  -- `none`: still waiting for another task after that many rounds. The shared counter of upgraded
  -- connections, which goes with the address, is not part of the answer.
  unfoldable pub resolve : AppMaps → ℕ → Str → M (Option (ℕ × ℕ)) ResolveError
  unfolding subdomain_of find_by_subdomain ensure_running
  resolve registry rounds host = elim (subdomain_of host) [
    | none ↦ throw no_such_app
    | some subdomain ↦ resolve_in rounds (find_by_subdomain subdomain registry)
  ]

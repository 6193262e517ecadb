-- ===== src/Core/AppHost.antt =====
-- The controller that `AppHost` of crates/bugpot-core/src/lib.rs is: its registry and its store, which
-- all tasks share, and the handle that an operation works on, with its host. Other tasks may change
-- the registry and the files before each use of them.
use bugpot.Base.{ℕ, suc, Result, ok, err}
use bugpot.Core.Host.{Env, World, M}
use bugpot.Core.Registry.{AppMaps}
use bugpot.Core.Store.{AppStore, Toml, Fs}

pub record Services : Type 0 where
  pub env : Env
  pub toml : Toml
  pub fs : Fs
  pub between : ℕ → AppMaps × AppStore → AppMaps × AppStore
  pub address : ℕ → ℕ

pub record AppHost : Type 0 where
  pub registry : AppMaps
  pub store : AppStore
  pub world : World
  pub turn : ℕ

-- A method of `AppHost`.
abbrev pub H : Type 0 → Type 0 → Type 0
H A E = AppHost → Result A E × AppHost

abbrev pub bind_on : {A B E : Type 0} → (A → H B E) → Result A E × AppHost → Result B E × AppHost
bind_on f (ok a, h) = f a h
bind_on f (err e, h) = (err e, h)

infixl 5 ◌>>=◌ ◌>>◌
abbrev pub ◌>>=◌ : {A B E : Type 0} → H A E → (A → H B E) → H B E
◌>>=◌ m f h = bind_on f (m h)

abbrev pub ◌>>◌ : {A B E : Type 0} → H A E → H B E → H B E
m >> k = m >>= λ _. k

abbrev pub pure : {A E : Type 0} → A → H A E
pure a h = (ok a, h)

abbrev pub throw : {A E : Type 0} → E → H A E
throw e h = (err e, h)

abbrev pub lift : {A E : Type 0} → Result A E → H A E
lift r h = (r, h)

abbrev pub map_error : {A E F : Type 0} → (E → F) → H A E → H A F
map_error f m h = let (r, h') = m h in elim r [ ok a ↦ (ok a, h') | err e ↦ (err (f e), h') ]

-- An operation on the handle.
abbrev pub on_handle : {A E : Type 0} → M A E → H A E
on_handle m h = let (r, w) = m h.world in (r, record h { world = w })

module _ (s : Services) where
  -- The registry and the files as the other tasks have left them.
  abbrev pub shared : AppHost → AppMaps × AppStore
  shared h = s.between h.turn (h.registry, h.store)

  abbrev pub on_registry : {A E : Type 0} → (AppMaps → A × AppMaps) → H A E
  on_registry f h =
      let (registry, store) = shared h in
      let (a, registry') = f registry in
      (ok a, record h { registry = registry'; store = store; turn = suc h.turn })

  abbrev pub on_store : {A E : Type 0} → (AppStore → A × AppStore) → H A E
  on_store f h =
      let (registry, store) = shared h in
      let (a, store') = f store in
      (ok a, record h { registry = registry; store = store'; turn = suc h.turn })

-- ===== src/Runtime/Container/Allowed.antt =====
-- What each operation of the runtime may call.
use bugpot.Base.{
  List, [], ◌∷◌, ◌++◌, Result, ok, err, ◌≡◌, refl, sym, ap, ◌∙◌, All, All-append, if-cases,
}
use mathlib.Core.List.{append_assoc}
use bugpot.Base.Run.{bind_on, ◌>>=◌, ◌>>◌, lift}
use bugpot.Base.Text.{Str}
use bugpot.Core.Host.{RuntimeError}
use bugpot.Runtime.Container.{
  Call, RuntimeEnv, Runtime, R, perform, attempt, state_dir, remove_existing, try_load_container,
  remove_dir, Container,
}

-- The calls past those of the start.
pub record Extends (P : Call → Type 0) (before after : List Call) : Type 0 where
  pub made : List Call
  pub whole : after ≡ made ++ before
  pub allowed : All P made

pub Extends-none : (P : Call → Type 0) (calls : List Call) → Extends P calls calls
Extends-none P calls = record { made = []; whole = refl; allowed = tt }

pub Extends-one :
    (P : Call → Type 0) (c : Call) (calls : List Call) → P c → Extends P calls (c ∷ calls)
Extends-one P c calls p = record { made = c ∷ []; whole = refl; allowed = (p, tt) }

Extends-trans :
    (P : Call → Type 0) (a b c : List Call) → Extends P a b → Extends P b c → Extends P a c
Extends-trans P a b c x y = record {
  made = y.made ++ x.made;
  whole = y.whole ∙ ap (λ calls. y.made ++ calls) x.whole ∙ sym (append_assoc y.made x.made a);
  allowed = All-append P y.made x.made y.allowed x.allowed;
}

-- A step that makes only allowed calls.
abbrev pub Obeys : {A : Type 0} → (Call → Type 0) → R A → Type 0
Obeys P m = (r : Runtime) → Extends P r.calls (m r).1.calls

module _ (P : Call → Type 0) where
  bind_on-Extends :
      {A B : Type 0} (k : A → R B) (x : Result A RuntimeError × Runtime) (before : List Call)
      → Extends P before x.1.calls
      → ((a : A) → Obeys P (k a))
      → Extends P before (bind_on k x).1.calls
  bind_on-Extends k (ok a, r) before e hk =
      Extends-trans P before r.calls (k a r).1.calls e (hk a r)
  bind_on-Extends k (err why, r) before e hk = e

  pub bind-Obeys :
      {A B : Type 0} (m : R A) (k : A → R B)
      → Obeys P m
      → ((a : A) → Obeys P (k a))
      → Obeys P (m >>= k)
  bind-Obeys m k hm hk r = bind_on-Extends k (m r) r.calls (hm r) hk

  pub then-Obeys : {A B : Type 0} (m : R A) (k : R B) → Obeys P m → Obeys P k → Obeys P (m >> k)
  then-Obeys m k hm hk = bind-Obeys m (λ _. k) hm (λ _. hk)

  pub lift-Obeys : {A : Type 0} (x : Result A RuntimeError) → Obeys P (lift x)
  lift-Obeys x r = Extends-none P r.calls

  module _ (env : RuntimeEnv) where
    pub perform-Obeys : (e : Str → RuntimeError) (c : Call) → P c → Obeys P (perform env e c)
    perform-Obeys e c p r = Extends-one P c r.calls p

    attempt-Obeys : (c : Call) → P c → Obeys P (attempt env c)
    attempt-Obeys c p r = Extends-one P c r.calls p

    pub remove_existing-Obeys :
        (path : Str) → P (remove_dir path) → Obeys P (remove_existing env path)
    remove_existing-Obeys path p r =
        if-cases {A = Result (Unit {0}) RuntimeError × Runtime} (λ x. Extends P r.calls x.1.calls)
          (env.exists r.calls path) (λ _. Extends-one P (remove_dir path) r.calls p)
          (λ _. Extends-none P r.calls)

    try_load_container-Obeys : (cid : Str) → Obeys P (try_load_container env cid)
    unfolding try_load_container
    try_load_container-Obeys cid r =
        if-cases {A = Result Container RuntimeError × Runtime} (λ x. Extends P r.calls x.1.calls)
          (env.exists r.calls (state_dir env cid)) (λ _. Extends-none P r.calls)
          (λ _. Extends-none P r.calls)

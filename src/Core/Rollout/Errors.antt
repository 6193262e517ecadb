-- ===== src/Core/Rollout/Errors.antt =====
-- `set_rollout`: which errors come from where, and what has been done by then.
use mathlib.Core.Path.{subst}
use bugpot.Base.{ℕ, true, false, Option, ◌∷◌, Result, ok, err, ◌≡◌, refl, ap, is_ok, if-cases}
use bugpot.Base.Text.{Str, trim, is_empty}
use bugpot.Config.Spec.{Rollout}
use bugpot.Core.Handle.{is_busy}
use bugpot.Config.Image.{resolve_auth}
use bugpot.Core.Host.{
  log, Env, World, M, Failure, RuntimeError, is_registry_auth_error, locked, read_spec, pulled,
  map_error, ◌>>=◌,
}
use bugpot.Core.Host.Rules.{bind_cases}
use bugpot.Core.Lifecycle.Running.{seen}
use bugpot.Core.Lifecycle.{reference, pull_image, ensure_running}
use bugpot.Core.Rollout.{
  classify_pull_error_for_rollout, apply_entry, RolloutError, empty_tag, image_auth, image_pull,
  conflict, start_failed, RolloverEntry, cold_start, blue_green, enter_rolling_over, do_blue_green,
  apply_change, record_and_apply, set_rollout, pull_for_rollout,
}
use bugpot.Core.Rollout.BlueGreen.{Late, LeftRollover, do_blue_green-LeftRollover}
use bugpot.Core.Rollout.Entry.{Entered, enter_rolling_over-Entered}

abbrev pub LateOnly : {A : Type 0} → Result A RolloutError × World → Type 0
LateOnly (ok _, w) = Unit
LateOnly (err e, w) = Late e

Entered-Late :
    (env : Env) (name : Str) (w v : World) (e : RolloutError)
    → Entered env name w (err e, v)
    → Late e
Entered-Late env name w v (conflict n) h = tt
Entered-Late env name w v (start_failed f) h = tt
Entered-Late env name w v empty_tag h = h
Entered-Late env name w v (image_auth e) h = h
Entered-Late env name w v (image_pull e) h = h

-- What a call gives, from what it gives on success and the errors that it can give.
LateOnly-bind :
    {A B : Type 0} (m : M A RolloutError) (f : A → M B RolloutError) (w : World)
    → LateOnly (m w)
    → ((a : A) (v : World) → LateOnly (f a v))
    → LateOnly ((m >>= f) w)
LateOnly-bind m f w hm hf =
    bind_cases m w LateOnly f (λ a v e. hf a v) (λ x v e. subst LateOnly e hm)

started-LateOnly :
    {A : Type 0} (p : Result A Failure × World) → LateOnly (map_error start_failed (λ _. p) p.1)
started-LateOnly (ok a, w) = tt
started-LateOnly (err e, w) = tt

module _ (env : Env) (name : Str) (drains rounds : ℕ) where
  blue_green-LateOnly : (ip : ℕ) (w : World) → LateOnly (do_blue_green env name drains ip w)
  blue_green-LateOnly ip w =
      go (do_blue_green env name drains ip w) (do_blue_green-LeftRollover env name drains ip w)
    where
      go : (p : Result (Unit {0}) RolloutError × World) → LeftRollover p → LateOnly p
      go (ok _, v) h = tt
      go (err e, v) h = h.0

  enter-LateOnly : (w : World) → LateOnly (enter_rolling_over env name w)
  enter-LateOnly w = go (enter_rolling_over env name w) (enter_rolling_over-Entered env name w)
    where
      go : (p : Result RolloverEntry RolloutError × World) → Entered env name w p → LateOnly p
      go (ok _, v) h = tt
      go (err e, v) h = Entered-Late env name w v e h

  apply_entry-LateOnly :
      (entry : RolloverEntry) (w : World) → LateOnly (apply_entry env name drains rounds entry w)
  apply_entry-LateOnly cold_start w =
      LateOnly-bind (map_error start_failed (ensure_running env name rounds)) _ w
        (started-LateOnly (ensure_running env name rounds w)) (λ ip v. tt)
  apply_entry-LateOnly (blue_green ip) w =
      LateOnly-bind (do_blue_green env name drains ip) _ w (blue_green-LateOnly ip w) (λ u v. tt)

  pub apply_change-LateOnly : (w : World) → LateOnly (apply_change env name drains rounds w)
  unfolding apply_change
  apply_change-LateOnly w =
      LateOnly-bind (enter_rolling_over env name) (apply_entry env name drains rounds) w
        (enter-LateOnly w) apply_entry-LateOnly

  record_and_apply-LateOnly :
      (tag repo digest : Str) (w : World)
      → LateOnly (record_and_apply env name drains rounds tag repo digest w)
  unfolding record_and_apply locked
  record_and_apply-LateOnly tag repo digest w =
      LateOnly-bind (apply_change env name drains rounds) _ _ (apply_change-LateOnly _)
        (λ done v. tt)

  -- Where each error of a rollout comes from, and what has been called by then.
  abbrev pub Classified : {A : Type 0} → Str → World → Result A RolloutError × World → Type 0
  Classified tag w (err empty_tag, w') = (is_empty (trim tag) ≡ true) × (w' ≡ w)
  Classified tag w (err (image_auth e), w') =
      (is_registry_auth_error e ≡ true) × ((ref : Str) × (w'.events ≡ pulled ref false ∷ w.events))
  Classified tag w (err (image_pull e), w') =
      (is_registry_auth_error e ≡ false) × ((ref : Str) × (w'.events ≡ pulled ref false ∷ w.events))
  Classified tag w _ = Unit

  LateOnly-Classified :
      {A : Type 0} (tag : Str) (w : World) (p : Result A RolloutError × World)
      → LateOnly p
      → Classified tag w p
  LateOnly-Classified tag w (ok a, v) h = tt
  LateOnly-Classified tag w (err (conflict n), v) h = tt
  LateOnly-Classified tag w (err (start_failed f), v) h = tt
  LateOnly-Classified tag w (err empty_tag, v) h = absurd h
  LateOnly-Classified tag w (err (image_auth e), v) h = absurd h
  LateOnly-Classified tag w (err (image_pull e), v) h = absurd h

  classify-Classified :
      (A : Type 0) (tag ref : Str) (e : RuntimeError) (w v : World)
      → v.events ≡ pulled ref false ∷ w.events
      → Classified {A = A} tag w (err (classify_pull_error_for_rollout e), v)
  unfolding classify_pull_error_for_rollout
  classify-Classified A tag ref e w v called =
      if-cases (λ x. Classified {A = A} tag w (err x, v)) (is_registry_auth_error e)
        (λ auth. (auth, (ref, called))) (λ other. (other, (ref, called)))

  pulled-Classified :
      (tag ref : Str) (w v : World) (r : Result Str RuntimeError)
      → v.events ≡ w.events
      → Classified tag w
          (map_error classify_pull_error_for_rollout (λ v. (r, v)) (log (pulled ref (is_ok r)) v))
  pulled-Classified tag ref w v (ok digest) same = tt
  pulled-Classified tag ref w v (err e) same =
      classify-Classified Str tag ref e w (log (pulled ref false) v)
        (ap (◌∷◌ (pulled ref false)) same)

  pull-Classified :
      (tag tag' repo : Str) (w v : World)
      → v.events ≡ w.events
      → Classified tag w (pull_for_rollout env name repo tag' v)
  unfolding pull_for_rollout pull_image
  pull-Classified tag tag' repo w v same =
      let ref = reference repo tag' in
      pulled-Classified tag ref w v (env.pull_image v.events ref (resolve_auth env.auth repo)) same

  past_pull :
      (tag repo : Str) (w v : World)
      → v.events ≡ w.events
      → Classified tag w (
          (pull_for_rollout env name repo tag >>= record_and_apply env name drains rounds tag repo)
            v)
  past_pull tag repo w v same =
      bind_cases (pull_for_rollout env name repo tag) v (Classified tag w)
        (record_and_apply env name drains rounds tag repo)
        (λ digest u e.
          LateOnly-Classified tag w (record_and_apply env name drains rounds tag repo digest u)
            (record_and_apply-LateOnly tag repo digest u))
        (λ x u e. go x u (subst (Classified tag w) e (pull-Classified tag tag repo w v same)))
    where
      go :
          (x : RolloutError) (u : World)
          → Classified {A = Str} tag w (err x, u)
          → Classified {A = Option Rollout} tag w (err x, u)
      go empty_tag u h = h
      go (image_auth e) u h = h
      go (image_pull e) u h = h
      go (conflict n) u h = h
      go (start_failed f) u h = h

  -- Whatever the other tasks do: a rollout reports an empty tag only for a blank one, with nothing
  -- done; a failed authentication or pull only when the registry's answer was one, the pull being
  -- the only call made; every other failure is a conflict or a failed start.
  pub set_rollout-Classified :
      (tag : Str) (w : World) → Classified tag w (set_rollout env name drains rounds tag w)
  unfolding set_rollout locked read_spec
  set_rollout-Classified tag w =
      let w' = (locked env {E = RolloutError} (λ inner. (is_busy inner.state, inner)) w).1 in
      let w'' = (read_spec env {E = RolloutError} w').1 in
      if-cases {A = M (Option Rollout) RolloutError} (λ m. Classified tag w (m w))
        (is_empty (trim tag)) (λ blank. (blank, refl))
        (λ _.
          if-cases {A = M (Option Rollout) RolloutError} (λ m. Classified tag w (m w'))
            (is_busy (seen env w).state) (λ _. tt)
            (λ _. past_pull tag w''.handle.spec.repo w w'' refl))

-- ===== src/Base/Run.antt =====
-- Functions that read and write a state, and may fail: `&mut self` with `Result`.
use bugpot.Base.Results.{Result, ok, err}

abbrev pub Run : Type 0 → Type 0 → Type 0 → Type 0
Run S A E = S → Result A E × S

abbrev pub bind_on : {S A B E : Type 0} → (A → Run S B E) → Result A E × S → Result B E × S
bind_on f (ok a, s) = f a s
bind_on f (err e, s) = (err e, s)

infixl 5 ◌>>=◌ ◌>>◌
abbrev pub ◌>>=◌ : {S A B E : Type 0} → Run S A E → (A → Run S B E) → Run S B E
◌>>=◌ m f s = bind_on f (m s)

abbrev pub ◌>>◌ : {S A B E : Type 0} → Run S A E → Run S B E → Run S B E
m >> k = m >>= λ _. k

abbrev pub lift : {S A E : Type 0} → Result A E → Run S A E
lift r s = (r, s)

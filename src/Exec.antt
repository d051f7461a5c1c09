-- ===== src/Exec.antt =====
-- Methods that change an object and may raise. What was written before a raise stays written, so
-- the state comes back beside the error too.
pub mod Keeps
pub mod Ensures
pub mod Adds
pub mod Inversion
use pazuzu.Base.{Bool, Text, if◌then◌else◌}
use pazuzu.Errors.{Kind, Exception, Result, ok, err}

abbrev pub Exec {ℓ} : Type ℓ → Type ℓ → Type ℓ
Exec State A = State → Result A × State

module _ {ℓ} {State A : Type ℓ} where
  unfoldable pub pure : A → Exec State A
  pure a st = (ok a, st)

  unfoldable pub raise : Kind → Text → Exec State A
  raise k t st = (err (record { kind = k; message = t }), st)

  unfoldable pub reraise : Exception → Exec State A
  reraise e st = (err e, st)

  -- A value, or an exception, computed without the object.
  unfoldable pub lift : Result A → Exec State A
  lift r st = (r, st)

  unfoldable pub gets : (State → A) → Exec State A
  gets next st = (ok (next st), st)

  -- `try`: the exception becomes a value, for the handlers to look at.
  unfoldable pub attempt : Exec State A → Exec State (Result A)
  attempt m st = let (r, s') = m st in (ok r, s')

module _ {ℓ} {State A B : Type ℓ} where
  abbrev pub continue : Result A → (A → Exec State B) → Exec State B
  continue (ok a) next st = next a st
  continue (err e) next st = (err e, st)

  infixl 10 ◌>>=◌ ◌>>◌
  -- Opening this opens the actions above too.
  unfoldable pub ◌>>=◌ : Exec State A → (A → Exec State B) → Exec State B
  unfolding pure raise reraise lift gets attempt
  ◌>>=◌ m next st = let (r, s') = m st in continue r next s'

  abbrev pub ◌>>◌ : Exec State A → Exec State B → Exec State B
  m >> n = m >>= λ _. n

  -- What follows a `try`: its `else` part, or its handlers.
  unfoldable pub handle : Result A → (A → Exec State B) → (Exception → Exec State B) → Exec State B
  handle (ok a) next g = next a
  handle (err e) next g = g e

module _ {State : Type 0} where
  unfoldable pub modify : (State → State) → Exec State (Unit {0})
  modify next st = (ok tt, next st)

  -- `if c: raise ...`
  abbrev pub raise_if : Bool → Kind → Text → Exec State (Unit {0})
  raise_if c k t = if c then raise k t else pure tt

  abbrev pub after : {A : Type 0} → Result A → Result (Unit {0}) × State → Result A × State
  after r (ok _, st) = (r, st)
  after r (err e, st) = (err e, st)

  -- `try: m finally: n`; an exception of `n` takes the place of the outcome of `m`.
  unfoldable pub finally : {A : Type 0} → Exec State A → Exec State (Unit {0}) → Exec State A
  unfolding modify
  finally m n st = let (r, s') = m st in after r (n s')

-- ===== src/Exec/Keeps.antt =====
-- Invariants of actions, one rule for each way to build an action. A relation to the state before
-- is kept in the same way: the invariant is then what holds relative to a fixed first state.
use pazuzu.Base.{◌≡◌, refl, Bool, true, false, Text, arith, if◌then◌else◌}
use pazuzu.Errors.{Kind, Exception, Result, ok, err}
use pazuzu.Exec.{
  Exec, pure, raise, reraise, lift, gets, attempt, modify, raise_if, finally, handle, ◌>>=◌,
}

-- `m` keeps `I`, whether it returns or raises.
pub record Keeps {ℓ κ} {State A : Type ℓ} (I : State → Type κ) (m : Exec State A)
    : Type (ℓ ⊔ κ) where
  pub at : (st : State) → I st → I (m st).1

module _ {ℓ κ} {State A : Type ℓ} {I : State → Type κ} where
  pub Keeps-pure : (a : A) → Keeps I (pure a)
  unfolding pure
  Keeps-pure a = record { at = λ st held. held }

  pub Keeps-raise : (k : Kind) (t : Text) → Keeps I (raise {A = A} k t)
  unfolding raise
  Keeps-raise k t = record { at = λ st held. held }

  pub Keeps-reraise : (e : Exception) → Keeps I (reraise {A = A} e)
  unfolding reraise
  Keeps-reraise e = record { at = λ st held. held }

  pub Keeps-lift : (r : Result A) → Keeps I (lift r)
  unfolding lift
  Keeps-lift r = record { at = λ st held. held }

  pub Keeps-gets : (f : State → A) → Keeps I (gets f)
  unfolding gets
  Keeps-gets f = record { at = λ st held. held }

  pub Keeps-attempt : (m : Exec State A) → Keeps I m → Keeps I (attempt m)
  unfolding attempt
  Keeps-attempt m k = record { at = λ st held. k.at st held }

  pub Keeps-if :
      (b : Bool) (m n : Exec State A)
      → (b ≡ true → Keeps I m)
      → (b ≡ false → Keeps I n)
      → Keeps I (if b then m else n)
  Keeps-if true m n when_true when_false = when_true refl
  Keeps-if false m n when_true when_false = when_false refl

module _ {ℓ κ} {State A B : Type ℓ} {I : State → Type κ} where
  Keeps-bind-lift :
      (r : Result A) (f : A → Exec State B) → ((a : A) → Keeps I (f a)) → Keeps I (lift r >>= f)
  unfolding ◌>>=◌
  Keeps-bind-lift (ok a) f on_ok = on_ok a
  Keeps-bind-lift (err e) f on_ok = record { at = λ st held. held }

  pub Keeps-bind :
      (m : Exec State A) (f : A → Exec State B)
      → Keeps I m
      → ((a : A) → Keeps I (f a))
      → Keeps I (m >>= f)
  unfolding ◌>>=◌
  Keeps-bind m f when_true on_ok = record {
    at = λ st held. let (r, s') = m st in (Keeps-bind-lift r f on_ok).at s' (when_true.at st held);
  }

  pub Keeps-handle :
      (r : Result A) (f : A → Exec State B) (g : Exception → Exec State B)
      → ((a : A) → Keeps I (f a))
      → ((e : Exception) → Keeps I (g e))
      → Keeps I (handle r f g)
  unfolding handle
  Keeps-handle (ok a) f g on_ok kg = on_ok a
  Keeps-handle (err e) f g on_ok kg = kg e

module _ {κ} {State : Type 0} {I : State → Type κ} where
  pub Keeps-modify : (f : State → State) → ((s : State) → I s → I (f s)) → Keeps I (modify f)
  unfolding modify
  Keeps-modify f k = record { at = k }

  pub Keeps-raise_if : (b : Bool) (k : Kind) (t : Text) → Keeps I (raise_if b k t)
  Keeps-raise_if true k t = Keeps-raise k t
  Keeps-raise_if false k t = Keeps-pure tt

  pub Keeps-finally :
      {A : Type 0} (m : Exec State A) (n : Exec State (Unit {0}))
      → Keeps I m
      → Keeps I n
      → Keeps I (finally m n)
  unfolding finally
  Keeps-finally m n when_true when_false = record {
    at = λ st held. ground (arith, when_false.at (m st).1 (when_true.at st held));
  }

pub ruleset keeps_rules = (
  Keeps-pure, Keeps-raise, Keeps-reraise, Keeps-lift, Keeps-gets, Keeps-attempt, Keeps-if,
  Keeps-bind, Keeps-handle, Keeps-raise_if, Keeps-finally,
)

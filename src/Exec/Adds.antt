-- ===== src/Exec/Adds.antt =====
-- Actions that raise a measure of the state by a bounded amount.
use pazuzu.Base.{ℕ, ◌+◌, ◌≤◌, Bool, true, false, Text, arith, if◌then◌else◌}
use pazuzu.Errors.{Kind, Exception, Result, ok, err}
use pazuzu.Exec.{
  Exec, pure, raise, reraise, raise_if, lift, continue, after, attempt, handle, finally, ◌>>=◌,
  ◌>>◌,
}

module _ {State : Type 0} (measure : State → ℕ) where
  -- However it ends, the action adds at most `n` to the measure.
  pub record Adds {A : Type 0} (n : ℕ) (action : Exec State A) : Type 0 where
    pub at : (st : State) → measure (action st).1 ≤ measure st + n

  pub Adds-weaken :
      {A : Type 0} (k n : ℕ) (action : Exec State A) → k ≤ n → Adds k action → Adds n action
  Adds-weaken k n action le h = record { at = λ st. let bound = h.at st in omega arith }

  pub Adds-pure : {A : Type 0} (n : ℕ) (a : A) → Adds n (pure a)
  unfolding pure
  Adds-pure n a = record { at = λ st. omega arith }

  pub Adds-raise : {A : Type 0} (n : ℕ) (k : Kind) (t : Text) → Adds n (raise {A = A} k t)
  unfolding raise
  Adds-raise n k t = record { at = λ st. omega arith }

  pub Adds-lift : {A : Type 0} (n : ℕ) (r : Result A) → Adds n (lift r)
  unfolding lift
  Adds-lift n r = record { at = λ st. omega arith }

  -- A check, or a computed value, before an action.
  pub Adds-raise_if :
      {A : Type 0} (n : ℕ) (b : Bool) (k : Kind) (t : Text) (next : Exec State A)
      → Adds n next
      → Adds n (raise_if b k t >> next)
  unfolding ◌>>=◌
  Adds-raise_if n true k t next h = record { at = λ st. omega arith }
  Adds-raise_if n false k t next h = record { at = λ st. h.at st }

  pub Adds-lift-bind :
      {A B : Type 0} (n : ℕ) (r : Result A) (next : A → Exec State B)
      → ((a : A) → Adds n (next a))
      → Adds n (lift r >>= next)
  unfolding ◌>>=◌
  Adds-lift-bind n (ok a) next h = record { at = λ st. (h a).at st }
  Adds-lift-bind n (err e) next h = record { at = λ st. omega arith }

  pub Adds-lift-ok :
      {A B : Type 0} (n : ℕ) (a : A) (next : A → Exec State B)
      → Adds n (next a)
      → Adds n (lift (ok a) >>= next)
  unfolding ◌>>=◌
  Adds-lift-ok n a next h = record { at = λ st. h.at st }

  pub Adds-bind :
      {A B : Type 0} (n k : ℕ) (action : Exec State A) (next : A → Exec State B)
      → Adds n action
      → ((a : A) → Adds k (next a))
      → Adds (n + k) (action >>= next)
  unfolding ◌>>=◌
  Adds-bind {A} n k action next h hs = record { at = λ st. go (action st) st (h.at st) }
    where
      go :
          (p : Result A × State) (st : State)
          → measure p.1 ≤ measure st + n
          → measure (continue p.0 next p.1).1 ≤ measure st + (n + k)
      go (ok a, st') st le = let bound = (hs a).at st' in omega arith
      go (err e, st') st le = omega arith

  -- What follows adds nothing.
  pub Adds-then :
      {A B : Type 0} (n : ℕ) (action : Exec State A) (next : A → Exec State B)
      → Adds n action
      → ((a : A) → Adds 0 (next a))
      → Adds n (action >>= next)
  Adds-then n action next h hs =
      Adds-weaken (n + 0) n (action >>= next) (omega arith) (Adds-bind n 0 action next h hs)

  -- What comes before adds nothing.
  pub Adds-before :
      {A B : Type 0} (n : ℕ) (action : Exec State A) (next : A → Exec State B)
      → Adds 0 action
      → ((a : A) → Adds n (next a))
      → Adds n (action >>= next)
  Adds-before n action next h hs =
      Adds-weaken (0 + n) n (action >>= next) (omega arith) (Adds-bind 0 n action next h hs)

  pub Adds-attempt :
      {A : Type 0} (n : ℕ) (action : Exec State A) → Adds n action → Adds n (attempt action)
  unfolding attempt
  Adds-attempt n action h = record { at = h.at }

  pub Adds-handle :
      {A B : Type 0} (n : ℕ) (r : Result A) (next : A → Exec State B)
      (handler : Exception → Exec State B)
      → ((a : A) → Adds n (next a))
      → ((e : Exception) → Adds n (handler e))
      → Adds n (handle r next handler)
  unfolding handle
  Adds-handle n (ok a) next handler h hs = h a
  Adds-handle n (err e) next handler h hs = hs e

  pub Adds-reraise : {A : Type 0} (n : ℕ) (e : Exception) → Adds n (reraise {A = A} e)
  unfolding reraise
  Adds-reraise n e = record { at = λ st. omega arith }

  -- A cleanup that adds nothing.
  pub Adds-finally :
      {A : Type 0} (n : ℕ) (action : Exec State A) (cleanup : Exec State (Unit {0}))
      → Adds n action
      → Adds 0 cleanup
      → Adds n (finally action cleanup)
  unfolding finally
  Adds-finally {A} n action cleanup h hs = record {
    at = λ st.
        let first = h.at st in
        let second = hs.at (action st).1 in
        go (action st).0 (cleanup (action st).1) st (omega arith);
  }
    where
      go :
          (r : Result A) (p : Result (Unit {0}) × State) (st : State)
          → measure p.1 ≤ measure st + n
          → measure (after r p).1 ≤ measure st + n
      go r (ok _, st') st le = le
      go r (err e, st') st le = le

  pub Adds-if :
      {A : Type 0} (n : ℕ) (b : Bool) (f g : Exec State A)
      → Adds n f
      → Adds n g
      → Adds n (if b then f else g)
  Adds-if n true f g h k = h
  Adds-if n false f g h k = k

  pub ruleset adds_rules = (
    Adds-pure, Adds-raise, Adds-lift, Adds-raise_if, Adds-lift-ok, Adds-lift-bind, Adds-if,
    Adds-reraise, Adds-attempt, Adds-handle, Adds-finally, Adds-then,
  )

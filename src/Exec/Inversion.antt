-- ===== src/Exec/Inversion.antt =====
-- What follows of the parts of an action from what it returns.
use pazuzu.Base.{◌≡◌, ◌≢◌, refl}
use pazuzu.Errors.{Exception, Result, ok, err}
use pazuzu.Exec.{Exec, continue, after, finally, handle, ◌>>=◌}

pub bind_ok :
    {State A B : Type 0} (action : Exec State A) (next : A → Exec State B) (st : State) (b : B)
    → ((action >>= next) st).0 ≡ ok b
    → (a : A) × ((action st).0 ≡ ok a) × ((next a (action st).1).0 ≡ ok b)
unfolding ◌>>=◌
bind_ok {A = A} action next st b h = go (action st).0 h
  where
    go :
        (r : Result A)
        → (continue r next (action st).1).0 ≡ ok b
        → (a : A) × (r ≡ ok a) × ((next a (action st).1).0 ≡ ok b)
    go (ok a) k = (a, refl, k)
    go (err e) k = absurd (cc k)

pub finally_ok :
    {State A : Type 0} (action : Exec State A) (cleanup : Exec State (Unit {0})) (st : State)
    (a : A)
    → (finally action cleanup st).0 ≡ ok a
    → (action st).0 ≡ ok a
unfolding finally
finally_ok {State} {A} action cleanup st a h = go (action st).0 (cleanup (action st).1) h
  where
    go : (r : Result A) (p : Result (Unit {0}) × State) → (after r p).0 ≡ ok a → r ≡ ok a
    go r (ok _, st') k = k
    go r (err e, st') k = absurd (cc k)

-- The handlers of a `try` return something only if they are reached and return it.
pub handle_ok :
    {State A B : Type 0} (r : Result A) (next : A → Exec State B)
    (handler : Exception → Exec State B) (st : State) (b : B)
    → (handle r next handler st).0 ≡ ok b
    → ((e : Exception) → (handler e st).0 ≢ ok b)
    → (a : A) × (r ≡ ok a)
unfolding handle
handle_ok (ok a) next handler st b h none_handled = (a, refl)
handle_ok (err e) next handler st b h none_handled = absurd (none_handled e h)

-- ===== src/Exec/Ensures.antt =====
-- What an action ensures of its outcome and of the state that it leaves, from what holds before.
use pazuzu.Base.{◌≡◌, refl, Bool, true, false, Text, if◌then◌else◌}
use pazuzu.Errors.{Kind, Exception, Result, ok, err}
use pazuzu.Exec.{
  Exec, pure, raise, reraise, lift, gets, attempt, finally, after, continue, handle, ◌>>=◌,
}
use pazuzu.Exec.Keeps.{Keeps}

pub record Ensures {S A : Type 0} (P : S → Type 0) (m : Exec S A) (Q : Result A → S → Type 0)
    : Type 0 where
  pub at : (s : S) → P s → Q (m s).0 (m s).1

module _ {S A : Type 0} {P : S → Type 0} where
  pub Ensures-pure :
      {Q : Result A → S → Type 0} (a : A) → ((s : S) → P s → Q (ok a) s) → Ensures P (pure a) Q
  unfolding pure
  Ensures-pure a h = record { at = h }

  pub Ensures-raise :
      {Q : Result A → S → Type 0} (k : Kind) (t : Text)
      → ((e : Exception) (s : S) → P s → Q (err e) s)
      → Ensures P (raise k t) Q
  unfolding raise
  Ensures-raise k t h = record { at = λ s p. h (record { kind = k; message = t }) s p }

  pub Ensures-reraise :
      {Q : Result A → S → Type 0} (e : Exception)
      → ((s : S) → P s → Q (err e) s)
      → Ensures P (reraise e) Q
  unfolding reraise
  Ensures-reraise e h = record { at = h }

  -- An action that keeps `P` ensures `P`, whatever its outcome.
  pub Ensures_of_Keeps :
      {Q : Result A → S → Type 0} (m : Exec S A)
      → Keeps P m
      → ((r : Result A) (s : S) → P s → Q r s)
      → Ensures P m Q
  Ensures_of_Keeps m k h = record { at = λ s p. h (m s).0 (m s).1 (k.at s p) }

  pub Ensures-if :
      {Q : Result A → S → Type 0} (b : Bool) (m n : Exec S A)
      → (b ≡ true → Ensures P m Q)
      → (b ≡ false → Ensures P n Q)
      → Ensures P (if b then m else n) Q
  Ensures-if true m n km kn = km refl
  Ensures-if false m n km kn = kn refl

  pub Ensures-finally :
      {Q : Result A → S → Type 0} (m : Exec S A) (n : Exec S (Unit {0}))
      → Ensures P m Q
      → ((r : Result A) → Keeps (Q r) n)
      → ((r : Result A) (e : Exception) (s : S) → Q r s → Q (err e) s)
      → Ensures P (finally m n) Q
  unfolding finally
  Ensures-finally {Q} m n em kn fails = record {
    at = λ s p. let (r, s') = m s in let (r', s'') = n s' in go r r' s'' ((kn r).at s' (em.at s p));
  }
    where
      go :
          (r : Result A) (r' : Result (Unit {0})) (s : S)
          → Q r s
          → Q (after r (r', s)).0 (after r (r', s)).1
      go r (ok _) s q = q
      go r (err e) s q = fails r e s q

  -- A cleanup that reaches `Q` from what the body leaves, whatever either of them returns.
  pub Ensures-cleanup :
      {M Q : S → Type 0} (m : Exec S A) (n : Exec S (Unit {0}))
      → Ensures P m (λ _ s. M s)
      → Ensures M n (λ _ s. Q s)
      → Ensures P (finally m n) (λ _ s. Q s)
  unfolding finally
  Ensures-cleanup {Q = Q} m n em en = record {
    at = λ s p. go (m s).0 (n (m s).1) (en.at (m s).1 (em.at s p));
  }
    where
      go : (r : Result A) (p : Result (Unit {0}) × S) → Q p.1 → Q (after r p).1
      go r (ok _, s) q = q
      go r (err e, s) q = q

module _ {S A B : Type 0} {P : S → Type 0} {Q : Result B → S → Type 0} where
  pub Ensures-handle :
      (r : Result A) (f : A → Exec S B) (g : Exception → Exec S B)
      → ((a : A) → Ensures P (f a) Q)
      → ((e : Exception) → Ensures P (g e) Q)
      → Ensures P (handle r f g) Q
  unfolding handle
  Ensures-handle (ok a) f g on_ok on_err = on_ok a
  Ensures-handle (err e) f g on_ok on_err = on_err e

  pub Ensures-bind :
      (R : Result A → S → Type 0) (m : Exec S A) (f : A → Exec S B)
      → Ensures P m R
      → ((a : A) → Ensures (R (ok a)) (f a) Q)
      → ((e : Exception) (s : S) → R (err e) s → Q (err e) s)
      → Ensures P (m >>= f) Q
  unfolding ◌>>=◌
  Ensures-bind R m f em kf fails = record { at = λ s p. go (m s).0 (m s).1 (em.at s p) }
    where
      go : (r : Result A) (s : S) → R r s → Q (continue r f s).0 (continue r f s).1
      go (ok a) s q = (kf a).at s q
      go (err e) s q = fails e s q

  -- A value computed before an action, which gets the equation.
  pub Ensures-lift-bind :
      (r : Result A) (f : A → Exec S B)
      → ((a : A) → r ≡ ok a → Ensures P (f a) Q)
      → ((e : Exception) (s : S) → P s → Q (err e) s)
      → Ensures P (lift r >>= f) Q
  unfolding ◌>>=◌
  Ensures-lift-bind (ok a) f em fails = record { at = (em a refl).at }
  Ensures-lift-bind (err e) f em fails = record { at = fails e }

  -- `try: m`, and what follows it, which gets the outcome.
  pub Ensures-attempt-bind :
      (R : Result A → S → Type 0) (m : Exec S A) (f : Result A → Exec S B)
      → Ensures P m R
      → ((r : Result A) → Ensures (R r) (f r) Q)
      → Ensures P (attempt m >>= f) Q
  unfolding ◌>>=◌ attempt
  Ensures-attempt-bind R m f em kf = record { at = λ s p. (kf (m s).0).at (m s).1 (em.at s p) }

  -- A value read off the state.
  pub Ensures-gets-bind :
      (read : S → A) (f : A → Exec S B)
      → ((a : A) → Ensures (λ s. P s × (read s ≡ a)) (f a) Q)
      → Ensures P (gets read >>= f) Q
  unfolding ◌>>=◌ gets
  Ensures-gets-bind read f em = record { at = λ s h. (em (read s)).at s (h, refl) }

  -- A `try` with its `else` part and its handlers, each of which knows how the `try` ended.
  pub Ensures-try :
      (R : Result A → S → Type 0) (m : Exec S A) (f : A → Exec S B) (g : Exception → Exec S B)
      → Ensures P m R
      → ((a : A) → Ensures (R (ok a)) (f a) Q)
      → ((e : Exception) → Ensures (R (err e)) (g e) Q)
      → Ensures P (attempt m >>= λ r. handle r f g) Q
  unfolding handle
  Ensures-try R m f g em on_ok on_err = Ensures-attempt-bind R m _ em go
    where
      go : (r : Result A) → Ensures (R r) (handle r f g) Q
      go (ok a) = on_ok a
      go (err e) = on_err e

-- ===== src/Lease/Waiting.antt =====
-- The waiting loop of `acquire`: when it ends, and how.
use mathlib.Core.Path.{subst}
use pazuzu.Base.{
  ap, sym, append-nil, ◌∙◌, Option-cases, ℕ, ◌≡◌, refl, ◌↔◌, true, false, Option, none, some, List,
  [], ◌∷◌, ◌++◌, inl, inr, All, Bool-cases,
}
use pazuzu.Lease.{
  Locks, SessionLease, SessionLeasePool, try_acquire, Poll, Acquired, leased, timed_out, waiting,
  deadline_passed, acquire,
}

module _ (pool : SessionLeasePool) (deadline : Option ℕ) where
  -- A round that finds no free slot before the deadline.
  abbrev pub IsBlocked : Poll → Type 0
  IsBlocked poll =
      (try_acquire pool poll.locks ≡ none) × (deadline_passed deadline poll.clock ≡ false)

  -- How a wait ends: at the first round that is not blocked, or not in the rounds given.
  pub data Ends : List Poll → Acquired → Type 0 where
    grants :
        (before after : List Poll) (poll : Poll) (lease : SessionLease) (locks : Locks)
        → All IsBlocked before
        → try_acquire pool poll.locks ≡ some (lease, locks)
        → Ends (before ++ (poll ∷ after)) (leased lease locks)
    expires :
        (before after : List Poll) (poll : Poll)
        → All IsBlocked before
        → try_acquire pool poll.locks ≡ none
        → deadline_passed deadline poll.clock ≡ true
        → Ends (before ++ (poll ∷ after)) timed_out
    goes_on : (polls : List Poll) → All IsBlocked polls → Ends polls waiting

  blocked_first :
      (poll : Poll) (polls : List Poll) (a : Acquired)
      → IsBlocked poll
      → Ends polls a
      → Ends (poll ∷ polls) a
  blocked_first poll polls a b (grants before after p lease locks h t) =
      grants (poll ∷ before) after p lease locks (b, h) t
  blocked_first poll polls a b (expires before after p h t d) =
      expires (poll ∷ before) after p (b, h) t d
  blocked_first poll polls a b (goes_on polls' h) = goes_on (poll ∷ polls) (b, h)

  acquire-Ends : (polls : List Poll) → Ends polls (acquire pool deadline polls)
  unfolding acquire
  acquire-Ends [] = goes_on [] tt
  acquire-Ends (poll ∷ polls) = elim (Option-cases (try_acquire pool poll.locks)) [
    | inr ((lease, locks), e) ↦ rw (e, acquire) (grants [] polls poll lease locks tt e)
    | inl e ↦ elim (Bool-cases (deadline_passed deadline poll.clock)) [
      | inl late ↦ rw (e, acquire, late) (expires [] polls poll tt e late)
      | inr early ↦
          rw (e, acquire, early) (blocked_first poll polls _ (e, early) (acquire-Ends polls))
    ]
  ]

  skip_blocked :
      (before rest : List Poll)
      → All IsBlocked before
      → acquire pool deadline (before ++ rest) ≡ acquire pool deadline rest
  unfolding acquire
  skip_blocked [] rest h = refl
  skip_blocked (poll ∷ before) rest ((e, early), h) =
      rw (e, acquire, early) (skip_blocked before rest h)

  Ends-acquire : (polls : List Poll) (a : Acquired) → Ends polls a → acquire pool deadline polls ≡ a
  unfolding acquire
  Ends-acquire polls a (grants before after p lease locks h t) =
      skip_blocked before (p ∷ after) h ∙ rw (t, acquire)
  Ends-acquire polls a (expires before after p h t d) =
      skip_blocked before (p ∷ after) h ∙ rw (t, acquire, d)
  Ends-acquire polls a (goes_on polls' h) =
      ap (acquire pool deadline) (sym (append-nil polls')) ∙ skip_blocked polls' [] h

  -- Waiting for a lease ends with a grant at the first round that finds a free slot, if no earlier
  -- round came at or after the deadline; with a timeout at the first round that finds none and
  -- comes at or after the deadline; and goes on exactly while neither has happened. Each of the
  -- three results comes about in just that way.
  pub acquire_iff :
      (polls : List Poll) (a : Acquired) → (acquire pool deadline polls ≡ a) ↔ Ends polls a
  acquire_iff polls a = (λ e. subst (Ends polls) e (acquire-Ends polls), Ends-acquire polls a)

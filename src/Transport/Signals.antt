-- ===== src/Transport/Signals.antt =====
-- The steps that wait for a process and signal it, where it may be signalled.
use pazuzu.Base.{
  ℕ, zero, suc, ◌≡◌, ◌⊎◌, Bool, true, false, Option, some, is_some, List, [], ◌∷◌, ◌==◌,
  if◌then◌else◌,
}
use pazuzu.Errors.{Kind}
use pazuzu.Exec.{gets}
use pazuzu.Exec.Keeps.{Keeps, Keeps-pure, Keeps-bind, Keeps-if, keeps_rules}
use pazuzu.Transport.{Step, Host, Site, Method, perform, observe}
use pazuzu.Transport.Mastering.{
  Posix, suppress, pause, terminate, kill, poll_rounds, stop_process, is_lookup_error, is_expired,
}

-- Whether a process was found to be the recorded master when it was last verified.
abbrev pub was_verified : ℕ → List Step → Bool
was_verified pid [] = false
was_verified pid (Step.verify p answer ∷ trace) =
    let before = was_verified pid trace in if p == pid then answer else before
was_verified pid (_ ∷ trace) = was_verified pid trace

-- A process that may be signalled: the transport's own, or one that the last verification of it found
-- to be the recorded master.
abbrev pub MaySignal : Option ℕ → ℕ → List Step → Type 0
MaySignal own pid trace = (own ≡ some pid) ⊎ (was_verified pid trace ≡ true)

-- Every signal of the trace went to such a process.
abbrev pub IsAuthorized : Option ℕ → List Step → Type 0
IsAuthorized own [] = Unit
IsAuthorized own (Step.terminate pid ∷ trace) = MaySignal own pid trace × IsAuthorized own trace
IsAuthorized own (Step.kill pid ∷ trace) = MaySignal own pid trace × IsAuthorized own trace
IsAuthorized own (_ ∷ trace) = IsAuthorized own trace

module _ {W : Type 0} (host : Host W) (posix : Posix W) (own : Option ℕ) where
  abbrev pub Authorized : Site W → Type 0
  Authorized site = IsAuthorized own site.trace

  -- The same, while `pid` may be signalled.
  abbrev pub Sure : ℕ → Site W → Type 0
  Sure pid site = MaySignal own pid site.trace × IsAuthorized own site.trace

  module _ (pid : ℕ) where
    pub Keeps-suppress :
        (expected : Kind → Bool) (m : Method W (Unit {0}))
        → Keeps (Sure pid) m
        → Keeps (Sure pid) (suppress expected m)
    unfolding suppress
    Keeps-suppress expected m h = search keeps_rules depth 10

    pub Keeps-pause : Keeps (Sure pid) (pause host posix)
    unfolding pause perform
    Keeps-pause = record { at = λ site h. h }

    pub Keeps-observe : {A : Type 0} (f : W → A) → Keeps (Sure pid) (observe f)
    unfolding observe gets
    Keeps-observe f = record { at = λ site h. h }

    pub Keeps-terminate : Keeps (Sure pid) (terminate host posix pid)
    unfolding terminate perform
    Keeps-terminate =
        Keeps-suppress is_lookup_error _ (record { at = λ site (may, fine). (may, (may, fine)) })

    pub Keeps-kill : Keeps (Sure pid) (kill host posix pid)
    unfolding kill perform
    Keeps-kill =
        Keeps-suppress is_lookup_error _ (record { at = λ site (may, fine). (may, (may, fine)) })

    pub Keeps-poll_rounds : (rounds : ℕ) → Keeps (Sure pid) (poll_rounds host posix rounds pid)
    unfolding poll_rounds
    Keeps-poll_rounds zero = Keeps-pure tt
    Keeps-poll_rounds (suc rounds) = Keeps-bind _ _ (Keeps-observe (host.poll pid)) (λ code.
        Keeps-if (is_some code) _ _ (λ _. Keeps-pure tt)
          (λ _. Keeps-bind _ _ Keeps-pause (λ _. Keeps-poll_rounds rounds)))

    pub Keeps-wait_exit :
        Keeps (Sure pid) (perform (Step.wait_exit pid) (posix.wait_exit pid 1_000))
    unfolding perform
    Keeps-wait_exit = record { at = λ site h. h }

    pub Keeps-stop_process : Keeps (Sure pid) (stop_process host posix pid)
    unfolding stop_process
    Keeps-stop_process = Keeps-bind _ _ (Keeps-poll_rounds 20) (λ _.
        Keeps-bind _ _ (Keeps-observe (host.poll pid)) (λ code.
          Keeps-bind _ _
            (Keeps-if (is_some code) _ _ (λ _. Keeps-pure tt)
              (λ _. Keeps-bind _ _ Keeps-terminate (λ _. Keeps-poll_rounds 20)))
            (λ _. Keeps-bind _ _ (Keeps-observe (host.poll pid)) (λ code'.
              Keeps-bind _ _ (Keeps-if (is_some code') _ _ (λ _. Keeps-pure tt) (λ _. Keeps-kill))
                (λ _. Keeps-suppress is_expired _ Keeps-wait_exit)))))

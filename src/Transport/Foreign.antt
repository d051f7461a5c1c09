-- ===== src/Transport/Foreign.antt =====
-- What stopping the process of a master raises, where the operating system raises its own exceptions.
use pazuzu.Base.{
  arith, ℕ, zero, suc, ◌≡◌, Bool, true, false, List, ◌∷◌, Text, refl, is_some, if◌then◌else◌,
}
use pazuzu.Errors.{Kind, Exception, Result, ok, err, is_connection_unavailable}
use pazuzu.Exec.{pure, gets, modify, ◌>>=◌}
use pazuzu.Exec.Ensures.{
  Ensures, Ensures-pure, Ensures-bind, Ensures-if, Ensures-reraise, Ensures-try,
}
use pazuzu.Transport.{OpenSshTransport, Step, Host, Site, Method, perform, self, observe}
use pazuzu.Transport.Probing.{is_os_error}
use pazuzu.Transport.Mastering.{
  outside, Posix, suppress, pause, terminate, kill, poll_rounds, stop_process, is_lookup_error,
  is_expired, update,
}

-- A call that does not raise the ConnectionUnavailable of the program.
abbrev pub IsForeign : {A : Type 0} → Result A → Type 0
IsForeign (ok a) = Unit
IsForeign (err e) = is_connection_unavailable e.kind ≡ false

-- A call that raises nothing but an OSError.
abbrev pub IsOsCall : {A : Type 0} → Result A → Type 0
IsOsCall (ok a) = Unit
IsOsCall (err e) = is_os_error e.kind ≡ true

pub IsOsCall-IsForeign : {A : Type 0} (r : Result A) → IsOsCall r → IsForeign r
unfolding is_connection_unavailable
IsOsCall-IsForeign (ok a) h = tt
IsOsCall-IsForeign (err e) h = go e.kind h
  where
    go : (k : Kind) → is_os_error k ≡ true → is_connection_unavailable k ≡ false
    go Kind.connection_unavailable h = absurd (cc h)
    go k h = ground arith

-- What the operating system raises: an OSError where it writes or removes a file, and never an exception of the
-- program.
pub record IsPosix {W : Type 0} (posix : Posix W) : Type 0 where
  pub opens : (path : Text) (w : W) → IsForeign (posix.open_log path w).0
  pub spawns : (argv : List Text) (w : W) → IsForeign (posix.spawn argv w).0
  pub terminates : (pid : ℕ) (w : W) → IsForeign (posix.terminate_group pid w).0
  pub kills : (pid : ℕ) (w : W) → IsForeign (posix.kill_group pid w).0
  pub waits : (pid time : ℕ) (w : W) → IsForeign (posix.wait_exit pid time w).0
  pub unlinks : (path : Text) (w : W) → IsOsCall (posix.unlink path w).0
  pub creates : (target content : Text) (w : W) → IsOsCall (posix.create target content w).0
  pub replaces : (source target : Text) (w : W) → IsOsCall (posix.replace source target w).0

-- The last step waited for a process to exit, or was a call to start one that raised.
abbrev pub is_reaped : List Step → Bool
is_reaped (Step.wait_exit pid ∷ trace) = true
is_reaped (Step.spawn false ∷ trace) = true
is_reaped _ = false

module _ {W : Type 0} (host : Host W) (posix : Posix W) (is_posix : IsPosix posix)
    (P : OpenSshTransport → Type 0) where
  -- An action that keeps `P` and whose exception is not the program's.
  abbrev pub Plain : {A : Type 0} → Method W A → Type 0
  Plain m = Ensures (λ site. P site.transport) m (λ r site. P site.transport × IsForeign r)

  Plain-bind :
      {A B : Type 0} (m : Method W A) (next : A → Method W B)
      → Plain m
      → ((a : A) → Plain (next a))
      → Plain (m >>= next)
  Plain-bind m next h hs =
      Ensures-bind (λ r site. P site.transport × IsForeign r) m next h
        (λ a. record { at = λ site p. (hs a).at site p.0 }) (λ e site p. p)

  Plain-if : (b : Bool) (m n : Method W (Unit {0})) → Plain m → Plain n → Plain (if b then m else n)
  Plain-if b m n hm hn = Ensures-if b m n (λ _. hm) (λ _. hn)

  Plain-pure : {A : Type 0} (a : A) → Plain (pure a)
  Plain-pure a = Ensures-pure a (λ site p. (p, tt))

  Plain-perform :
      {A : Type 0} (step : Step) (f : W → Result A × W)
      → ((w : W) → IsForeign (f w).0)
      → Plain (perform step f)
  unfolding perform
  Plain-perform step f h = record { at = λ site p. (p, h site.world) }

  pub Plain-observe : {A : Type 0} (f : W → A) → Plain (observe f)
  unfolding observe gets
  Plain-observe f = record { at = λ site p. (p, tt) }

  pub Plain-self : Plain self
  unfolding self gets
  Plain-self = record { at = λ site p. (p, tt) }

  pub Plain-update :
      (f : OpenSshTransport → OpenSshTransport)
      → ((t : OpenSshTransport) → P t → P (f t))
      → Plain (update f)
  unfolding update modify
  Plain-update f h = record { at = λ site p. (h site.transport p, tt) }

  pub Plain-outside :
      {A : Type 0} (f : W → Result A × W)
      → ((w : W) → IsForeign (f w).0)
      → Plain (outside host posix f)
  unfolding outside
  Plain-outside f h = record { at = λ site p. (p, h site.world) }

  Plain-suppress :
      (expected : Kind → Bool) (m : Method W (Unit {0})) → Plain m → Plain (suppress expected m)
  unfolding suppress
  Plain-suppress expected m h =
      Ensures-try (λ r site. P site.transport × IsForeign r) m _ _ h
        (λ _. Ensures-pure tt (λ site p. p))
        (λ e.
          Ensures-if (expected e.kind) _ _ (λ _. Ensures-pure tt (λ site p. (p.0, tt)))
            (λ _. Ensures-reraise e (λ site p. p)))

  Plain-pause : Plain (pause host posix)
  unfolding pause
  Plain-pause = Plain-perform _ _ (λ w. tt)

  Plain-poll_rounds : (rounds pid : ℕ) → Plain (poll_rounds host posix rounds pid)
  unfolding poll_rounds
  Plain-poll_rounds zero pid = Plain-pure tt
  Plain-poll_rounds (suc rounds) pid = Plain-bind _ _ (Plain-observe (host.poll pid)) (λ code.
      Plain-if (is_some code) _ _ (Plain-pure tt)
        (Plain-bind _ _ Plain-pause (λ _. Plain-poll_rounds rounds pid)))

  Plain-terminate : (pid : ℕ) → Plain (terminate host posix pid)
  unfolding terminate
  Plain-terminate pid =
      Plain-suppress is_lookup_error _ (Plain-perform _ _ (is_posix.terminates pid))

  Plain-kill : (pid : ℕ) → Plain (kill host posix pid)
  unfolding kill
  Plain-kill pid = Plain-suppress is_lookup_error _ (Plain-perform _ _ (is_posix.kills pid))

  -- What has waited for a process at its end, unless it raises.
  abbrev pub Reaps : {A : Type 0} → Result A → Site W → Type 0
  Reaps (ok a) site = P site.transport × (is_reaped site.trace ≡ true)
  Reaps (err e) site = P site.transport × (is_connection_unavailable e.kind ≡ false)

  Reaps-wait_exit :
      (pid : ℕ)
      → Ensures
          (λ site. P site.transport)
          (suppress is_expired (perform (Step.wait_exit pid) (posix.wait_exit pid 1_000)))
          Reaps
  unfolding suppress perform
  Reaps-wait_exit pid =
      Ensures-try (λ r site. P site.transport × (is_reaped site.trace ≡ true) × IsForeign r) _ _ _
        (record { at = λ site p. (p, refl, is_posix.waits pid 1_000 site.world) })
        (λ _. Ensures-pure tt (λ site p. (p.0, p.1)))
        (λ e.
          Ensures-if (is_expired e.kind) _ _ (λ _. Ensures-pure tt (λ site p. (p.0, p.1)))
            (λ _. Ensures-reraise e (λ site p. (p.0, p.2))))

  -- A bind whose first action is plain.
  pub after_plain :
      {A B : Type 0} {Q : Result B → Site W → Type 0} (m : Method W A) (next : A → Method W B)
      → Plain m
      → ((a : A) → Ensures (λ site. P site.transport) (next a) Q)
      → ((e : Exception) (site : Site W)
          → P site.transport
          → is_connection_unavailable e.kind ≡ false
          → Q (err e) site)
      → Ensures (λ site. P site.transport) (m >>= next) Q
  after_plain m next h hs fails =
      Ensures-bind (λ r site. P site.transport × IsForeign r) m next h
        (λ a. record { at = λ site p. (hs a).at site p.0 }) (λ e site p. fails e site p.0 p.1)

  -- Where `_stop_owned_master` returns from a process, it has waited for it.
  pub Reaps-stop_process :
      (pid : ℕ) → Ensures (λ site. P site.transport) (stop_process host posix pid) Reaps
  unfolding stop_process
  Reaps-stop_process pid =
      after_plain _ _ (Plain-poll_rounds 20 pid)
        (λ _.
          after_plain _ _ (Plain-observe (host.poll pid))
            (λ code.
              after_plain _ _
                (Plain-if (is_some code) _ _ (Plain-pure tt)
                  (Plain-bind _ _ (Plain-terminate pid) (λ _. Plain-poll_rounds 20 pid)))
                (λ _.
                  after_plain _ _ (Plain-observe (host.poll pid))
                    (λ code'.
                      after_plain _ _
                        (Plain-if (is_some code') _ _ (Plain-pure tt) (Plain-kill pid))
                        (λ _. Reaps-wait_exit pid) (λ e site p c. (p, c)))
                    (λ e site p c. (p, c)))
                (λ e site p c. (p, c)))
            (λ e site p c. (p, c)))
        (λ e site p c. (p, c))

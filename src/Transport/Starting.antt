-- ===== src/Transport/Starting.antt =====
-- What `start_master` leaves: a master that answers, or an exception and no master of its own.
use pazuzu.Base.{Bool, true, false, ℕ, suc, ◌+◌, ◌*◌, ◌≤◌, ◌≡◌, refl, inr, none, Text}
use pazuzu.Errors.{Result, ok, err}
use pazuzu.Exec.{modify, finally, after}
use pazuzu.Exec.Ensures.{
  Ensures, Ensures-pure, Ensures-bind, Ensures-if, Ensures-reraise, Ensures-raise, Ensures-try,
  Ensures-gets-bind,
}
use pazuzu.Transport.{Host, Site, Method, self}
use pazuzu.Transport.Probing.{is_os_error, wait_until_ready}
use pazuzu.Transport.Mastering.{Posix, update, outside, temporary_name}
use pazuzu.Transport.Startup.{write_master_owner, own_master, start_master}
use pazuzu.Transport.Living.{Answered, Ensures-wait_until_ready}
use pazuzu.Transport.Foreign.{IsOsCall, IsPosix}
use pazuzu.Transport.Readiness.{IsClock, IsAnswered, wait_until_ready-IsAnswered}
use pazuzu.Transport.Releasing.{IsStarted, Failed, Ensures-abandon, after_release}
use pazuzu.Transport.Launching.{Ready, Running, Launched, Ensures-launch}
use pazuzu.Transport.Steady.{Keeps-wait_until_ready}

module _ {W : Type 0} (host : Host W) (posix : Posix W) (is_posix : IsPosix posix)
    (rounds : ℕ) where
  Ensures-outside :
      {A : Type 0} (f : W → Result A × W)
      → ((w : W) → IsOsCall (f w).0)
      → Ensures
          (λ site. Running host posix is_posix rounds site.transport)
          (outside host posix f)
          (λ r site. Running host posix is_posix rounds site.transport × IsOsCall r)
  unfolding outside
  Ensures-outside f h = record { at = λ site p. (p, h site.world) }

  Ensures-cleaned :
      (m : Method W (Unit {0})) (path : Text)
      → Ensures
          (λ site. Running host posix is_posix rounds site.transport)
          m
          (λ r site. Running host posix is_posix rounds site.transport × IsOsCall r)
      → Ensures
          (λ site. Running host posix is_posix rounds site.transport)
          (finally m (outside host posix (posix.unlink path)))
          (λ r site. Running host posix is_posix rounds site.transport × IsOsCall r)
  unfolding finally
  Ensures-cleaned m path h = record {
    at = λ site p.
        go (m site).0 (outside host posix (posix.unlink path) (m site).1) (h.at site p).1
          ((Ensures-outside _ (is_posix.unlinks path)).at (m site).1 (h.at site p).0);
  }
    where
      go :
          (r : Result (Unit {0})) (q : Result (Unit {0}) × Site W)
          → IsOsCall r
          → Running host posix is_posix rounds q.1.transport × IsOsCall q.0
          → Running host posix is_posix rounds (after r q).1.transport × IsOsCall (after r q).0
      go r (ok _, site) h k = (k.0, h)
      go r (err e, site) h k = k

  Ensures-write :
      (target temporary : Text) (pid : ℕ)
      → Ensures
          (λ site. Running host posix is_posix rounds site.transport)
          (write_master_owner host posix target temporary pid)
          (λ r site. Running host posix is_posix rounds site.transport × IsOsCall r)
  unfolding write_master_owner
  Ensures-write target temporary pid = Ensures-cleaned _ _ (
      Ensures-bind (λ r site. Running host posix is_posix rounds site.transport × IsOsCall r) _ _
        (Ensures-outside _ (is_posix.creates temporary _))
        (λ _. record {
          at = λ site p. (Ensures-outside _ (is_posix.replaces temporary target)).at site p.0;
        })
        (λ e site p. p))

  abbrev Owned : Result (Unit {0}) → Site W → Type 0
  Owned (ok _) site = Running host posix is_posix rounds site.transport
  Owned (err e) site = Failed host posix is_posix e site

  Ensures-own :
      (temporary : ℕ → Text) (pid : ℕ)
      → Ensures
          (λ site. Running host posix is_posix rounds site.transport)
          (own_master host posix temporary pid)
          Owned
  unfolding own_master self
  Ensures-own temporary pid =
      Ensures-gets-bind (λ site. site.transport) _
        (λ t.
          Ensures-try (λ r site. Running host posix is_posix rounds site.transport × IsOsCall r) _ _
            _ (record { at = λ site p. (Ensures-write _ (temporary pid) pid).at site p.0 })
            (λ _. Ensures-pure tt (λ site p. p.0))
            (λ e.
              Ensures-if (is_os_error e.kind) _ _
                (λ _.
                  after_release host posix is_posix _ _
                    (record { at = λ site p. (Ensures-abandon host posix is_posix).at site p.0.0 })
                    (Ensures-raise _ _ (λ e site p. (p.0, inr p.1))) (λ e site p. p))
                (λ other. Ensures-reraise e (λ site p. absurd (cc (other, p.1))))))

  Ensures-ready :
      IsClock host
      → Ensures
          (λ site. Running host posix is_posix rounds site.transport)
          (wait_until_ready host (suc rounds))
          (λ r site.
            Running host posix is_posix rounds site.transport × IsAnswered r × Answered host r site)
  Ensures-ready clock = record {
    at = λ site p. (
      (Keeps-wait_until_ready host (Running host posix is_posix rounds) (suc rounds)).at site p,
      wait_until_ready-IsAnswered host clock site rounds p.1,
      (Ensures-wait_until_ready host (suc rounds)).at site tt,
    );
  }

  started :
      (ready : Bool) (site : Site W)
      → Running host posix is_posix rounds site.transport
        × IsAnswered (ok ready)
        × Answered host (ok ready) site
      → IsStarted host (ok ready) site
  started true site (running, _, live) = (refl, live, running.0.0, running.0.1)
  started false site (running, answers, _) = absurd (cc answers)

  Ensures-start :
      (clock : IsClock host) (parent name : Text)
      → Ensures
          (λ site. Ready host posix is_posix rounds site.transport)
          (start_master host posix parent name (suc rounds))
          (IsStarted host)
  unfolding start_master update modify
  Ensures-start clock parent name =
      Ensures-bind (Launched host posix is_posix rounds) _ _
        (Ensures-launch host posix is_posix rounds)
        (λ pid.
          Ensures-bind Owned _ _ (record { at = λ site p. ((refl, p.1), p.0.1) })
            (λ _.
              Ensures-bind Owned _ _ (Ensures-own (temporary_name parent name) pid)
                (λ _.
                  Ensures-try
                    (λ r site.
                      Running host posix is_posix rounds site.transport
                      × IsAnswered r
                      × Answered host r site)
                    _ _ _ (Ensures-ready clock)
                    (λ ready. Ensures-pure ready (λ site p. started ready site p))
                    (λ e.
                      after_release host posix is_posix _ _
                        (record {
                          at = λ site p. (Ensures-abandon host posix is_posix).at site p.0.0;
                        })
                        (Ensures-reraise e (λ site p. (p.0, inr p.1))) (λ e site p. p)))
                (λ e site p. p))
            (λ e site p. p))
        (λ e site p. p)

-- A start of a transport that has no master either returns, and then it has one, its log is open, and
-- the last that happened but for giving back the probe's slot is that a session over it exited with
-- 0; or it raises, and then the transport holds no master. If it raises ConnectionUnavailable, its
-- log is closed and forgotten, and the last step of its trace waited for its process or was a call
-- to start one that raised. So many rounds are enough for the wait where the clock counts what is
-- slept; the operating system raises only an OSError where it writes or removes a file, and never
-- ConnectionUnavailable.
pub start_master-IsStarted :
    {W : Type 0} (host : Host W) (posix : Posix W) (clock : IsClock host) (is_posix : IsPosix posix)
    (parent name : Text) (rounds : ℕ) (site : Site W)
    → site.transport.master ≡ none
    → site.transport.settings.connect_timeout + 5_000 ≤ 100 * rounds
    → IsStarted host
        (start_master host posix parent name (suc rounds) site).0
        (start_master host posix parent name (suc rounds) site).1
start_master-IsStarted host posix clock is_posix parent name rounds site gone patient =
    (Ensures-start host posix is_posix rounds clock parent name).at site (gone, patient)

-- ===== src/Transport/Readiness.antt =====
-- `_wait_until_ready` ends: the deadline passes after a number of rounds that its timeout fixes.
use pazuzu.Base.{
  ℕ, zero, suc, ◌+◌, ◌-◌, ◌*◌, ◌++◌, ◌≤◌, ◌≡◌, refl, Bool, true, false, not, List, Text, Bytes,
  codes, arith, leb, if◌then◌else◌,
}
use pazuzu.Errors.{Result, ok, err}
use pazuzu.Exec.{gets, pure, ◌>>=◌, ◌>>◌}
use pazuzu.Exec.Keeps.{Keeps, keeps_rules}
use pazuzu.Exec.Ensures.{Ensures, Ensures-pure, Ensures_of_Keeps, Ensures-if, Ensures-bind}
use pazuzu.Supervisor.{is_ok}
use pazuzu.Transport.{Step, Host, Site, perform, self, observe, raise_master_error}
use pazuzu.Transport.Probing.{
  control_command, control_check, raise_if_master_exited, probe_until_settled, wait_for_control,
  wait_until_ready, reason,
}

-- The clock does not go back while a subprocess runs, and sleeping takes at least its time.
pub record IsClock {W : Type 0} (host : Host W) : Type 0 where
  pub runs :
      (argv : List Text) (stdin : Bytes) (timeout limit : ℕ) (w : W)
      → host.monotonic w ≤ host.monotonic (host.run_process argv stdin timeout limit w).1
  pub sleeps : (n : ℕ) (w : W) → host.monotonic w + n ≤ host.monotonic (host.sleep n w)

-- The master answers, or an exception says why it does not.
abbrev pub IsAnswered : Result Bool → Type 0
IsAnswered (ok answered) = answered ≡ true
IsAnswered (err e) = Unit

module _ {W : Type 0} (host : Host W) (clock : IsClock host) (time : ℕ) where
  -- The clock has reached `time`.
  abbrev Reached : Site W → Type 0
  Reached site = time ≤ host.monotonic site.world

  Keeps-run :
      (argv : List Text) (stdin : Bytes) (timeout limit : ℕ)
      → Keeps Reached (perform (Step.run argv) (host.run_process argv stdin timeout limit))
  unfolding perform
  Keeps-run argv stdin timeout limit = record {
    at = λ site h. omega (arith, clock.runs argv stdin timeout limit site.world);
  }

  Keeps-self : Keeps Reached self
  unfolding self
  Keeps-self = search keeps_rules

  Keeps-observe : {A : Type 0} (f : W → A) → Keeps Reached (observe f)
  unfolding observe
  Keeps-observe f = search keeps_rules

  Keeps-control_check : Keeps Reached (control_check host)
  unfolding control_check control_command
  Keeps-control_check = search (keeps_rules, Keeps-run, Keeps-self, Keeps-observe) depth 12

  Keeps-raise_master_error :
      {A : Type 0} (prefix : Text) → Keeps Reached (raise_master_error host {A = A} prefix)
  unfolding raise_master_error
  Keeps-raise_master_error prefix = search keeps_rules

  Keeps-raise_if : Keeps Reached (raise_if_master_exited host)
  unfolding raise_if_master_exited
  Keeps-raise_if = search (keeps_rules, Keeps-raise_master_error, Keeps-self, Keeps-observe)

  Ensures-now :
      Ensures Reached
        (observe host.monotonic)
        (λ r site. Reached site × (r ≡ ok (host.monotonic site.world)))
  unfolding observe gets
  Ensures-now = record { at = λ site h. (h, refl) }

module _ {W : Type 0} (host : Host W) (clock : IsClock host) where
  raises :
      (prefix : Text) (site : Site W)
      → IsAnswered (raise_master_error host {A = Bool} prefix site).0
  unfolding raise_master_error self observe ◌>>=◌
  raises prefix site = tt

  pause_reaches :
      (time : ℕ) (site : Site W)
      → time ≤ host.monotonic site.world
      → Reached host clock
          (time + 100)
          (perform (Step.pause 100) (λ w. (ok tt, host.sleep 100 w)) site).1
  unfolding perform
  pause_reaches time site h = omega (arith, clock.sleeps 100 site.world)

  -- What the rounds after one that slept do.
  abbrev Rest : ℕ → ℕ → ℕ → Type 0
  Rest k deadline time =
      1 ≤ k
      → deadline ≤ (time + 100) + 100 * (k - 1)
      → Ensures (Reached host clock (time + 100)) (wait_for_control host k deadline)
          (λ r site. IsAnswered r)

  -- The end of a round, by the reading of the clock.
  Ensures-round :
      (k deadline time now : ℕ)
      → deadline ≤ time + 100 * k
      → leb deadline now ≡ false
      → Rest k deadline time
      → Ensures
          (λ site. Reached host clock time site × (ok now ≡ ok (host.monotonic site.world)))
          (perform (Step.pause 100) (λ w. (ok tt, host.sleep 100 w))
            >> wait_for_control host k deadline)
          (λ r site. IsAnswered r)
  Ensures-round zero deadline time now h e rest = record {
    at = λ site (r, s). absurd (ground arith);
  }
  Ensures-round (suc k) deadline time now h e rest =
      Ensures-bind (λ _ site. Reached host clock (time + 100) site) _ _
        (record { at = λ site (r, s). pause_reaches time site r })
        (λ _. rest (omega arith) (omega arith)) (λ x site r. tt)

  Ensures-rounds :
      (k deadline time : ℕ)
      → deadline ≤ time + 100 * k
      → Rest k deadline time
      → Ensures
          (Reached host clock time)
          (wait_for_control host (suc k) deadline)
          (λ r site. IsAnswered r)
  unfolding wait_for_control
  Ensures-rounds k deadline time h rest =
      Ensures-bind (λ _ site. Reached host clock time site) _ _
        (Ensures_of_Keeps _ (Keeps-control_check host clock time) (λ r site p. p))
        (λ answers.
          Ensures-if answers _ _ (λ _. Ensures-pure true (λ site p. refl))
            (λ _.
              Ensures-bind (λ _ site. Reached host clock time site) _ _
                (Ensures_of_Keeps _ (Keeps-raise_if host clock time) (λ r site p. p))
                (λ _.
                  Ensures-bind _ _ _ (Ensures-now host clock time)
                    (λ now.
                      Ensures-if (leb deadline now) _ _
                        (λ _. record {
                          at = λ site p. raises (codes "SSH master startup timed out") site;
                        })
                        (λ e. Ensures-round k deadline time now h e rest))
                    (λ x site p. tt))
                (λ x site p. tt)))
        (λ x site p. tt)

  Ensures-wait :
      (k deadline time : ℕ)
      → deadline ≤ time + 100 * k
      → Ensures
          (Reached host clock time)
          (wait_for_control host (suc k) deadline)
          (λ r site. IsAnswered r)
  Ensures-wait zero deadline time h =
      Ensures-rounds zero deadline time h (λ p q. absurd (omega arith))
  Ensures-wait (suc k) deadline time h =
      Ensures-rounds (suc k) deadline time h
        (λ p q. Ensures-wait k deadline (time + 100) (omega (arith, q)))

  settles :
      (site : Site W) (timeout : ℕ)
      → IsAnswered
          ((probe_until_settled host >>= λ outcome.
              if is_ok outcome
              then pure true
              else raise_master_error host
                  (codes "session probe failed" ++ reason host outcome timeout))
            site).0
  unfolding ◌>>=◌ raise_master_error self observe
  settles site timeout = ground arith

  -- Waiting for a new master ends, whether it answers, exits, or does neither: a round for each
  -- tenth of a second of the connection timeout and its five seconds, and one more, are enough for
  -- it to return or to raise, if the clock counts what is slept and does not go back while a
  -- command runs.
  pub wait_until_ready-IsAnswered :
      (site : Site W) (rounds : ℕ)
      → site.transport.settings.connect_timeout + 5_000 ≤ 100 * rounds
      → IsAnswered (wait_until_ready host (suc rounds) site).0
  unfolding wait_until_ready ◌>>=◌ self observe
  wait_until_ready-IsAnswered site rounds h =
      (Ensures-bind {Q = λ r _. IsAnswered r} (λ r _. IsAnswered r) _ _
          (Ensures-wait rounds (started + timeout + 5_000) started (omega arith))
          (λ answered.
            Ensures-if (not answered) _ _
              (λ e. record { at = λ s p. absurd (ground (arith, e, p)) })
              (λ _. record { at = λ s p. settles s site.transport.settings.probe_timeout }))
          (λ e s p. tt)).at
        site (omega arith)
    where
      started : ℕ
      started = host.monotonic site.world

      timeout : ℕ
      timeout = site.transport.settings.connect_timeout

-- ===== src/Transport/Steady.antt =====
-- The methods that check a master and wait for it leave the attributes of the transport alone.
use pazuzu.Base.{ℕ, zero, suc, true, false, Text, Bytes, leb}
use pazuzu.Errors.{Result}
use pazuzu.Exec.Keeps.{Keeps, Keeps-pure, Keeps-bind, Keeps-if, keeps_rules}
use pazuzu.Supervisor.{Outcome, is_ambiguous}
use pazuzu.Transport.{
  OpenSshTransport, Step, Host, Site, perform, self, observe, raise_master_error,
}
use pazuzu.Transport.Probing.{
  control_command, control_check, session, probe_session, probe, raise_if_master_exited, settle,
  probe_until_settled, wait_for_control, wait_until_ready,
}

module _ {W : Type 0} (host : Host W) (P : OpenSshTransport → Type 0) where
  -- A property of the attributes.
  abbrev pub Has : Site W → Type 0
  Has site = P site.transport

  pub Keeps-perform : {A : Type 0} (step : Step) (f : W → Result A × W) → Keeps Has (perform step f)
  unfolding perform
  Keeps-perform step f = record { at = λ site h. h }

  pub Keeps-self : Keeps Has self
  unfolding self
  Keeps-self = search keeps_rules

  pub Keeps-observe : {A : Type 0} (f : W → A) → Keeps Has (observe f)
  unfolding observe
  Keeps-observe f = search keeps_rules

  ruleset steady_rules = (keeps_rules, Keeps-perform, Keeps-self, Keeps-observe)

  Keeps-control_check : Keeps Has (control_check host)
  unfolding control_check control_command
  Keeps-control_check = search steady_rules depth 12

  Keeps-raise_master_error :
      {A : Type 0} (prefix : Text) → Keeps Has (raise_master_error host {A = A} prefix)
  unfolding raise_master_error
  Keeps-raise_master_error prefix = search steady_rules

  Keeps-raise_if : Keeps Has (raise_if_master_exited host)
  unfolding raise_if_master_exited
  Keeps-raise_if = search (steady_rules, Keeps-raise_master_error)

  Keeps-session :
      (command : Text) (stdin : Bytes) (timeout : ℕ)
      → Keeps Has (session host command stdin timeout)
  unfolding session
  Keeps-session command stdin timeout = search steady_rules depth 12

  Keeps-probe : Keeps Has (probe host)
  unfolding probe probe_session
  Keeps-probe = search (steady_rules, Keeps-session) depth 14

  Keeps-settle : (left : ℕ) (outcome : Outcome) → Keeps Has (settle host left outcome)
  unfolding settle
  Keeps-settle zero outcome = Keeps-pure outcome
  Keeps-settle (suc left) outcome = Keeps-bind _ _ Keeps-raise_if (λ _.
      Keeps-bind _ _ Keeps-probe (λ next.
        Keeps-if (is_ambiguous next) _ _ (λ _. Keeps-settle left next) (λ _. Keeps-pure next)))

  Keeps-wait_for_control : (rounds deadline : ℕ) → Keeps Has (wait_for_control host rounds deadline)
  unfolding wait_for_control
  Keeps-wait_for_control zero deadline = Keeps-pure false
  Keeps-wait_for_control (suc rounds) deadline = Keeps-bind _ _ Keeps-control_check (λ answers.
      Keeps-if answers _ _ (λ _. Keeps-pure true)
        (λ _. Keeps-bind _ _ Keeps-raise_if (λ _.
          Keeps-bind _ _ (Keeps-observe host.monotonic) (λ now.
            Keeps-if (leb deadline now) _ _ (λ _. Keeps-raise_master_error _)
              (λ _.
                Keeps-bind _ _ (Keeps-perform _ _)
                  (λ _. Keeps-wait_for_control rounds deadline))))))

  pub Keeps-wait_until_ready : (rounds : ℕ) → Keeps Has (wait_until_ready host rounds)
  unfolding wait_until_ready probe_until_settled
  Keeps-wait_until_ready rounds =
      search (steady_rules, Keeps-wait_for_control, Keeps-settle, Keeps-raise_master_error) depth 16

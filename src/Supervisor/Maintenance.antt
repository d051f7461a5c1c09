-- ===== src/Supervisor/Maintenance.antt =====
-- The maintenance loop of `OpenSshSupervisor`, and how it starts and stops.
use pazuzu.Base.{ℕ, zero, suc, ◌-◌, Bool, true, false, none, is_some, min, ◌==◌, if◌then◌else◌, not}
use pazuzu.Errors.{is_pazuzu_error}
use pazuzu.Exec.{pure, reraise, attempt, handle, ◌>>=◌, ◌>>◌}
use pazuzu.Supervisor.{Connection, Supervisor, is_connected, needs_authentication}
use pazuzu.Supervisor.Machine.{Call, Env, Action, call, self, update, clock, with_repair_lock}
use pazuzu.Supervisor.Repair.{connect, repair_if_broken}

-- The delay before the next round, at the clock reading `now`.
unfoldable pub maintenance_delay : Supervisor → ℕ → ℕ
maintenance_delay s now =
    if not (is_connected s.state)
    then s.next_attempt - now
    else if not (s.probe_failures == 0)
    then min s.settings.probe_interval 10_000
    else s.settings.probe_interval

module _ {W : Type 0} (env : Env W) where
  -- `_wait_for_wake`
  unfoldable pub wait_for_wake : ℕ → Action W Bool
  wait_for_wake timeout = do
    s ← self
    if s.wake then (do update (λ s. record s { wake = false }); pure true) else (do
      woken ← call (Call.wait_wake timeout) (env.wait_wake timeout)
      if woken then (do update (λ s. record s { wake = false }); pure true) else pure false)

  -- The `try` of a round: one check or one connection attempt, whose failure is passed over if it
  -- is a `PazuzuError`.
  unfoldable pub attend : Action W (Unit {0})
  attend = do
    tried ← attempt (do
      s ← self
      if is_connected s.state
          then (do repair_if_broken env s.generation; pure tt)
          else connect env false true)
    handle tried (λ _. pure tt) (λ e. if is_pazuzu_error e.kind then pure tt else reraise e)

  -- One round of the loop of `_maintain`.
  unfoldable pub maintain_round : Action W (Unit {0})
  maintain_round = do
    s ← self
    now ← clock env
    if needs_authentication s.state
        then (do
          call Call.wait_wake_forever env.wait_wake_forever
          update (λ s. record s { wake = false }))
        else (do woken ← wait_for_wake (maintenance_delay s now); if woken then pure tt else attend)

  -- `_maintain`, for at most `rounds` rounds.
  unfoldable pub maintain : ℕ → Action W (Unit {0})
  maintain zero = pure tt
  maintain (suc rounds) = do
    s ← self
    if s.closed then pure tt else (do maintain_round; maintain rounds)

  -- `start`
  unfoldable pub start : Action W (Unit {0})
  start = do
    s ← self
    if s.has_maintainer then pure tt else (do
      call Call.publish_budget env.publish_budget
      update (λ s. record s { has_maintainer = true })
      call Call.start_maintainer env.start_maintainer)

  -- `_stop_maintenance`: the two tasks are cancelled and awaited in this order.
  unfoldable pub stop_maintenance : Action W (Unit {0})
  stop_maintenance = do
    s ← self
    update
        (λ s. record s { closed = true; wake = true; has_maintainer = false; probe_flight = none })
    (if s.has_maintainer then call Call.cancel_maintainer env.cancel_maintainer else pure tt)
    (if is_some s.probe_flight then call Call.cancel_probe env.cancel_probe else pure tt)

  -- `close`
  unfoldable pub close : Action W (Unit {0})
  close = do
    stop_maintenance
    with_repair_lock env (do
      call Call.stop_master env.stop_master
      update (λ s. record s { state = Connection.stopped }))

  -- `detach`
  unfoldable pub detach : Action W (Unit {0})
  detach = do
    stop_maintenance
    call Call.detach_master env.detach_master
    update (λ s. record s { state = Connection.detached })

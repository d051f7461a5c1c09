-- ===== src/Supervisor/Repair.antt =====
-- Connecting, replacing and checking the master: `_connect`, `_replace_master`, `_check`, `_probe`
-- and their callers. A condition that awaits is written out in the order of its evaluation.
use pazuzu.Base.{
  ℕ, zero, suc, ◌+◌, ◌-◌, ◌*◌, ◌^◌, Bool, true, false, ◌&&◌, ◌||◌, not, Option, none, some, Text,
  codes, min, ltb, ◌==◌, if◌then◌else◌, ◌++◌,
}
use pazuzu.Errors.{Kind, is_connection_unavailable}
use pazuzu.Exec.{pure, lift, raise, reraise, attempt, finally, handle, ◌>>=◌, ◌>>◌}
use pazuzu.Supervisor.{
  Connection, Outcome, Verdict, ProbeFlight, Supervisor, is_connected, needs_authentication, is_ok,
  is_ambiguous, is_healthy, classify_connection_failure, record_connected, record_failure,
  bounded_backoff,
}
use pazuzu.Supervisor.Machine.{
  Call, Env, Action, call, self, update, clock, timestamp, raise_unavailable, with_repair_lock,
}

-- `flight is None or flight[0] != epoch or flight[1].done()`
abbrev pub needs_probe : Option ProbeFlight → ℕ → Bool
needs_probe none epoch = true
needs_probe (some flight) epoch = not (flight.epoch == epoch) || flight.is_done

-- The task of the flight that was started in `epoch` ends.
abbrev pub finish_flight : ℕ → Option ProbeFlight → Option ProbeFlight
finish_flight epoch none = none
finish_flight epoch (some flight) =
    some (record flight { is_done = flight.is_done || flight.epoch == epoch })

-- What `_run_probe` notes about a probe of the current master.
unfoldable pub note_probe : Outcome → ℕ → Text → Supervisor → Supervisor
note_probe outcome seconds timestamp s =
    if is_ok outcome
    then record s {
      last_probe = some outcome;
      last_probe_seconds = some seconds;
      probe_failures = 0;
      last_success_at = some timestamp;
    }
    else record s {
      last_probe = some outcome;
      last_probe_seconds = some seconds;
      probe_failures = s.probe_failures + 1;
    }

-- `except (ConnectionUnavailable, CommandTimedOut)`
abbrev pub is_startup_failure : Kind → Bool
is_startup_failure Kind.connection_unavailable = true
is_startup_failure Kind.command_timed_out = true
is_startup_failure _ = false

module _ {W : Type 0} (env : Env W) where
  -- The loop of `_replace_master` with `left` attempts to go and the detail of the last failure;
  -- `none` is its `return`, and `some` the detail after the loop.
  unfoldable pub start_attempts : ℕ → ℕ → Text → Action W (Option Text)
  start_attempts zero done detail = pure (some detail)
  start_attempts (suc left) done detail = do
    started ← attempt (call Call.start_master env.start_master)
    handle started
        (λ _. do
          now ← timestamp env
          update (λ s. record_connected now (record s { generation = s.generation + 1 }))
          pure none)
        (λ e.
          if is_startup_failure e.kind
          then (do
            call Call.stop_master env.stop_master
            if needs_authentication (classify_connection_failure e.message)
                then pure (some e.message)
                else if left == 0
                then pure (some e.message)
                else (do
                  call (Call.sleep (min 2_000 (500 * 2 ^ done)))
                      (env.sleep (min 2_000 (500 * 2 ^ done)))
                  start_attempts left (done + 1) e.message))
          else reraise e)

  -- The end of `_replace_master`, with `_record_failure`, which raises if its backoff does.
  unfoldable pub report_failure : Option Text → Action W (Unit {0})
  report_failure none = pure tt
  report_failure (some detail) = do
    stamp ← timestamp env
    now ← clock env
    s ← self
    update (record_failure stamp now detail)
    lift (bounded_backoff (s.failures + 1))
    raise_unavailable env

  unfoldable pub replace_master : Action W (Unit {0})
  replace_master = do
    update (λ s. record s { repair_epoch = s.repair_epoch + 1; state = Connection.reconnecting })
    call Call.stop_master env.stop_master
    s ← self
    failure ← start_attempts s.settings.connection_attempts 0 (codes "unknown SSH startup failure")
    report_failure failure

  -- The body of `_connect`, under the repair lock, where the tests of its first two lines fell
  -- through.
  unfoldable pub connect_anew : Bool → Action W (Unit {0})
  connect_anew force = do
    s ← self
    if not force && s.generation == 0
        then (do
          update (λ s. record s { repair_epoch = s.repair_epoch + 1 })
          adopted ← call Call.adopt_existing env.adopt_existing
          if adopted
              then (do
                now ← timestamp env
                update (λ s. record_connected now (record s { generation = s.generation + 1 })))
              else replace_master)
        else replace_master

  -- `self._state == "connected" and await self.transport.control_check()`
  unfoldable pub is_still_connected : Action W Bool
  is_still_connected = do
    s ← self
    if is_connected s.state then call Call.control_check env.control_check else pure false

  -- `_connect`
  unfoldable pub connect : Bool → Bool → Action W (Unit {0})
  connect force respect_backoff = with_repair_lock env (do
    still ← (if force then pure false else is_still_connected)
    if still then pure tt else (do
      s ← self
      now ← clock env
      if not force && respect_backoff && ltb now s.next_attempt
          then raise_unavailable env
          else connect_anew force))

  -- `_ensure_connected`
  unfoldable pub ensure_connected : Bool → Action W ℕ
  ensure_connected respect_backoff = do
    still ← is_still_connected
    (if still then pure tt else connect false respect_backoff)
    s ← self
    pure s.generation

  -- `_run_probe`
  unfoldable pub run_probe : ℕ → Action W Outcome
  run_probe epoch = do
    started ← clock env
    outcome ← call Call.probe env.probe
    s ← self
    now ← clock env
    stamp ← timestamp env
    (if epoch == s.repair_epoch then update (note_probe outcome (now - started) stamp) else pure tt)
    pure outcome

  -- `_probe`: the task that a caller starts runs where that caller awaits it.
  unfoldable pub probe : Action W Outcome
  probe = do
    s ← self
    let epoch = s.repair_epoch
    if needs_probe s.probe_flight epoch
        then (do
          update (λ s. record s { probe_flight = some (record { epoch = epoch; is_done = false }) })
          finally (run_probe epoch)
              (update (λ s. record s { probe_flight = finish_flight epoch s.probe_flight })))
        else call Call.join_probe env.join_probe

  -- The part of `_check` under the repair lock.
  unfoldable pub check_locked : Outcome → ℕ → Action W Verdict
  check_locked outcome epoch = do
    s ← self
    if not (epoch == s.repair_epoch)
        then (if is_connected s.state then pure Verdict.replaced else raise_unavailable env)
        else (do
          tolerated ←
              (if is_ambiguous outcome && ltb s.probe_failures s.settings.probe_failures
                then call Call.control_check env.control_check
                else pure false)
          if tolerated then pure Verdict.degraded else (do
            s' ← self
            now ← clock env
            if not (is_connected s'.state) && ltb now s'.next_attempt
                then raise_unavailable env
                else (do replace_master; pure Verdict.replaced)))

  -- `_check`
  unfoldable pub check : ℕ → Action W Verdict
  check failed_generation = do
    s ← self
    if not (failed_generation == s.generation) && is_connected s.state
        then pure Verdict.replaced
        else (do
          outcome ← (if is_connected s.state then probe else pure Outcome.failed)
          s' ← self
          if is_ok outcome && s.repair_epoch == s'.repair_epoch
              then pure Verdict.healthy
              else with_repair_lock env (check_locked outcome s.repair_epoch))

  -- `_repair_if_broken`
  unfoldable pub repair_if_broken : ℕ → Action W Bool
  repair_if_broken failed_generation = do
    verdict ← check failed_generation
    pure (elim verdict [ Verdict.replaced ↦ true | _ ↦ false ])

  unfoldable pub uncertain_prefix : Text
  uncertain_prefix =
      codes
        "SSH disconnected after the remote command may have started, and automatic reconnection failed: "

  -- `_safe_repair_after_command`
  unfoldable pub safe_repair_after_command : ℕ → Action W Bool
  safe_repair_after_command generation = do
    checked ← attempt (check generation)
    handle checked (λ verdict. pure (not (is_healthy verdict)))
        (λ e.
          if is_connection_unavailable e.kind
          then raise Kind.uncertain_execution (uncertain_prefix ++ e.message)
          else reraise e)

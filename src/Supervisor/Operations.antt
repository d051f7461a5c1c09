-- ===== src/Supervisor/Operations.antt =====
-- The public methods of `OpenSshSupervisor`, the session slots that they hold, and the maintenance
-- loop.
use pazuzu.Base.{
  ℕ, ℤ, ◌+◌, ◌-◌, Bool, true, false, ◌&&◌, ◌||◌, not, Option, none, some, List, ◌++◌, Text, Bytes,
  codes, decimal, is_nat, is_empty, has_char, max, ltb, ◌==◌, if◌then◌else◌,
}
use pazuzu.Errors.{Kind, Exception, Result, is_connection_unavailable, is_timeout_error}
use pazuzu.Exec.{pure, raise, raise_if, reraise, lift, attempt, finally, handle, ◌>>=◌, ◌>>◌}
use pazuzu.Process.{ProcessResult}
use pazuzu.Lease.{SessionLease}
use pazuzu.Settings.{SshAttachment, ssh_attachment}
use pazuzu.Transfer.{Tool, copy_argv, rsync_argv}
use pazuzu.Supervisor.{Connection, Outcome, is_connected, is_healthy}
use pazuzu.Supervisor.Machine.{Call, Env, Action, call, self, update, clock}
use pazuzu.Supervisor.Repair.{
  connect, ensure_connected, check, repair_if_broken, safe_repair_after_command,
}

pub record CommandResult : Type 0 where
  pub exit_code : ℤ
  pub stdout : Text
  pub stderr : Text
  pub stdout_truncated : Bool
  pub stderr_truncated : Bool
  pub connection_generation : ℕ
  pub replayed : Bool

-- The result of `health`. A delay is in milliseconds.
pub record Health : Type 0 where
  pub gateway_running : Bool
  pub connection : Connection
  pub host : Text
  pub generation : ℕ
  pub session_healthy : Option Bool
  pub connected_at : Option Text
  pub last_success_at : Option Text
  pub last_failure_at : Option Text
  pub last_error : Option Text
  pub consecutive_failures : ℕ
  pub last_probe : Option Outcome
  pub probe_failures : ℕ
  pub last_probe_seconds : Option ℕ
  pub retry_in : ℕ
  pub max_sessions : ℕ
  pub operations_active : ℕ
  pub operations_waiting : ℕ

-- The time after which no command is started.
abbrev pub least_remaining : ℕ
least_remaining = 100

module _ {W : Type 0} (env : Env W) where
  -- `_command_result`
  unfoldable pub command_result : ProcessResult → ℕ → Bool → CommandResult
  command_result result generation replayed = record {
    exit_code = result.exit_code;
    stdout = env.decode result.stdout;
    stderr = env.decode result.stderr;
    stdout_truncated = result.stdout_truncated;
    stderr_truncated = result.stderr_truncated;
    connection_generation = generation;
    replayed = replayed;
  }

  -- `except TimeoutError` of `hold`, in the supervisor as it is when the wait ends.
  unfoldable pub slot_timeout : {A : Type 0} → ℕ → Exception → Action W A
  slot_timeout timeout e = do
    s ← self
    if is_timeout_error e.kind
        then raise Kind.command_timed_out (
            codes "no SSH session became free within "
            ++ (env.format_seconds timeout
                ++ (codes "s; "
                    ++ (decimal s.active ++ codes " gateway operations hold the session budget"))))
        else reraise e

  -- The `try` of `hold` and its `except`.
  unfoldable pub take_slot : ℕ → Action W SessionLease
  take_slot timeout = do
    taken ← attempt (call (Call.acquire_slot timeout) (env.acquire_slot timeout))
    handle taken (λ lease. pure lease) (λ e. slot_timeout timeout e)

  -- `_SessionSlots.hold`, around the `body` of its `async with`.
  unfoldable pub hold : {A : Type 0} → ℕ → Action W A → Action W A
  hold timeout body = do
    update (λ s. record s { waiting = s.waiting + 1 })
    lease ← finally (take_slot timeout) (update (λ s. record s { waiting = s.waiting - 1 }))
    update (λ s. record s { active = s.active + 1 })
    finally body (do
      update (λ s. record s { active = s.active - 1 })
      call (Call.release_slot lease) (env.release_slot lease))

  -- `_operation`, around its `body`, which gets the generation and the time left.
  unfoldable pub operation : {A : Type 0} → ℕ → (ℕ → ℕ → Action W A) → Action W A
  operation timeout body = do
    started ← clock env
    hold timeout (do
      generation ← ensure_connected env true
      now ← clock env
      let remaining = timeout - (now - started)
      if ltb remaining least_remaining
          then raise Kind.command_timed_out (
              codes "the "
              ++ (env.format_seconds timeout
                  ++ codes "s deadline passed before the command could start"))
          else body generation remaining)

  -- `_run_session`
  unfoldable pub run_session : Text → Bytes → ℕ → Action W (ProcessResult × ℕ)
  run_session command stdin timeout = operation timeout (λ generation remaining. do
    result ← call (Call.session command stdin remaining) (env.session command stdin remaining)
    pure (result, generation))

  -- `_replay_once`
  unfoldable pub replay_once : Text → Bytes → ℕ → Action W CommandResult
  replay_once command stdin timeout = do
    (replay, generation) ← run_session command stdin timeout
    lost ←
        (if is_nat replay.exit_code 255
          then (do verdict ← check env generation; pure (not (is_healthy verdict)))
          else pure false)
    if lost
        then raise Kind.connection_unavailable
            (codes "the idempotent command lost its connection again after one replay")
        else pure (command_result replay generation true)

  -- What `execute` does once its arguments have passed.
  unfoldable pub execute_checked : Text → Bytes → ℕ → Bool → Action W CommandResult
  execute_checked command stdin timeout retry_safe = do
    (result, generation) ← run_session command stdin timeout
    if not (is_nat result.exit_code 255) then pure (command_result result generation false) else (do
      lost ← safe_repair_after_command env generation
      if not lost
          then pure (command_result result generation false)
          else if not retry_safe
          then raise Kind.uncertain_execution (
              codes
                "SSH lost the command channel after the remote command may have started; the command was not replayed")
          else replay_once command stdin timeout)

  -- `execute`
  unfoldable pub execute : Text → Bytes → ℕ → Bool → Action W CommandResult
  execute command stdin timeout retry_safe = do
    raise_if (is_empty command || has_char 0 command) Kind.value_error
        (codes "remote command must be a non-empty string without NUL bytes")
    raise_if (timeout == 0) Kind.value_error (codes "command timeout must be positive")
    execute_checked command stdin timeout retry_safe

  -- `_attachment`
  unfoldable pub attachment : ℕ → Action W SshAttachment
  attachment generation = do
    s ← self
    lift (ssh_attachment s.settings.host s.settings.ssh_binary s.settings.control_path generation)

  -- `connection_attachment` and `shell_attachment`
  unfoldable pub connection_attachment : Action W SshAttachment
  connection_attachment = do
    ensure_connected env true
    s ← self
    repair_if_broken env s.generation
    s' ← self
    attachment s'.generation

  -- `health`
  unfoldable pub health : Bool → Action W Health
  health probe = do
    s ← self
    session_healthy ←
        (if probe && is_connected s.state
          then (do
            checked ← attempt (repair_if_broken env s.generation)
            handle checked (λ _. pure tt)
                (λ e. if is_connection_unavailable e.kind then pure tt else reraise e)
            s' ← self
            pure (some (is_connected s'.state && s'.probe_failures == 0)))
          else pure none)
    t ← self
    now ← clock env
    pure (record {
      gateway_running = not t.closed;
      connection = t.state;
      host = t.settings.host;
      generation = t.generation;
      session_healthy = session_healthy;
      connected_at = t.connected_at;
      last_success_at = t.last_success_at;
      last_failure_at = t.last_failure_at;
      last_error = t.last_error;
      consecutive_failures = t.failures;
      last_probe = t.last_probe;
      probe_failures = t.probe_failures;
      last_probe_seconds = t.last_probe_seconds;
      retry_in = t.next_attempt - now;
      max_sessions = t.settings.max_sessions;
      operations_active = t.active;
      operations_waiting = t.waiting;
    })

  -- `reconnect`
  unfoldable pub reconnect : Bool → Action W Health
  reconnect force = do
    update (λ s. record s { next_attempt = 0 })
    finally
        (if force
          then connect env true true
          else (do generation ← ensure_connected env false; check env generation; pure tt))
        (update (λ s. record s { wake = true }))
    health false

  build_argv : Tool → SshAttachment → List Text → Text → Result (List Text)
  build_argv Tool.cp = copy_argv
  build_argv Tool.rsync = rsync_argv

  -- `transfer`; a `Tool` is one of the two names that the first test lets through.
  unfoldable pub transfer : Tool → List Text → Text → ℕ → Action W CommandResult
  unfolding build_argv
  transfer tool arguments executable timeout = do
    raise_if (is_empty executable || has_char 0 executable) Kind.value_error
        (codes "transfer executable must be non-empty and contain no NUL bytes")
    raise_if (timeout == 0) Kind.value_error (codes "transfer timeout must be positive")
    s ← self
    snapshot ← attachment (max 1 s.generation)
    argv ← lift (build_argv tool snapshot arguments executable)
    (result, generation) ← operation timeout (λ generation remaining. do
      result ← call (Call.run_transfer argv remaining) (env.run_transfer argv remaining)
      pure (result, generation))
    (if is_nat result.exit_code 255
        then (do safe_repair_after_command env generation; pure tt)
        else pure tt)
    pure (command_result result generation false)

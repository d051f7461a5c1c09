-- ===== src/Transport/Probing.antt =====
-- transport.py: checking a master by its control socket, probing it by a session, and waiting for it.
use pazuzu.Base.{
  ℕ, zero, suc, ◌+◌, pos, Bool, true, false, ◌&&◌, not, Option, none, some, is_some, [], ◌++◌, Text,
  Bytes, codes, has_substring, is_nat, leb, if◌then◌else◌,
}
use pazuzu.Errors.{Kind, ok, is_connection_unavailable, is_timeout_error}
use pazuzu.Exec.{raise, reraise, pure, attempt, handle, finally, ◌>>=◌, ◌>>◌}
use pazuzu.Process.{ProcessResult}
use pazuzu.Supervisor.{Outcome, is_ambiguous, is_ok}
use pazuzu.Transport.{
  Step, Host, Method, perform, self, observe, control_argv, session_argv, raise_master_error,
}

-- `SESSION_REFUSED`
abbrev session_refused : Bytes
session_refused = codes "Session open refused by peer"

abbrev control_failed : ProcessResult
control_failed = record {
  exit_code = pos 255;
  stdout = [];
  stderr = codes "control operation failed";
  stdout_truncated = false;
  stderr_truncated = false;
}

-- `except (OSError, TimeoutError)`
abbrev pub is_os_error : Kind → Bool
is_os_error Kind.os_error = true
is_os_error Kind.timeout_error = true
is_os_error Kind.process_lookup_error = true
is_os_error Kind.broken_pipe_error = true
is_os_error Kind.connection_reset_error = true
is_os_error _ = false

abbrev pub is_command_timed_out : Kind → Bool
is_command_timed_out Kind.command_timed_out = true
is_command_timed_out _ = false

-- The end of `probe`, for a session that returned.
unfoldable pub classify_session : ProcessResult → Outcome
unfolding has_substring
classify_session result =
    if is_nat result.exit_code 0
    then Outcome.ok
    else if is_nat result.exit_code 255 && has_substring session_refused result.stderr
    then Outcome.busy
    else Outcome.failed

abbrev exited : {W : Type 0} → Option ℕ → Host W → W → Bool
exited none host w = false
exited (some pid) host w = is_some (host.poll pid w)

module _ {W : Type 0} (host : Host W) where
  -- `_control_command`
  unfoldable pub control_command : Text → Method W ProcessResult
  control_command operation = do
    t ← self
    tried ← attempt (
        perform (Step.run (control_argv t.settings operation))
          (host.run_process (control_argv t.settings operation) [] 5_000 4096))
    handle tried pure (λ e. if is_os_error e.kind then pure control_failed else reraise e)

  unfoldable pub control_check : Method W Bool
  control_check = do
    t ← self
    exists ← observe (host.path_exists t.settings.control_path)
    if not exists
        then pure false
        else (do result ← control_command (codes "check"); pure (is_nat result.exit_code 0))

  unfoldable pub session : Text → Bytes → ℕ → Method W ProcessResult
  session command stdin timeout = do
    t ← self
    tried ← attempt (
        perform (Step.run (session_argv t.settings command)) (
          host.run_process (session_argv t.settings command) stdin timeout
            t.settings.max_output_bytes))
    handle tried pure (λ e.
        if is_timeout_error e.kind
        then raise Kind.command_timed_out (
            codes "remote command exceeded its "
            ++ (host.format_seconds timeout ++ codes "s deadline"))
        else if is_os_error e.kind
        then raise Kind.connection_unavailable (codes "could not launch OpenSSH: " ++ e.message)
        else reraise e)

  -- What `probe` does in the probe slot, and what it makes of it.
  unfoldable pub probe_session : ℕ → Method W Outcome
  probe_session timeout = do
    tried ← attempt (session (codes "true") [] timeout)
    handle tried (λ result. pure (classify_session result))
        (λ e.
          if is_command_timed_out e.kind
          then pure Outcome.slow
          else if is_connection_unavailable e.kind
          then pure Outcome.failed
          else reraise e)

  unfoldable pub probe : Method W Outcome
  probe = do
    t ← self
    let timeout = t.settings.probe_timeout
    leased ← attempt (perform Step.take_probe_slot (host.acquire_probe t.budget timeout))
    handle leased
        (λ lease.
          finally (probe_session timeout)
            (perform Step.give_back_probe_slot (host.release_probe lease)))
        (λ e. if is_timeout_error e.kind then pure Outcome.slow else reraise e)

  -- `_raise_if_master_exited`
  unfoldable pub raise_if_master_exited : Method W (Unit {0})
  raise_if_master_exited = do
    t ← self
    has_exited ← observe (exited t.master host)
    if has_exited then raise_master_error host (codes "SSH master exited") else pure tt

  -- The loop of `_probe_until_settled`, with the rounds that are left.
  unfoldable pub settle : ℕ → Outcome → Method W Outcome
  settle zero outcome = pure outcome
  settle (suc left) outcome = do
    raise_if_master_exited
    next ← probe
    if is_ambiguous next then settle left next else pure next

  unfoldable pub probe_until_settled : Method W Outcome
  probe_until_settled = do t ← self; settle t.settings.probe_failures Outcome.failed

  unfoldable pub adopt_existing : Method W Bool
  adopt_existing = do
    answers ← control_check
    if not answers then pure false else (do outcome ← probe_until_settled; pure (is_ok outcome))

  -- The first loop of `_wait_until_ready`: whether the control socket answered within so many
  -- rounds.
  unfoldable pub wait_for_control : ℕ → ℕ → Method W Bool
  wait_for_control zero deadline = pure false
  wait_for_control (suc rounds) deadline = do
    answers ← control_check
    if answers then pure true else (do
      raise_if_master_exited
      now ← observe host.monotonic
      if leb deadline now
          then raise_master_error host (codes "SSH master startup timed out")
          else (do
            perform (Step.pause 100) (λ w. (ok tt, host.sleep 100 w))
            wait_for_control rounds deadline))

  unfoldable pub reason : Outcome → ℕ → Text
  reason Outcome.slow timeout =
      codes ": no session opened within " ++ (host.format_seconds timeout ++ codes "s")
  reason Outcome.busy timeout = codes ": the server refused another session"
  reason _ timeout = []

  -- `_wait_until_ready`, with so many rounds for its loop; `false` if they do not end it.
  unfoldable pub wait_until_ready : ℕ → Method W Bool
  unfolding reason
  wait_until_ready rounds = do
    t ← self
    started ← observe host.monotonic
    answered ← wait_for_control rounds (started + t.settings.connect_timeout + 5_000)
    if not answered then pure false else (do
      outcome ← probe_until_settled
      if is_ok outcome
          then pure true
          else raise_master_error host
              (codes "session probe failed" ++ reason outcome t.settings.probe_timeout))

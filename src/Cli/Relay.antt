-- ===== src/Cli/Relay.antt =====
-- `pazuzu exec` and the gateway together: what a remote command prints and returns, the caller sees.
use pazuzu.Base.{
  ◌≤◌, ◌<◌, ◌≡◌, refl, ◌||◌, none, [], Text, Bytes, codes, All, arith, length, text_eq, is_empty,
  if◌then◌else◌, ℤ,
}
use pazuzu.Errors.{Kind, Exception, Result, ok, err}
use pazuzu.Exec.{pure, lift, modify, continue, ◌>>=◌}
use pazuzu.Json.{Json, get}
use pazuzu.Supervisor.Machine.{Env, Machine}
use pazuzu.Supervisor.Operations
use pazuzu.Supervisor.Operations.{CommandResult}
use pazuzu.Gateway.{IsFaithful, max_message_bytes, max_stdin_bytes, result_dict}
use pazuzu.Gateway.Calls.{Client, envelope, execute_params}
use pazuzu.Gateway.Relay.{Served, relayed, reply_of, IsReported, connected}
use pazuzu.Client.Served.{answer_of, execute_via_gateway-served}
use pazuzu.Cli.{Namespace, text_at, seconds_at, flag_at, texts_at}
use pazuzu.Cli.Commands.{Program, remote_command, read_stdin, item, relay_result, exec_command}

module _ {Line W : Type 0} (p : Program Line (Served Line W)) where
  abbrev warned : CommandResult → Served Line W → Served Line W
  warned r w =
      if r.stdout_truncated || r.stderr_truncated
      then p.write_stderr (codes "pazuzu: remote output was truncated\n") w
      else w

  -- The outputs of a command, in order, and its exit code; or the message of its exception.
  abbrev pub shown : Result CommandResult × Machine W → Result ℤ × Served Line W
  shown (ok r, m) = (
    p.int_json (Json.number r.exit_code),
    warned r (
        p.write_stderr (p.str_json (Json.text r.stderr))
          (p.write_stdout (p.str_json (Json.text r.stdout)) (m, none))),
  )
  shown (err e, m) = (
    err (record {
      kind = Kind.pazuzu_error;
      message = if is_empty e.message then codes "gateway operation failed" else e.message;
    }),
    (m, none),
  )

  relay_result-result_dict :
      (r : CommandResult) (m : Machine W)
      → relay_result p
          (result_dict r)
          (item p (result_dict r))
          (codes "pazuzu: remote output was truncated")
          (m, none)
        ≡ shown (ok r, m)
  unfolding relay_result item result_dict get text_eq ◌>>=◌ modify lift pure
  relay_result-result_dict r m = ground arith

  relayed-shown :
      (done : Result CommandResult × Machine W)
      → continue
          (relayed (answer_of done.0))
          (λ d. relay_result p d (item p d) (codes "pazuzu: remote output was truncated"))
          (done.1, none)
        ≡ shown done
  relayed-shown (ok r, m) = relay_result-result_dict r m
  relayed-shown (err e, m) = refl

  -- `pazuzu exec` runs the words of its command as one command of the supervisor, with its input, its
  -- time and its permission to replay; it then prints the outputs of that command, warns if one was
  -- truncated, and returns its exit code, or raises a `PazuzuError` with the message of what the
  -- supervisor raised. This needs a command, an input of bytes within the limit, messages within
  -- 8 MiB and an exception of a reported kind.
  pub exec_command-execute :
      (c : Client Line (Served Line W)) (env : Env W) (repr : Json → Text) (silence : Exception)
      (faithful : IsFaithful c.codec) (ns : Namespace) (request_id command : Text) (stdin : Bytes)
      (m : Machine W)
      → let timeout = seconds_at ns (codes "timeout") in
        let retry_safe = flag_at ns (codes "retry_safe") in
        let done = Operations.execute env command stdin timeout retry_safe m in
        p.client (text_at ns (codes "socket")) ≡ connected c env repr silence
        → remote_command (texts_at ns (codes "command")) ≡ ok command
        → (if flag_at ns (codes "no_stdin") then pure [] else read_stdin p) (m, none)
          ≡ (ok stdin, (m, none))
        → p.python.uuid4 (m, none) ≡ (ok request_id, (m, none))
        → All (λ b. b < 256) stdin
        → length stdin ≤ max_stdin_bytes
        → c.codec.size (
            c.codec.dumps (
              envelope request_id
                (codes "execute")
                (execute_params command stdin timeout retry_safe)))
          ≤ max_message_bytes
        → IsReported (answer_of done.0)
        → c.codec.size (c.codec.dumps (reply_of (Json.text request_id) (answer_of done.0)))
          ≤ max_message_bytes
        → exec_command p ns (m, none) ≡ shown done
  unfolding exec_command ◌>>=◌ lift
  exec_command-execute c env repr silence faithful ns request_id command stdin m at named read fresh
        bytes small short h small_reply =
      rw (named, exec_command)
        (rw (read, ◌>>=◌)
          (rw (fresh, at)
            (rw
              (execute_via_gateway-served c env repr silence faithful request_id command stdin
                (seconds_at ns (codes "timeout")) (flag_at ns (codes "retry_safe")) m bytes small
                short h small_reply)
              (relayed-shown _))))

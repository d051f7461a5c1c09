-- ===== src/Client/Served.antt =====
-- What reaches the supervisor of a gateway from `PazuzuClient`, and what comes back.
use pazuzu.Base.{
  ℕ, ◌+◌, ◌≤◌, ◌<◌, ◌≡◌, refl, ◌∙◌, ap, Bool, false, none, Text, Bytes, codes, arith, All, length,
  ltb, text_eq, contains, is_empty, if◌then◌else◌,
}
use pazuzu.Errors.{Kind, Exception, Result, ok, err}
use pazuzu.Exec.{pure, lift, continue, ◌>>=◌}
use pazuzu.Json.{Json, Dict, get, has_keys}
use pazuzu.Supervisor.Machine.{Env, Machine}
use pazuzu.Supervisor.Operations
use pazuzu.Supervisor.Operations.{CommandResult}
use pazuzu.Gateway.{IsFaithful, max_message_bytes, max_stdin_bytes, result_dict}
use pazuzu.Gateway.Dispatch.{Answer, answer, dispatch}
use pazuzu.Gateway.Calls.{Client, envelope, execute_params, execute_via_gateway}
use pazuzu.Gateway.Relay.{Served, relayed, reply_of, IsReported, connected, call_gateway-dispatch}
use pazuzu.Gateway.Commands.{dispatch-execute_params}
use pazuzu.Client.{Runtime, command_result_of, execute}

-- A result that a gateway writes is read back as it is.
pub command_result_of-result_dict :
    (arguments_error : Dict → Text) (r : CommandResult)
    → command_result_of arguments_error (result_dict r) ≡ ok r
unfolding command_result_of result_dict get text_eq has_keys contains
command_result_of-result_dict arguments_error r = refl

-- What a client gets of what the supervisor's `execute` returns or raises.
abbrev pub carried : Result CommandResult → Result CommandResult
carried (ok r) = ok r
carried (err e) = err (record {
  kind = Kind.pazuzu_error;
  message = if is_empty e.message then codes "gateway operation failed" else e.message;
})

abbrev pub answer_of : Result CommandResult → Result Answer
answer_of (ok r) = ok (answer (result_dict r))
answer_of (err e) = err e

module _ {Line W : Type 0} (c : Client Line (Served Line W)) (env : Env W) (repr : Json → Text)
    (silence : Exception) (faithful : IsFaithful c.codec) (request_id command : Text)
    (stdin : Bytes) (timeout : ℕ) (retry_safe : Bool) (m : Machine W) where
  abbrev done : Result CommandResult × Machine W
  done = Operations.execute env command stdin timeout retry_safe m

  abbrev request : Dict
  request = envelope request_id (codes "execute") (execute_params command stdin timeout retry_safe)

  answered :
      All (λ b. b < 256) stdin
      → length stdin ≤ max_stdin_bytes
      → dispatch env repr request m ≡ (answer_of done.0, done.1)
  unfolding ◌>>=◌ pure
  answered bytes small =
      dispatch-execute_params env repr request_id command stdin timeout retry_safe m bytes small
      ∙ go done
    where
      go :
          (p : Result CommandResult × Machine W)
          → continue p.0 (λ r. pure (answer (result_dict r))) p.1 ≡ (answer_of p.0, p.1)
      go (ok r, m') = refl
      go (err e, m') = refl

  read_back :
      (arguments_error : Dict → Text) (r : Result CommandResult)
      → (w : Served Line W)
      → continue (relayed (answer_of r)) (λ d. lift (command_result_of arguments_error d)) w
        ≡ (carried r, w)
  unfolding lift
  read_back arguments_error (ok r) w = rw (command_result_of-result_dict arguments_error r) refl
  read_back arguments_error (err e) w = refl

  -- The reply to `execute_via_gateway`, for an input of bytes within the limit, messages within 8 MiB and
  -- exceptions of a reported kind.
  pub execute_via_gateway-served :
      All (λ b. b < 256) stdin
      → length stdin ≤ max_stdin_bytes
      → c.codec.size (c.codec.dumps request) ≤ max_message_bytes
      → IsReported (answer_of done.0)
      → c.codec.size (c.codec.dumps (reply_of (Json.text request_id) (answer_of done.0)))
        ≤ max_message_bytes
      → execute_via_gateway
          (connected c env repr silence)
          request_id
          command
          stdin
          timeout
          retry_safe
          (m, none)
        ≡ (relayed (answer_of done.0), (done.1, none))
  unfolding execute_via_gateway ◌>>=◌
  execute_via_gateway-served bytes small short h small_reply =
      let same = answered bytes small in
      rw (within small) (
        call_gateway-dispatch c env repr silence faithful request_id (codes "execute")
          (execute_params command stdin timeout retry_safe) (timeout + 140_000) m short (rw same h)
          (rw same small_reply)
        ∙ ap (λ p. (relayed p.0, (p.1, none))) same)
    where
      within : length stdin ≤ max_stdin_bytes → ltb max_stdin_bytes (length stdin) ≡ false
      within le = ground arith

  -- A command run by a client does what the supervisor's `execute` does with that command, its
  -- input, its time and its permission to replay, and gives the client the very result of it, or the
  -- message of its exception in a `PazuzuError`; this needs an input of bytes within the limit, messages within
  -- 8 MiB, and that an exception is of a kind that the gateway reports.
  pub execute-served :
      (py : Runtime (Served Line W))
      → py.uuid4 (m, none) ≡ (ok request_id, (m, none))
      → All (λ b. b < 256) stdin
      → length stdin ≤ max_stdin_bytes
      → c.codec.size (c.codec.dumps request) ≤ max_message_bytes
      → IsReported (answer_of done.0)
      → c.codec.size (c.codec.dumps (reply_of (Json.text request_id) (answer_of done.0)))
        ≤ max_message_bytes
      → execute (connected c env repr silence) py command stdin timeout retry_safe (m, none)
        ≡ (carried done.0, (done.1, none))
  unfolding execute ◌>>=◌
  execute-served py fresh bytes small short h small_reply =
      rw (fresh, execute_via_gateway-served bytes small short h small_reply)
        (read_back py.arguments_error done.0 (done.1, none))

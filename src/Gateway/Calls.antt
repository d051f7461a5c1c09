-- ===== src/Gateway/Calls.antt =====
-- gateway.py: `call_gateway` and `execute_via_gateway`, the side of a client.
use pazuzu.Base.{
  ℕ, ◌+◌, pos, Bool, true, false, not, Option, none, some, [], ◌∷◌, ◌++◌, Text, Bytes, codes,
  text_eq, length, is_empty, ltb, if◌then◌else◌,
}
use pazuzu.Errors.{Kind, Result, ok, raise as fails, is_timeout_error}
use pazuzu.Exec.{Exec, pure, raise, raise_if, reraise, lift, attempt, handle, finally, ◌>>=◌, ◌>>◌}
use pazuzu.Json.{Json, Dict, members, object_of, get, is_truthy}
use pazuzu.Base64.{encode}
use pazuzu.Gateway.{Codec, max_stdin_bytes, encode_message, decode_message}

-- A connection to a gateway's socket: opening it, writing, reading a line within a
-- time, and closing, whose errors the source suppresses.
pub record Link (Line W : Type 0) : Type 0 where
  pub open_connection : W → Result (Unit {0}) × W
  pub write : Line → W → Result (Unit {0}) × W
  pub read_line : ℕ → W → Result Line × W
  pub close_connection : W → W

-- The request of `call_gateway`; `request_id` is a fresh random text.
unfoldable pub envelope : Text → Text → Dict → Dict
envelope request_id operation params =
    (codes "v", Json.number (pos 1))
    ∷ (codes "id", Json.text request_id)
    ∷ (codes "op", Json.text operation)
    ∷ (codes "params", Json.object (object_of params))
    ∷ []

abbrev is_id : Option Json → Text → Bool
is_id (some (Json.text t)) request_id = text_eq t request_id
is_id _ request_id = false

-- `error.get("message") or "gateway operation failed"`; `str_json` is `str` on what is no text.
unfoldable pub error_message : (Json → Text) → Option Json → Text
error_message str_json none = codes "gateway operation failed"
error_message str_json (some (Json.text t)) =
    if is_empty t then codes "gateway operation failed" else t
error_message str_json (some v) =
    if is_truthy v then str_json v else codes "gateway operation failed"

-- `ok` and `result` or `error` of a response.
unfoldable pub outcome_of : (Json → Text) → Option Json → Option Json → Option Json → Result Dict
outcome_of str_json (some (Json.boolean true)) (some (Json.object fields)) error =
    ok (members fields)
outcome_of str_json (some (Json.boolean false)) result (some (Json.object fields)) =
    fails Kind.pazuzu_error (error_message str_json (get (members fields) (codes "message")))
outcome_of str_json status result error =
    fails Kind.protocol_error (codes "gateway returned an invalid response envelope")

-- The tests of `call_gateway` on a response.
unfoldable pub read_reply : (Json → Text) → Text → Dict → Result Dict
unfolding outcome_of
read_reply str_json request_id response =
    if not (is_id (get response (codes "id")) request_id)
    then fails Kind.protocol_error (codes "gateway response does not match the request")
    else outcome_of str_json (get response (codes "ok")) (get response (codes "result"))
        (get response (codes "error"))

-- `except (OSError, TimeoutError)`
abbrev is_unreachable : Kind → Bool
is_unreachable Kind.os_error = true
is_unreachable Kind.timeout_error = true
is_unreachable Kind.process_lookup_error = true
is_unreachable Kind.broken_pipe_error = true
is_unreachable Kind.connection_reset_error = true
is_unreachable _ = false

-- What a client uses: its link, the codec, Python's formatting, and the text of the socket's path.
pub record Client (Line W : Type 0) : Type 0 where
  pub link : Link Line W
  pub codec : Codec Line
  pub str_json : Json → Text
  pub format_seconds : ℕ → Text
  pub socket_path : Text

-- The params of `execute_via_gateway`.
unfoldable pub execute_params : Text → Bytes → ℕ → Bool → Dict
execute_params command stdin timeout retry_safe =
    (codes "command", Json.text command)
    ∷ (codes "stdin_base64", Json.text (encode stdin))
    ∷ (codes "timeout_seconds", Json.real (pos timeout))
    ∷ (codes "retry_safe", Json.boolean retry_safe)
    ∷ []

module _ {Line W : Type 0} (c : Client Line W) where
  -- The `try` whose `finally` closes the connection.
  unfoldable pub exchange : Dict → ℕ → Exec W Dict
  exchange request timeout = do
    line ← lift (encode_message c.codec request)
    c.link.write line
    reply ← c.link.read_line timeout
    lift (decode_message c.codec reply)

  unfoldable pub call_gateway : Text → Text → Dict → ℕ → Exec W Dict
  call_gateway request_id operation params timeout = do
    opened ← attempt c.link.open_connection
    handle opened (λ _. pure tt)
        (λ e.
          if is_unreachable e.kind
          then raise Kind.protocol_error (
              codes "Pazuzu gateway is unavailable at "
              ++ (c.socket_path ++ (codes ": " ++ e.message)))
          else reraise e)
    response ←
        finally
          (do
            tried ← attempt (exchange (envelope request_id operation params) timeout)
            handle tried pure (λ e.
                if is_timeout_error e.kind
                then raise Kind.protocol_error (
                    codes "Pazuzu gateway did not respond within "
                    ++ (c.format_seconds timeout ++ codes "s"))
                else reraise e))
          (λ w. (ok tt, c.link.close_connection w))
    lift (read_reply c.str_json request_id response)

  unfoldable pub execute_via_gateway : Text → Text → Bytes → ℕ → Bool → Exec W Dict
  execute_via_gateway request_id command stdin timeout retry_safe = do
    raise_if (ltb max_stdin_bytes (length stdin)) Kind.value_error
        (codes "standard input exceeds the 4 MiB gateway limit")
    call_gateway request_id (codes "execute") (execute_params command stdin timeout retry_safe)
        (timeout + 140_000)

-- ===== src/Gateway/Server.antt =====
-- gateway.py: `GatewayServer`, how it answers a request, starts and stops.
use pazuzu.Base.{
  Bool, true, false, Option, none, some, List, [], ◌∷◌, ◌++◌, Text, codes, pos, if◌then◌else◌,
}
use pazuzu.Errors.{Kind, Exception, Result, ok, err, is_pazuzu_error}
use pazuzu.Exec.{pure, raise, reraise, lift, attempt, handle, finally, ◌>>=◌, ◌>>◌}
use pazuzu.Json.{Json, Dict, get, or_else, object_of}
use pazuzu.Supervisor.Machine.{Env, Action}
use pazuzu.Supervisor.Maintenance.{start, close, detach}
use pazuzu.Gateway.{Codec, encode_message, decode_message}
use pazuzu.Gateway.Dispatch.{Answer, dispatch}

-- `type(exc).__name__`
unfoldable pub kind_name : Kind → Text
kind_name Kind.pazuzu_error = codes "PazuzuError"
kind_name Kind.connection_unavailable = codes "ConnectionUnavailable"
kind_name Kind.command_timed_out = codes "CommandTimedOut"
kind_name Kind.uncertain_execution = codes "UncertainExecution"
kind_name Kind.protocol_error = codes "ProtocolError"
kind_name Kind.value_error = codes "ValueError"
kind_name Kind.type_error = codes "TypeError"
kind_name Kind.key_error = codes "KeyError"
kind_name Kind.index_error = codes "IndexError"
kind_name Kind.os_error = codes "OSError"
kind_name Kind.timeout_error = codes "TimeoutError"
kind_name Kind.runtime_error = codes "RuntimeError"
kind_name Kind.cancelled = codes "CancelledError"
kind_name Kind.process_lookup_error = codes "ProcessLookupError"
kind_name Kind.timeout_expired = codes "TimeoutExpired"
kind_name Kind.local_cancellation = codes "_LocalCancellation"
kind_name Kind.keyboard_interrupt = codes "KeyboardInterrupt"
kind_name Kind.assertion_error = codes "AssertionError"
kind_name Kind.module_not_found_error = codes "ModuleNotFoundError"
kind_name Kind.overflow_error = codes "OverflowError"
kind_name Kind.broken_pipe_error = codes "BrokenPipeError"
kind_name Kind.connection_reset_error = codes "ConnectionResetError"

abbrev pub is_cancelled : Kind → Bool
is_cancelled Kind.cancelled = true
is_cancelled _ = false

-- `except (KeyError, OSError, PazuzuError, TypeError, ValueError)`
unfoldable pub is_reported : Kind → Bool
unfolding is_pazuzu_error
is_reported Kind.key_error = true
is_reported Kind.os_error = true
is_reported Kind.timeout_error = true
is_reported Kind.process_lookup_error = true
is_reported Kind.broken_pipe_error = true
is_reported Kind.connection_reset_error = true
is_reported Kind.type_error = true
is_reported Kind.value_error = true
is_reported kind = is_pazuzu_error kind

-- The two forms of a response.
unfoldable pub success : Json → Dict → Dict
success id result =
    (codes "v", Json.number (pos 1))
    ∷ (codes "id", id)
    ∷ (codes "ok", Json.boolean true)
    ∷ (codes "result", Json.object (object_of result))
    ∷ []

unfoldable pub failure : Json → Exception → Dict
unfolding kind_name
failure id e =
    (codes "v", Json.number (pos 1))
    ∷ (codes "id", id)
    ∷ (codes "ok", Json.boolean false)
    ∷ (
      codes "error",
      Json.object (
          object_of (
            (codes "type", Json.text (kind_name e.kind))
            ∷ (codes "message", Json.text e.message)
            ∷ [])),
    )
    ∷ []

-- The line of a response, if there is one.
unfoldable pub encoded : {Line : Type 0} → Codec Line → Option Dict → Result (Option Line)
encoded codec none = ok none
encoded codec (some message) = elim (encode_message codec message) [
  | ok line ↦ ok (some line)
  | err e ↦ err e
]

module _ {Line W : Type 0} (codec : Codec Line) (env : Env W) (repr : Json → Text) where
  -- The except clauses of `_handle_client`.
  unfoldable pub report : Json → Exception → Action W (Option Dict)
  report id e = if is_reported e.kind then pure (some (failure id e)) else reraise e

  -- The client went away before the request was done, and its task was cancelled.
  unfoldable pub give_up : Json → Result Answer → Action W (Option Dict)
  give_up id (ok a) = pure none
  give_up id (err e) = if is_cancelled e.kind then pure none else report id e

  unfoldable pub conclude : Json → Result Answer → Action W (Option Dict)
  conclude id (ok a) = pure (some (success id a.result))
  conclude id (err e) = report id e

  -- The `try` of `_handle_client` for a line that was read, and whether the client disconnects
  -- before the request is done; what a cancelled request has done by then is its calls' outcome.
  unfoldable pub response : Line → Bool → Action W (Option Dict)
  response line disconnects = do
    received ← attempt (lift (decode_message codec line))
    handle received
        (λ request. do
          let id = or_else (get request (codes "id")) Json.null
          done ← attempt (dispatch env repr request)
          if disconnects then give_up id done else conclude id done)
        (λ e. report Json.null e)

  -- `_handle_client` while the gateway is not closing, up to the line that it writes. A response
  -- that is too long raises here, outside of the except clauses.
  unfoldable pub handle_client : Line → Bool → Action W (Option Line)
  handle_client line disconnects = do
    message ← response line disconnects
    lift (encoded codec message)

-- The attributes that `request_stop` and the end of `serve` set.
pub record GatewayServer : Type 0 where
  pub stop_event : Bool
  pub preserve_master : Bool
  pub closing : Bool

unfoldable pub request_stop : Bool → GatewayServer → GatewayServer
request_stop preserve_master server = record {
  stop_event = true;
  preserve_master = preserve_master;
  closing = server.closing;
}

-- What is found at the path of the socket.
pub data Listener : Type 0 where
  absent stale answering : Listener

-- What ends the wait of `serve`: the stop event, or the maintenance task with its outcome.
pub data Ended : Type 0 where
  stop_event : Ended
  maintenance : Result (Unit {0}) → Ended

module _ {W : Type 0} where
  -- `_prepare_socket`, less the files; `path` names the socket.
  unfoldable pub prepare_socket : Text → Listener → Action W (Unit {0})
  prepare_socket path Listener.answering =
      raise Kind.runtime_error (codes "another Pazuzu gateway is already using " ++ path)
  prepare_socket path _ = pure tt

  unfoldable pub wait_end : Ended → Action W (Unit {0})
  wait_end Ended.stop_event = pure tt
  wait_end (Ended.maintenance (err e)) = reraise e
  wait_end (Ended.maintenance (ok _)) =
      raise Kind.runtime_error (codes "SSH maintenance stopped unexpectedly")

module _ {Line W : Type 0} (codec : Codec Line) (env : Env W) (repr : Json → Text) where
  -- `_handle_client` from its start: a connection to a gateway that is closing gets no reply.
  unfoldable pub accept_client : GatewayServer → Line → Bool → Action W (Option Line)
  accept_client server line disconnects =
      if server.closing then pure none else handle_client codec env repr line disconnects

  -- The requests that are answered while `serve` waits, with whether their clients disconnect. An
  -- exception of a handler ends its own task only.
  unfoldable pub answer_all : GatewayServer → List (Line × Bool) → Action W (Unit {0})
  answer_all server [] = pure tt
  answer_all server ((line, disconnects) ∷ requests) = do
    attempt (accept_client server line disconnects)
    answer_all server requests

  -- `serve`, with the requests up to its end, where `server` is the state in which the wait ended.
  unfoldable pub serve :
      Text → Listener → List (Line × Bool) → Ended → GatewayServer → Action W (Unit {0})
  serve path listener requests ended server = do
    prepare_socket path listener
    start env
    finally (do answer_all server requests; wait_end ended)
        (if server.preserve_master then detach env else close env)

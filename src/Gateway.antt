-- ===== src/Gateway.antt =====
-- gateway.py: the messages between a gateway and its clients. The requests are served in
-- Gateway/Server, by the dispatch of Gateway/Dispatch; Gateway/Calls is the side of a client.
pub mod Paths
pub mod Dispatch
pub mod Server
pub mod Calls
pub mod Orders
pub mod Relay
pub mod Commands
pub mod Lifetime
pub mod Ending
use pazuzu.Base.{
  ℕ, ◌+◌, ◌*◌, ◌/◌, ◌≡◌, ℤ, pos, Bool, true, false, Option, none, some, List, [], ◌∷◌, Text, codes,
  ltb, if◌then◌else◌,
}
use pazuzu.Errors.{Kind, Result, ok, err, raise, raise_if, ◌>>=◌, ◌>>◌}
use pazuzu.Json.{Json, Dict, members, object_of, nullable}
use pazuzu.Supervisor.{Connection, Outcome}
use pazuzu.Supervisor.Operations.{CommandResult, Health}

-- `MAX_MESSAGE_BYTES` and `MAX_STDIN_BYTES`
abbrev pub max_message_bytes : ℕ
max_message_bytes = 8 * 1024 * 1024

abbrev pub max_stdin_bytes : ℕ
max_stdin_bytes = 4 * 1024 * 1024

-- `json.dumps` with the newline after it, and `json.loads`, where `none` is its ValueError. A `Line`
-- is what goes over the socket.
pub record Codec (Line : Type 0) : Type 0 where
  pub dumps : Dict → Line
  pub loads : Line → Option Json
  pub size : Line → ℕ

-- What is dumped is loaded again.
abbrev pub IsFaithful : {Line : Type 0} → Codec Line → Type 0
IsFaithful codec = (d : Dict) → codec.loads (codec.dumps d) ≡ some (Json.object (object_of d))

module _ {Line : Type 0} (codec : Codec Line) where
  -- `_encode`; every value of `Json` can be serialized.
  unfoldable pub encode_message : Dict → Result Line
  encode_message message = do
    raise_if (ltb max_message_bytes (codec.size (codec.dumps message))) Kind.protocol_error
        (codes "gateway message exceeds the 8 MiB limit")
    ok (codec.dumps message)

  as_object : Option Json → Result Dict
  as_object none = raise Kind.protocol_error (codes "gateway message is not valid JSON")
  as_object (some (Json.object fields)) = ok (members fields)
  as_object (some _) = raise Kind.protocol_error (codes "gateway message must be a JSON object")

  -- `_decode`
  unfoldable pub decode_message : Line → Result Dict
  unfolding as_object
  decode_message line = as_object (codec.loads line)

-- The texts of `_state`.
unfoldable pub connection_text : Connection → Text
connection_text Connection.offline = codes "offline"
connection_text Connection.authentication_required = codes "authentication_required"
connection_text Connection.reconnecting = codes "reconnecting"
connection_text Connection.connected = codes "connected"
connection_text Connection.stopped = codes "stopped"
connection_text Connection.detached = codes "detached"

abbrev outcome_json : Option Outcome → Json
outcome_json none = Json.null
outcome_json (some Outcome.ok) = Json.text (codes "ok")
outcome_json (some Outcome.slow) = Json.text (codes "slow")
outcome_json (some Outcome.busy) = Json.text (codes "busy")
outcome_json (some Outcome.failed) = Json.text (codes "failed")

abbrev truth : Option Bool → Json
truth none = Json.null
truth (some b) = Json.boolean b

abbrev seconds : Option ℕ → Json
seconds none = Json.null
seconds (some n) = Json.real (pos n)

abbrev count : ℕ → Json
count n = Json.number (pos n)

-- The dictionary that `health` returns. Its delay is rounded to tenths of a second, a tie upwards.
unfoldable pub health_dict : Health → Dict
unfolding connection_text
health_dict h =
    (codes "gateway", Json.text (if h.gateway_running then codes "running" else codes "stopped"))
    ∷ (codes "connection", Json.text (connection_text h.connection))
    ∷ (codes "host", Json.text h.host)
    ∷ (codes "generation", count h.generation)
    ∷ (codes "session_healthy", truth h.session_healthy)
    ∷ (codes "connected_at", nullable h.connected_at)
    ∷ (codes "last_success_at", nullable h.last_success_at)
    ∷ (codes "last_failure_at", nullable h.last_failure_at)
    ∷ (codes "last_error", nullable h.last_error)
    ∷ (codes "consecutive_failures", count h.consecutive_failures)
    ∷ (codes "last_probe", outcome_json h.last_probe)
    ∷ (codes "probe_failures", count h.probe_failures)
    ∷ (codes "last_probe_seconds", seconds h.last_probe_seconds)
    ∷ (codes "retry_in_seconds", Json.real (pos ((h.retry_in + 50) / 100 * 100)))
    ∷ (codes "max_sessions", count h.max_sessions)
    ∷ (codes "operations_active", count h.operations_active)
    ∷ (codes "operations_waiting", count h.operations_waiting)
    ∷ []

-- `CommandResult.as_dict`
unfoldable pub result_dict : CommandResult → Dict
result_dict r =
    (codes "exit_code", Json.number r.exit_code)
    ∷ (codes "stdout", Json.text r.stdout)
    ∷ (codes "stderr", Json.text r.stderr)
    ∷ (codes "stdout_truncated", Json.boolean r.stdout_truncated)
    ∷ (codes "stderr_truncated", Json.boolean r.stderr_truncated)
    ∷ (codes "connection_generation", count r.connection_generation)
    ∷ (codes "replayed", Json.boolean r.replayed)
    ∷ []

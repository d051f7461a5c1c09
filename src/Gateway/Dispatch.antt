-- ===== src/Gateway/Dispatch.antt =====
-- gateway.py: `_dispatch`, `_execute` and `_transfer`, which turn a request into a method of the
-- supervisor.
use pazuzu.Base.{
  ℕ, ◌*◌, ℤ, pos, Bool, true, false, not, ◌||◌, Option, none, some, List, [], ◌∷◌, ◌++◌, Text,
  Bytes, codes, length, is_nat, is_empty, text_eq, ltb, ◌==◌, if◌then◌else◌,
}
use pazuzu.Errors.{Kind, Result, ok, err, raise as fails}
use pazuzu.Exec.{pure, raise, raise_if, lift, ◌>>=◌, ◌>>◌}
use pazuzu.Json.{Json, Dict, members, elements, get, is_truthy, or_else}
use pazuzu.Base64.{decode}
use pazuzu.Settings.Descriptor.{as_dict}
use pazuzu.Transfer.{Tool}
use pazuzu.Supervisor.Machine.{Env, Action}
use pazuzu.Supervisor.Operations.{execute, connection_attachment, health, reconnect, transfer}
use pazuzu.Gateway.{max_stdin_bytes, health_dict, result_dict}

-- What a request is answered with, and whether `request_stop` was scheduled.
pub record Answer : Type 0 where
  pub result : Dict
  pub stops : Bool

abbrev pub answer : Dict → Answer
answer result = record { result = result; stops = false }

-- `request.get("v") == 1`, which `True` and `1.0` satisfy too.
abbrev pub is_one : Option Json → Bool
is_one (some (Json.number n)) = is_nat n 1
is_one (some (Json.real n)) = is_nat n 1_000
is_one (some (Json.boolean b)) = b
is_one _ = false

abbrev pub is_text : Option Json → Bool
is_text (some (Json.text t)) = true
is_text _ = false

-- `operation == name`
abbrev pub is_named : Option Json → Text → Bool
is_named (some (Json.text t)) name = text_eq t name
is_named _ name = false

-- A list or a dictionary, which cannot be looked for in a set.
abbrev pub is_array : Option Json → Bool
is_array (some (Json.array vs)) = true
is_array _ = false

abbrev pub is_object : Option Json → Bool
is_object (some (Json.object fields)) = true
is_object _ = false

-- `isinstance(params, dict)`
unfoldable pub params_of : Option Json → Result Dict
params_of (some (Json.object fields)) = ok (members fields)
params_of _ = fails Kind.protocol_error (codes "request params must be an object")

unfoldable pub boolean_of : Text → Json → Result Bool
boolean_of message (Json.boolean b) = ok b
boolean_of message _ = fails Kind.type_error message

unfoldable pub text_of : Text → Option Json → Result Text
text_of message (some (Json.text t)) = ok t
text_of message _ = fails Kind.type_error message

-- A number of seconds, in milliseconds; 0 stands for all that are not positive.
abbrev pub not_negative : ℤ → ℕ
not_negative (pos n) = n
not_negative _ = 0

unfoldable pub milliseconds : Text → Json → Result ℕ
milliseconds message (Json.number n) = ok (not_negative n * 1_000)
milliseconds message (Json.real n) = ok (not_negative n)
milliseconds message _ = fails Kind.type_error message

-- `base64.b64decode(encoded, validate=True)` with its except clause.
unfoldable pub stdin_of : Option Bytes → Result Bytes
stdin_of none = fails Kind.value_error (codes "stdin_base64 is invalid")
stdin_of (some bytes) = ok bytes

-- `params["command"]`
unfoldable pub required : Dict → Text → Result Json
required params key = elim (get params key) [
  | none ↦ fails Kind.key_error (b'\'' ∷ (key ++ (b'\'' ∷ [])))
  | some v ↦ ok v
]

unfoldable pub tool_of : Option Json → Result Tool
tool_of (some (Json.text t)) =
    if text_eq t (codes "cp")
    then ok Tool.cp
    else if text_eq t (codes "rsync")
    then ok Tool.rsync
    else fails Kind.type_error (codes "invalid transfer parameters")
tool_of (some (Json.array vs)) = fails Kind.type_error (codes "unhashable type: 'list'")
tool_of (some (Json.object fields)) = fails Kind.type_error (codes "unhashable type: 'dict'")
tool_of _ = fails Kind.type_error (codes "invalid transfer parameters")

list_error : Text
list_error = codes "transfer arguments must be a list of strings"

unfoldable pub texts_of : List Json → Result (List Text)
unfolding list_error
texts_of [] = ok []
texts_of (v ∷ vs) = elim v [
  | Json.text t ↦ elim (texts_of vs) [ ok ts ↦ ok (t ∷ ts) | err e ↦ err e ]
  | _ ↦ fails Kind.type_error list_error
]

unfoldable pub list_of : Option Json → Result (List Text)
unfolding list_error
list_of (some (Json.array vs)) = texts_of (elements vs)
list_of _ = fails Kind.type_error list_error

module _ {W : Type 0} (env : Env W) where
  -- `_execute`
  unfoldable pub execute_request : Dict → Action W Answer
  execute_request params = do
    encoded ← lift (
        text_of (codes "stdin_base64 must be a string")
          (some (or_else (get params (codes "stdin_base64")) (Json.text []))))
    stdin ← lift (stdin_of (decode encoded))
    raise_if (ltb max_stdin_bytes (length stdin)) Kind.value_error
        (codes "standard input exceeds the 4 MiB gateway limit")
    given ← lift (required params (codes "command"))
    command ← lift (text_of (codes "invalid execute parameters") (some given))
    timeout ← lift (
        milliseconds (codes "invalid execute parameters")
          (or_else (get params (codes "timeout_seconds")) (Json.real (pos 120_000))))
    retry_safe ← lift (
        boolean_of (codes "retry_safe must be a boolean")
          (or_else (get params (codes "retry_safe")) (Json.boolean false)))
    result ← execute env command stdin timeout retry_safe
    pure (answer (result_dict result))

  -- `_transfer`
  unfoldable pub transfer_request : Dict → Action W Answer
  transfer_request params = do
    tool ← lift (tool_of (get params (codes "tool")))
    executable ←
        lift (text_of (codes "invalid transfer parameters") (get params (codes "executable")))
    arguments ← lift (list_of (get params (codes "arguments")))
    timeout ← lift (
        milliseconds (codes "transfer timeout must be a number")
          (or_else (get params (codes "timeout_seconds")) (Json.real (pos 600_000))))
    raise_if (timeout == 0 || ltb 3_600_000 timeout) Kind.value_error
        (codes "transfer timeout must be between 0 and 3600")
    result ← transfer env tool arguments executable timeout
    pure (answer (result_dict result))

  unfoldable pub status_request : Dict → Action W Answer
  status_request params = do
    h ← health env (is_truthy (or_else (get params (codes "probe")) (Json.boolean false)))
    pure (answer (health_dict h))

  unfoldable pub reconnect_request : Dict → Action W Answer
  reconnect_request params = do
    force ← lift (
        boolean_of (codes "force must be a boolean")
          (or_else (get params (codes "force")) (Json.boolean false)))
    h ← reconnect env force
    pure (answer (health_dict h))

  unfoldable pub attachment_request : Text → Dict → Action W Answer
  attachment_request operation params = do
    raise_if (not (is_empty params)) Kind.protocol_error
        (operation ++ codes " params must be empty")
    a ← connection_attachment env
    pure (answer (as_dict a))

  -- The tests of the operation; `repr` is Python's.
  unfoldable pub choose : (Json → Text) → Option Json → Dict → Action W Answer
  choose repr operation params =
      if is_named operation (codes "status")
      then status_request params
      else if is_named operation (codes "reconnect")
      then reconnect_request params
      else if is_named operation (codes "shutdown")
      then pure (record { result = (codes "stopping", Json.boolean true) ∷ []; stops = true })
      else if is_array operation
      then raise Kind.type_error (codes "unhashable type: 'list'")
      else if is_object operation
      then raise Kind.type_error (codes "unhashable type: 'dict'")
      else if is_named operation (codes "connection_attachment")
      then attachment_request (codes "connection_attachment") params
      else if is_named operation (codes "shell_attachment")
      then attachment_request (codes "shell_attachment") params
      else if is_named operation (codes "execute")
      then execute_request params
      else if is_named operation (codes "transfer")
      then transfer_request params
      else raise Kind.protocol_error
          (codes "unknown gateway operation " ++ repr (or_else operation Json.null))

  -- `_dispatch`
  unfoldable pub dispatch : (Json → Text) → Dict → Action W Answer
  dispatch repr request = do
    raise_if (not (is_one (get request (codes "v"))) || not (is_text (get request (codes "id"))))
        Kind.protocol_error (codes "invalid gateway request envelope")
    params ← lift (params_of (get request (codes "params")))
    choose repr (get request (codes "op")) params

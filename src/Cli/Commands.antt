-- ===== src/Cli/Commands.antt =====
-- cli.py: what each operation does with its arguments, but for `_run` and `main`.
use pazuzu.Base.{
  ℕ, ◌+◌, ◌*◌, ℤ, pos, negsuc, Bool, true, false, ◌||◌, Option, none, some, List, [], ◌∷◌, ◌++◌,
  Text, Bytes, codes, text_eq, is_empty, length, map, ltb, if◌then◌else◌,
}
use pazuzu.Errors.{Kind, Result, ok, err}
use pazuzu.Exec.{Exec, pure, raise, raise_if, lift, modify, ◌>>=◌, ◌>>◌}
use pazuzu.Json.{Json, Dict, get, or_else, is_truthy, object_of, array_of}
use pazuzu.Settings.{SshSettings, default_settings, validate}
use pazuzu.Settings.Descriptor.{from_dict}
use pazuzu.Supervisor.{open_ssh_supervisor}
use pazuzu.Supervisor.Machine.{Env}
use pazuzu.Gateway.{Codec}
use pazuzu.Gateway.Server.{Listener, Ended, GatewayServer, request_stop, serve}
use pazuzu.Gateway.Calls
use pazuzu.Gateway.Calls.{execute_via_gateway}
use pazuzu.Client.{Runtime}
use pazuzu.Transport.Bridging
use pazuzu.Transport.Bridging.{Bridge, run_bridge}
use pazuzu.Shell.{ConnectionReporter, require_interactive_terminal}
use pazuzu.Shell.Loop.{Callbacks, run_shell}
use pazuzu.Launchd.{Mac}
use pazuzu.Cli.{Namespace, text_at, number_at, seconds_at, flag_at, texts_at}

-- Signals for which `_serve` has handlers.
pub data Signal : Type 0 where
  sigint sigterm : Signal

-- What a gateway meets while it serves: who is at its socket, the requests, the signals, and how its
-- wait ends.
pub record Serving (Line W : Type 0) : Type 0 where
  pub env : Env W
  pub repr : Json → Text
  pub listener : Listener
  pub requests : List (Line × Bool)
  pub signals : List Signal
  pub ended : Ended

-- What the program uses of the process that it is: its standard streams, `json.dumps` with each
-- way of formatting, `str` and `int` of a value, the terminal of a shell, and the system's services.
pub record Program (Line W : Type 0) : Type 0 where
  pub client : Text → Calls.Client Line W
  pub python : Runtime W
  pub mac : Mac W
  pub bridge : Bridging.Machine W
  pub codec : Codec Line
  pub serving : SshSettings → Serving Line W
  pub stdin_isatty : Bool
  pub stdout_isatty : Bool
  pub stdin_is_socket : Bool
  pub read_stdin : ℕ → W → Result Bytes × W
  pub write_stdout : Text → W → W
  pub write_stderr : Text → W → W
  pub dumps_indented : Json → Text
  pub dumps_sorted : Json → Text
  pub dumps_compact : Json → Text
  pub str_json : Json → Text
  pub int_json : Json → Result ℤ
  pub spawn_ssh : List Text → W → Result ℤ × W
  pub sleep : W → Result (Unit {0}) × W
  pub is_cancelled : W → Bool

-- `arguments[1:] if arguments[:1] == ["--"] else arguments`
unfoldable pub after_dashes : List Text → List Text
after_dashes [] = []
after_dashes (first ∷ rest) = if text_eq first (codes "--") then rest else first ∷ rest

-- `" ".join(words)`
abbrev pub joined : List Text → Text
joined [] = []
joined (w ∷ []) = w
joined (w ∷ v ∷ words) = w ++ (codes " " ++ joined (v ∷ words))

-- `_remote_command`
unfoldable pub remote_command : List Text → Result Text
remote_command arguments =
    if is_empty (after_dashes arguments)
    then err (record {
      kind = Kind.value_error;
      message = codes "provide a remote command after 'pazuzu exec --'";
    })
    else ok (joined (after_dashes arguments))

-- `_bridge_command`
unfoldable pub bridge_command : List Text → Result (List Text)
bridge_command arguments =
    if is_empty (after_dashes arguments)
    then err
        (record { kind = Kind.value_error; message = codes "provide a remote command after '--'" })
    else ok (after_dashes arguments)

-- `_serve`: SIGINT and SIGTERM are `request_stop` with `False` and `True`.
abbrev pub on_signals : List Signal → GatewayServer → GatewayServer
on_signals [] server = server
on_signals (Signal.sigint ∷ signals) server = on_signals signals (request_stop false server)
on_signals (Signal.sigterm ∷ signals) server = on_signals signals (request_stop true server)

abbrev pub new_server : GatewayServer
new_server = record { stop_event = false; preserve_master = false; closing = false }

unfoldable pub required_host : {W : Type 0} → Namespace → Exec W Text
unfolding text_at
required_host ns = do
  raise_if (is_empty (text_at ns (codes "host"))) Kind.value_error
      (codes "set --host or PAZUZU_HOST")
  pure (text_at ns (codes "host"))

-- `result.get("connection") == "connected"`
unfoldable pub is_connected : Dict → Bool
is_connected result = elim (get result (codes "connection")) [
  | some (Json.text state) ↦ text_eq state (codes "connected")
  | _ ↦ false
]

-- `_ConnectionReporter(stderr)`, and the default poll interval of `run_shell`.
abbrev pub new_reporter : ConnectionReporter
new_reporter = record { stream = []; last_state = none }

abbrev pub poll_interval : ℕ
poll_interval = 1_000

-- The exit code of a bridge, as an integer.
abbrev map_code : Result (Option ℕ) → Result (Option ℤ)
map_code (ok none) = ok none
map_code (ok (some n)) = ok (some (pos n))
map_code (err e) = err e

abbrev pub count_of : ℤ → ℕ
count_of (pos n) = n
count_of (negsuc n) = 0

-- `SshSettings(...)` of `_serve`; a number that is not positive is refused either way.
unfoldable pub serve_settings : Namespace → Text → SshSettings
unfolding text_at number_at seconds_at
serve_settings ns host = record (default_settings host (text_at ns (codes "control_path"))) {
  ssh_binary = text_at ns (codes "ssh");
  connect_timeout = seconds_at ns (codes "connect_timeout");
  probe_interval = seconds_at ns (codes "probe_interval");
  probe_timeout = seconds_at ns (codes "probe_timeout");
  probe_failures = count_of (number_at ns (codes "probe_failures"));
  max_sessions = count_of (number_at ns (codes "max_sessions"));
}

-- `SshSettings(...)` of `_exec_bridge`
unfoldable pub bridge_settings : Namespace → Text → SshSettings
unfolding text_at number_at
bridge_settings ns host = record (default_settings host (text_at ns (codes "control_path"))) {
  ssh_binary = text_at ns (codes "ssh");
  max_sessions = count_of (number_at ns (codes "max_sessions"));
}

module _ {Line W : Type 0} (p : Program Line W) where
  -- `GatewayServer(OpenSshSupervisor(settings), path).serve()`; the supervisor checks its settings.
  unfoldable pub serve_gateway : SshSettings → Text → Exec W (Unit {0})
  serve_gateway settings path = do
    lift (validate settings)
    λ w.
        let at = p.serving settings in
        let (r, m) =
          serve p.codec at.env at.repr path at.listener at.requests at.ended
            (on_signals at.signals new_server)
            (record { sup = open_ssh_supervisor settings; world = w; trace = [] }) in
        (r, m.world)

  -- `_serve`
  unfoldable pub serve_command : Namespace → Exec W (Unit {0})
  serve_command ns = do
    host ← required_host ns
    serve_gateway (serve_settings ns host) (text_at ns (codes "socket"))

  -- `_read_stdin`
  unfoldable pub read_stdin : Exec W Bytes
  read_stdin = if p.stdin_isatty || p.stdin_is_socket then pure [] else (do
    content ← p.read_stdin (4 * 1024 * 1024 + 1)
    raise_if (ltb (4 * 1024 * 1024) (length content)) Kind.value_error
        (codes "standard input exceeds the 4 MiB gateway limit")
    pure content)

  unfoldable pub print : Text → Exec W (Unit {0})
  print t = modify (p.write_stdout (t ++ codes "\n"))

  -- `call_gateway(arguments.socket, operation, params, timeout=...)`
  unfoldable pub call : Text → Text → Dict → ℕ → Exec W Dict
  call socket operation params timeout = do
    id ← p.python.uuid4
    Calls.call_gateway (p.client socket) id operation params timeout

  -- `str(result["stdout"])` and the like: a missing key is a KeyError, or a default.
  unfoldable pub item : Dict → Text → Exec W Json
  item d key = elim (get d key) [ some v ↦ pure v | none ↦ raise Kind.key_error key ]

  -- `result.get(key, "")`
  unfoldable pub item_or_empty : Dict → Text → Exec W Json
  item_or_empty d key = pure (or_else (get d key) (Json.text []))

  -- The end of `exec`, `cp` and `rsync`: the outputs, which `read` takes from the result, the warning
  -- and the exit code.
  unfoldable pub relay_result : Dict → (Text → Exec W Json) → Text → Exec W ℤ
  relay_result result read warning = do
    stdout ← read (codes "stdout")
    modify (p.write_stdout (p.str_json stdout))
    stderr ← read (codes "stderr")
    modify (p.write_stderr (p.str_json stderr))
    (if is_truthy (or_else (get result (codes "stdout_truncated")) Json.null)
          || is_truthy (or_else (get result (codes "stderr_truncated")) Json.null)
        then modify (p.write_stderr (warning ++ codes "\n"))
        else pure tt)
    code ← item result (codes "exit_code")
    lift (p.int_json code)

  -- The `exec` branch of `_run`.
  unfoldable pub exec_command : Namespace → Exec W ℤ
  exec_command ns = do
    command ← lift (remote_command (texts_at ns (codes "command")))
    stdin ← (if flag_at ns (codes "no_stdin") then pure [] else read_stdin)
    id ← p.python.uuid4
    result ←
        execute_via_gateway (p.client (text_at ns (codes "socket"))) id command stdin
          (seconds_at ns (codes "timeout")) (flag_at ns (codes "retry_safe"))
    relay_result result (item result) (codes "pazuzu: remote output was truncated")

  -- The branch of `cp` and `rsync`; each has the option of its own name for the executable.
  unfoldable pub transfer_command : Text → Namespace → Exec W ℤ
  transfer_command operation ns = do
    let executable =
        (if text_eq operation (codes "cp")
          then text_at ns (codes "scp")
          else text_at ns (codes "rsync"))
    result ←
        call (text_at ns (codes "socket")) (codes "transfer")
          ((codes "tool", Json.text operation)
            ∷ (codes "executable", Json.text executable)
            ∷ (
              codes "arguments",
              Json.array (array_of (map Json.text (texts_at ns (codes "transfer_arguments")))),
            )
            ∷ (codes "timeout_seconds", Json.real (pos (seconds_at ns (codes "timeout"))))
            ∷ [])
          (seconds_at ns (codes "timeout") + 30_000)
    relay_result result (item_or_empty result) (codes "pazuzu: transfer output was truncated")

  -- The branches of `status`, `reconnect` and `stop`.
  unfoldable pub status_command : Namespace → Exec W ℤ
  status_command ns = do
    result ←
        call (text_at ns (codes "socket")) (codes "status")
          ((codes "probe", Json.boolean (flag_at ns (codes "probe"))) ∷ []) 90_000
    print (p.dumps_sorted (Json.object (object_of result)))
    pure (if is_connected result then pos 0 else pos 1)

  unfoldable pub reconnect_command : Namespace → Exec W ℤ
  reconnect_command ns = do
    result ←
        call (text_at ns (codes "socket")) (codes "reconnect")
          ((codes "force", Json.boolean (flag_at ns (codes "force"))) ∷ []) 140_000
    print (p.dumps_sorted (Json.object (object_of result)))
    pure (pos 0)

  unfoldable pub stop_command : Namespace → Exec W ℤ
  stop_command ns = do
    result ← call (text_at ns (codes "socket")) (codes "shutdown") [] 10_000
    print (p.dumps_compact (Json.object (object_of result)))
    pure (pos 0)

  -- The functions that `_run` gives to `run_shell`.
  unfoldable pub callbacks : Text → Callbacks W
  callbacks socket = record {
    get_attachment = call socket (codes "shell_attachment") [] 140_000 >>= λ d. lift (from_dict d);
    reconnect = call socket (codes "reconnect") [] 140_000;
    status = call socket (codes "status") [] 250_000;
    spawn_ssh = p.spawn_ssh;
    sleep = p.sleep;
    is_cancelled = p.is_cancelled;
  }

  -- The branch of `shell`; `none` if the rounds do not end it. What it reports stays in the session.
  unfoldable pub shell_command : ℕ → Namespace → Exec W (Option ℤ)
  shell_command rounds ns = do
    lift (require_interactive_terminal p.stdin_isatty p.stdout_isatty)
    λ w.
        let (r, s) =
          run_shell (callbacks (text_at ns (codes "socket"))) rounds rounds
            (text_at ns (codes "session")) poll_interval
            (record { reporter = new_reporter; attached = []; world = w }) in
        (r, s.world)

  -- `_exec_bridge`
  unfoldable pub bridge_with_settings :
      ℕ → SshSettings → Text → ℤ → Text → ℤ → List Text → Exec W (Option ℤ)
  bridge_with_settings rounds settings listen_host listen_port remote_host remote_port command w =
      let (r, b) =
        run_bridge p.bridge settings listen_host (count_of listen_port) remote_host
          (count_of remote_port) command rounds
          (record { forward_registered = false; world = w; trace = [] }) in
      (map_code r, b.world)

  unfoldable pub exec_bridge : ℕ → Namespace → Exec W (Option ℤ)
  exec_bridge rounds ns = do
    host ← required_host ns
    command ← lift (bridge_command (texts_at ns (codes "remote_command")))
    bridge_with_settings rounds (bridge_settings ns host) (text_at ns (codes "listen_host"))
        (number_at ns (codes "listen_port")) (text_at ns (codes "remote_host"))
        (number_at ns (codes "remote_port")) command

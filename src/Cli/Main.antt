-- ===== src/Cli/Main.antt =====
-- cli.py: `_run` and `main`. SystemExit ends the process with its code, so it is a returned code
-- here; `none` says that a shell, a bridge or launchd still goes on after the given rounds.
use pazuzu.Base.{
  ℕ, ℤ, pos, Bool, true, false, not, ◌||◌, Option, none, some, List, [], ◌∷◌, ◌++◌, Text, codes,
  text_eq, map, if◌then◌else◌,
}
use pazuzu.Errors.{Kind, Result, ok, err, is_pazuzu_error}
use pazuzu.Exec.{Exec, pure, raise, raise_if, reraise, lift, modify, attempt, ◌>>=◌, ◌>>◌}
use pazuzu.Json.{Json, object_of, array_of, nullable}
use pazuzu.Transport.Probing.{is_os_error}
use pazuzu.McpServer.{is_port}
use pazuzu.Launchd.{service_status}
use pazuzu.Launchd.Services.{install_services, install_bridge, remove_bridge, uninstall_services}
use pazuzu.Cli.{Namespace, Subparser, Environment, text_at, number_at, flag_at, texts_at}
use pazuzu.Cli.Parser.{parser}
use pazuzu.Cli.Commands.{
  Program, required_host, bridge_command, serve_command, print, status_command, reconnect_command,
  stop_command, exec_command, shell_command, transfer_command, exec_bridge,
}

-- What argparse makes of the arguments: it exits by itself for help and for an error of usage. Making
-- the parser and parsing may raise, as they look up the home directory; `main` does both before its
-- `try`.
pub data Parsed : Type 0 where
  exits : ℤ → Parsed
  parsed : Namespace → Parsed

abbrev pub ParseArgs : Type 0
ParseArgs = List (Text × Subparser) → List Text → Result Parsed

abbrev texts_json : List Text → Json
texts_json ts = Json.array (array_of (map Json.text ts))

abbrev pairs_json : List (Text × Text) → Json
pairs_json pairs = Json.object (object_of (map (λ (k, v). (k, Json.text v)) pairs))

-- The kinds of the last `except` of `main`; a `PazuzuError` is a RuntimeError too.
unfoldable pub is_caught : Kind → Bool
unfolding is_pazuzu_error
is_caught Kind.runtime_error = true
is_caught Kind.type_error = true
is_caught Kind.value_error = true
is_caught kind = is_os_error kind || is_pazuzu_error kind

abbrev pub is_interrupt : Kind → Bool
is_interrupt Kind.keyboard_interrupt = true
is_interrupt _ = false

abbrev finished : {W : Type 0} → Exec W ℤ → Exec W (Option ℤ)
finished m = m >>= λ code. pure (some code)

module _ {Line W : Type 0} (p : Program Line W) (rounds : ℕ) where
  -- The dictionary that an operation of `service` prints, with its result if the rounds end it.
  unfoldable pub report : {A : Type 0} → Text → (A → Json) → Option A → Exec W (Option ℤ)
  report key json none = pure none
  report key json (some a) = do
    print p (p.dumps_indented (Json.object (object_of ((key, json a) ∷ []))))
    pure (some (pos 0))

  unfoldable pub service_install : Namespace → Exec W (Option ℤ)
  service_install ns = do
    host ← required_host ns
    raise_if (not (is_port (number_at ns (codes "mcp_port")))) Kind.value_error
        (codes "mcp-port must be between 1 and 65535")
    installed ←
        install_services p.mac rounds host
          (if flag_at ns (codes "with_mcp") then some (number_at ns (codes "mcp_port")) else none)
          (some (number_at ns (codes "max_sessions")))
    report (codes "installed") texts_json installed

  unfoldable pub service_install_bridge : Namespace → Exec W (Option ℤ)
  service_install_bridge ns = do
    command ← lift (bridge_command (texts_at ns (codes "remote_command")))
    target ←
        install_bridge p.mac rounds (text_at ns (codes "name")) command
          (text_at ns (codes "listen_host")) (number_at ns (codes "listen_port"))
          (text_at ns (codes "remote_host")) (number_at ns (codes "remote_port"))
    report (codes "installed") Json.text target

  unfoldable pub service_remove_bridge : Namespace → Exec W (Option ℤ)
  service_remove_bridge ns = do
    target ← remove_bridge p.mac rounds (text_at ns (codes "name"))
    report (codes "removed") nullable target

  unfoldable pub service_uninstall : Exec W (Option ℤ)
  service_uninstall = do
    removed ← uninstall_services p.mac rounds
    report (codes "removed") texts_json removed

  unfoldable pub service_report : Exec W (Option ℤ)
  service_report = do
    statuses ← service_status p.mac
    print p (p.dumps_sorted (pairs_json statuses))
    pure (some (pos 0))

  -- The `service` branch of `_run`.
  unfoldable pub service_command : Namespace → Exec W (Option ℤ)
  unfolding service_install service_install_bridge service_remove_bridge service_uninstall
      service_report
  service_command ns =
      let operation = text_at ns (codes "service_operation") in
      if text_eq operation (codes "install")
      then service_install ns
      else if text_eq operation (codes "install-bridge")
      then service_install_bridge ns
      else if text_eq operation (codes "remove-bridge")
      then service_remove_bridge ns
      else if text_eq operation (codes "uninstall")
      then service_uninstall
      else service_report

  -- `_run`
  unfoldable pub run : Namespace → Exec W (Option ℤ)
  unfolding service_command
  run ns =
      let operation = text_at ns (codes "operation") in
      if text_eq operation (codes "service")
      then service_command ns
      else if text_eq operation (codes "serve")
      then serve_command p ns >> pure (some (pos 0))
      else if text_eq operation (codes "status")
      then finished (status_command p ns)
      else if text_eq operation (codes "reconnect")
      then finished (reconnect_command p ns)
      else if text_eq operation (codes "stop")
      then finished (stop_command p ns)
      else if text_eq operation (codes "exec")
      then finished (exec_command p ns)
      else if text_eq operation (codes "shell")
      then shell_command p rounds ns
      else if text_eq operation (codes "cp") || text_eq operation (codes "rsync")
      then finished (transfer_command p operation ns)
      else raise Kind.assertion_error (codes "unreachable operation")

  -- The except clauses of `main`; `parser.exit(2, message)` writes the message to stderr.
  unfoldable pub conclude : Result (Option ℤ) → Exec W (Option ℤ)
  conclude (ok code) = pure code
  conclude (err e) =
      if is_interrupt e.kind
      then pure (some (pos 130))
      else if is_caught e.kind
      then modify (p.write_stderr (codes "pazuzu: " ++ (e.message ++ codes "\n")))
        >> pure (some (pos 2))
      else reraise e

  -- The `try` of `main` around an action.
  unfoldable pub guarded : Exec W (Option ℤ) → Exec W (Option ℤ)
  guarded action = do tried ← attempt action; conclude tried

  unfoldable pub perform : Namespace → Exec W (Option ℤ)
  perform ns = guarded (
      if text_eq (text_at ns (codes "operation")) (codes "bridge")
      then exec_bridge p rounds ns
      else run ns)

  unfoldable pub main : ParseArgs → Environment → List Text → Exec W (Option ℤ)
  main parse_args env argv = do
    found ← lift (parse_args (parser env) argv)
    elim found [ exits code ↦ pure (some code) | parsed ns ↦ perform ns ]

-- ===== src/Cli/Agents.antt =====
-- The command line of the agents that launchd runs: what launchd.py writes against what cli.py reads.
use pazuzu.Base.{
  ℕ, ℤ, pos, ◌≡◌, refl, Bool, true, false, Option, none, some, List, [], ◌∷◌, ◌++◌, Text, codes,
  text_eq, map, drop, int_text, parse_int-int_text, if◌then◌else◌,
}
use pazuzu.Errors.{ok}
use pazuzu.Exec.{pure, attempt, lift, ◌>>=◌, ◌>>◌}
use pazuzu.Settings.{SshSettings, default_settings, default_max_sessions}
use pazuzu.Launchd.{gateway_arguments, bridge_arguments}
use pazuzu.Cli.{
  Value, Namespace, Action, Argument, Environment, text, number, texts, convert, attribute, text_at,
  number_at, seconds_at, texts_at,
}
use pazuzu.Cli.Parser.{
  parser, serve_arguments, bridge_command_arguments, host_option, socket_option, control_option,
  max_sessions_option, listen_host_option, listen_port_option, remote_host_option,
  remote_port_option, environ_or,
}
use pazuzu.Cli.Commands.{
  Program, count_of, after_dashes, bridge_command, required_host, serve_settings, serve_gateway,
  serve_command, bridge_settings, bridge_with_settings, exec_bridge,
}
use pazuzu.Cli.Main.{ParseArgs, parsed, guarded, perform, run, main}

-- Options with their values, as words of a command line.
abbrev pub name_of : List Text → Text
name_of [] = []
name_of (name ∷ names) = name

abbrev pub words : List (Argument × Text) → List Text
words [] = []
words ((a, t) ∷ given) = name_of a.flags ∷ t ∷ words given

abbrev pub stored_value : Environment → Action → Text → Option Value
stored_value env (Action.store conversion) t = convert env conversion t
stored_value env _ t = none

abbrev pub cons_value : Text → Option Value → Option Namespace → Option Namespace
cons_value dest (some v) (some ns) = some ((dest, v) ∷ ns)
cons_value dest _ _ = none

-- The attributes that the options set, if all their values convert.
abbrev pub stored : Environment → List (Argument × Text) → Option Namespace
stored env [] = some []
stored env ((a, t) ∷ given) = cons_value a.dest (stored_value env a.action t) (stored env given)

-- The attributes of a subcommand, those of the options before what is left and the defaults.
abbrev pub namespace_of : Text → Namespace → Namespace → List Argument → Namespace
namespace_of name values rest spec =
    (codes "operation", text name) ∷ (values ++ (rest ++ map (λ a. (a.dest, a.default)) spec))

-- argparse reads these options of a subparser, with the defaults for all others.
abbrev pub Reads : ParseArgs → Environment → Text → List Argument → List (Argument × Text) → Type 0
Reads parse_args env name spec given =
    (values : Namespace)
    → stored env given ≡ some values
    → parse_args (parser env) (name ∷ words given) ≡ ok (parsed (namespace_of name values [] spec))

-- It reads such options and the words after `--`, which it takes from them or leaves.
abbrev pub ReadsRest :
    ParseArgs
    → Environment
    → Text
    → List Argument
    → List (Argument × Text)
    → Text
    → List Text
    → Bool
    → Type 0
ReadsRest parse_args env name spec given dest rest kept =
    (values : Namespace)
    → stored env given ≡ some values
    → parse_args (parser env) (name ∷ (words given ++ codes "--" ∷ rest))
      ≡ ok (
          parsed (
            namespace_of name values ((dest, texts (if kept then codes "--" ∷ rest else rest)) ∷ [])
              spec))

-- What the gateway's agent gives to the options of `serve`.
abbrev pub serve_options : Environment → Text → Text → Text → ℤ → List (Argument × Text)
serve_options env host socket_path control_path max_sessions =
    (host_option env, host)
    ∷ (socket_option env, socket_path)
    ∷ (control_option env, control_path)
    ∷ (max_sessions_option env, int_text max_sessions)
    ∷ []

-- The settings of a gateway in which only these differ from the defaults of `SshSettings`.
abbrev pub agent_settings : Environment → Text → Text → ℤ → SshSettings
agent_settings env host control_path max_sessions =
    record (default_settings host (env.resolve control_path)) {
      ssh_binary = environ_or env (codes "PAZUZU_SSH") (codes "/usr/bin/ssh");
      max_sessions = count_of max_sessions;
    }

module _ (env : Environment) (host socket_path control_path : Text) (max_sessions : ℤ) where
  abbrev serve_values : Namespace
  serve_values =
      (codes "host", text host)
      ∷ (codes "socket", text (env.resolve socket_path))
      ∷ (codes "control_path", text (env.resolve control_path))
      ∷ (codes "max_sessions", number max_sessions)
      ∷ []

  stored-serve_options :
      stored env (serve_options env host socket_path control_path max_sessions) ≡ some serve_values
  unfolding convert
  stored-serve_options = rw (parse_int-int_text max_sessions, convert) refl

module _ {Line W : Type 0} (p : Program Line W) (rounds : ℕ) (parse_args : ParseArgs)
    (env : Environment) where
  -- The agent that is installed for a gateway starts it for the host, the paths and the number of
  -- sessions that it was installed with, and with the defaults of `SshSettings` for all else but the
  -- ssh of the environment; this needs a host, and that argparse reads the options of the agent.
  pub main-gateway_arguments :
      (program host socket_path control_path : Text) (max_sessions : ℤ) (c : ℕ) (rest : Text)
      → host ≡ c ∷ rest
      → Reads parse_args env
          (codes "serve")
          (serve_arguments env)
          (serve_options env host socket_path control_path max_sessions)
      → (w : W)
      → main p rounds parse_args env
          (drop 1 (gateway_arguments program host socket_path control_path (some max_sessions)))
          w
        ≡ guarded p rounds
            (serve_gateway p
                (agent_settings env host control_path max_sessions)
                (env.resolve socket_path)
              >> pure (some (pos 0)))
            w
  unfolding main guarded perform run gateway_arguments serve_command required_host serve_settings
      serve_arguments text_at number_at seconds_at attribute text_eq ◌>>=◌ attempt
  main-gateway_arguments program host socket_path control_path max_sessions c rest named reads w =
      rw
        (
          reads (serve_values env host socket_path control_path max_sessions)
              (stored-serve_options env host socket_path control_path max_sessions),
          main,
        )
        (rw named refl)

-- What a bridge's agent gives to the options of `bridge`.
abbrev pub bridge_options : Environment → Text → Text → Text → ℤ → Text → ℤ → List (Argument × Text)
bridge_options env host control_path listen_host listen_port remote_host remote_port =
    (host_option env, host)
    ∷ (control_option env, control_path)
    ∷ (listen_host_option, listen_host)
    ∷ (listen_port_option, int_text listen_port)
    ∷ (remote_host_option, remote_host)
    ∷ (remote_port_option, int_text remote_port)
    ∷ []

module _ (env : Environment) (host control_path listen_host : Text) (listen_port : ℤ)
    (remote_host : Text) (remote_port : ℤ) where
  abbrev bridge_values : Namespace
  bridge_values =
      (codes "host", text host)
      ∷ (codes "control_path", text (env.resolve control_path))
      ∷ (codes "listen_host", text listen_host)
      ∷ (codes "listen_port", number listen_port)
      ∷ (codes "remote_host", text remote_host)
      ∷ (codes "remote_port", number remote_port)
      ∷ []

  stored-bridge_options :
      stored env
        (bridge_options env host control_path listen_host listen_port remote_host remote_port)
      ≡ some bridge_values
  unfolding convert
  stored-bridge_options =
      rw (parse_int-int_text listen_port, convert)
        (rw (parse_int-int_text remote_port, convert) refl)

-- Dashes before a command are dropped, wherever they come from.
after_dashes_kept :
    (kept : Bool) (word : Text) (command : List Text)
    → text_eq word (codes "--") ≡ false
    → bridge_command (if kept then codes "--" ∷ word ∷ command else word ∷ command)
      ≡ ok (word ∷ command)
unfolding bridge_command after_dashes text_eq
after_dashes_kept true word command h = refl
after_dashes_kept false word command h = rw h refl

module _ {Line W : Type 0} (p : Program Line W) (rounds : ℕ) (parse_args : ParseArgs)
    (env : Environment) where
  -- The agent that is installed for a bridge runs it between the addresses and with the command that
  -- it was installed with, whether argparse takes the dashes before the command away or leaves them;
  -- this needs a host, a command that does not begin with dashes alone, and that argparse reads the
  -- options of the agent.
  pub main-bridge_arguments :
      (program host control_path listen_host : Text) (listen_port : ℤ) (remote_host : Text)
      (remote_port : ℤ) (word : Text) (command : List Text) (kept : Bool) (c : ℕ) (rest : Text)
      → host ≡ c ∷ rest
      → text_eq word (codes "--") ≡ false
      → ReadsRest parse_args env
          (codes "bridge")
          (bridge_command_arguments env)
          (bridge_options env host control_path listen_host listen_port remote_host remote_port)
          (codes "remote_command")
          (word ∷ command)
          kept
      → (w : W)
      → main p rounds parse_args env
          (drop 1 (
            bridge_arguments program host control_path listen_host listen_port remote_host
              remote_port
              (word ∷ command)))
          w
        ≡ guarded p rounds
            (bridge_with_settings p rounds
              (agent_settings env host control_path (pos default_max_sessions))
              listen_host
              listen_port
              remote_host
              remote_port
              (word ∷ command))
            w
  unfolding main guarded perform bridge_arguments exec_bridge required_host bridge_settings
      bridge_command_arguments text_at number_at texts_at attribute text_eq ◌>>=◌ attempt lift
  main-bridge_arguments program host control_path listen_host listen_port remote_host remote_port
        word command kept c rest named plain reads w =
      rw
        (
          reads
              (bridge_values env host control_path listen_host listen_port remote_host remote_port)
              (stored-bridge_options env host control_path listen_host listen_port remote_host
                remote_port),
          main,
        )
        (rw (named, after_dashes_kept kept word command plain) refl)

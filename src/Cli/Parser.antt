-- ===== src/Cli/Parser.antt =====
-- cli.py: `_parser`, the arguments of every operation with their defaults.
use pazuzu.Base.{ℕ, pos, true, false, none, some, List, [], ◌∷◌, Text, codes}
use pazuzu.Settings.{default_max_sessions}
use pazuzu.Cli.{
  Value, Conversion, Action, Argument, Subparser, Environment, absent, text, number, seconds, flag,
  texts,
}

abbrev pub option : Text → Text → Conversion → Value → Argument
option name dest conversion default = record {
  flags = name ∷ [];
  dest = dest;
  action = Action.store conversion;
  default = default;
  required = false;
}

abbrev pub required_option : Text → Text → Conversion → Argument
required_option name dest conversion = record (option name dest conversion absent) {
  required = true;
}

abbrev pub switch : List Text → Text → Argument
switch names dest = record {
  flags = names;
  dest = dest;
  action = Action.store_true;
  default = flag false;
  required = false;
}

abbrev pub positional : Text → Action → Argument
positional dest action = record {
  flags = [];
  dest = dest;
  action = action;
  default = absent;
  required = true;
}

-- A positional argument with `nargs=argparse.REMAINDER`, which takes all that is left.
abbrev pub remaining : Text → Argument
remaining dest = record (positional dest Action.remainder) { default = texts []; required = false }

-- `os.environ.get(name)`
abbrev environ_value : Environment → Text → Value
environ_value env name = elim (env.environ name) [ none ↦ absent | some t ↦ text t ]

-- `os.environ.get(name, default)`
abbrev pub environ_or : Environment → Text → Text → Text
environ_or env name default = elim (env.environ name) [ none ↦ default | some t ↦ t ]

-- `_socket_default` and `_control_default`
unfoldable pub socket_default : Environment → Text
socket_default env = env.resolve (environ_or env (codes "PAZUZU_SOCKET") env.default_socket_path)

unfoldable pub control_default : Environment → Text
control_default env =
    env.resolve (environ_or env (codes "PAZUZU_CONTROL_PATH") env.default_control_path)

abbrev pub listen_host_option : Argument
listen_host_option =
    option (codes "--listen-host") (codes "listen_host") Conversion.plain (text (codes "127.0.0.1"))

abbrev pub listen_port_option : Argument
listen_port_option =
    required_option (codes "--listen-port") (codes "listen_port") Conversion.integer

abbrev pub remote_host_option : Argument
remote_host_option =
    option (codes "--remote-host") (codes "remote_host") Conversion.plain (text (codes "127.0.0.1"))

abbrev pub remote_port_option : Argument
remote_port_option =
    required_option (codes "--remote-port") (codes "remote_port") Conversion.integer

module _ (env : Environment) where
  abbrev pub host_option : Argument
  host_option =
      option (codes "--host") (codes "host") Conversion.plain
        (environ_value env (codes "PAZUZU_HOST"))

  abbrev pub socket_option : Argument
  socket_option =
      option (codes "--socket") (codes "socket") Conversion.path (text (socket_default env))

  abbrev pub control_option : Argument
  control_option =
      option (codes "--control-path") (codes "control_path") Conversion.path
        (text (control_default env))

  abbrev ssh_option : Argument
  ssh_option =
      option (codes "--ssh") (codes "ssh") Conversion.plain
        (text (environ_or env (codes "PAZUZU_SSH") (codes "/usr/bin/ssh")))

  abbrev pub max_sessions_option : Argument
  max_sessions_option =
      option (codes "--max-sessions") (codes "max_sessions") Conversion.integer
        (number (pos default_max_sessions))

  abbrev timeout_option : ℕ → Argument
  timeout_option default =
      option (codes "--timeout") (codes "timeout") Conversion.float (seconds default)

  -- The address that a bridge listens on and the one that it forwards to.
  abbrev bridge_options : List Argument → List Argument
  bridge_options rest =
      listen_host_option ∷ listen_port_option ∷ remote_host_option ∷ remote_port_option ∷ rest

  unfoldable pub serve_arguments : List Argument
  unfolding socket_default control_default
  serve_arguments =
      host_option
      ∷ socket_option
      ∷ control_option
      ∷ ssh_option
      ∷ max_sessions_option
      ∷ option (codes "--connect-timeout") (codes "connect_timeout") Conversion.float
          (seconds 60_000)
      ∷ option (codes "--probe-interval") (codes "probe_interval") Conversion.float (seconds 60_000)
      ∷ option (codes "--probe-timeout") (codes "probe_timeout") Conversion.float (seconds 30_000)
      ∷ option (codes "--probe-failures") (codes "probe_failures") Conversion.integer
          (number (pos 3))
      ∷ []

  unfoldable pub exec_arguments : List Argument
  unfolding socket_default
  exec_arguments =
      socket_option
      ∷ timeout_option 120_000
      ∷ switch (codes "--retry-safe" ∷ []) (codes "retry_safe")
      ∷ switch (codes "-n" ∷ codes "--no-stdin" ∷ []) (codes "no_stdin")
      ∷ remaining (codes "command")
      ∷ []

  unfoldable pub bridge_command_arguments : List Argument
  unfolding control_default
  bridge_command_arguments =
      host_option
      ∷ control_option
      ∷ ssh_option
      ∷ max_sessions_option
      ∷ bridge_options (remaining (codes "remote_command") ∷ [])

  -- The arguments of `cp` and `rsync`; `name` is the tool's own option.
  unfoldable pub transfer_arguments : Text → Text → Text → Text → List Argument
  unfolding socket_default
  transfer_arguments name dest variable executable =
      socket_option
      ∷ option name dest Conversion.plain (text (environ_or env variable executable))
      ∷ timeout_option 600_000
      ∷ remaining (codes "transfer_arguments")
      ∷ []

  unfoldable pub service_commands : List (Text × List Argument)
  service_commands =
      (
        codes "install",
        host_option
            ∷ switch (codes "--with-mcp" ∷ []) (codes "with_mcp")
            ∷ option (codes "--mcp-port") (codes "mcp_port") Conversion.integer (number (pos 8_767))
            ∷ max_sessions_option
            ∷ [],
      )
      ∷ (
        codes "install-bridge",
        positional (codes "name") (Action.store Conversion.plain)
            ∷ bridge_options (positional (codes "remote_command") Action.one_or_more ∷ []),
      )
      ∷ (codes "remove-bridge", positional (codes "name") (Action.store Conversion.plain) ∷ [])
      ∷ (codes "status", [])
      ∷ (codes "uninstall", [])
      ∷ []

  unfoldable pub parser : List (Text × Subparser)
  unfolding serve_arguments exec_arguments bridge_command_arguments transfer_arguments
      service_commands socket_default
  parser =
      (codes "serve", Subparser.arguments serve_arguments)
      ∷ (
        codes "status",
        Subparser.arguments (socket_option ∷ switch (codes "--probe" ∷ []) (codes "probe") ∷ []),
      )
      ∷ (
        codes "reconnect",
        Subparser.arguments (socket_option ∷ switch (codes "--force" ∷ []) (codes "force") ∷ []),
      )
      ∷ (codes "stop", Subparser.arguments (socket_option ∷ []))
      ∷ (codes "exec", Subparser.arguments exec_arguments)
      ∷ (codes "bridge", Subparser.arguments bridge_command_arguments)
      ∷ (
        codes "shell",
        Subparser.arguments (
            socket_option
            ∷ option (codes "--session") (codes "session") Conversion.plain (text (codes "pazuzu"))
            ∷ []),
      )
      ∷ (
        codes "cp",
        Subparser.arguments (
            transfer_arguments (codes "--scp") (codes "scp") (codes "PAZUZU_SCP")
              (codes "/usr/bin/scp")),
      )
      ∷ (
        codes "rsync",
        Subparser.arguments (
            transfer_arguments (codes "--rsync") (codes "rsync") (codes "PAZUZU_RSYNC")
              (codes "/usr/bin/rsync")),
      )
      ∷ (codes "service", Subparser.commands (codes "service_operation") service_commands)
      ∷ []

-- ===== src/Examples/Commands.antt =====
-- The command line of agents, and launchd with a clock.
use pazuzu.Base.{
  ℕ, ◌+◌, ◌≡◌, refl, pos, true, false, Option, none, some, List, [], ◌∷◌, ◌++◌, Text, codes, arith,
  drop, text_eq, map, ap, parse_int, int_text, if◌then◌else◌,
}
use pazuzu.Errors.{Result, ok}
use pazuzu.Exec.{pure, ◌>>◌}
use pazuzu.Settings.{default_max_sessions}
use pazuzu.Launchd.{Mac, gateway_arguments, bridge_arguments}
use pazuzu.Launchd.Services.{install_services, install_bridge, remove_bridge, uninstall_services}
use pazuzu.Launchd.Ending.{IsClock, IsReturned, enough, services_IsReturned}
use pazuzu.Cli.{Namespace, Argument, text, texts, convert}
use pazuzu.Cli.Parser.{serve_arguments, bridge_command_arguments}
use pazuzu.Cli.Commands.{Program, serve_gateway, bridge_with_settings}
use pazuzu.Cli.Main.{ParseArgs, Parsed, exits, parsed, guarded, main}
use pazuzu.Cli.Agents.{
  name_of, stored_value, cons_value, namespace_of, Reads, ReadsRest, serve_options, bridge_options,
  agent_settings, main-gateway_arguments, main-bridge_arguments,
}
use pazuzu.Cli.Exits.{Ends, operation, main-Ends}
use pazuzu.Examples.Gateways.{plain}
use pazuzu.Examples.Statuses.{client, python, Results}
use pazuzu.Json.{Dict}
use pazuzu.Examples.Programs.{idle_mac, program, plain_environment}

-- A small argparse: options with a value each, up to `--`, which it leaves before what is left.
abbrev find_argument : List Argument → Text → Option Argument
find_argument [] name = none
find_argument (a ∷ spec) name =
    if text_eq (name_of a.flags) name then some a else find_argument spec name

abbrev store_option : Option Argument → Text → Option Namespace → Option Namespace
store_option (some a) t rest = cons_value a.dest (stored_value plain_environment a.action t) rest
store_option none t rest = none

read_options : List Argument → List Text → Option Namespace
read_options spec [] = some []
read_options spec (name ∷ []) = none
read_options spec (name ∷ t ∷ rest) =
    let others = read_options spec rest in
    if text_eq name (codes "--")
    then some ((codes "remote_command", texts (name ∷ t ∷ rest)) ∷ [])
    else store_option (find_argument spec name) t others

abbrev parse_options : Text → List Argument → Option Namespace → Result Parsed
parse_options name spec none = ok (exits (pos 2))
parse_options name spec (some values) =
    ok (parsed ((codes "operation", text name) ∷ (values ++ map (λ a. (a.dest, a.default)) spec)))

abbrev parse_args : ParseArgs
parse_args subparsers [] = ok (exits (pos 2))
parse_args subparsers (name ∷ words) =
    if text_eq name (codes "serve")
    then parse_options name (serve_arguments plain_environment)
        (read_options (serve_arguments plain_environment) words)
    else parse_options name (bridge_command_arguments plain_environment)
        (read_options (bridge_command_arguments plain_environment) words)

abbrev command_line : Program Dict Results
command_line = program (λ socket. client) python plain

some_injective : {ns ms : Namespace} → some ns ≡ some ms → ns ≡ ms
some_injective h = cc h

Reads-serve :
    Reads parse_args plain_environment (codes "serve") (serve_arguments plain_environment) (
      serve_options plain_environment
        (codes "login")
        (codes "/x/gateway.sock")
        (codes "/x/ssh.ctl")
        (pos 12))
unfolding read_options serve_arguments convert parse_int int_text text_eq
Reads-serve values h =
    ap (λ vs. ok (parsed (namespace_of (codes "serve") vs [] (serve_arguments plain_environment))))
      (some_injective h)

main-gateway_arguments_example :
    main command_line 5 parse_args plain_environment
      (drop 1 (
        gateway_arguments
          (codes "/bin/pazuzu")
          (codes "login")
          (codes "/x/gateway.sock")
          (codes "/x/ssh.ctl")
          (some (pos 12))))
      []
    ≡ guarded command_line 5
        (serve_gateway command_line
            (agent_settings plain_environment (codes "login") (codes "/x/ssh.ctl") (pos 12))
            (codes "/x/gateway.sock")
          >> pure (some (pos 0)))
        []
main-gateway_arguments_example =
    main-gateway_arguments command_line 5 parse_args plain_environment (codes "/bin/pazuzu")
      (codes "login") (codes "/x/gateway.sock") (codes "/x/ssh.ctl") (pos 12) b'l' (codes "ogin")
      refl Reads-serve []

ReadsRest-bridge :
    ReadsRest parse_args plain_environment
      (codes "bridge")
      (bridge_command_arguments plain_environment)
      (bridge_options plain_environment
        (codes "login")
        (codes "/x/ssh.ctl")
        (codes "127.0.0.1")
        (pos 8_888)
        (codes "localhost")
        (pos 80))
      (codes "remote_command")
      (codes "serve" ∷ codes "--port" ∷ codes "80" ∷ [])
      true
unfolding read_options bridge_command_arguments convert parse_int int_text text_eq
ReadsRest-bridge values h =
    ap
      (λ vs. ok (
        parsed (
          namespace_of (codes "bridge") vs
            ((
              codes "remote_command",
              texts (codes "--" ∷ codes "serve" ∷ codes "--port" ∷ codes "80" ∷ []),
            )
              ∷ [])
            (bridge_command_arguments plain_environment))))
      (some_injective h)

serve_word : text_eq (codes "serve") (codes "--") ≡ false
unfolding text_eq
serve_word = refl

main-bridge_arguments_example :
    main command_line 5 parse_args plain_environment
      (drop 1 (
        bridge_arguments
          (codes "/bin/pazuzu")
          (codes "login")
          (codes "/x/ssh.ctl")
          (codes "127.0.0.1")
          (pos 8_888)
          (codes "localhost")
          (pos 80)
          (codes "serve" ∷ codes "--port" ∷ codes "80" ∷ [])))
      []
    ≡ guarded command_line 5
        (bridge_with_settings command_line 5
          (agent_settings plain_environment
            (codes "login")
            (codes "/x/ssh.ctl")
            (pos default_max_sessions))
          (codes "127.0.0.1")
          (pos 8_888)
          (codes "localhost")
          (pos 80)
          (codes "serve" ∷ codes "--port" ∷ codes "80" ∷ []))
        []
main-bridge_arguments_example =
    main-bridge_arguments command_line 5 parse_args plain_environment (codes "/bin/pazuzu")
      (codes "login") (codes "/x/ssh.ctl") (codes "127.0.0.1") (pos 8_888) (codes "localhost")
      (pos 80) (codes "serve") (codes "--port" ∷ codes "80" ∷ []) true b'l' (codes "ogin") refl
      serve_word ReadsRest-bridge []

-- `pazuzu service install` without a host: the operation raises a ValueError.
abbrev service_install : Namespace
service_install =
    (codes "operation", text (codes "service"))
    ∷ (codes "service_operation", text (codes "install"))
    ∷ (codes "host", text [])
    ∷ []

abbrev parse_service : ParseArgs
parse_service subparsers words = ok (parsed service_install)

main-Ends_example :
    Ends
      (operation command_line 5 service_install []).0
      (main command_line 5 parse_service plain_environment (codes "service" ∷ []) []).0
main-Ends_example =
    main-Ends command_line 5 parse_service plain_environment (codes "service" ∷ []) service_install
      [] refl

-- A Mac that never unloads an agent, with the milliseconds that have passed.
abbrev clocked : Mac ℕ
clocked = idle_mac (λ w. w) (λ n w. w + n)

clocked-IsClock : IsClock clocked
clocked-IsClock = record { runs = λ arguments w. omega arith; sleeps = λ n w. omega arith }

services_IsReturned_example :
    IsReturned (install_services clocked enough (codes "login") none (some (pos 8)) 0).0
    × IsReturned
        (install_bridge clocked enough
          (codes "nb")
          (codes "serve" ∷ [])
          (codes "127.0.0.1")
          (pos 8_888)
          (codes "localhost")
          (pos 80)
          0).0
    × IsReturned (remove_bridge clocked enough (codes "nb") 0).0
    × IsReturned (uninstall_services clocked enough 0).0
services_IsReturned_example =
    services_IsReturned clocked clocked-IsClock (codes "login") (codes "nb") none (some (pos 8))
      (codes "serve" ∷ []) (codes "127.0.0.1") (pos 8_888) (codes "localhost") (pos 80) 0

-- ===== src/Examples/Tools.antt =====
-- The tools of the adapter and `pazuzu exec` over a scripted gateway.
use pazuzu.Base.{◌≡◌, refl, true, false, none, [], ◌∷◌, codes, arith, text_eq, if◌then◌else◌, some}
use pazuzu.Errors.{ok}
use pazuzu.Exec.{pure}
use pazuzu.Exec.Adds.{Adds}
use pazuzu.Json.{Json, get}
use pazuzu.Supervisor.Operations
use pazuzu.Gateway.{health_dict}
use pazuzu.Gateway.Relay.{connected}
use pazuzu.Gateway.Commands.{sent, client}
use pazuzu.McpServer.{Tool, JsonResponse, call_tool, health_route}
use pazuzu.McpServer.Sends.{call_tool_sends}
use pazuzu.McpServer.Health.{health_route-state}
use pazuzu.Cli.{Namespace, flag, seconds, text, texts, texts_at, flag_at, seconds_at}
use pazuzu.Cli.Commands.{exec_command, remote_command, after_dashes, read_stdin}
use pazuzu.Cli.Relay.{shown, exec_command-execute}
use pazuzu.Examples.Connections.{broken, true_command}
use pazuzu.Examples.Gateways.{
  plain, plain_client, env, repr, silence, python, plain-IsFaithful, uuid4-fresh,
  uuid4-sends_nothing, done-IsReported,
}
use pazuzu.Examples.Programs.{program}

abbrev request : Tool
request = Tool.execute true_command 5_000

call_tool_sends_example :
    Adds sent 1 (call_tool (client plain_client env repr silence plain-IsFaithful) python request)
call_tool_sends_example =
    call_tool_sends plain_client env repr silence plain-IsFaithful python uuid4-sends_nothing
      request

health_route-state_example :
    (r : JsonResponse) × (health_route
        (connected plain_client env repr silence)
        python
        (broken, none)
      ≡ (ok r, (broken, none)))
    × (r.status_code ≡ 200)
    × (get r.content (codes "status") ≡ some (Json.text (codes "degraded")))
    × (h : Operations.Health) × (Operations.health env false broken ≡ (ok h, broken))
    × (r.content ≡ (codes "status", Json.text (codes "degraded")) ∷ health_dict h)
health_route-state_example =
    health_route-state plain_client python env repr silence plain-IsFaithful
      (codes "0123456789abcdef") broken uuid4-fresh (omega arith) (λ h known. omega arith)

-- `pazuzu exec -n --timeout 5 -- true`
abbrev exec_true : Namespace
exec_true =
    (codes "socket", text (codes "/x/gateway.sock"))
    ∷ (codes "timeout", seconds 5_000)
    ∷ (codes "retry_safe", flag false)
    ∷ (codes "no_stdin", flag true)
    ∷ (codes "command", texts (codes "--" ∷ true_command ∷ []))
    ∷ []

exec_true_command : remote_command (texts_at exec_true (codes "command")) ≡ ok true_command
unfolding remote_command after_dashes texts_at text_eq
exec_true_command = refl

exec_true_stdin :
    (if flag_at exec_true (codes "no_stdin")
        then pure []
        else read_stdin (program (λ socket. connected plain_client env repr silence) python plain))
      (broken, none)
    ≡ (ok [], (broken, none))
unfolding flag_at text_eq pure
exec_true_stdin = refl

exec_command-execute_example :
    let p = program (λ socket. connected plain_client env repr silence) python plain in
    exec_command p exec_true (broken, none)
    ≡ shown p (Operations.execute env true_command [] 5_000 false broken)
unfolding seconds_at flag_at text_eq
exec_command-execute_example =
    exec_command-execute (program (λ socket. connected plain_client env repr silence) python plain)
      plain_client env repr silence plain-IsFaithful exec_true (codes "0123456789abcdef")
      true_command [] broken refl exec_true_command exec_true_stdin uuid4-fresh tt (omega arith)
      (omega arith) done-IsReported (omega arith)

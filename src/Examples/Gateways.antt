-- ===== src/Examples/Gateways.antt =====
-- A gateway and its clients in the scripted world, with messages that are sent as they are.
use pazuzu.Base.{
  if◌then◌else◌, ◌≡◌, ◌≢◌, refl, Bool, true, false, none, some, List, [], ◌∷◌, Text, codes, arith,
  text_eq, has_char,
}
use pazuzu.Errors.{Kind, Exception, ok}
use pazuzu.Exec.{pure, raise, reraise, gets, modify, attempt, handle, finally, ◌>>=◌}
use pazuzu.Exec.Adds.{Adds, Adds-pure}
use pazuzu.Json.{Json, Dict, object_of, get}
use pazuzu.Supervisor.{Outcome, record_connected}
use pazuzu.Supervisor.Machine.{Env, self, call, update, clock, timestamp, with_repair_lock}
use pazuzu.Supervisor.Repair.{
  connect, connect_anew, replace_master, start_attempts, ensure_connected, is_still_connected,
  safe_repair_after_command, check, probe, run_probe, note_probe,
}
use pazuzu.Supervisor.Maintenance.{start, detach, stop_maintenance}
use pazuzu.Supervisor.Operations
use pazuzu.Supervisor.Operations.{CommandResult}
use pazuzu.Supervisor.Invariant.{IsSound}
use pazuzu.Gateway.{Codec, IsFaithful}
use pazuzu.Gateway.Dispatch.{dispatch, params_of, choose}
use pazuzu.Gateway.Server.{
  Listener, Ended, GatewayServer, request_stop, serve, prepare_socket, wait_end, answer_all,
}
use pazuzu.Gateway.Calls.{Client, envelope, call_gateway}
use pazuzu.Gateway.Orders.{IsOneTask, dispatch-Orders}
use pazuzu.Gateway.Relay.{
  Served, relayed, IsReported, connected, call_gateway-dispatch, gateway_link,
}
use pazuzu.Gateway.Commands.{sent, client}
use pazuzu.Gateway.Lifetime.{serve_ok}
use pazuzu.Gateway.Ending.{IsEnded, serve-IsEnded}
use pazuzu.Client.{Runtime, execute, run, run_script, submit_slurm, cancel_slurm}
use pazuzu.Client.Served.{carried, answer_of, execute-served}
use pazuzu.Client.Sends.{changes_sent}
use pazuzu.Examples.Connections.{
  Script, scripted, broken, broken-IsSound, true_command, scripted-IsRespectful,
}
use pazuzu.Examples.Jobs.{job}

abbrev pub plain : Codec Dict
plain = record { dumps = λ d. d; loads = λ d. some (Json.object (object_of d)); size = λ d. 0 }

pub plain-IsFaithful : IsFaithful plain
plain-IsFaithful d = refl

abbrev pub env : Env Script
env = scripted Outcome.ok

abbrev pub repr : Json → Text
repr v = codes "?"

abbrev pub silence : Exception
silence = record { kind = Kind.protocol_error; message = codes "gateway message is not valid JSON" }

abbrev pub plain_client : Client Dict (Served Dict Script)
plain_client = record {
  link = gateway_link plain env repr silence;
  codec = plain;
  str_json = λ v. codes "?";
  format_seconds = λ n. [];
  socket_path = codes "/x/gateway.sock";
}

abbrev pub python : Runtime (Served Dict Script)
python = record {
  uuid4 = pure (codes "0123456789abcdef");
  encode = λ t. ok t;
  arguments_error = λ d. [];
}

abbrev shutdown : Dict
shutdown = envelope (codes "7") (codes "shutdown") []

dispatch-Orders_example : IsOneTask env (dispatch env repr shutdown) broken
dispatch-Orders_example = dispatch-Orders env repr shutdown broken

shutdown-IsReported : IsReported (dispatch env repr shutdown broken).0
unfolding dispatch ◌>>=◌ get envelope text_eq params_of choose
shutdown-IsReported = tt

call_gateway-dispatch_example :
    call_gateway
      (connected plain_client env repr silence)
      (codes "7")
      (codes "shutdown")
      []
      1_000
      (broken, none)
    ≡ (relayed (dispatch env repr shutdown broken).0, ((dispatch env repr shutdown broken).1, none))
call_gateway-dispatch_example =
    call_gateway-dispatch plain_client env repr silence plain-IsFaithful (codes "7")
      (codes "shutdown") [] 1_000 broken (omega arith) shutdown-IsReported (omega arith)

pub done-IsReported :
    IsReported (answer_of (Operations.execute env true_command [] 5_000 false broken).0)
unfolding Operations.execute ◌>>=◌ has_char Operations.execute_checked Operations.run_session
    Operations.operation clock Operations.hold update finally Operations.take_slot handle call
    ensure_connected is_still_connected self connect attempt gets modify pure raise reraise
    timestamp with_repair_lock Operations.command_result connect_anew replace_master start_attempts
    record_connected safe_repair_after_command check probe run_probe note_probe
done-IsReported = tt

pub uuid4-fresh : python.uuid4 (broken, none) ≡ (ok (codes "0123456789abcdef"), (broken, none))
unfolding pure
uuid4-fresh = refl

execute-served_example :
    let (r, m') = Operations.execute env true_command [] 5_000 false broken in
    execute
      (connected plain_client env repr silence)
      python
      true_command
      []
      5_000
      false
      (broken, none)
    ≡ (carried r, (m', none))
execute-served_example =
    execute-served plain_client env repr silence plain-IsFaithful (codes "0123456789abcdef")
      true_command [] 5_000 false broken python uuid4-fresh tt (omega arith) (omega arith)
      done-IsReported (omega arith)

pub uuid4-sends_nothing : Adds sent 0 python.uuid4
uuid4-sends_nothing = Adds-pure sent 0 (codes "0123456789abcdef")

changes_sent_example :
    let via = client plain_client env repr silence plain-IsFaithful in
    Adds sent 1 (run via python true_command [] 5_000)
    × Adds sent 1 (run_script via python (codes "python3") [] (codes "a b" ∷ []) 5_000)
    × Adds sent 1 (submit_slurm via python job)
    × Adds sent 1 (cancel_slurm via python (codes "42"))
changes_sent_example =
    changes_sent plain_client env repr silence plain-IsFaithful python uuid4-sends_nothing
      true_command (codes "python3") (codes "42") [] (codes "a b" ∷ []) 5_000 job

abbrev server : GatewayServer
server = request_stop true (record { stop_event = false; preserve_master = false; closing = false })

-- A line that is no request, and a request whose client goes away.
abbrev lines : List (Dict × Bool)
lines = ([], false) ∷ (shutdown, true) ∷ []

serve-IsEnded_example :
    let (r, m) =
      serve plain env repr
        (codes "/x/gateway.sock")
        Listener.stale
        lines
        Ended.stop_event
        server
        broken in
    IsSound m.sup
    × IsEnded server.preserve_master r m
    × (answer_all plain env repr server lines
        ≡ answer_all plain env repr server (if server.closing then [] else lines))
serve-IsEnded_example =
    serve-IsEnded plain env repr (codes "/x/gateway.sock") Listener.stale lines Ended.stop_event
      server broken (scripted-IsRespectful IsSound Outcome.ok) broken-IsSound

serve_returns :
    (serve plain env repr
      (codes "/x/gateway.sock")
      Listener.stale
      []
      Ended.stop_event
      server
      broken).0
    ≡ ok tt
unfolding serve ◌>>=◌ prepare_socket start self call update finally request_stop detach
    stop_maintenance answer_all wait_end
serve_returns = refl

serve_ok_example : (Ended.stop_event ≡ Ended.stop_event) × (Listener.stale ≢ Listener.answering)
serve_ok_example =
    serve_ok plain env repr (codes "/x/gateway.sock") Listener.stale [] Ended.stop_event server
      broken serve_returns

-- ===== src/Examples/Programs.antt =====
-- The command line in a world in which every call outside succeeds at once.
use pazuzu.Base.{ℕ, pos, true, false, none, some, [], ◌++◌, Text, codes}
use pazuzu.Errors.{ok}
use pazuzu.Process.{ProcessResult}
use pazuzu.Supervisor.{Outcome}
use pazuzu.Supervisor.Machine.{Env}
use pazuzu.Gateway.{Codec}
use pazuzu.Gateway.Server.{Listener, Ended}
use pazuzu.Gateway.Calls.{Client}
use pazuzu.Client.{Runtime}
use pazuzu.Transport.Bridging
use pazuzu.Launchd.{Mac}
use pazuzu.Cli.{Environment}
use pazuzu.Cli.Commands.{Program}

abbrev nothing : ProcessResult
nothing = record {
  exit_code = pos 0;
  stdout = [];
  stderr = [];
  stdout_truncated = false;
  stderr_truncated = false;
}

module _ {W : Type 0} where
  abbrev pub idle_env : Env W
  idle_env = record {
    monotonic = λ w. 0;
    now = λ w. [];
    format_seconds = λ n. [];
    format_rounded = λ n. [];
    decode = λ b. b;
    lock_repair = λ s w. (ok tt, s, w);
    unlock_repair = λ s w. (ok tt, s, w);
    control_check = λ s w. (ok true, s, w);
    stop_master = λ s w. (ok tt, s, w);
    start_master = λ s w. (ok tt, s, w);
    adopt_existing = λ s w. (ok true, s, w);
    detach_master = λ s w. (ok tt, s, w);
    probe = λ s w. (ok Outcome.ok, s, w);
    join_probe = λ s w. (ok Outcome.ok, s, w);
    cancel_probe = λ s w. (ok tt, s, w);
    cancel_maintainer = λ s w. (ok tt, s, w);
    start_maintainer = λ s w. (ok tt, s, w);
    publish_budget = λ s w. (ok tt, s, w);
    acquire_slot = λ timeout s w. (ok (record { handle = none }), s, w);
    release_slot = λ lease s w. (ok tt, s, w);
    session = λ command stdin timeout s w. (ok nothing, s, w);
    run_transfer = λ argv timeout s w. (ok nothing, s, w);
    sleep = λ n s w. (ok tt, s, w);
    wait_wake = λ n s w. (ok true, s, w);
    wait_wake_forever = λ s w. (ok tt, s, w);
  }

  -- launchctl always says that an agent is loaded.
  abbrev pub idle_mac : (W → ℕ) → (ℕ → W → W) → Mac W
  idle_mac monotonic sleep = record {
    is_darwin = true;
    domain = codes "gui/501";
    state_dir = codes "/x";
    socket_path = codes "/x/gateway.sock";
    control_path = codes "/x/ssh.ctl";
    program = codes "/bin/pazuzu";
    beside = λ name. codes "/bin/" ++ name;
    write_agent = λ content w. (ok content.label, w);
    program_arguments = λ label w. ok [];
    bridge_labels = λ w. [];
    remove_agent = λ label w. (some label, w);
    launchctl = λ arguments w. (ok (pos 0, []), w);
    agent_path = λ label. label;
    path_exists = λ path w. true;
    run_ssh = λ argv w. (ok tt, w);
    unix_ready = λ path w. true;
    tcp_ready = λ host port w. true;
    monotonic = monotonic;
    sleep = sleep;
  }

  abbrev idle_bridge : Bridging.Machine W
  idle_bridge = record {
    run = λ argv w. (ok (pos 0, []), w);
    serve = λ argv w. (ok (pos 0), w);
    acquire = λ pool timeout w. (ok (record { handle = none }), w);
    release = λ lease w. (ok tt, w);
    wait_for_retry = λ n w. (true, w);
    is_stopped = λ w. true;
    monotonic = λ w. 0;
    published_budget = λ w. none;
    decode = λ b. b;
  }

  -- What is written to the standard streams is dropped.
  abbrev pub program :
      {Line : Type 0} → (Text → Client Line W) → Runtime W → Codec Line → Program Line W
  program client python codec = record {
    client = client;
    python = python;
    mac = idle_mac (λ w. 0) (λ n w. w);
    bridge = idle_bridge;
    codec = codec;
    serving = λ settings. record {
      env = idle_env;
      repr = λ v. [];
      listener = Listener.absent;
      requests = [];
      signals = [];
      ended = Ended.stop_event;
    };
    stdin_isatty = true;
    stdout_isatty = true;
    stdin_is_socket = false;
    read_stdin = λ limit w. (ok [], w);
    write_stdout = λ t w. w;
    write_stderr = λ t w. w;
    dumps_indented = λ v. [];
    dumps_sorted = λ v. [];
    dumps_compact = λ v. [];
    str_json = λ v. [];
    int_json = λ v. ok (pos 0);
    spawn_ssh = λ argv w. (ok (pos 0), w);
    sleep = λ w. (ok tt, w);
    is_cancelled = λ w. false;
  }

-- An environment with no variables set, in which paths are absolute.
abbrev pub plain_environment : Environment
plain_environment = record {
  environ = λ name. none;
  default_socket_path = codes "/x/gateway.sock";
  default_control_path = codes "/x/ssh.ctl";
  resolve = λ path. path;
  parse_float = λ t. none;
}

-- ===== src/McpServer.antt =====
-- mcp_server.py: the tools that the adapter gives to an MCP client, each a call of `PazuzuClient`, the
-- health route, and `main`. The mcp package, which parses the calls and sends the results, is a
-- parameter.
pub mod Sends
pub mod Health
use pazuzu.Base.{
  ℕ, ℤ, pos, negsuc, Bool, true, false, not, ◌&&◌, ◌||◌, Option, none, some, List, [], ◌∷◌, Text,
  codes, text_eq, ltb, leb, ◌==◌, if◌then◌else◌,
}
use pazuzu.Errors.{Kind, Exception, Result, ok, err, is_pazuzu_error}
use pazuzu.Exec.{Exec, pure, raise_if, reraise, lift, attempt, handle, ◌>>=◌, ◌>>◌}
use pazuzu.Json.{Json, Dict, get}
use pazuzu.Slurm.{SlurmResources, SlurmJob, check_job}
use pazuzu.Slurm.Records.{handle_dict, status_dict}
use pazuzu.Supervisor.Operations.{CommandResult}
use pazuzu.Transport.Probing.{is_os_error}
use pazuzu.Gateway.Calls
use pazuzu.Client
use pazuzu.Client.{Runtime}

-- `_command_result`
unfoldable pub command_result : CommandResult → Dict
command_result r =
    (codes "exit_code", Json.number r.exit_code)
    ∷ (codes "stdout", Json.text r.stdout)
    ∷ (codes "stderr", Json.text r.stderr)
    ∷ (codes "stdout_truncated", Json.boolean r.stdout_truncated)
    ∷ (codes "stderr_truncated", Json.boolean r.stderr_truncated)
    ∷ (codes "replayed", Json.boolean r.replayed)
    ∷ []

-- The arguments of `submit_slurm_job`.
pub record Submission : Type 0 where
  pub name : Text
  pub argv : List Text
  pub cwd : Text
  pub log_dir : Text
  pub memory_gb_per_node : ℤ
  pub time_limit : Text
  pub cpus_per_task : ℤ
  pub gpus_per_node : ℤ
  pub nodes : ℤ
  pub tasks_per_node : ℤ
  pub partition : Option Text
  pub account : Option Text
  pub qos : Option Text
  pub constraint : Option Text
  pub array : Option Text
  pub dependency : Option Text
  pub environment : Option (List (Text × Text))
  pub node_list : Option Text
  pub exclude : Option Text

unfoldable pub resources_of : Submission → SlurmResources
resources_of s = record {
  memory_gb_per_node = s.memory_gb_per_node;
  time_limit = s.time_limit;
  cpus_per_task = s.cpus_per_task;
  gpus_per_node = s.gpus_per_node;
  nodes = s.nodes;
  tasks_per_node = s.tasks_per_node;
  partition = s.partition;
  account = s.account;
  qos = s.qos;
  constraint = s.constraint;
  array = s.array;
  dependency = s.dependency;
  node_list = s.node_list;
  exclude = s.exclude;
}

-- `environment or {}`
abbrev or_no_variables : Option (List (Text × Text)) → List (Text × Text)
or_no_variables none = []
or_no_variables (some variables) = variables

unfoldable pub job_of : Submission → SlurmJob
unfolding resources_of
job_of s = record {
  name = s.name;
  argv = s.argv;
  cwd = s.cwd;
  log_dir = s.log_dir;
  resources = resources_of s;
  environment = or_no_variables s.environment;
}

-- A call of a tool, with the arguments that its signature has.
pub data Tool : Type 0 where
  connection_health : Bool → Tool
  reconnect : Bool → Tool
  execute : Text → ℕ → Tool
  slurm_queue : Tool
  inspect_slurm_job : Text → Tool
  submit_slurm_job : Submission → Tool
  slurm_job_status : Text → Tool
  cancel_slurm_job : Text → Tool
  tail_remote_file : Text → ℤ → Tool

-- `1 <= port <= 65535`
unfoldable pub is_port : ℤ → Bool
is_port (pos n) = leb 1 n && leb n 65_535
is_port (negsuc n) = false

-- `except (OSError, RuntimeError)`, of which `PazuzuError` is a subclass.
unfoldable pub is_unavailable : Kind → Bool
unfolding is_pazuzu_error
is_unavailable Kind.runtime_error = true
is_unavailable kind = is_os_error kind || is_pazuzu_error kind

-- `result.get("connection") == "connected"`
unfoldable pub is_connected : Dict → Bool
is_connected health = elim (get health (codes "connection")) [
  | some (Json.text state) ↦ text_eq state (codes "connected")
  | _ ↦ false
]

-- `{**defaults, **d}` for one default, which keeps its place.
unfoldable pub with_status : Text → Dict → Dict
with_status status d = elim (get d (codes "status")) [
  | none ↦ (codes "status", Json.text status) ∷ d
  | some v ↦ (codes "status", v) ∷ without d
]
  where
    without : Dict → Dict
    without [] = []
    without ((k, v) ∷ rest) =
        let kept = without rest in if text_eq k (codes "status") then kept else (k, v) ∷ kept

-- The response of the health route: its body and its status code.
pub record JsonResponse : Type 0 where
  pub content : Dict
  pub status_code : ℕ

-- Whether the mcp package is there, or which module was not found.
pub data Import : Type 0 where
  found : Import
  missing : Text → Exception → Import

module _ {Line W : Type 0} (c : Calls.Client Line W) (py : Runtime W) where
  -- `execute` of the adapter; a time that is not positive is 0 here.
  unfoldable pub run_tool : Text → ℕ → Exec W Dict
  run_tool command timeout_seconds = do
    raise_if (timeout_seconds == 0 || ltb 600_000 timeout_seconds) Kind.value_error
        (codes "timeout_seconds must be between 0 and 600")
    result ← Client.run c py command [] timeout_seconds
    pure (command_result result)

  -- `submit_slurm_job`: `check_job` is what the constructors of the resources and of the job check.
  unfoldable pub submit_tool : Submission → Exec W Dict
  submit_tool s = do
    lift (check_job (job_of s))
    handle_ ← Client.submit_slurm c py (job_of s)
    pure (handle_dict handle_)

  -- The tools that `create_server` registers.
  unfoldable pub call_tool : Tool → Exec W Dict
  unfolding run_tool submit_tool
  call_tool (Tool.connection_health probe) = Client.health c py probe 90_000
  call_tool (Tool.reconnect force) = Client.reconnect c py force
  call_tool (Tool.execute command timeout_seconds) = run_tool command timeout_seconds
  call_tool Tool.slurm_queue = do result ← Client.slurm_queue c py; pure (command_result result)
  call_tool (Tool.inspect_slurm_job job_id) = do
    result ← Client.inspect_slurm_job c py job_id
    pure (command_result result)
  call_tool (Tool.submit_slurm_job s) = submit_tool s
  call_tool (Tool.slurm_job_status job_id) = do
    status ← Client.slurm_status c py job_id
    pure (status_dict status)
  call_tool (Tool.cancel_slurm_job job_id) = do
    result ← Client.cancel_slurm c py job_id
    pure (command_result result)
  call_tool (Tool.tail_remote_file remote_path lines) = do
    result ← Client.tail c py remote_path lines
    pure (command_result result)

  unfoldable pub health_route : Exec W JsonResponse
  health_route = do
    tried ← attempt (Client.health c py false 5_000)
    handle tried
        (λ result. pure (record {
          content =
              with_status (if is_connected result then codes "ok" else codes "degraded") result;
          status_code = 200;
        }))
        (λ e.
          if is_unavailable e.kind
          then pure (record {
            content =
                (codes "status", Json.text (codes "unavailable"))
                ∷ (codes "gateway", Json.text (codes "unavailable"))
                ∷ (codes "error", Json.text e.message)
                ∷ [];
            status_code = 503;
          })
          else reraise e)

-- The command line of the adapter, once parsed, and what it gets from the mcp package: whether that
-- can be imported, and a server that runs at a host and a port.
pub record Options : Type 0 where
  pub socket : Option Text
  pub transport : Text
  pub port : ℤ

pub record FastMcp (W : Type 0) : Type 0 where
  pub imported : Import
  pub run : Text → Text → ℤ → Bool → Text → W → Result (Unit {0}) × W

-- `value or default`
abbrev or_default : Option Text → Text → Text
or_default (some (c ∷ value)) default = c ∷ value
or_default _ default = default

-- The first lines of `create_server`.
unfoldable pub require_mcp : Import → Result (Unit {0})
require_mcp Import.found = ok tt
require_mcp (Import.missing name e) =
    if text_eq name (codes "mcp")
    then err (record {
      kind = Kind.runtime_error;
      message = codes "install the optional dependency with 'pazuzu-ssh[mcp]'";
    })
    else err e

-- What `main` leaves the process with: a code, or a message of SystemExit.
pub data Exit : Type 0 where
  code : ℤ → Exit
  message : Text → Exit

module _ {W : Type 0} (resolve : Text → Text) (default_socket_path : Text) (mcp : FastMcp W) where
  -- `_socket_path`; `resolve` expands and resolves a path.
  unfoldable pub socket_path : Option Text → Text
  socket_path value = resolve (or_default value default_socket_path)

  unfoldable pub main : Options → Exec W Exit
  main arguments =
      if not (is_port arguments.port)
      then pure (Exit.message (codes "pazuzu-mcp: --port must be between 1 and 65535"))
      else (do
        lift (require_mcp mcp.imported)
        mcp.run (socket_path arguments.socket) (codes "127.0.0.1") arguments.port
            (text_eq arguments.transport (codes "streamable-http")) arguments.transport
        pure (Exit.code (pos 0)))

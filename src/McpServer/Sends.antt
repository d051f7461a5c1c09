-- ===== src/McpServer/Sends.antt =====
-- How often the tools of the adapter make a gateway send a command.
use pazuzu.Base.{ℕ, Text}
use pazuzu.Errors.{Exception}
use pazuzu.Exec.Adds.{Adds, adds_rules}
use pazuzu.Json.{Json}
use pazuzu.Supervisor.Machine.{Env}
use pazuzu.Gateway.{IsFaithful}
use pazuzu.Gateway.Calls.{Client}
use pazuzu.Gateway.Relay.{Served}
use pazuzu.Gateway.Commands.{sent, client}
use pazuzu.Client.{Runtime}
use pazuzu.Client.Sends.{
  Adds-health, Adds-reconnect, Adds-run, Adds-slurm_queue, Adds-inspect_slurm_job,
  Adds-submit_slurm, Adds-slurm_status, Adds-cancel_slurm, Adds-tail,
}
use pazuzu.McpServer.{Tool, Submission, run_tool, submit_tool, call_tool}

-- What a tool may send: nothing for the connection, one command that is never repeated for what acts
-- on the host, and twice each command that only looks.
abbrev pub allowance : Tool → ℕ
allowance (Tool.connection_health probe) = 0
allowance (Tool.reconnect force) = 0
allowance (Tool.execute command timeout_seconds) = 1
allowance Tool.slurm_queue = 2
allowance (Tool.inspect_slurm_job job_id) = 2
allowance (Tool.submit_slurm_job s) = 1
allowance (Tool.slurm_job_status job_id) = 4
allowance (Tool.cancel_slurm_job job_id) = 1
allowance (Tool.tail_remote_file remote_path lines) = 2

module _ {Line W : Type 0} (c : Client Line (Served Line W)) (env : Env W) (repr : Json → Text)
    (silence : Exception) (faithful : IsFaithful c.codec) (py : Runtime (Served Line W))
    (own : Adds sent 0 py.uuid4) where
  abbrev via : Client Line (Served Line W)
  via = client c env repr silence faithful

  Adds-run_tool : (command : Text) (t : ℕ) → Adds sent 1 (run_tool via py command t)
  unfolding run_tool
  Adds-run_tool command t =
      search (adds_rules, Adds-run c env repr silence faithful py own) depth 20

  Adds-submit_tool : (s : Submission) → Adds sent 1 (submit_tool via py s)
  unfolding submit_tool
  Adds-submit_tool s =
      search (adds_rules, Adds-submit_slurm c env repr silence faithful py own) depth 20

  -- However connections break and replies are lost, a call of a tool makes the gateway send at most:
  -- no command for the health and for a reconnection, one for `execute`, a submission and a
  -- cancellation, two for a tool that looks once, and four for the status of a job.
  pub call_tool_sends : (tool : Tool) → Adds sent (allowance tool) (call_tool via py tool)
  unfolding call_tool
  call_tool_sends (Tool.connection_health probe) =
      Adds-health c env repr silence faithful py own probe 90_000
  call_tool_sends (Tool.reconnect force) = Adds-reconnect c env repr silence faithful py own force
  call_tool_sends (Tool.execute command t) = Adds-run_tool command t
  call_tool_sends Tool.slurm_queue =
      search (adds_rules, Adds-slurm_queue c env repr silence faithful py own)
  call_tool_sends (Tool.inspect_slurm_job job_id) =
      search (adds_rules, Adds-inspect_slurm_job c env repr silence faithful py own)
  call_tool_sends (Tool.submit_slurm_job s) = Adds-submit_tool s
  call_tool_sends (Tool.slurm_job_status job_id) =
      search (adds_rules, Adds-slurm_status c env repr silence faithful py own)
  call_tool_sends (Tool.cancel_slurm_job job_id) =
      search (adds_rules, Adds-cancel_slurm c env repr silence faithful py own)
  call_tool_sends (Tool.tail_remote_file remote_path lines) =
      search (adds_rules, Adds-tail c env repr silence faithful py own)

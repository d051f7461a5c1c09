-- ===== src/Client/Sends.antt =====
-- How often a gateway sends what the methods of `PazuzuClient` ask for.
use pazuzu.Base.{
  ℕ, ℤ, Bool, true, false, Option, some, none, List, [], ◌∷◌, Text, Bytes, codes, is_nat,
  if◌then◌else◌,
}
use pazuzu.Errors.{Exception}
use pazuzu.Exec.{pure, lift, ◌>>◌}
use pazuzu.Exec.Adds.{
  Adds, Adds-bind, Adds-pure, Adds-lift-bind, Adds-before, Adds-then, Adds-lift, adds_rules,
}
use pazuzu.Json.{Json}
use pazuzu.Slurm.{SlurmJob, SlurmStatus, validate_job_id}
use pazuzu.Slurm.Parsing.{parse_squeue, parse_sacct}
use pazuzu.Supervisor.Operations.{CommandResult}
use pazuzu.Supervisor.Machine.{Env}
use pazuzu.Gateway.{IsFaithful}
use pazuzu.Gateway.Calls.{Client}
use pazuzu.Gateway.Relay.{Served}
use pazuzu.Gateway.Commands.{
  sent, most, client, execute_via_gateway_sends, Adds-call_gateway, Adds-dispatch_status,
  Adds-dispatch_reconnect,
}
use pazuzu.Client.{
  Runtime, execute, run, read, run_script, submit_slurm, cancel_slurm, health, reconnect,
  slurm_queue, inspect_slurm_job, tail, slurm_status, accounted_status, sacct_command,
  squeue_command, require_success, not_listed,
}

-- A client of a gateway, whose identifiers do not come from the gateway.
module _ {Line W : Type 0} (c : Client Line (Served Line W)) (env : Env W) (repr : Json → Text)
    (silence : Exception) (faithful : IsFaithful c.codec) (py : Runtime (Served Line W))
    (own : Adds sent 0 py.uuid4) where
  abbrev via : Client Line (Served Line W)
  via = client c env repr silence faithful

  Adds-execute :
      (command : Text) (stdin : Bytes) (timeout : ℕ) (retry_safe : Bool)
      → Adds sent (most retry_safe) (execute via py command stdin timeout retry_safe)
  unfolding execute
  Adds-execute command stdin timeout retry_safe = Adds-before sent (most retry_safe) _ _ own (λ id.
      Adds-then sent (most retry_safe) _ _
        (execute_via_gateway_sends c env repr silence faithful id command stdin timeout retry_safe)
        (λ d. Adds-lift sent 0 _))

  pub Adds-run :
      (command : Text) (stdin : Bytes) (timeout : ℕ)
      → Adds sent 1 (run via py command stdin timeout)
  unfolding run
  Adds-run command stdin timeout = Adds-execute command stdin timeout false

  Adds-read :
      (command : Text) (stdin : Bytes) (timeout : ℕ)
      → Adds sent 2 (read via py command stdin timeout)
  unfolding read
  Adds-read command stdin timeout = Adds-execute command stdin timeout true

  pub Adds-health : (probe : Bool) (timeout : ℕ) → Adds sent 0 (health via py probe timeout)
  unfolding health
  Adds-health probe timeout = Adds-before sent 0 _ _ own (λ id.
      Adds-call_gateway c env repr silence faithful 0 id (codes "status") _ timeout
        (Adds-dispatch_status env repr id ((codes "probe", Json.boolean probe) ∷ [])))

  pub Adds-reconnect : (force : Bool) → Adds sent 0 (reconnect via py force)
  unfolding reconnect
  Adds-reconnect force = Adds-before sent 0 _ _ own (λ id.
      Adds-call_gateway c env repr silence faithful 0 id (codes "reconnect") _ 140_000
        (Adds-dispatch_reconnect env repr id ((codes "force", Json.boolean force) ∷ [])))

  pub Adds-slurm_queue : Adds sent 2 (slurm_queue via py)
  unfolding slurm_queue
  Adds-slurm_queue = Adds-read _ [] 30_000

  pub Adds-inspect_slurm_job : (job_id : Text) → Adds sent 2 (inspect_slurm_job via py job_id)
  unfolding inspect_slurm_job
  Adds-inspect_slurm_job job_id = search (adds_rules, Adds-read) depth 20

  pub Adds-tail : (path : Text) (lines : ℤ) → Adds sent 2 (tail via py path lines)
  unfolding tail
  Adds-tail path lines = search (adds_rules, Adds-read) depth 20

  pub Adds-submit_slurm : (job : SlurmJob) → Adds sent 1 (submit_slurm via py job)
  unfolding submit_slurm
  Adds-submit_slurm job = search (adds_rules, Adds-run) depth 20

  pub Adds-cancel_slurm : (job_id : Text) → Adds sent 1 (cancel_slurm via py job_id)
  unfolding cancel_slurm
  Adds-cancel_slurm job_id = search (adds_rules, Adds-run) depth 20

  Adds-run_script :
      (interpreter : Text) (source : Bytes) (arguments : List Text) (timeout : ℕ)
      → Adds sent 1 (run_script via py interpreter source arguments timeout)
  unfolding run_script
  Adds-run_script interpreter source arguments timeout = search (adds_rules, Adds-run) depth 20

  Adds-accounted_status :
      (job_id : Text) (queued : CommandResult) → Adds sent 2 (accounted_status via py job_id queued)
  unfolding accounted_status
  Adds-accounted_status job_id queued =
      Adds-then sent 2 _ _ (Adds-read (sacct_command job_id) [] 30_000) (λ accounted.
        Adds-lift-bind sent 0 (require_success accounted (codes "sacct")) _
          (λ _. Adds-lift-bind sent 0 (parse_sacct job_id accounted.stdout) _ found))
    where
      found :
          (row : Option SlurmStatus)
          → Adds {State = Served Line W} sent 0 (elim row [
            | some status ↦ pure status
            | none ↦ (do lift (require_success queued (codes "squeue")); pure (not_listed job_id))
          ])
      found (some status) = Adds-pure sent 0 status
      found none = search adds_rules

  -- Both of its reads may be replayed.
  pub Adds-slurm_status : (job_id : Text) → Adds sent 4 (slurm_status via py job_id)
  unfolding slurm_status
  Adds-slurm_status given = Adds-lift-bind sent 4 (validate_job_id given) _ (λ job_id.
      Adds-bind sent 2 2 _ _ (Adds-read (squeue_command job_id) [] 30_000) (λ queued.
        answered job_id queued
          (if is_nat queued.exit_code 0 then parse_squeue job_id queued.stdout else none)))
    where
      answered :
          (job_id : Text) (queued : CommandResult) (listed : Option SlurmStatus)
          → Adds {State = Served Line W} sent 2 (elim listed [
            | some status ↦ pure status
            | none ↦ accounted_status via py job_id queued
          ])
      answered job_id queued (some status) = Adds-pure sent 2 status
      answered job_id queued none = Adds-accounted_status job_id queued

  -- What changes the remote host is never sent twice: for a run, a script, a submission and a
  -- cancellation a gateway sends one command at most, however connections break and calls fail.
  pub changes_sent :
      (command interpreter job_id : Text) (stdin : Bytes) (arguments : List Text) (timeout : ℕ)
      (job : SlurmJob)
      → Adds sent 1 (run via py command stdin timeout)
        × Adds sent 1 (run_script via py interpreter stdin arguments timeout)
        × Adds sent 1 (submit_slurm via py job)
        × Adds sent 1 (cancel_slurm via py job_id)
  changes_sent command interpreter job_id stdin arguments timeout job = (
    Adds-run command stdin timeout,
    Adds-run_script interpreter stdin arguments timeout,
    Adds-submit_slurm job,
    Adds-cancel_slurm job_id,
  )

-- ===== src/Client.antt =====
-- client.py: `PazuzuClient`. Client/Status is about what `slurm_status` returns, Client/Sends about
-- how often a method's command runs, and Client/Served about what reaches the supervisor and comes back.
pub mod Sends
pub mod Status
pub mod Served
use pazuzu.Base.{
  ◌||◌, ℕ, ℤ, pos, negsuc, Bool, true, false, not, ◌&&◌, ◌||◌, Option, none, some, List, [], ◌∷◌,
  ◌++◌, Text, Bytes, codes, is_nat, is_empty, has_char, starts_with, int_text, decimal, strip, ltb,
  ◌==◌, if◌then◌else◌,
}
use pazuzu.Errors.{Kind, Exception, Result, ok, err, raise as fails}
use pazuzu.Exec.{Exec, pure, raise, raise_if, reraise, lift, handle, ◌>>=◌, ◌>>◌}
use pazuzu.Json.{or_else, Json, Dict, get, has_keys}
use pazuzu.Shlex.{quote, join}
use pazuzu.Slurm.{SlurmJob, SlurmHandle, SlurmStatus, validate_job_id}
use pazuzu.Slurm.Script.{render_slurm_script}
use pazuzu.Slurm.Parsing.{parse_submission, parse_squeue, parse_sacct}
use pazuzu.Supervisor.Operations.{CommandResult}
use pazuzu.Gateway.Calls.{Client, call_gateway, execute_via_gateway}

-- What a client uses of Python: `uuid4`, `str.encode`, and the message of the TypeError for
-- arguments that a dataclass does not take.
pub record Runtime (W : Type 0) : Type 0 where
  pub uuid4 : Exec W Text
  pub encode : Text → Result Bytes
  pub arguments_error : Dict → Text

abbrev pub result_keys : List Text
result_keys =
    codes "exit_code"
    ∷ codes "stdout"
    ∷ codes "stderr"
    ∷ codes "stdout_truncated"
    ∷ codes "stderr_truncated"
    ∷ codes "connection_generation"
    ∷ codes "replayed"
    ∷ []

abbrev result_of :
    Option Json
    → Option Json
    → Option Json
    → Option Json
    → Option Json
    → Option Json
    → Option Json
    → Option CommandResult
result_of (some (Json.number code)) (some (Json.text out)) (some (Json.text error))
      (some (Json.boolean out_cut)) (some (Json.boolean error_cut)) (some (Json.number (pos n)))
      (some (Json.boolean replayed)) =
    some (record {
      exit_code = code;
      stdout = out;
      stderr = error;
      stdout_truncated = out_cut;
      stderr_truncated = error_cut;
      connection_generation = n;
      replayed = replayed;
    })
result_of _ _ _ _ _ _ _ = none

-- The arguments of `CommandResult` that have no default.
abbrev required_keys : List Text
required_keys =
    codes "exit_code"
    ∷ codes "stdout"
    ∷ codes "stderr"
    ∷ codes "stdout_truncated"
    ∷ codes "stderr_truncated"
    ∷ codes "connection_generation"
    ∷ []

-- `CommandResult(**result)`, which may leave out `replayed`. The types of the fields are those that the
-- gateway sends; Python would keep a value of another type until it is used, which is a TypeError here.
unfoldable pub command_result_of : (Dict → Text) → Dict → Result CommandResult
command_result_of arguments_error d =
    elim (if has_keys result_keys d || has_keys required_keys d
      then result_of (get d (codes "exit_code")) (get d (codes "stdout")) (get d (codes "stderr"))
          (get d (codes "stdout_truncated")) (get d (codes "stderr_truncated"))
          (get d (codes "connection_generation"))
          (some (or_else (get d (codes "replayed")) (Json.boolean false)))
      else none) [ some r ↦ ok r | none ↦ fails Kind.type_error (arguments_error d) ]

-- `s or t`
abbrev or_text : Text → Text → Text
or_text s t = if is_empty s then t else s

-- `_require_success`
unfoldable pub require_success : CommandResult → Text → Result (Unit {0})
require_success r operation =
    if is_nat r.exit_code 0
    then ok tt
    else fails Kind.pazuzu_error (
        operation
        ++ (codes " failed with exit "
            ++ (int_text r.exit_code
                ++ (codes ": "
                    ++ or_text (strip r.stderr)
                        (or_text (strip r.stdout) (codes "no remote error output"))))))

-- The `except ValueError` of `submit_slurm`.
unfoldable pub as_pazuzu_error : {A : Type 0} → Result A → Result A
as_pazuzu_error (ok a) = ok a
as_pazuzu_error (err e) = elim e.kind [
  | Kind.value_error ↦ fails Kind.pazuzu_error e.message
  | _ ↦ err e
]

abbrev pub not_listed : Text → SlurmStatus
not_listed job_id = record {
  job_id = job_id;
  state = codes "UNKNOWN";
  source = codes "none";
  elapsed = none;
  time_limit = none;
  reason = none;
  exit_code = none;
}

-- The remote commands.
unfoldable pub squeue_command : Text → Text
squeue_command job_id = codes "squeue -h -j " ++ (job_id ++ codes " -o '%i|%T|%M|%l|%R'")

unfoldable pub sacct_command : Text → Text
sacct_command job_id =
    codes "sacct -n -P -X -j " ++ (job_id ++ codes " --format=JobIDRaw,State,Elapsed,ExitCode")

unfoldable pub sbatch_command : SlurmJob → Text
sbatch_command job = codes "mkdir -p -- " ++ (quote job.log_dir ++ codes " && sbatch --parsable")

-- `1 <= lines <= 1000`
unfoldable pub is_line_count : ℤ → Bool
is_line_count (pos n) = not (n == 0) && not (ltb 1_000 n)
is_line_count (negsuc n) = false

module _ {Line W : Type 0} (c : Client Line W) (py : Runtime W) where
  unfoldable pub health : Bool → ℕ → Exec W Dict
  health probe timeout = do
    id ← py.uuid4
    call_gateway c id (codes "status") ((codes "probe", Json.boolean probe) ∷ []) timeout

  unfoldable pub reconnect : Bool → Exec W Dict
  reconnect force = do
    id ← py.uuid4
    call_gateway c id (codes "reconnect") ((codes "force", Json.boolean force) ∷ []) 140_000

  -- `_execute`, after `stdin.encode()`
  unfoldable pub execute : Text → Bytes → ℕ → Bool → Exec W CommandResult
  execute command stdin timeout retry_safe = do
    id ← py.uuid4
    result ← execute_via_gateway c id command stdin timeout retry_safe
    lift (command_result_of py.arguments_error result)

  unfoldable pub run : Text → Bytes → ℕ → Exec W CommandResult
  run command stdin timeout = execute command stdin timeout false

  unfoldable pub read : Text → Bytes → ℕ → Exec W CommandResult
  read command stdin timeout = execute command stdin timeout true

  unfoldable pub run_script : Text → Bytes → List Text → ℕ → Exec W CommandResult
  run_script interpreter source arguments timeout = do
    raise_if (is_empty interpreter || has_char 0 interpreter) Kind.value_error
        (codes "interpreter must be a non-empty executable without NUL bytes")
    run (join (interpreter ∷ codes "-" ∷ arguments)) source timeout

  unfoldable pub slurm_queue : Exec W CommandResult
  slurm_queue =
      read (codes "squeue -u \"$USER\" -o \"%.18i %.28j %.10T %.12M %.10l %.20R\"") [] 30_000

  unfoldable pub inspect_slurm_job : Text → Exec W CommandResult
  inspect_slurm_job given = do
    job_id ← lift (validate_job_id given)
    read (codes "scontrol show job -o " ++ quote job_id) [] 30_000

  unfoldable pub submit_slurm : SlurmJob → Exec W SlurmHandle
  submit_slurm job = do
    stdin ← lift (py.encode (render_slurm_script job))
    result ← run (sbatch_command job) stdin 30_000
    lift (require_success result (codes "sbatch"))
    lift (as_pazuzu_error (parse_submission result.stdout job))

  -- What `slurm_status` does when squeue does not list the job.
  unfoldable pub accounted_status : Text → CommandResult → Exec W SlurmStatus
  accounted_status job_id queued = do
    accounted ← read (sacct_command job_id) [] 30_000
    lift (require_success accounted (codes "sacct"))
    found ← lift (parse_sacct job_id accounted.stdout)
    elim found [
      | some status ↦ pure status
      | none ↦ (do lift (require_success queued (codes "squeue")); pure (not_listed job_id))
    ]

  unfoldable pub slurm_status : Text → Exec W SlurmStatus
  slurm_status given = do
    job_id ← lift (validate_job_id given)
    queued ← read (squeue_command job_id) [] 30_000
    let listed = (if is_nat queued.exit_code 0 then parse_squeue job_id queued.stdout else none)
    elim listed [ some status ↦ pure status | none ↦ accounted_status job_id queued ]

  unfoldable pub cancel_slurm : Text → Exec W CommandResult
  cancel_slurm given = do
    job_id ← lift (validate_job_id given)
    result ← run (codes "scancel -- " ++ job_id) [] 30_000
    lift (require_success result (codes "scancel"))
    pure result

  unfoldable pub tail : Text → ℤ → Exec W CommandResult
  tail remote_path lines = do
    raise_if (not (starts_with remote_path (codes "/")) || has_char 0 remote_path) Kind.value_error
        (codes "remote_path must be an absolute POSIX path")
    raise_if (not (is_line_count lines)) Kind.value_error (codes "lines must be between 1 and 1000")
    read (codes "tail -n " ++ (int_text lines ++ (codes " -- " ++ quote remote_path))) [] 30_000

-- ===== src/Slurm/Parsing.antt =====
-- slurm.py: `parse_submission`, `parse_squeue` and `parse_sacct`.
use pazuzu.Base.{
  Option, none, some, List, [], ◌∷◌, Text, codes, is_empty, strip, text_eq, split_lines, split_max,
  before, first_word, strip_char_right, replace, if◌then◌else◌,
}
use pazuzu.Errors.{Kind, Result, ok, err, raise, ◌>>=◌}
use pazuzu.Slurm.{
  SlurmJob, SlurmHandle, SlurmStatus, validate_job_id, stdout_pattern, stderr_pattern,
}

-- The last of the stripped lines that is not empty.
unfoldable pub last_line : List Text → Option Text
last_line [] = none
last_line (line ∷ lines) = elim (last_line lines) [
  | some found ↦ some found
  | none ↦ if is_empty (strip line) then none else some (strip line)
]

abbrev handle_of : SlurmJob → Text → SlurmHandle
handle_of job job_id = record {
  job_id = job_id;
  name = job.name;
  stdout_path = replace (codes "%j") job_id (stdout_pattern job);
  stderr_path = replace (codes "%j") job_id (stderr_pattern job);
}

unfoldable pub submitted : SlurmJob → Option Text → Result SlurmHandle
submitted job none = raise Kind.value_error (codes "sbatch did not return a job ID")
submitted job (some line) = do
  job_id ← validate_job_id (before b';' line)
  ok (handle_of job job_id)

unfoldable pub parse_submission : Text → SlurmJob → Result SlurmHandle
unfolding submitted last_line
parse_submission stdout job = submitted job (last_line (split_lines stdout))

-- `text or None`
abbrev pub or_none : Text → Option Text
or_none [] = none
or_none (c ∷ s) = some (c ∷ s)

-- What `parse_squeue` makes of the fields of one line.
unfoldable pub squeue_fields : Text → List Text → Option SlurmStatus
unfolding before
squeue_fields job_id (id ∷ state ∷ elapsed ∷ time_limit ∷ reason ∷ []) =
    if text_eq (before b'_' id) job_id
    then some (record {
      job_id = job_id;
      state = state;
      source = codes "squeue";
      elapsed = some elapsed;
      time_limit = some time_limit;
      reason = or_none reason;
      exit_code = none;
    })
    else none
squeue_fields job_id _ = none

-- The loop of `parse_squeue`.
unfoldable pub squeue_lines : Text → List Text → Option SlurmStatus
unfolding squeue_fields
squeue_lines job_id [] = none
squeue_lines job_id (line ∷ lines) = elim (squeue_fields job_id (split_max b'|' 4 (strip line))) [
  | some status ↦ some status
  | none ↦ squeue_lines job_id lines
]

unfoldable pub parse_squeue : Text → Text → Option SlurmStatus
parse_squeue job_id stdout = squeue_lines job_id (split_lines stdout)

sacct_status : Text → Option Text → Text → Text → Result (Option SlurmStatus)
unfolding strip_char_right
sacct_status job_id none elapsed exit_code =
    raise Kind.index_error (codes "list index out of range")
sacct_status job_id (some state) elapsed exit_code = ok (
    some (record {
      job_id = job_id;
      state = strip_char_right b'+' state;
      source = codes "sacct";
      elapsed = or_none elapsed;
      time_limit = none;
      reason = none;
      exit_code = or_none exit_code;
    }))

-- What `parse_sacct` makes of the fields of one line; a state that is blank raises.
unfoldable pub sacct_fields : Text → List Text → Result (Option SlurmStatus)
unfolding sacct_status
sacct_fields job_id (id ∷ state ∷ elapsed ∷ exit_code ∷ []) =
    if text_eq id job_id then sacct_status job_id (first_word state) elapsed exit_code else ok none
sacct_fields job_id _ = ok none

-- The loop of `parse_sacct`.
unfoldable pub sacct_lines : Text → List Text → Result (Option SlurmStatus)
unfolding sacct_fields
sacct_lines job_id [] = ok none
sacct_lines job_id (line ∷ lines) = elim (sacct_fields job_id (split_max b'|' 3 (strip line))) [
  | err e ↦ err e
  | ok (some status) ↦ ok (some status)
  | ok none ↦ sacct_lines job_id lines
]

unfoldable pub parse_sacct : Text → Text → Result (Option SlurmStatus)
parse_sacct job_id stdout = sacct_lines job_id (split_lines stdout)

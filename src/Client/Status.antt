-- ===== src/Client/Status.antt =====
-- What `slurm_status` makes of what squeue and sacct print.
use pazuzu.Base.{
  ◌≡◌, refl, ap, ◌∙◌, true, false, Option, none, some, List, map, Text, codes, All, all, is_empty,
  is_digit, is_nat, if◌then◌else◌,
}
use pazuzu.Errors.{Result, ok, err}
use pazuzu.Exec.{Exec, pure, lift, ◌>>=◌, ◌>>◌}
use pazuzu.Slurm.{SlurmStatus, validate_job_id}
use pazuzu.Slurm.Parsing.{parse_squeue}
use pazuzu.Slurm.Queue.{
  QueueRow, AccountRow, queue_fields, account_fields, IsLine, print_lines, queue_status,
  account_status, parse_squeue-print_lines, parse_sacct-print_lines,
}
use pazuzu.Supervisor.Operations.{CommandResult}
use pazuzu.Gateway.Calls.{Client}
use pazuzu.Client.{
  Runtime, read, require_success, not_listed, squeue_command, sacct_command, accounted_status,
  slurm_status,
}

-- A job that neither command lists.
abbrev unlisted : Text → Result (Unit {0}) → Result SlurmStatus
unlisted job_id (ok _) = ok (not_listed job_id)
unlisted job_id (err e) = err e

-- A live row comes first, then the accounting; a job in neither is unknown, unless squeue failed.
abbrev pub status_of :
    Text → Result (Unit {0}) → Option SlurmStatus → Result (Option SlurmStatus) → Result SlurmStatus
status_of job_id queued (some status) accounted = ok status
status_of job_id queued none (ok (some status)) = ok status
status_of job_id queued none (err e) = err e
status_of job_id queued none (ok none) = unlisted job_id queued

-- The rows of squeue count only if it exits with 0, as it does not for a job that has left the queue.
abbrev pub live_rows : Text → CommandResult → List QueueRow → Option SlurmStatus
live_rows job_id queued rows = if is_nat queued.exit_code 0 then queue_status job_id rows else none

module _ {Line W : Type 0} (c : Client Line W) (py : Runtime W) (job_id : Text)
    (queued accounted : CommandResult) (queue : List QueueRow) (accounts : List AccountRow)
    (w w' w'' : W) where
  require_success-good :
      (r : CommandResult) (operation : Text)
      → is_nat r.exit_code 0 ≡ true
      → require_success r operation ≡ ok tt
  unfolding require_success
  require_success-good r operation good = rw good refl

  -- The end of `accounted_status`.
  last_resort :
      (found : Option SlurmStatus) (checked : Result (Unit {0}))
      → ((elim found as (λ _. Exec W SlurmStatus) [
        | some status ↦ pure status
        | none ↦ lift checked >> pure (not_listed job_id)
      ])
          w'').0
        ≡ status_of job_id checked none (ok found)
  unfolding ◌>>=◌
  last_resort (some status) checked = refl
  last_resort none (ok _) = refl
  last_resort none (err e) = refl

  after_sacct :
      (found : Result (Option SlurmStatus)) (checked : Result (Unit {0}))
      → ((lift found >>= λ f. elim f as (λ _. Exec W SlurmStatus) [
        | some status ↦ pure status
        | none ↦ lift checked >> pure (not_listed job_id)
      ])
          w'').0
        ≡ status_of job_id checked none found
  unfolding ◌>>=◌
  after_sacct (ok found) checked = last_resort found checked
  after_sacct (err e) checked = refl

  accounted_status-rows :
      read c py (sacct_command job_id) (codes "") 30_000 w' ≡ (ok accounted, w'')
      → is_nat accounted.exit_code 0 ≡ true
      → accounted.stdout ≡ print_lines (map account_fields accounts)
      → All (λ r. IsLine (account_fields r)) accounts
      → (accounted_status c py job_id queued w').0
        ≡ status_of job_id
            (require_success queued (codes "squeue"))
            none
            (account_status job_id accounts)
  unfolding accounted_status ◌>>=◌
  accounted_status-rows second good out lines =
      rw
        (
          second,
          require_success-good accounted (codes "sacct") good,
          out,
          parse_sacct-print_lines job_id accounts lines,
        )
        (after_sacct (account_status job_id accounts) (require_success queued (codes "squeue")))

  after_squeue :
      (listed : Option SlurmStatus)
      → (accounted_status c py job_id queued w').0
        ≡ status_of job_id
            (require_success queued (codes "squeue"))
            none
            (account_status job_id accounts)
      → ((elim listed as (λ _. Exec W SlurmStatus) [
        | some status ↦ pure status
        | none ↦ accounted_status c py job_id queued
      ])
          w').0
        ≡ status_of job_id
            (require_success queued (codes "squeue"))
            listed
            (account_status job_id accounts)
  unfolding pure
  after_squeue (some status) rest = refl
  after_squeue none rest = rest

  -- If both commands can be run, sacct exits with 0 and each prints rows of the form that it is asked
  -- for, then `slurm_status` returns the status of the job's first row in the queue; if there is
  -- none or squeue failed, that of the job's own row in the accounting; and if there is none
  -- either, an unknown status, or squeue's error if it failed. A blank state in the accounting raises.
  pub slurm_status-rows :
      is_empty job_id ≡ false
      → all is_digit job_id ≡ true
      → read c py (squeue_command job_id) (codes "") 30_000 w ≡ (ok queued, w')
      → read c py (sacct_command job_id) (codes "") 30_000 w' ≡ (ok accounted, w'')
      → is_nat accounted.exit_code 0 ≡ true
      → queued.stdout ≡ print_lines (map queue_fields queue)
      → accounted.stdout ≡ print_lines (map account_fields accounts)
      → All (λ r. IsLine (queue_fields r)) queue
      → All (λ r. IsLine (account_fields r)) accounts
      → (slurm_status c py job_id w).0
        ≡ status_of job_id
            (require_success queued (codes "squeue"))
            (live_rows job_id queued queue)
            (account_status job_id accounts)
  unfolding slurm_status accounted_status ◌>>=◌ lift validate_job_id
  slurm_status-rows e d first second good out out' lines lines' =
      let printed = ap (parse_squeue job_id) out ∙ parse_squeue-print_lines job_id queue lines in
      rw (e, d, first)
        (ap
            (λ listed.
              ((elim listed as (λ _. Exec W SlurmStatus) [
                | some status ↦ pure status
                | none ↦ accounted_status c py job_id queued
              ])
                w').0)
            (ap (λ parsed. if is_nat queued.exit_code 0 then parsed else none) printed)
          ∙ after_squeue (live_rows job_id queued queue)
              (accounted_status-rows second good out' lines'))

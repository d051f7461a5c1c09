-- ===== src/Slurm/Submission.antt =====
-- What slurm.py reads of the lines that `sbatch --parsable` prints.
use pazuzu.Base.{
  ◌≡◌, refl, true, false, not, Option, none, some, List, [], ◌∷◌, ◌++◌, Text, codes, all, All,
  arith, strip, is_empty, is_digit, before, is_line_break, split_lines, replace,
}
use pazuzu.Errors.{ok}
use pazuzu.Slurm.{SlurmJob, validate_job_id, stdout_pattern, stderr_pattern}
use pazuzu.Slurm.Parsing.{last_line, submitted, parse_submission}
use pazuzu.Slurm.Queue.{split_lines-append}

-- The line that names the job, with the cluster if there are several.
abbrev pub submission_line : Text → Option Text → Text
submission_line job_id none = job_id
submission_line job_id (some cluster) = job_id ++ (b';' ∷ cluster)

-- The whole output: other lines, then the line that names the job.
abbrev pub sbatch_output : List Text → Text → Text
sbatch_output [] line = line ++ (10 ∷ [])
sbatch_output (other ∷ others) line = other ++ (10 ∷ sbatch_output others line)

abbrev pub IsUnbroken : Text → Type 0
IsUnbroken line = all (λ c. not (is_line_break c)) line ≡ true

last_line-sbatch_output :
    (others : List Text) (line : Text)
    → All IsUnbroken others
    → IsUnbroken line
    → is_empty line ≡ false
    → strip line ≡ line
    → last_line (split_lines (sbatch_output others line)) ≡ some line
unfolding last_line
last_line-sbatch_output [] line hs h e s =
    let split = split_lines-append line [] h in
    let none_left : split_lines [] ≡ [] = unfold split_lines in refl in
    rw (split, none_left) (ground (arith, e, s))
last_line-sbatch_output (other ∷ others) line (k, hs) h e s =
    let split = split_lines-append other (sbatch_output others line) k in
    rw split (ground (arith, last_line-sbatch_output others line hs h e s))

before-submission_line :
    (job_id : Text) (cluster : Option Text)
    → all is_digit job_id ≡ true
    → before b';' (submission_line job_id cluster) ≡ job_id
unfolding before is_digit
before-submission_line [] none h = refl
before-submission_line [] (some cluster) h = refl
before-submission_line (c ∷ job_id) none h = ground (arith, before-submission_line job_id none)
before-submission_line (c ∷ job_id) (some cluster) h =
    ground (arith, before-submission_line job_id (some cluster))

-- `parse_submission` finds the job that `sbatch` names on its last line, after whatever other lines
-- and with or without the name of a cluster, and puts its number in place of `%j` in both log
-- paths, if the number has digits only and the line no space at its ends.
pub parse_submission-sbatch_output :
    (job : SlurmJob) (others : List Text) (job_id : Text) (cluster : Option Text)
    → All IsUnbroken others
    → is_empty job_id ≡ false
    → all is_digit job_id ≡ true
    → IsUnbroken (submission_line job_id cluster)
    → strip (submission_line job_id cluster) ≡ submission_line job_id cluster
    → parse_submission (sbatch_output others (submission_line job_id cluster)) job
      ≡ ok (record {
        job_id = job_id;
        name = job.name;
        stdout_path = replace (codes "%j") job_id (stdout_pattern job);
        stderr_path = replace (codes "%j") job_id (stderr_pattern job);
      })
unfolding parse_submission submitted validate_job_id
parse_submission-sbatch_output job others job_id cluster hs e d h s =
    let line =
      last_line-sbatch_output others (submission_line job_id cluster) hs h
        (nonempty job_id cluster e) s in
    let id = before-submission_line job_id cluster d in rw line (rw id (ground (arith, e, d)))
  where
    nonempty :
        (i : Text) (c : Option Text) → is_empty i ≡ false → is_empty (submission_line i c) ≡ false
    nonempty [] c k = absurd (cc k)
    nonempty (x ∷ i) none k = refl
    nonempty (x ∷ i) (some c) k = refl

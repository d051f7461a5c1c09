-- ===== src/Examples/Jobs.antt =====
-- Slurm jobs at small inputs.
use pazuzu.Base.{
  pos, ◌≡◌, refl, true, none, some, List, [], ◌∷◌, ◌++◌, map, codes, All, join_lines, is_digit,
  is_line_break, strip, has_char, is_space, replace, all, not,
}
use pazuzu.Errors.{ok}
use pazuzu.Slurm.{
  SlurmResources, SlurmJob, check_job, check_resources, positive, nonnegative, directive,
  check_node_list, is_token, is_job_name, is_node_list, absolute, slurm_path, is_environment_name,
  stdout_pattern, stderr_pattern,
}
use pazuzu.Slurm.Script.{directives, body, render_slurm_script}
use pazuzu.Slurm.Parsing.{parse_submission, parse_sacct}
use pazuzu.Slurm.Directives.{IsDirective, StartsWithCommand, render_slurm_script-directives}
use pazuzu.Slurm.Queue.{
  QueueRow, AccountRow, IsLine, join_fields, queue_fields, account_fields, print_lines,
  account_status, parse_sacct-print_lines,
}
use pazuzu.Slurm.Submission.{sbatch_output, submission_line, parse_submission-sbatch_output}

abbrev resources : SlurmResources
resources = record {
  memory_gb_per_node = pos 16;
  time_limit = codes "02:00:00";
  cpus_per_task = pos 4;
  gpus_per_node = pos 1;
  nodes = pos 1;
  tasks_per_node = pos 1;
  partition = some (codes "gpu");
  account = none;
  qos = none;
  constraint = none;
  array = none;
  dependency = none;
  node_list = some (codes "node[01-04]");
  exclude = none;
}

abbrev pub job : SlurmJob
job = record {
  name = codes "train";
  argv = codes "python" ∷ codes "-c" ∷ codes "print(1)" ∷ [];
  cwd = codes "/home/me/a b";
  log_dir = codes "/home/me/logs";
  resources = resources;
  environment = (codes "SEED", codes "7") ∷ [];
}

job_checks : check_job job ≡ ok tt
unfolding check_job check_resources positive nonnegative directive check_node_list is_token
    is_job_name is_node_list absolute slurm_path is_environment_name is_space
job_checks = refl

render_slurm_script-directives_example :
    (render_slurm_script job
      ≡ join_lines (codes "#!/usr/bin/env bash" ∷ directives job) ++ (10 ∷ join_lines (body job)))
    × All IsDirective (directives job)
    × StartsWithCommand (body job)
render_slurm_script-directives_example = render_slurm_script-directives job job_checks

abbrev pub queue : List QueueRow
queue =
    record {
      id = codes "41";
      state = codes "PENDING";
      elapsed = codes "0:00";
      time_limit = codes "1:00";
      reason = codes "(Priority)";
    }
    ∷ record {
      id = codes "42_7";
      state = codes "RUNNING";
      elapsed = codes "0:12";
      time_limit = codes "1:00";
      reason = codes "a|b";
    }
    ∷ []

pub queue_lines : All (λ r. IsLine (queue_fields r)) queue
unfolding join_fields has_char is_line_break strip is_space
queue_lines = (
  ((refl, (refl, (refl, (refl, tt)))), refl, refl),
  (((refl, (refl, (refl, (refl, tt)))), refl, refl), tt),
)

abbrev pub accounts : List AccountRow
accounts =
    record {
      id = codes "42.batch";
      state = codes "RUNNING";
      elapsed = codes "0:12";
      exit_code = codes "0:0";
    }
    ∷ record {
      id = codes "42";
      state = codes "CANCELLED by 7";
      elapsed = codes "0:12";
      exit_code = codes "0:15";
    }
    ∷ []

pub account_lines : All (λ r. IsLine (account_fields r)) accounts
unfolding join_fields has_char is_line_break strip is_space
account_lines =
    (((refl, (refl, (refl, tt))), refl, refl), (((refl, (refl, (refl, tt))), refl, refl), tt))

parse_sacct-print_lines_example :
    parse_sacct (codes "42") (print_lines (map account_fields accounts))
    ≡ account_status (codes "42") accounts
parse_sacct-print_lines_example = parse_sacct-print_lines (codes "42") accounts account_lines

unbroken :
    All (λ line. all (λ c. not (is_line_break c)) line ≡ true) (codes "warning: low priority" ∷ [])
unfolding is_line_break
unbroken = (refl, tt)

digits_only : all is_digit (codes "4711") ≡ true
unfolding is_digit
digits_only = refl

line_unbroken : all (λ c. not (is_line_break c)) (codes "4711;main") ≡ true
unfolding is_line_break
line_unbroken = refl

line_stripped : strip (codes "4711;main") ≡ codes "4711;main"
unfolding strip is_space
line_stripped = refl

parse_submission-sbatch_output_example :
    parse_submission
      (sbatch_output
        (codes "warning: low priority" ∷ [])
        (submission_line (codes "4711") (some (codes "main"))))
      job
    ≡ ok (record {
      job_id = codes "4711";
      name = codes "train";
      stdout_path = replace (codes "%j") (codes "4711") (stdout_pattern job);
      stderr_path = replace (codes "%j") (codes "4711") (stderr_pattern job);
    })
parse_submission-sbatch_output_example =
    parse_submission-sbatch_output job (codes "warning: low priority" ∷ []) (codes "4711")
      (some (codes "main")) unbroken refl digits_only line_unbroken line_stripped

submission_paths :
    replace (codes "%j") (codes "4711") (stdout_pattern job) ≡ codes "/home/me/logs/train-4711.out"
unfolding replace stdout_pattern
submission_paths = refl

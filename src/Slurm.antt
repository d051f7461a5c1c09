-- ===== src/Slurm.antt =====
-- slurm.py: jobs and their resources, with the checks of `__post_init__`. What the type of a field
-- already rules out (`isinstance`) is not tested again. Rendering and parsing are in the child
-- modules.
pub mod Records
pub mod Script
pub mod Parsing
pub mod Directives
pub mod Queue
pub mod Submission
use pazuzu.Base.{
  ℕ, zero, suc, ℤ, pos, negsuc, Bool, true, false, ◌&&◌, ◌||◌, not, Option, none, some, List, [],
  ◌∷◌, ◌++◌, Text, codes, any, all, is_empty, is_digit, is_space, starts_with, has_char, contains,
  length, leb, ◌==◌, if◌then◌else◌,
}
use pazuzu.Errors.{Kind, Result, ok, raise_if, ◌>>=◌, ◌>>◌}

-- `[A-Za-z0-9]`
unfoldable pub is_alphanumeric : ℕ → Bool
unfolding is_digit
is_alphanumeric c = leb b'a' c && leb c b'z' || leb b'A' c && leb c b'Z' || is_digit c

-- `[first][rest]*\Z`
abbrev pub matches : (ℕ → Bool) → (ℕ → Bool) → Text → Bool
matches first rest [] = false
matches first rest (c ∷ s) = first c && all rest s

-- `_JOB_NAME`
unfoldable pub is_job_name : Text → Bool
unfolding is_alphanumeric has_char
is_job_name s =
    matches is_alphanumeric (λ c. is_alphanumeric c || has_char c (codes "_.-")) s
    && leb (length s) 128

-- `_ENVIRONMENT_NAME`
unfoldable pub is_environment_name : Text → Bool
unfolding is_alphanumeric has_char is_digit
is_environment_name s =
    matches (λ c. is_alphanumeric c && not (is_digit c) || has_char c (codes "_"))
      (λ c. is_alphanumeric c || has_char c (codes "_")) s

-- `_NODE_LIST`
unfoldable pub is_node_list : Text → Bool
unfolding is_alphanumeric has_char
is_node_list s = matches is_alphanumeric (λ c. is_alphanumeric c || has_char c (codes "_.[],-")) s

-- `_TERMINAL_STATES`
abbrev terminal_states : List Text
terminal_states =
    codes "BOOT_FAIL"
    ∷ codes "CANCELLED"
    ∷ codes "COMPLETED"
    ∷ codes "DEADLINE"
    ∷ codes "FAILED"
    ∷ codes "NODE_FAIL"
    ∷ codes "OUT_OF_MEMORY"
    ∷ codes "PREEMPTED"
    ∷ codes "REVOKED"
    ∷ codes "SPECIAL_EXIT"
    ∷ codes "TIMEOUT"
    ∷ []

abbrev pub is_positive : ℤ → Bool
is_positive (pos n) = leb 1 n
is_positive (negsuc n) = false

abbrev pub is_negative : ℤ → Bool
is_negative (pos n) = false
is_negative (negsuc n) = true

-- `_positive`
unfoldable pub positive : Text → ℤ → Result (Unit {0})
positive name value =
    raise_if (not (is_positive value)) Kind.value_error
      (name ++ codes " must be a positive integer")

-- `_nonnegative`
unfoldable pub nonnegative : Text → ℤ → Result (Unit {0})
nonnegative name value =
    raise_if (is_negative value) Kind.value_error (name ++ codes " must be a non-negative integer")

-- A text that stands for one word of a directive.
unfoldable pub is_token : Text → Bool
is_token s = not (is_empty s) && not (any is_space s)

-- `_directive`
unfoldable pub directive : Text → Option Text → Result (Unit {0})
directive name none = ok tt
directive name (some value) =
    raise_if (not (is_token value)) Kind.value_error
      (name ++ codes " must be a non-empty Slurm token without whitespace")

-- `_absolute`
unfoldable pub absolute : Text → Text → Result (Unit {0})
unfolding has_char starts_with
absolute name value =
    raise_if (has_char 0 value || not (starts_with value (codes "/"))) Kind.value_error
      (name ++ codes " must be an absolute POSIX path")

-- `_slurm_path`
unfoldable pub slurm_path : Text → Text → Result (Unit {0})
slurm_path name value = do
  absolute name value
  raise_if (any is_space value) Kind.value_error
      (name ++ codes " must not contain whitespace in an sbatch directive")

unfoldable pub validate_job_id : Text → Result Text
unfolding is_digit
validate_job_id job_id = do
  raise_if (is_empty job_id || not (all is_digit job_id)) Kind.value_error
      (codes "job_id must contain ASCII decimal digits")
  ok job_id

pub record SlurmResources : Type 0 where
  pub memory_gb_per_node : ℤ
  pub time_limit : Text
  pub cpus_per_task : ℤ
  pub gpus_per_node : ℤ
  pub nodes : ℤ
  pub tasks_per_node : ℤ
  pub partition : Option Text
  pub account : Option Text
  pub qos : Option Text
  pub constraint : Option Text
  pub array : Option Text
  pub dependency : Option Text
  pub node_list : Option Text
  pub exclude : Option Text

unfoldable pub check_node_list : Text → Option Text → Result (Unit {0})
check_node_list name none = ok tt
check_node_list name (some value) =
    raise_if (not (is_node_list value)) Kind.value_error
      (name ++ codes " must contain only ASCII host-list characters")

-- `SlurmResources.__post_init__`
unfoldable pub check_resources : SlurmResources → Result (Unit {0})
check_resources r = do
  positive (codes "memory_gb_per_node") r.memory_gb_per_node
  positive (codes "cpus_per_task") r.cpus_per_task
  nonnegative (codes "gpus_per_node") r.gpus_per_node
  positive (codes "nodes") r.nodes
  positive (codes "tasks_per_node") r.tasks_per_node
  directive (codes "time_limit") (some r.time_limit)
  directive (codes "partition") r.partition
  directive (codes "account") r.account
  directive (codes "qos") r.qos
  directive (codes "constraint") r.constraint
  directive (codes "array") r.array
  directive (codes "dependency") r.dependency
  directive (codes "node_list") r.node_list
  directive (codes "exclude") r.exclude
  check_node_list (codes "node_list") r.node_list
  check_node_list (codes "exclude") r.exclude

-- `environment` lists the items of a dictionary, with distinct names.
pub record SlurmJob : Type 0 where
  pub name : Text
  pub argv : List Text
  pub cwd : Text
  pub log_dir : Text
  pub resources : SlurmResources
  pub environment : List (Text × Text)

abbrev is_bad_item : Text → Bool
is_bad_item item = is_empty item || has_char 0 item

abbrev is_bad_variable : Text × Text → Bool
is_bad_variable (name, value) = not (is_environment_name name) || has_char 0 value

-- The constructor of resources, then `SlurmJob.__post_init__`.
unfoldable pub check_job : SlurmJob → Result (Unit {0})
check_job job = do
  check_resources job.resources
  raise_if (not (is_job_name job.name)) Kind.value_error
      (codes "name must contain only ASCII letters, digits, '.', '_' or '-'")
  raise_if (is_empty job.argv || any is_bad_item job.argv) Kind.value_error
      (codes "argv must contain non-empty strings without NUL bytes")
  absolute (codes "cwd") job.cwd
  slurm_path (codes "log_dir") job.log_dir
  raise_if (any is_bad_variable job.environment) Kind.value_error
      (codes "environment must contain valid names and values without NUL bytes")

-- `posixpath.join(directory, name)`, for a relative `name`.
unfoldable pub join_path : Text → Text → Text
join_path [] name = name
join_path (c ∷ []) name = if c == b'/' then c ∷ name else c ∷ (b'/' ∷ name)
join_path (c ∷ d ∷ directory) name = c ∷ join_path (d ∷ directory) name

-- `SlurmJob.stdout_pattern`
unfoldable pub stdout_pattern : SlurmJob → Text
unfolding join_path
stdout_pattern job = join_path job.log_dir (job.name ++ codes "-%j.out")

-- `SlurmJob.stderr_pattern`
unfoldable pub stderr_pattern : SlurmJob → Text
unfolding join_path
stderr_pattern job = join_path job.log_dir (job.name ++ codes "-%j.err")

pub record SlurmHandle : Type 0 where
  pub job_id : Text
  pub name : Text
  pub stdout_path : Text
  pub stderr_path : Text

pub record SlurmStatus : Type 0 where
  pub job_id : Text
  pub state : Text
  pub source : Text
  pub elapsed : Option Text
  pub time_limit : Option Text
  pub reason : Option Text
  pub exit_code : Option Text

-- `SlurmStatus.terminal`
unfoldable pub terminal : SlurmStatus → Bool
terminal status = contains terminal_states status.state

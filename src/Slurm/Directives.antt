-- ===== src/Slurm/Directives.antt =====
-- The `#SBATCH` lines of a rendered script: no field of a checked job can break out of its line.
use pazuzu.Base.{
  ℕ, ℤ, ◌≡◌, refl, Bool, true, false, ◌||◌, Option, none, some, List, [], ◌∷◌, ◌++◌, Text, codes,
  any, all, All, arith, is_space, is_digit, is_nat, int_text, int_text_spaceless, join_lines,
  append_assoc, sym, has_char, if◌then◌else◌,
}
use pazuzu.Errors.{ok}
use pazuzu.Slurm.{
  SlurmResources, SlurmJob, is_alphanumeric, is_job_name, is_token, directive, slurm_path,
  check_resources, check_job, join_path, stdout_pattern, stderr_pattern,
}
use pazuzu.Slurm.Script.{sbatch, optional, gpus, directives, body, render_slurm_script}

-- A directive that is one word after its prefix.
abbrev pub IsDirective : Text → Type 0
IsDirective line = (word : Text) × (line ≡ codes "#SBATCH --" ++ word) × (any is_space word ≡ false)

module _ {ℓ} {A : Type ℓ} where
  any-append : (p : A → Bool) (xs ys : List A) → any p (xs ++ ys) ≡ (any p xs || any p ys)
  any-append p [] ys = refl
  any-append p (x ∷ xs) ys = ground (arith, any-append p xs ys)

  all-any :
      (p q : A → Bool)
      → ((x : A) → p x ≡ true → q x ≡ false)
      → (xs : List A) → all p xs ≡ true
      → any q xs ≡ false
  all-any p q h [] e = refl
  all-any p q h (x ∷ xs) e = ground (arith, h x, all-any p q h xs)

All-append {ℓ κ} :
    {A : Type ℓ} (P : A → Type κ) (xs ys : List A) → All P xs → All P ys → All P (xs ++ ys)
All-append P [] ys h k = k
All-append P (x ∷ xs) ys (h, hs) k = (h, All-append P xs ys hs k)

spaces-append :
    (s t : Text) → any is_space s ≡ false → any is_space t ≡ false → any is_space (s ++ t) ≡ false
spaces-append s t h k = ground (arith, any-append is_space s t)

equals_sign : (value : Text) → any is_space value ≡ false → any is_space (b'=' ∷ value) ≡ false
unfolding is_space
equals_sign value h = h

sbatch-IsDirective :
    (option value : Text)
    → any is_space option ≡ false
    → any is_space value ≡ false
    → IsDirective (sbatch option value)
unfolding sbatch
sbatch-IsDirective option value h k =
    (option ++ (b'=' ∷ value), refl, spaces-append option (b'=' ∷ value) h (equals_sign value k))

alphanumeric_spaceless : (c : ℕ) → is_alphanumeric c ≡ true → is_space c ≡ false
unfolding is_alphanumeric is_digit is_space
alphanumeric_spaceless c h = ground arith

name_spaceless :
    (c : ℕ) → (is_alphanumeric c || has_char c (codes "_.-")) ≡ true → is_space c ≡ false
unfolding is_alphanumeric is_digit is_space has_char
name_spaceless c h = ground arith

job_name_spaceless : (name : Text) → is_job_name name ≡ true → any is_space name ≡ false
unfolding is_job_name
job_name_spaceless [] h = refl
job_name_spaceless (c ∷ s) h = ground (
  arith,
  alphanumeric_spaceless c,
  all-any (λ d. is_alphanumeric d || has_char d (codes "_.-")) is_space name_spaceless s,
)

token_spaceless : (value : Text) → is_token value ≡ true → any is_space value ≡ false
unfolding is_token
token_spaceless value h = ground arith

join_path_spaceless :
    (directory name : Text)
    → any is_space directory ≡ false
    → any is_space name ≡ false
    → any is_space (join_path directory name) ≡ false
unfolding join_path is_space
join_path_spaceless [] name h k = k
join_path_spaceless (c ∷ []) name h k = ground arith
join_path_spaceless (c ∷ d ∷ directory) name h k =
    ground (arith, join_path_spaceless (d ∷ directory) name)

-- What the checks leave of a job.
abbrev Spaceless : Option Text → Type 0
Spaceless none = Unit
Spaceless (some value) = any is_space value ≡ false

directive-Spaceless :
    (name : Text) (value : Option Text) → directive name value ≡ ok tt → Spaceless value
unfolding directive
directive-Spaceless name none h = tt
directive-Spaceless name (some value) h = ground (arith, token_spaceless value)

optional-IsDirective :
    (option : Text) (value : Option Text)
    → any is_space option ≡ false
    → Spaceless value
    → All IsDirective (optional option value)
optional-IsDirective option none h k = tt
optional-IsDirective option (some value) h k = (sbatch-IsDirective option value h k, tt)

record Checked (r : SlurmResources) : Type 0 where
  time_limit : any is_space r.time_limit ≡ false
  partition : Spaceless r.partition
  account : Spaceless r.account
  qos : Spaceless r.qos
  constraint : Spaceless r.constraint
  array : Spaceless r.array
  dependency : Spaceless r.dependency
  node_list : Spaceless r.node_list
  exclude : Spaceless r.exclude

check_resources-Checked : (r : SlurmResources) → check_resources r ≡ ok tt → Checked r
unfolding check_resources
check_resources-Checked r h = record {
  time_limit = directive-Spaceless (codes "time_limit") (some r.time_limit) (ground arith);
  partition = directive-Spaceless (codes "partition") r.partition (ground arith);
  account = directive-Spaceless (codes "account") r.account (ground arith);
  qos = directive-Spaceless (codes "qos") r.qos (ground arith);
  constraint = directive-Spaceless (codes "constraint") r.constraint (ground arith);
  array = directive-Spaceless (codes "array") r.array (ground arith);
  dependency = directive-Spaceless (codes "dependency") r.dependency (ground arith);
  node_list = directive-Spaceless (codes "node_list") r.node_list (ground arith);
  exclude = directive-Spaceless (codes "exclude") r.exclude (ground arith);
}

check_job-parts :
    (job : SlurmJob)
    → check_job job ≡ ok tt
    → (check_resources job.resources ≡ ok tt)
      × (is_job_name job.name ≡ true)
      × (any is_space job.log_dir ≡ false)
unfolding check_job slurm_path
check_job-parts job h = (ground arith, ground arith, ground arith)

join_lines-append :
    (line : Text) (lines : List Text) (next : Text) (others : List Text)
    → join_lines (line ∷ (lines ++ (next ∷ others)))
      ≡ join_lines (line ∷ lines) ++ (10 ∷ join_lines (next ∷ others))
unfolding join_lines
join_lines-append line [] next others = refl
join_lines-append line (l ∷ lines) next others =
    let e = join_lines-append l lines next others in
    rw e (sym (append_assoc line (10 ∷ join_lines (l ∷ lines)) (10 ∷ join_lines (next ∷ others))))

gpus-IsDirective : (n : ℤ) → All IsDirective (gpus n)
unfolding is_space
gpus-IsDirective n =
    elim (is_nat n 0)
      as (λ b.
        All IsDirective
          (if b then [] else sbatch (codes "gres") (codes "gpu:" ++ int_text n) ∷ [])) [
            | true ↦ tt
            | false ↦ (
              sbatch-IsDirective (codes "gres") (codes "gpu:" ++ int_text n) refl
                  (int_text_spaceless n),
              tt,
            )
          ]

pattern_spaceless :
    (job : SlurmJob) (suffix : Text)
    → check_job job ≡ ok tt
    → any is_space suffix ≡ false
    → any is_space (join_path job.log_dir (job.name ++ suffix)) ≡ false
pattern_spaceless job suffix h k =
    let (checked, name, log_dir) = check_job-parts job h in
    join_path_spaceless job.log_dir (job.name ++ suffix) log_dir
      (spaces-append job.name suffix (job_name_spaceless job.name name) k)

-- The directives that every script has, in the middle of its list.
abbrev sizes : SlurmResources → List Text
sizes r =
    sbatch (codes "nodes") (int_text r.nodes)
    ∷ sbatch (codes "ntasks-per-node") (int_text r.tasks_per_node)
    ∷ sbatch (codes "cpus-per-task") (int_text r.cpus_per_task)
    ∷ sbatch (codes "mem") (int_text r.memory_gb_per_node ++ codes "G")
    ∷ sbatch (codes "time") r.time_limit
    ∷ []

sizes-IsDirective : (r : SlurmResources) → Checked r → All IsDirective (sizes r)
unfolding is_space
sizes-IsDirective r c = (
  sbatch-IsDirective (codes "nodes") (int_text r.nodes) refl (int_text_spaceless r.nodes),
  (
    sbatch-IsDirective (codes "ntasks-per-node") (int_text r.tasks_per_node) refl
        (int_text_spaceless r.tasks_per_node),
    (
      sbatch-IsDirective (codes "cpus-per-task") (int_text r.cpus_per_task) refl
          (int_text_spaceless r.cpus_per_task),
      (
        sbatch-IsDirective (codes "mem") (int_text r.memory_gb_per_node ++ codes "G") refl (
            spaces-append (int_text r.memory_gb_per_node) (codes "G")
              (int_text_spaceless r.memory_gb_per_node) refl),
        (sbatch-IsDirective (codes "time") r.time_limit refl c.time_limit, tt),
      ),
    ),
  ),
)

-- The lines start with the first command of a script, which no field of the job is part of.
abbrev pub StartsWithCommand : List Text → Type 0
StartsWithCommand lines = (rest : List Text) × (lines ≡ [] ∷ codes "set -euo pipefail" ∷ rest)

-- The script of a job that passed its checks is the interpreter line, the directives, and the body,
-- each directive on a line of its own and one word after `#SBATCH --`; the body starts with a blank
-- line and the command `set -euo pipefail`, after which sbatch reads no directives. So no field of a
-- job, whatever text it holds, adds a directive or ends one early.
pub render_slurm_script-directives :
    (job : SlurmJob)
    → check_job job ≡ ok tt
    → (render_slurm_script job
        ≡ join_lines (codes "#!/usr/bin/env bash" ∷ directives job) ++ (10 ∷ join_lines (body job)))
      × All IsDirective (directives job)
      × StartsWithCommand (body job)
unfolding render_slurm_script directives body stdout_pattern stderr_pattern is_space
render_slurm_script-directives job h =
    let (checked, name, log_dir) = check_job-parts job h in
    let r = job.resources in
    let c = check_resources-Checked r checked in
    let logs : All IsDirective (
        sbatch (codes "output") (stdout_pattern job)
        ∷ sbatch (codes "error") (stderr_pattern job)
        ∷ []) =
      (
        sbatch-IsDirective (codes "output") (stdout_pattern job) refl
            (pattern_spaceless job (codes "-%j.out") h refl),
        (
          sbatch-IsDirective (codes "error") (stderr_pattern job) refl
              (pattern_spaceless job (codes "-%j.err") h refl),
          tt,
        ),
      ) in
    (
      join_lines-append (codes "#!/usr/bin/env bash") (directives job) [] _,
      (
        sbatch-IsDirective (codes "job-name") job.name refl (job_name_spaceless job.name name),
        All-append IsDirective _ _
            (optional-IsDirective (codes "partition") r.partition refl c.partition)
            (All-append IsDirective _ _
              (optional-IsDirective (codes "account") r.account refl c.account)
              (All-append IsDirective _ _ (optional-IsDirective (codes "qos") r.qos refl c.qos) (
                All-append IsDirective _ _
                  (optional-IsDirective (codes "constraint") r.constraint refl c.constraint)
                  (All-append IsDirective _ _
                    (optional-IsDirective (codes "nodelist") r.node_list refl c.node_list)
                    (All-append IsDirective _ _
                      (optional-IsDirective (codes "exclude") r.exclude refl c.exclude)
                      (All-append IsDirective (sizes r) _ (sizes-IsDirective r c) (
                        All-append IsDirective _ _ (gpus-IsDirective r.gpus_per_node) (
                          All-append IsDirective _ _
                            (optional-IsDirective (codes "array") r.array refl c.array)
                            (All-append IsDirective _ _
                              (optional-IsDirective (codes "dependency") r.dependency refl
                                c.dependency)
                              logs))))))))),
      ),
      (_, refl),
    )

-- ===== src/Slurm/Script.antt =====
-- slurm.py: `render_slurm_script`.
use pazuzu.Base.{
  ℤ, Bool, true, false, Option, none, some, List, [], ◌∷◌, ◌++◌, map, Text, codes, int_text,
  join_lines, is_nat, ltb, ◌==◌, if◌then◌else◌, ◌||◌, ◌&&◌,
}
use pazuzu.Shlex.{quote, join}
use pazuzu.Slurm.{SlurmJob, stdout_pattern, stderr_pattern}

-- One `#SBATCH` line.
unfoldable pub sbatch : Text → Text → Text
sbatch option value = codes "#SBATCH --" ++ (option ++ (b'=' ∷ value))

abbrev pub optional : Text → Option Text → List Text
optional option none = []
optional option (some value) = sbatch option value ∷ []

abbrev pub gpus : ℤ → List Text
gpus n = if is_nat n 0 then [] else sbatch (codes "gres") (codes "gpu:" ++ int_text n) ∷ []

-- The lines from the job's name to its error file.
unfoldable pub directives : SlurmJob → List Text
directives job =
    let r = job.resources in
    sbatch (codes "job-name") job.name
    ∷ (optional (codes "partition") r.partition
        ++ (optional (codes "account") r.account
            ++ (optional (codes "qos") r.qos
                ++ (optional (codes "constraint") r.constraint
                    ++ (optional (codes "nodelist") r.node_list
                        ++ (optional (codes "exclude") r.exclude
                            ++ (sbatch (codes "nodes") (int_text r.nodes)
                                ∷ sbatch (codes "ntasks-per-node") (int_text r.tasks_per_node)
                                ∷ sbatch (codes "cpus-per-task") (int_text r.cpus_per_task)
                                ∷ sbatch (codes "mem") (int_text r.memory_gb_per_node ++ codes "G")
                                ∷ sbatch (codes "time") r.time_limit
                                ∷ (gpus r.gpus_per_node
                                    ++ (optional (codes "array") r.array
                                        ++ (optional (codes "dependency") r.dependency
                                            ++ (sbatch (codes "output") (stdout_pattern job)
                                                ∷ sbatch (codes "error") (stderr_pattern job)
                                                ∷ [])))))))))))

-- `s < t`, by code points.
unfoldable pub text_lt : Text → Text → Bool
text_lt s [] = false
text_lt [] (d ∷ t) = true
text_lt (c ∷ s) (d ∷ t) = ltb c d || c == d && text_lt s t

insert_sorted : Text × Text → List (Text × Text) → List (Text × Text)
unfolding text_lt
insert_sorted v [] = v ∷ []
insert_sorted v (w ∷ ws) =
    let rest = insert_sorted v ws in if text_lt w.0 v.0 then w ∷ rest else v ∷ w ∷ ws

-- `sorted(environment.items())`, whose names are distinct.
unfoldable pub sorted_items : List (Text × Text) → List (Text × Text)
unfolding insert_sorted
sorted_items [] = []
sorted_items (v ∷ vs) = insert_sorted v (sorted_items vs)

abbrev export_line : Text × Text → Text
export_line (name, value) = codes "export " ++ (name ++ (b'=' ∷ quote value))

-- The lines after the directives.
unfoldable pub body : SlurmJob → List Text
body job =
    []
    ∷ codes "set -euo pipefail"
    ∷ (codes "cd " ++ quote job.cwd)
    ∷ (map export_line (sorted_items job.environment)
        ++ ([] ∷ (codes "exec " ++ join job.argv) ∷ [] ∷ []))

unfoldable pub render_slurm_script : SlurmJob → Text
render_slurm_script job = join_lines (codes "#!/usr/bin/env bash" ∷ (directives job ++ body job))

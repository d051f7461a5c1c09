-- ===== src/Slurm/Records.antt =====
-- slurm.py: `as_dict` of a handle and of a status.
use pazuzu.Base.{[], ◌∷◌, codes}
use pazuzu.Json.{Json, Dict, nullable}
use pazuzu.Slurm.{SlurmHandle, SlurmStatus, terminal}

unfoldable pub handle_dict : SlurmHandle → Dict
handle_dict h =
    (codes "job_id", Json.text h.job_id)
    ∷ (codes "name", Json.text h.name)
    ∷ (codes "stdout_path", Json.text h.stdout_path)
    ∷ (codes "stderr_path", Json.text h.stderr_path)
    ∷ []

unfoldable pub status_dict : SlurmStatus → Dict
status_dict s =
    (codes "job_id", Json.text s.job_id)
    ∷ (codes "state", Json.text s.state)
    ∷ (codes "source", Json.text s.source)
    ∷ (codes "elapsed", nullable s.elapsed)
    ∷ (codes "time_limit", nullable s.time_limit)
    ∷ (codes "reason", nullable s.reason)
    ∷ (codes "exit_code", nullable s.exit_code)
    ∷ (codes "terminal", Json.boolean (terminal s))
    ∷ []

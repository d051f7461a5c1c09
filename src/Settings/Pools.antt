-- ===== src/Settings/Pools.antt =====
-- Checked settings divide into session pools: `SshSettings.validate` against lease.py.
use pazuzu.Base.{◌≤◌, ◌≡◌, ◌↔◌, Bool, true, false, arith}
use pazuzu.Errors.{Result, ok, err}
use pazuzu.Lease.{
  SessionBudget, session_lease_directory, session_budget, session_lease_pool, operations, bridges,
  probes,
}
use pazuzu.Settings.{SshSettings, validate}

abbrev pub is_ok {ℓ} : {A : Type ℓ} → Result A → Bool
is_ok (ok a) = true
is_ok (err e) = false

max_sessions_bounds :
    (s : SshSettings) → validate s ≡ ok tt → (2 ≤ s.max_sessions) × (s.max_sessions ≤ 64)
unfolding validate
max_sessions_bounds s h = ground arith

-- Settings that `validate` accepts have a budget of two to 64 sessions, from which a gateway gets its
-- operation slots and its probe slot; bridges get slots exactly if it has three sessions or more.
pub validate-budget :
    (s : SshSettings)
    → validate s ≡ ok tt
    → (budget : SessionBudget) × (session_budget s.control_path s.max_sessions ≡ ok budget)
      × (budget.max_sessions ≤ 64)
      × (is_ok (operations budget) ≡ true)
      × (is_ok (probes budget) ≡ true)
      × ((is_ok (bridges budget) ≡ true) ↔ (3 ≤ s.max_sessions))
unfolding session_budget operations bridges probes session_lease_pool
validate-budget s h =
    let (lo, hi) = max_sessions_bounds s h in
    let budget : SessionBudget = record {
      directory = session_lease_directory s.control_path;
      max_sessions = s.max_sessions;
    } in
    (budget, ground arith, hi, ground arith, ground arith, ground arith)

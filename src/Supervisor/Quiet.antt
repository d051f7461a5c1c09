-- ===== src/Supervisor/Quiet.antt =====
-- The methods that use no session: `health`, `reconnect` and `connection_attachment`.
use pazuzu.Base.{ℕ, ◌≤◌, Bool, arith}
use pazuzu.Exec.Keeps.{Keeps, keeps_rules}
use pazuzu.Exec.Adds.{Adds}
use pazuzu.Supervisor.{Supervisor}
use pazuzu.Supervisor.Machine.{Env, Machine, Action, update, self, clock}
use pazuzu.Supervisor.Repair.{connect, ensure_connected, check, repair_if_broken}
use pazuzu.Supervisor.Stable
use pazuzu.Supervisor.Stable.{KeepsUpdate, IsKept, RepairPreserves}
use pazuzu.Supervisor.Operations.{attachment, connection_attachment, health, reconnect}
use pazuzu.Supervisor.Replay.{sessions, Sent, Sent-IsKept, Sent-RepairPreserves}

module _ {W : Type 0} (P : Machine W → Type 0) (env : Env W) (kept : IsKept P)
    (repair : RepairPreserves P env) where
  update-Keeps : (f : Supervisor → Supervisor) → KeepsUpdate P f → Keeps P (update f)
  update-Keeps = Stable.Keeps-update P env kept repair

  self-Keeps : Keeps P self
  self-Keeps = Stable.Keeps-self P env kept repair

  clock-Keeps : Keeps P (clock env)
  clock-Keeps = Stable.Keeps-clock P env kept repair

  check-Keeps : (generation : ℕ) → Keeps P (check env generation)
  check-Keeps = Stable.Keeps-check P env kept repair

  repair-Keeps : (generation : ℕ) → Keeps P (repair_if_broken env generation)
  repair-Keeps = Stable.Keeps-repair_if_broken P env kept repair

  connect-Keeps : (force respect_backoff : Bool) → Keeps P (connect env force respect_backoff)
  connect-Keeps = Stable.Keeps-connect P env kept repair

  ensure-Keeps : (respect_backoff : Bool) → Keeps P (ensure_connected env respect_backoff)
  ensure-Keeps = Stable.Keeps-ensure_connected P env kept repair

  pub Keeps-attachment : (generation : ℕ) → Keeps P (attachment env generation)
  unfolding attachment
  Keeps-attachment generation = search (keeps_rules, self-Keeps) depth 12

  pub Keeps-connection_attachment : Keeps P (connection_attachment env)
  unfolding connection_attachment
  Keeps-connection_attachment =
      search (keeps_rules, self-Keeps, ensure-Keeps, repair-Keeps, Keeps-attachment) depth 12

  pub Keeps-health : (probe : Bool) → Keeps P (health env probe)
  unfolding health
  Keeps-health probe = search (keeps_rules, self-Keeps, clock-Keeps, repair-Keeps) depth 12

  pub Keeps-reconnect : (force : Bool) → Keeps P (reconnect env force)
  unfolding reconnect
  Keeps-reconnect force =
      search
        (
          keeps_rules, update-Keeps, connect-Keeps, ensure-Keeps, check-Keeps, Keeps-health,
          kept.skips_backoff, kept.wakes,
        )
        depth 12

-- An action that keeps every bound on the commands sent sends none.
module _ {W : Type 0} (env : Env W) where
  abbrev Few : ℕ → Machine W → Type 0
  Few n = Sent (λ k. k ≤ n)

  Adds-of_Keeps :
      {A : Type 0} (action : Action W A)
      → ((n : ℕ) → Keeps (Few n) action)
      → Adds (λ m. sessions m.trace) 0 action
  Adds-of_Keeps action keeps = record {
    at = λ m. let bound = (keeps (sessions m.trace)).at m (omega arith) in omega arith;
  }

  -- `Sent F` is kept, and the calls of a repair preserve it.
  pub Adds-health : (probe : Bool) → Adds (λ m. sessions m.trace) 0 (health env probe)
  Adds-health probe = Adds-of_Keeps (health env probe) (λ n.
      Keeps-health (Few n) env (Sent-IsKept env (λ k. k ≤ n))
        (Sent-RepairPreserves env (λ k. k ≤ n)) probe)

  pub Adds-reconnect : (force : Bool) → Adds (λ m. sessions m.trace) 0 (reconnect env force)
  Adds-reconnect force = Adds-of_Keeps (reconnect env force) (λ n.
      Keeps-reconnect (Few n) env (Sent-IsKept env (λ k. k ≤ n))
        (Sent-RepairPreserves env (λ k. k ≤ n)) force)

  pub Adds-connection_attachment : Adds (λ m. sessions m.trace) 0 (connection_attachment env)
  Adds-connection_attachment = Adds-of_Keeps (connection_attachment env) (λ n.
      Keeps-connection_attachment (Few n) env (Sent-IsKept env (λ k. k ≤ n))
        (Sent-RepairPreserves env (λ k. k ≤ n)))

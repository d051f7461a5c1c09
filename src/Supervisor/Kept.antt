-- ===== src/Supervisor/Kept.antt =====
-- The public methods keep every predicate of `Stable`.
use pazuzu.Base.{ℕ, zero, suc, Bool, Text, Bytes, List}
use pazuzu.Errors.{Exception}
use pazuzu.Exec.Keeps.{
  Keeps, Keeps-bind, Keeps-finally, Keeps-handle, Keeps-pure, Keeps-if, keeps_rules,
}
use pazuzu.Transfer.{Tool}
use pazuzu.Supervisor.{Supervisor}
use pazuzu.Supervisor.Machine.{
  Call, Await, Env, Machine, Action, call, update, self, clock, with_repair_lock,
}
use pazuzu.Supervisor.Repair.{
  connect, ensure_connected, check, repair_if_broken, safe_repair_after_command,
}
use pazuzu.Supervisor.Tasks.{Task, perform}
use pazuzu.Supervisor.Stable
use pazuzu.Supervisor.Quiet
use pazuzu.Supervisor.Stable.{KeepsUpdate, IsKept, IsRespectful, Preserves}
use pazuzu.Supervisor.Operations.{
  slot_timeout, take_slot, hold, operation, run_session, replay_once, execute_checked, execute,
  connection_attachment, health, reconnect, transfer,
}
use pazuzu.Supervisor.Maintenance.{
  wait_for_wake, attend, maintain_round, maintain, start, stop_maintenance, close, detach,
}

module _ {W : Type 0} (P : Machine W → Type 0) (env : Env W) (kept : IsKept P)
    (resp : IsRespectful P env) where
  update-Keeps : (f : Supervisor → Supervisor) → KeepsUpdate P f → Keeps P (update f)
  update-Keeps = Stable.Keeps-update P env kept resp.repair

  call-Keeps : {A : Type 0} (c : Call) (f : Await W A) → Preserves P c f → Keeps P (call c f)
  call-Keeps = Stable.Keeps-call P env kept resp.repair

  self-Keeps : Keeps P self
  self-Keeps = Stable.Keeps-self P env kept resp.repair

  clock-Keeps : Keeps P (clock env)
  clock-Keeps = Stable.Keeps-clock P env kept resp.repair

  Keeps-slot_timeout :
      {A : Type 0} (timeout : ℕ) (e : Exception) → Keeps P (slot_timeout env {A = A} timeout e)
  unfolding slot_timeout
  Keeps-slot_timeout timeout e = search (keeps_rules, self-Keeps)

  Keeps-take_slot : (timeout : ℕ) → Keeps P (take_slot env timeout)
  unfolding take_slot
  Keeps-take_slot timeout =
      Keeps-bind _ _ (search (keeps_rules, call-Keeps, resp.slots.acquire_slot)) (λ taken.
        Keeps-handle taken _ _ (λ lease. Keeps-pure lease) (λ e. Keeps-slot_timeout timeout e))

  Keeps-hold :
      {A : Type 0} (timeout : ℕ) (body : Action W A)
      → Keeps P body
      → Keeps P (hold env timeout body)
  unfolding hold
  Keeps-hold timeout body k = Keeps-bind _ _ (update-Keeps _ kept.waits) λ _.
      Keeps-bind _ _
        (Keeps-finally _ _ (Keeps-take_slot timeout) (update-Keeps _ kept.stops_waiting))
        λ lease. Keeps-bind _ _ (update-Keeps _ kept.activates) λ _. Keeps-finally _ _ k (
          Keeps-bind _ _ (update-Keeps _ kept.deactivates)
            λ _. call-Keeps _ _ (resp.slots.release_slot lease))

  Keeps-operation :
      {A : Type 0} (timeout : ℕ) (body : ℕ → ℕ → Action W A)
      → ((generation remaining : ℕ) → Keeps P (body generation remaining))
      → Keeps P (operation env timeout body)
  unfolding operation
  Keeps-operation timeout body k =
      search
        (keeps_rules, clock-Keeps, Keeps-hold, Stable.Keeps-ensure_connected P env kept resp.repair)
        depth 12

  Keeps-run_session :
      (command : Text) (stdin : Bytes) (timeout : ℕ)
      → Keeps P (run_session env command stdin timeout)
  unfolding run_session
  Keeps-run_session command stdin timeout =
      search (keeps_rules, Keeps-operation, call-Keeps, resp.session) depth 12

  check-Keeps : (generation : ℕ) → Keeps P (check env generation)
  check-Keeps = Stable.Keeps-check P env kept resp.repair

  safe_repair-Keeps : (generation : ℕ) → Keeps P (safe_repair_after_command env generation)
  safe_repair-Keeps = Stable.Keeps-safe_repair P env kept resp.repair

  repair-Keeps : (generation : ℕ) → Keeps P (repair_if_broken env generation)
  repair-Keeps = Stable.Keeps-repair_if_broken P env kept resp.repair

  connect-Keeps : (force respect_backoff : Bool) → Keeps P (connect env force respect_backoff)
  connect-Keeps = Stable.Keeps-connect P env kept resp.repair

  ensure-Keeps : (respect_backoff : Bool) → Keeps P (ensure_connected env respect_backoff)
  ensure-Keeps = Stable.Keeps-ensure_connected P env kept resp.repair

  lock-Keeps : {A : Type 0} (m : Action W A) → Keeps P m → Keeps P (with_repair_lock env m)
  lock-Keeps = Stable.Keeps-with_repair_lock P env kept resp.repair

  Keeps-replay_once :
      (command : Text) (stdin : Bytes) (timeout : ℕ)
      → Keeps P (replay_once env command stdin timeout)
  unfolding replay_once
  Keeps-replay_once command stdin timeout =
      search (keeps_rules, Keeps-run_session, check-Keeps) depth 12

  Keeps-execute_checked :
      (command : Text) (stdin : Bytes) (timeout : ℕ) (retry_safe : Bool)
      → Keeps P (execute_checked env command stdin timeout retry_safe)
  unfolding execute_checked
  Keeps-execute_checked command stdin timeout retry_safe =
      search (keeps_rules, Keeps-run_session, safe_repair-Keeps, Keeps-replay_once) depth 12

  pub Keeps-execute :
      (command : Text) (stdin : Bytes) (timeout : ℕ) (retry_safe : Bool)
      → Keeps P (execute env command stdin timeout retry_safe)
  unfolding execute
  Keeps-execute command stdin timeout retry_safe =
      search (keeps_rules, Keeps-execute_checked) depth 12

  pub Keeps-connection_attachment : Keeps P (connection_attachment env)
  Keeps-connection_attachment = Quiet.Keeps-connection_attachment P env kept resp.repair

  pub Keeps-health : (probe : Bool) → Keeps P (health env probe)
  Keeps-health = Quiet.Keeps-health P env kept resp.repair

  pub Keeps-reconnect : (force : Bool) → Keeps P (reconnect env force)
  Keeps-reconnect = Quiet.Keeps-reconnect P env kept resp.repair

  pub Keeps-transfer :
      (tool : Tool) (arguments : List Text) (executable : Text) (timeout : ℕ)
      → Keeps P (transfer env tool arguments executable timeout)
  unfolding transfer
  Keeps-transfer tool arguments executable timeout =
      search
        (
          keeps_rules,
          self-Keeps,
          call-Keeps,
          Quiet.Keeps-attachment P env kept resp.repair,
          Keeps-operation,
          safe_repair-Keeps,
          resp.run_transfer,
        )
        depth 12

  Keeps-wait_for_wake : (timeout : ℕ) → Keeps P (wait_for_wake env timeout)
  unfolding wait_for_wake
  Keeps-wait_for_wake timeout =
      search (keeps_rules, self-Keeps, update-Keeps, call-Keeps, kept.clears_wake, resp.wait_wake)
        depth 12

  Keeps-attend : Keeps P (attend env)
  unfolding attend
  Keeps-attend = search (keeps_rules, self-Keeps, repair-Keeps, connect-Keeps) depth 12

  pub Keeps-maintain_round : Keeps P (maintain_round env)
  unfolding maintain_round
  Keeps-maintain_round =
      search
        (
          keeps_rules, self-Keeps, clock-Keeps, update-Keeps, call-Keeps, Keeps-wait_for_wake,
          Keeps-attend, kept.clears_wake, resp.wait_wake_forever,
        )
        depth 12

  pub Keeps-maintain : (rounds : ℕ) → Keeps P (maintain env rounds)
  unfolding maintain
  Keeps-maintain zero = search keeps_rules
  Keeps-maintain (suc rounds) = Keeps-bind _ _ self-Keeps λ s.
      Keeps-if s.closed _ _ (λ _. Keeps-pure tt)
        (λ _. Keeps-bind _ _ Keeps-maintain_round (λ _. Keeps-maintain rounds))

  pub Keeps-start : Keeps P (start env)
  unfolding start
  Keeps-start =
      search
        (
          keeps_rules, self-Keeps, update-Keeps, call-Keeps, kept.starts, resp.start_maintainer,
          resp.publish_budget,
        )
        depth 12

  pub Keeps-stop_maintenance : Keeps P (stop_maintenance env)
  unfolding stop_maintenance
  Keeps-stop_maintenance =
      search
        (
          keeps_rules, self-Keeps, update-Keeps, call-Keeps, kept.stops, resp.cancel_maintainer,
          resp.cancel_probe,
        )
        depth 12

  pub Keeps-close : Keeps P (close env)
  unfolding close
  Keeps-close =
      search
        (
          keeps_rules, update-Keeps, call-Keeps, lock-Keeps, Keeps-stop_maintenance,
          kept.is_stopped, resp.repair.stop_master,
        )
        depth 12

  pub Keeps-detach : Keeps P (detach env)
  unfolding detach
  Keeps-detach =
      search
        (
          keeps_rules, update-Keeps, call-Keeps, Keeps-stop_maintenance, kept.is_detached,
          resp.detach_master,
        )
        depth 12

  -- Every public method keeps `P`, however it ends.
  pub Keeps-perform : (task : Task) → Keeps P (perform env task)
  unfolding perform
  Keeps-perform (Task.execute c i t r) = search (keeps_rules, Keeps-execute)
  Keeps-perform (Task.reconnect f) = search (keeps_rules, Keeps-reconnect)
  Keeps-perform Task.connection_attachment = search (keeps_rules, Keeps-connection_attachment)
  Keeps-perform (Task.transfer t a e n) = search (keeps_rules, Keeps-transfer)
  Keeps-perform (Task.health p) = search (keeps_rules, Keeps-health)
  Keeps-perform (Task.maintain n) = Keeps-maintain n
  Keeps-perform Task.start = Keeps-start
  Keeps-perform Task.close = Keeps-close
  Keeps-perform Task.detach = Keeps-detach

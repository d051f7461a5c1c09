-- ===== src/Supervisor/Stable.antt =====
-- Predicates on the supervisor that its methods keep. Each is kept by every assignment of the
-- methods, and is assumed to be kept by what other tasks do while a method awaits.
use pazuzu.Base.{ℕ, ◌+◌, ◌-◌, Bool, true, false, Option, none, some, List, zero, suc, Text, Bytes}
use pazuzu.Exec.Keeps.{Keeps, keeps_rules}
use pazuzu.Lease.{SessionLease}
use pazuzu.Supervisor.{Connection, Outcome, Supervisor, record_connected, record_failure}
use pazuzu.Supervisor.Machine.{
  Call, Await, Env, Machine, Action, call, self, update, clock, timestamp, raise_unavailable,
  with_repair_lock,
}
use pazuzu.Supervisor.Repair.{
  finish_flight, note_probe, is_still_connected, run_probe, probe, start_attempts, report_failure,
  replace_master, check_locked, check, connect_anew, connect, ensure_connected, repair_if_broken,
  safe_repair_after_command,
}

-- An assignment keeps `P`.
abbrev pub KeepsUpdate : {W : Type 0} → (Machine W → Type 0) → (Supervisor → Supervisor) → Type 0
KeepsUpdate {W} P f = (m : Machine W) → P m → P (record m { sup = f m.sup })

-- Every assignment of the methods keeps `P`.
pub record IsKept {W : Type 0} (P : Machine W → Type 0) : Type 0 where
  pub begin_replacing :
      KeepsUpdate P
        (λ s. record s { repair_epoch = s.repair_epoch + 1; state = Connection.reconnecting })
  pub begin_adopting : KeepsUpdate P (λ s. record s { repair_epoch = s.repair_epoch + 1 })
  pub connects :
      (now : Text)
      → KeepsUpdate P (λ s. record_connected now (record s { generation = s.generation + 1 }))
  pub fails :
      (stamp : Text) (now : ℕ) (detail : Text) → KeepsUpdate P (record_failure stamp now detail)
  pub notes :
      (outcome : Outcome) (seconds : ℕ) (stamp : Text)
      → KeepsUpdate P (note_probe outcome seconds stamp)
  pub starts_flight :
      (epoch : ℕ)
      → KeepsUpdate P
          (λ s. record s { probe_flight = some (record { epoch = epoch; is_done = false }) })
  pub ends_flight :
      (epoch : ℕ)
      → KeepsUpdate P (λ s. record s { probe_flight = finish_flight epoch s.probe_flight })
  pub waits : KeepsUpdate P (λ s. record s { waiting = s.waiting + 1 })
  pub stops_waiting : KeepsUpdate P (λ s. record s { waiting = s.waiting - 1 })
  pub activates : KeepsUpdate P (λ s. record s { active = s.active + 1 })
  pub deactivates : KeepsUpdate P (λ s. record s { active = s.active - 1 })
  pub skips_backoff : KeepsUpdate P (λ s. record s { next_attempt = 0 })
  pub wakes : KeepsUpdate P (λ s. record s { wake = true })
  pub clears_wake : KeepsUpdate P (λ s. record s { wake = false })
  pub starts : KeepsUpdate P (λ s. record s { has_maintainer = true })
  pub stops :
      KeepsUpdate P
        (λ s. record s { closed = true; wake = true; has_maintainer = false; probe_flight = none })
  pub is_stopped : KeepsUpdate P (λ s. record s { state = Connection.stopped })
  pub is_detached : KeepsUpdate P (λ s. record s { state = Connection.detached })

-- A call keeps `P`, with all that other tasks do while it is awaited.
abbrev pub Preserves : {W A : Type 0} → (Machine W → Type 0) → Call → Await W A → Type 0
Preserves {W} P c f = (m : Machine W) → P m → P (call c f m).1

-- The calls of connecting and repairing keep `P`.
pub record RepairPreserves {W : Type 0} (P : Machine W → Type 0) (env : Env W) : Type 0 where
  pub lock_repair : Preserves P Call.lock_repair env.lock_repair
  pub unlock_repair : Preserves P Call.unlock_repair env.unlock_repair
  pub control_check : Preserves P Call.control_check env.control_check
  pub stop_master : Preserves P Call.stop_master env.stop_master
  pub start_master : Preserves P Call.start_master env.start_master
  pub adopt_existing : Preserves P Call.adopt_existing env.adopt_existing
  pub probe : Preserves P Call.probe env.probe
  pub join_probe : Preserves P Call.join_probe env.join_probe
  pub sleep : (delay : ℕ) → Preserves P (Call.sleep delay) (env.sleep delay)

-- Taking and giving back a session slot keeps `P`.
pub record SlotsPreserve {W : Type 0} (P : Machine W → Type 0) (env : Env W) : Type 0 where
  pub acquire_slot :
      (timeout : ℕ) → Preserves P (Call.acquire_slot timeout) (env.acquire_slot timeout)
  pub release_slot :
      (lease : SessionLease) → Preserves P (Call.release_slot lease) (env.release_slot lease)

-- Every call keeps `P`.
pub record IsRespectful {W : Type 0} (P : Machine W → Type 0) (env : Env W) : Type 0 where
  pub repair : RepairPreserves P env
  pub slots : SlotsPreserve P env
  pub session :
      (command : Text) (stdin : Bytes) (timeout : ℕ)
      → Preserves P (Call.session command stdin timeout) (env.session command stdin timeout)
  pub run_transfer :
      (argv : List Text) (timeout : ℕ)
      → Preserves P (Call.run_transfer argv timeout) (env.run_transfer argv timeout)
  pub wait_wake : (timeout : ℕ) → Preserves P (Call.wait_wake timeout) (env.wait_wake timeout)
  pub wait_wake_forever : Preserves P Call.wait_wake_forever env.wait_wake_forever
  pub start_maintainer : Preserves P Call.start_maintainer env.start_maintainer
  pub publish_budget : Preserves P Call.publish_budget env.publish_budget
  pub cancel_maintainer : Preserves P Call.cancel_maintainer env.cancel_maintainer
  pub cancel_probe : Preserves P Call.cancel_probe env.cancel_probe
  pub detach_master : Preserves P Call.detach_master env.detach_master

module _ {W : Type 0} (P : Machine W → Type 0) (env : Env W) (kept : IsKept P)
    (resp : RepairPreserves P env) where
  pub Keeps-call : {A : Type 0} (c : Call) (f : Await W A) → Preserves P c f → Keeps P (call c f)
  Keeps-call c f h = record { at = h }

  pub Keeps-update : (f : Supervisor → Supervisor) → KeepsUpdate P f → Keeps P (update f)
  unfolding update
  Keeps-update f h = record { at = h }

  pub Keeps-self : Keeps P self
  unfolding self
  Keeps-self = search keeps_rules

  pub Keeps-clock : Keeps P (clock env)
  unfolding clock
  Keeps-clock = search keeps_rules

  pub Keeps-timestamp : Keeps P (timestamp env)
  unfolding timestamp
  Keeps-timestamp = search keeps_rules

  pub Keeps-raise_unavailable : {A : Type 0} → Keeps P (raise_unavailable env {A = A})
  unfolding raise_unavailable
  Keeps-raise_unavailable = search keeps_rules

  pub Keeps-with_repair_lock :
      {A : Type 0} (m : Action W A) → Keeps P m → Keeps P (with_repair_lock env m)
  unfolding with_repair_lock
  Keeps-with_repair_lock m k =
      search (keeps_rules, Keeps-call, resp.lock_repair, resp.unlock_repair)

  pub Keeps-still_connected : Keeps P (is_still_connected env)
  unfolding is_still_connected
  Keeps-still_connected = search (keeps_rules, Keeps-call, Keeps-self, resp.control_check)

  Keeps-run_probe : (epoch : ℕ) → Keeps P (run_probe env epoch)
  unfolding run_probe
  Keeps-run_probe epoch =
      search
        (
          keeps_rules, Keeps-call, Keeps-update, Keeps-self, Keeps-clock, Keeps-timestamp,
          kept.notes, resp.probe,
        )
        depth 12

  pub Keeps-probe : Keeps P (probe env)
  unfolding probe
  Keeps-probe =
      search
        (
          keeps_rules, Keeps-call, Keeps-update, Keeps-self, Keeps-run_probe, kept.starts_flight,
          kept.ends_flight, resp.join_probe,
        )
        depth 12

  Keeps-start_attempts :
      (left done : ℕ) (detail : Text) → Keeps P (start_attempts env left done detail)
  unfolding start_attempts
  Keeps-start_attempts zero done detail = search keeps_rules
  Keeps-start_attempts (suc left) done detail =
      search
        (
          keeps_rules,
          Keeps-call,
          Keeps-update,
          Keeps-timestamp,
          Keeps-start_attempts left,
          kept.connects,
          resp.start_master,
          resp.stop_master,
          resp.sleep,
        )
        depth 12

  Keeps-report_failure : (failure : Option Text) → Keeps P (report_failure env failure)
  unfolding report_failure
  Keeps-report_failure none = search keeps_rules
  Keeps-report_failure (some detail) =
      search
        (
          keeps_rules, Keeps-update, Keeps-self, Keeps-timestamp, Keeps-clock,
          Keeps-raise_unavailable, kept.fails,
        )
        depth 14

  pub Keeps-replace_master : Keeps P (replace_master env)
  unfolding replace_master
  Keeps-replace_master =
      search
        (
          keeps_rules, Keeps-call, Keeps-update, Keeps-self, Keeps-start_attempts,
          Keeps-report_failure, kept.begin_replacing, resp.stop_master,
        )
        depth 12

  Keeps-connect_anew : (force : Bool) → Keeps P (connect_anew env force)
  unfolding connect_anew
  Keeps-connect_anew force =
      search
        (
          keeps_rules, Keeps-call, Keeps-update, Keeps-self, Keeps-timestamp, Keeps-replace_master,
          kept.begin_adopting, kept.connects, resp.adopt_existing,
        )
        depth 14

  pub Keeps-connect : (force respect_backoff : Bool) → Keeps P (connect env force respect_backoff)
  unfolding connect
  Keeps-connect force respect_backoff =
      search
        (
          keeps_rules, Keeps-self, Keeps-clock, Keeps-with_repair_lock, Keeps-still_connected,
          Keeps-connect_anew, Keeps-raise_unavailable,
        )
        depth 14

  pub Keeps-ensure_connected :
      (respect_backoff : Bool) → Keeps P (ensure_connected env respect_backoff)
  unfolding ensure_connected
  Keeps-ensure_connected respect_backoff =
      search (keeps_rules, Keeps-self, Keeps-still_connected, Keeps-connect) depth 12

  Keeps-check_locked : (outcome : Outcome) (epoch : ℕ) → Keeps P (check_locked env outcome epoch)
  unfolding check_locked
  Keeps-check_locked outcome epoch =
      search
        (
          keeps_rules, Keeps-call, Keeps-self, Keeps-clock, Keeps-replace_master,
          Keeps-raise_unavailable, resp.control_check,
        )
        depth 12

  pub Keeps-check : (generation : ℕ) → Keeps P (check env generation)
  unfolding check
  Keeps-check generation =
      search (keeps_rules, Keeps-self, Keeps-probe, Keeps-with_repair_lock, Keeps-check_locked)
        depth 12

  pub Keeps-repair_if_broken : (generation : ℕ) → Keeps P (repair_if_broken env generation)
  unfolding repair_if_broken
  Keeps-repair_if_broken generation = search (keeps_rules, Keeps-check) depth 12

  pub Keeps-safe_repair : (generation : ℕ) → Keeps P (safe_repair_after_command env generation)
  unfolding safe_repair_after_command
  Keeps-safe_repair generation = search (keeps_rules, Keeps-check) depth 12

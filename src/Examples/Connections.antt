-- ===== src/Examples/Connections.antt =====
-- The supervisor in a world that is scripted: the exit codes that its sessions will return, with a
-- master that always answers, probes that never settle, and no other task.
use pazuzu.Base.{ℤ, pos, refl, true, false, none, List, [], ◌∷◌, Text, codes, arith}
use pazuzu.Errors.{ok}
use pazuzu.Process.{ProcessResult}
use pazuzu.Settings.{default_settings}
use pazuzu.Supervisor.{Outcome, Supervisor, open_ssh_supervisor}
use pazuzu.Supervisor.Machine.{Await, Env, Machine, call}
use pazuzu.Supervisor.Repair.{replace_master}
use pazuzu.Supervisor.Operations.{execute}
use pazuzu.Supervisor.Tasks.{Task, perform}
use pazuzu.Supervisor.Stable.{IsRespectful, RepairPreserves, SlotsPreserve}
use pazuzu.Supervisor.Invariant.{IsSound, IsAfter, perform-IsSound, perform-IsAfter}
use pazuzu.Supervisor.Replay.{sessions, Policy, execute_sends}
use pazuzu.Supervisor.Attempts.{Replaced, replace_master_lem}

abbrev pub Script : Type 0
Script = List ℤ

abbrev answer : {A : Type 0} → A → Await Script A
answer a s w = (ok a, s, w)

abbrev exit_with : ℤ → ProcessResult
exit_with code = record {
  exit_code = code;
  stdout = [];
  stderr = [];
  stdout_truncated = false;
  stderr_truncated = false;
}

abbrev next_session : Await Script ProcessResult
next_session s [] = (ok (exit_with (pos 0)), s, [])
next_session s (code ∷ codes') = (ok (exit_with code), s, codes')

abbrev pub scripted : Outcome → Env Script
scripted outcome = record {
  monotonic = λ w. 0;
  now = λ w. codes "now";
  format_seconds = λ n. [];
  format_rounded = λ n. [];
  decode = λ b. b;
  lock_repair = answer tt;
  unlock_repair = answer tt;
  control_check = answer true;
  stop_master = answer tt;
  start_master = answer tt;
  adopt_existing = answer true;
  detach_master = answer tt;
  probe = answer outcome;
  join_probe = answer outcome;
  cancel_probe = answer tt;
  cancel_maintainer = answer tt;
  start_maintainer = answer tt;
  publish_budget = answer tt;
  acquire_slot = λ timeout. answer (record { handle = none });
  release_slot = λ lease. answer tt;
  session = λ command stdin timeout. next_session;
  run_transfer = λ argv timeout. next_session;
  sleep = λ delay. answer tt;
  wait_wake = λ timeout. answer false;
  wait_wake_forever = answer tt;
}

abbrev pub fresh : Script → Machine Script
fresh script = record {
  sup = open_ssh_supervisor (default_settings (codes "login") (codes "/x/ssh.ctl"));
  world = script;
  trace = [];
}

abbrev pub true_command : Text
true_command = codes "true"

-- A world that returns, keeps every supervisor as it is.
scripted-RepairPreserves :
    (P : Supervisor → Type 0) (outcome : Outcome)
    → RepairPreserves (λ m. P m.sup) (scripted outcome)
unfolding call
scripted-RepairPreserves P outcome = record {
  lock_repair = λ m h. h;
  unlock_repair = λ m h. h;
  control_check = λ m h. h;
  stop_master = λ m h. h;
  start_master = λ m h. h;
  adopt_existing = λ m h. h;
  probe = λ m h. h;
  join_probe = λ m h. h;
  sleep = λ delay m h. h;
}

scripted-SlotsPreserve :
    (P : Supervisor → Type 0) (outcome : Outcome) → SlotsPreserve (λ m. P m.sup) (scripted outcome)
unfolding call
scripted-SlotsPreserve P outcome = record {
  acquire_slot = λ timeout m h. h;
  release_slot = λ lease m h. h;
}

next_session_keeps :
    (P : Supervisor → Type 0) (s : Supervisor) (script : Script) → P s → P (next_session s script).1
next_session_keeps P s [] h = h
next_session_keeps P s (code ∷ codes') h = h

pub scripted-IsRespectful :
    (P : Supervisor → Type 0) (outcome : Outcome) → IsRespectful (λ m. P m.sup) (scripted outcome)
unfolding call
scripted-IsRespectful P outcome = record {
  repair = scripted-RepairPreserves P outcome;
  slots = scripted-SlotsPreserve P outcome;
  session = λ command stdin timeout m h. next_session_keeps P m.sup m.world h;
  run_transfer = λ argv timeout m h. next_session_keeps P m.sup m.world h;
  wait_wake = λ timeout m h. h;
  wait_wake_forever = λ m h. h;
  start_maintainer = λ m h. h;
  publish_budget = λ m h. h;
  cancel_maintainer = λ m h. h;
  cancel_probe = λ m h. h;
  detach_master = λ m h. h;
}

-- The connection breaks under the first run.
abbrev pub broken : Machine Script
broken = fresh (pos 255 ∷ [])

abbrev run_true : Task
run_true = Task.execute true_command [] 5_000 true

execute_sends_example :
    let (r, m') = execute (scripted Outcome.failed) true_command [] 5_000 true broken in
    Policy 0 true r (sessions m'.trace)
execute_sends_example = execute_sends (scripted Outcome.failed) true_command [] 5_000 true broken

pub broken-IsSound : IsSound broken.sup
broken-IsSound = record {
  counted = λ h. ground arith;
  no_failures = λ h. ground arith;
  no_error = λ h. ground arith;
  no_backoff = λ h. ground arith;
  has_failed = λ h. ground arith;
  has_error = λ h. ground arith;
}

perform-IsSound_example : IsSound (perform (scripted Outcome.failed) run_true broken).1.sup
perform-IsSound_example =
    perform-IsSound (scripted Outcome.failed) run_true broken
      (scripted-IsRespectful IsSound Outcome.failed) broken-IsSound

perform-IsAfter_example :
    IsAfter broken.sup (perform (scripted Outcome.failed) run_true broken).1.sup
perform-IsAfter_example =
    perform-IsAfter (scripted Outcome.failed) run_true broken
      (scripted-IsRespectful (IsAfter broken.sup) Outcome.failed)

replace_master_lem_example :
    let (r, m') = replace_master (scripted Outcome.ok) broken in
    Replaced (scripted Outcome.ok) 0 2 r m'
replace_master_lem_example = replace_master_lem (scripted Outcome.ok) broken (λ s w. refl)

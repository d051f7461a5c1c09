-- ===== src/Supervisor/Invariant.antt =====
-- What holds of the supervisor between any two steps of its tasks.
use pazuzu.Base.{◌≤◌, ◌≡◌, refl, true, false, none, Text, arith, is_some}
use pazuzu.Supervisor.{
  Supervisor, is_connected, needs_authentication, record_connected, record_failure,
  classify_connection_failure,
}
use pazuzu.Supervisor.Machine.{Env, Machine}
use pazuzu.Supervisor.Repair.{note_probe}
use pazuzu.Supervisor.Stable.{IsKept, IsRespectful}
use pazuzu.Supervisor.Kept.{Keeps-perform}
use pazuzu.Supervisor.Tasks.{Task, perform}

-- A connected supervisor has counted a generation, and has no failure, error or backoff left; one
-- that waits for authentication has counted a failure and can report its error.
pub record IsSound (s : Supervisor) : Type 0 where
  pub counted : is_connected s.state ≡ true → 1 ≤ s.generation
  pub no_failures : is_connected s.state ≡ true → s.failures ≡ 0
  pub no_error : is_connected s.state ≡ true → s.last_error ≡ none
  pub no_backoff : is_connected s.state ≡ true → s.next_attempt ≡ 0
  pub has_failed : needs_authentication s.state ≡ true → 1 ≤ s.failures
  pub has_error : needs_authentication s.state ≡ true → is_some s.last_error ≡ true

classify_ne_connected : (detail : Text) → is_connected (classify_connection_failure detail) ≡ false
unfolding classify_connection_failure
classify_ne_connected detail = ground arith

pub IsSound-IsKept : {W : Type 0} → IsKept {W = W} (λ m. IsSound m.sup)
unfolding record_connected record_failure note_probe
IsSound-IsKept = record {
  begin_replacing = λ m h. ground arith;
  begin_adopting = λ m h. ground arith;
  connects = λ now m h. ground arith;
  fails = λ stamp now detail m h. ground (arith, classify_ne_connected detail);
  notes = λ outcome seconds stamp m h. ground arith;
  starts_flight = λ epoch m h. ground arith;
  ends_flight = λ epoch m h. ground arith;
  waits = λ m h. ground arith;
  stops_waiting = λ m h. ground arith;
  activates = λ m h. ground arith;
  deactivates = λ m h. ground arith;
  skips_backoff = λ m h. ground arith;
  wakes = λ m h. ground arith;
  clears_wake = λ m h. ground arith;
  starts = λ m h. ground arith;
  stops = λ m h. ground arith;
  is_stopped = λ m h. ground arith;
  is_detached = λ m h. ground arith;
}

-- Whatever a public method does and however it ends, it leaves a sound supervisor sound, if no
-- other task breaks soundness while the method awaits.
pub perform-IsSound :
    {W : Type 0} (env : Env W) (task : Task) (m : Machine W)
    → IsRespectful (λ m'. IsSound m'.sup) env
    → IsSound m.sup
    → IsSound (perform env task m).1.sup
perform-IsSound env task m resp h = (Keeps-perform _ env IsSound-IsKept resp task).at m h

-- What no task ever takes back.
pub record IsAfter (first s : Supervisor) : Type 0 where
  pub generation_le : first.generation ≤ s.generation
  pub epoch_le : first.repair_epoch ≤ s.repair_epoch
  pub settings_eq : s.settings ≡ first.settings
  pub stays_closed : first.closed ≡ true → s.closed ≡ true

pub IsAfter-IsKept : {W : Type 0} (first : Supervisor) → IsKept {W = W} (λ m. IsAfter first m.sup)
unfolding record_connected record_failure note_probe
IsAfter-IsKept first = record {
  begin_replacing = λ m h. ground arith;
  begin_adopting = λ m h. ground arith;
  connects = λ now m h. ground arith;
  fails = λ stamp now detail m h. ground arith;
  notes = λ outcome seconds stamp m h. ground arith;
  starts_flight = λ epoch m h. ground arith;
  ends_flight = λ epoch m h. ground arith;
  waits = λ m h. ground arith;
  stops_waiting = λ m h. ground arith;
  activates = λ m h. ground arith;
  deactivates = λ m h. ground arith;
  skips_backoff = λ m h. ground arith;
  wakes = λ m h. ground arith;
  clears_wake = λ m h. ground arith;
  starts = λ m h. ground arith;
  stops = λ m h. ground arith;
  is_stopped = λ m h. ground arith;
  is_detached = λ m h. ground arith;
}

-- Whatever a public method does and however it ends, the connection generation and the repair
-- epoch are no smaller than before, the settings are the same, and a supervisor that was closed
-- stays closed, if the same holds of what other tasks do while the method awaits.
pub perform-IsAfter :
    {W : Type 0} (env : Env W) (task : Task) (m : Machine W)
    → IsRespectful (λ m'. IsAfter m.sup m'.sup) env
    → IsAfter m.sup (perform env task m).1.sup
perform-IsAfter env task m resp =
    (Keeps-perform _ env (IsAfter-IsKept m.sup) resp task).at m (record {
      generation_le = omega arith;
      epoch_le = omega arith;
      settings_eq = refl;
      stays_closed = λ h. h;
    })

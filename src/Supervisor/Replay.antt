-- ===== src/Supervisor/Replay.antt =====
-- The replay policy of `execute`: how often it sends the command, and what it reports.
use pazuzu.Base.{
  ℕ, suc, ◌+◌, ◌≤◌, ◌≡◌, refl, Bool, true, false, not, List, [], ◌∷◌, Text, Bytes, arith, is_nat,
  is_empty, has_char, ◌==◌, ◌||◌, if◌then◌else◌,
}
use pazuzu.Errors.{Exception, Result, ok, err}
use pazuzu.Exec.{pure, ◌>>=◌}
use pazuzu.Exec.Keeps.{Keeps, Keeps-raise_if, keeps_rules}
use pazuzu.Exec.Ensures.{
  Ensures, Ensures-pure, Ensures-raise, Ensures_of_Keeps, Ensures-if, Ensures-bind,
}
use pazuzu.Process.{ProcessResult}
use pazuzu.Supervisor.{is_healthy}
use pazuzu.Supervisor.Repair.{check}
use pazuzu.Supervisor.Machine.{Call, Env, Machine, call}
use pazuzu.Supervisor.Stable.{
  IsKept, RepairPreserves, SlotsPreserve, Keeps-check, Keeps-safe_repair,
}
use pazuzu.Supervisor.Slots.{IsSteady, Ensures-operation}
use pazuzu.Supervisor.Operations.{
  CommandResult, run_session, replay_once, execute_checked, execute, command_result,
}

-- How many of the calls sent a command.
abbrev pub sessions : List Call → ℕ
sessions [] = 0
sessions (Call.session command stdin timeout ∷ trace) = suc (sessions trace)
sessions (_ ∷ trace) = sessions trace

-- A condition on the number of commands sent.
abbrev pub Sent : {W : Type 0} → (ℕ → Type 0) → Machine W → Type 0
Sent F m = F (sessions m.trace)

module _ {W : Type 0} (env : Env W) (F : ℕ → Type 0) where
  pub Sent-IsKept : IsKept {W = W} (Sent F)
  Sent-IsKept = record {
    begin_replacing = λ m h. h;
    begin_adopting = λ m h. h;
    connects = λ now m h. h;
    fails = λ stamp now detail m h. h;
    notes = λ outcome seconds stamp m h. h;
    starts_flight = λ epoch m h. h;
    ends_flight = λ epoch m h. h;
    waits = λ m h. h;
    stops_waiting = λ m h. h;
    activates = λ m h. h;
    deactivates = λ m h. h;
    skips_backoff = λ m h. h;
    wakes = λ m h. h;
    clears_wake = λ m h. h;
    starts = λ m h. h;
    stops = λ m h. h;
    is_stopped = λ m h. h;
    is_detached = λ m h. h;
  }

  pub Sent-RepairPreserves : RepairPreserves (Sent F) env
  unfolding call
  Sent-RepairPreserves = record {
    lock_repair = λ m h. h;
    unlock_repair = λ m h. h;
    control_check = λ m h. h;
    stop_master = λ m h. h;
    start_master = λ m h. h;
    adopt_existing = λ m h. h;
    probe = λ m h. h;
    join_probe = λ m h. h;
    sleep = λ delay m h. h;
  }

  Sent-SlotsPreserve : SlotsPreserve (Sent F) env
  unfolding call
  Sent-SlotsPreserve = record { acquire_slot = λ timeout m h. h; release_slot = λ lease m h. h }

  Sent-IsSteady : IsSteady (Sent F) env
  Sent-IsSteady = record {
    kept = Sent-IsKept;
    repair = Sent-RepairPreserves;
    slots = Sent-SlotsPreserve;
  }

-- After `n` commands: a run that returns has sent one more, one that raises at most one more.
abbrev RanOnce : ℕ → {A : Type 0} → Result A → ℕ → Type 0
RanOnce n (ok _) k = k ≡ n + 1
RanOnce n (err _) k = k ≤ n + 1

module _ {W : Type 0} (env : Env W) (n : ℕ) where
  RanOnce-IsSteady : {A : Type 0} (r : Result A) → IsSteady (Sent (RanOnce n r)) env
  RanOnce-IsSteady r = Sent-IsSteady env (RanOnce n r)

  raised : {A : Type 0} (r : Result A) (e : Exception) (k : ℕ) → RanOnce n r k → k ≤ n + 1
  raised (ok a) e k h = omega arith
  raised (err e') e k h = h

  session_call :
      (command : Text) (stdin : Bytes) (timeout : ℕ)
      → Ensures
          (Sent (λ k. k ≡ n))
          (call (Call.session command stdin timeout) (env.session command stdin timeout))
          (λ r m. Sent (λ k. k ≡ n + 1) m)
  unfolding call
  session_call command stdin timeout = record { at = λ m h. omega arith }

  Ensures-run_session :
      (command : Text) (stdin : Bytes) (timeout : ℕ)
      → Ensures
          (Sent (λ k. k ≡ n))
          (run_session env command stdin timeout)
          (λ r m. Sent (RanOnce n r) m)
  unfolding run_session
  Ensures-run_session command stdin timeout =
      Ensures-operation env (Sent (λ k. k ≡ n)) (λ r m. Sent (RanOnce n r) m)
        (Sent-IsSteady env (λ k. k ≡ n)) RanOnce-IsSteady (λ e m h. omega arith)
        (λ r e m h. raised r e (sessions m.trace) h) timeout _
        (λ generation remaining.
          Ensures-bind (λ r m. Sent (λ k. k ≡ n + 1) m) _ _ (session_call command stdin remaining)
            (λ result. Ensures-pure _ (λ m h. h)) (λ e m h. omega arith))

-- After `n` commands: what a replay does.
abbrev Replayed : ℕ → Result CommandResult → ℕ → Type 0
Replayed n (ok r) k = (k ≡ n + 1) × (r.replayed ≡ true)
Replayed n (err _) k = k ≤ n + 1

-- After `n` commands: what `execute` does.
abbrev pub Policy : ℕ → Bool → Result CommandResult → ℕ → Type 0
Policy n retry_safe (ok r) k =
    (k ≡ n + (if r.replayed then 2 else 1)) × (r.replayed ≡ true → retry_safe ≡ true)
Policy n retry_safe (err _) k = k ≤ n + (if retry_safe then 2 else 1)

Replayed-Policy :
    (n : ℕ) (retry_safe : Bool) (r : Result CommandResult) (k : ℕ)
    → not retry_safe ≡ false
    → Replayed (n + 1) r k
    → Policy n retry_safe r k
Replayed-Policy n true (ok r) k safe h = ground arith
Replayed-Policy n true (err e) k safe h = omega arith
Replayed-Policy n false r k safe h = absurd (cc safe)

module _ {W : Type 0} (env : Env W) (command : Text) (stdin : Bytes) (timeout : ℕ) where
  Ensures-replay_once :
      (n : ℕ)
      → Ensures
          (Sent (λ k. k ≡ n))
          (replay_once env command stdin timeout)
          (λ r m. Sent (Replayed n r) m)
  unfolding replay_once command_result
  Ensures-replay_once n =
      Ensures-bind (λ r m. Sent (RanOnce n r) m) _ _
        (Ensures-run_session env n command stdin timeout)
        (λ (result, generation).
          Ensures-bind (λ _ m. Sent (λ k. k ≡ n + 1) m) _ _
            (Ensures_of_Keeps _ (lost_keeps n result generation) (λ r m h. h))
            (λ lost.
              Ensures-if lost _ _ (λ _. Ensures-raise _ _ (λ e m h. omega arith))
                (λ _. Ensures-pure _ (λ m h. (h, refl))))
            (λ e m h. omega arith))
        (λ e m h. h)
    where
      lost_keeps :
          (n : ℕ) (result : ProcessResult) (generation : ℕ)
          → Keeps (Sent (λ k. k ≡ n + 1)) (
              if is_nat result.exit_code 255
              then (check env generation >>= λ verdict. pure (not (is_healthy verdict)))
              else pure false)
      lost_keeps n result generation = search (
        keeps_rules,
        Keeps-check _ env (Sent-IsKept env (λ k. k ≡ n + 1))
            (Sent-RepairPreserves env (λ k. k ≡ n + 1)),
      )

  Ensures-execute_checked :
      (n : ℕ) (retry_safe : Bool)
      → Ensures
          (Sent (λ k. k ≡ n))
          (execute_checked env command stdin timeout retry_safe)
          (λ r m. Sent (Policy n retry_safe r) m)
  unfolding execute_checked command_result
  Ensures-execute_checked n retry_safe =
      Ensures-bind (λ r m. Sent (RanOnce n r) m) _ _
        (Ensures-run_session env n command stdin timeout)
        (λ (result, generation).
          Ensures-if (not (is_nat result.exit_code 255)) _ _
            (λ _. Ensures-pure _ (reports_once result generation))
            (λ _.
              Ensures-bind (λ _ m. Sent (λ k. k ≡ n + 1) m) _ _
                (Ensures_of_Keeps _
                  (Keeps-safe_repair _ env (Sent-IsKept env (λ k. k ≡ n + 1))
                    (Sent-RepairPreserves env (λ k. k ≡ n + 1)) generation)
                  (λ r m h. h))
                (λ lost.
                  Ensures-if (not lost) _ _ (λ _. Ensures-pure _ (reports_once result generation))
                    (λ _.
                      Ensures-if (not retry_safe) _ _
                        (λ _. Ensures-raise _ _ (λ e m h. within (sessions m.trace) (omega arith)))
                        (λ safe. Ensures-replayed safe)))
                (λ e m h. within (sessions m.trace) (omega arith))))
        (λ e m h. within (sessions m.trace) h)
    where
      within : (k : ℕ) → k ≤ n + 1 → k ≤ n + (if retry_safe then 2 else 1)
      within k h = ground arith

      reports_once :
          (result : ProcessResult) (generation : ℕ) (m : Machine W)
          → Sent (λ k. k ≡ n + 1) m
          → Policy n retry_safe (ok (command_result env result generation false)) (sessions m.trace)
      reports_once result generation m h = ground arith

      Ensures-replayed :
          not retry_safe ≡ false
          → Ensures
              (Sent (λ k. k ≡ n + 1))
              (replay_once env command stdin timeout)
              (λ r m. Sent (Policy n retry_safe r) m)
      Ensures-replayed safe = record {
        at = λ m h.
            Replayed-Policy n retry_safe (replay_once env command stdin timeout m).0 _ safe
              ((Ensures-replay_once (n + 1)).at m h);
      }

-- However often connections are lost and whatever other tasks do, `execute` sends its command at most once, or
-- at most twice if the caller said that it is safe to retry. A result that it returns says truly
-- whether the command was sent twice, and only a command that is safe to retry is.
pub execute_sends :
    {W : Type 0} (env : Env W) (command : Text) (stdin : Bytes) (timeout : ℕ) (retry_safe : Bool)
    (m : Machine W)
    → let (r, m') = execute env command stdin timeout retry_safe m in
      Policy (sessions m.trace) retry_safe r (sessions m'.trace)
unfolding execute
execute_sends {W} env command stdin timeout retry_safe m =
    (Ensures-bind {Q = λ r m'. Sent (Policy n retry_safe r) m'} (λ _ m'. Sent (λ k. k ≡ n) m') _ _
        (Ensures_of_Keeps _ (Keeps-raise_if (is_empty command || has_char 0 command) _ _)
          (λ r m' h. h))
        (λ _.
          Ensures-bind (λ _ m'. Sent (λ k. k ≡ n) m') _ _
            (Ensures_of_Keeps _ (Keeps-raise_if (timeout == 0) _ _) (λ r m' h. h))
            (λ _. Ensures-execute_checked env command stdin timeout n retry_safe) refused)
        refused).at
      m refl
  where
    n : ℕ
    n = sessions m.trace

    refused :
        (e : Exception) (m' : Machine W)
        → Sent (λ k. k ≡ n) m'
        → Sent (Policy n retry_safe (err e)) m'
    refused e m' h = ground arith

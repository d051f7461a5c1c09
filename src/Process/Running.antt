-- ===== src/Process/Running.antt =====
-- process.py: `run_process` and `stop_process`; transfer.py: `run_transfer`, which runs one transfer.
use pazuzu.Base.{
  ℕ, ℤ, ◌≡◌, refl, Bool, true, false, Option, is_some, List, [], ◌++◌, Text, Bytes, codes, ◌==◌,
  if◌then◌else◌, is_empty, not,
}
use pazuzu.Errors.{Kind, Result, ok, err, is_timeout_error}
use pazuzu.Exec.{Exec, pure, raise, raise_if, reraise, gets, attempt, handle, ◌>>=◌, ◌>>◌}
use pazuzu.Exec.Ensures.{
  Ensures, Ensures-pure, Ensures-bind, Ensures-if, Ensures-reraise, Ensures-try, Ensures-gets-bind,
}
use pazuzu.Process.{ProcessResult, read_bounded}
use pazuzu.Transport.Probing.{is_os_error}

-- What asyncio and the kernel do with the process group of one process. `finish` waits for the process, its output
-- and its input within a time, and has the exit code and the chunks of both streams; `gather`
-- waits for the tasks that read and write.
pub record Group (W : Type 0) : Type 0 where
  pub spawn : List Text → Bool → W → Result (Unit {0}) × W
  pub finish : Bytes → ℕ → W → Result (ℤ × (List Bytes × List Bytes)) × W
  pub gather : W → Result (Unit {0}) × W
  pub returncode : W → Option ℤ
  pub terminate : W → Result (Unit {0}) × W
  pub kill : W → Result (Unit {0}) × W
  pub wait_within : ℕ → W → Result (Unit {0}) × W
  pub wait : W → Result (Unit {0}) × W

abbrev is_lookup_error : Kind → Bool
is_lookup_error Kind.process_lookup_error = true
is_lookup_error _ = false

-- `except (TimeoutError, asyncio.CancelledError)`
abbrev is_interrupted : Kind → Bool
is_interrupted Kind.timeout_error = true
is_interrupted Kind.cancelled = true
is_interrupted _ = false

-- `ProcessResult(...)`
abbrev bounded_result : ℕ → ℤ × (List Bytes × List Bytes) → ProcessResult
bounded_result limit (code, (out, error)) =
    let (stdout, stdout_truncated) = read_bounded limit out in
    let (stderr, stderr_truncated) = read_bounded limit error in
    record {
      exit_code = code;
      stdout = stdout;
      stderr = stderr;
      stdout_truncated = stdout_truncated;
      stderr_truncated = stderr_truncated;
    }

module _ {W : Type 0} (g : Group W) where
  -- `with contextlib.suppress(ProcessLookupError)`
  unfoldable pub suppress_lookup : Exec W (Unit {0}) → Exec W (Unit {0})
  suppress_lookup action = do
    tried ← attempt action
    handle tried pure (λ e. if is_lookup_error e.kind then pure tt else reraise e)

  unfoldable pub stop_process : Exec W (Unit {0})
  stop_process = do
    code ← gets g.returncode
    if is_some code then pure tt else (do
      suppress_lookup g.terminate
      tried ← attempt (g.wait_within 2_000)
      handle tried pure
          (λ e. if is_timeout_error e.kind then suppress_lookup g.kill >> g.wait else reraise e))

  unfoldable pub run_process : List Text → Bytes → ℕ → ℕ → Exec W ProcessResult
  run_process argv stdin timeout output_limit = do
    g.spawn argv (not (is_empty stdin))
    tried ← attempt (g.finish stdin timeout)
    handle tried (λ finished. pure (bounded_result output_limit finished))
        (λ e.
          if is_interrupted e.kind
          then stop_process >> attempt g.gather >> reraise e
          else reraise e)

  -- `run_transfer`; a timeout is in milliseconds.
  unfoldable pub run_transfer : (ℕ → Text) → List Text → ℕ → ℕ → Exec W ProcessResult
  run_transfer format_seconds argv timeout output_limit = do
    raise_if (timeout == 0) Kind.value_error (codes "transfer timeout must be positive")
    tried ← attempt (run_process argv [] timeout output_limit)
    handle tried pure (λ e.
        if is_timeout_error e.kind
        then raise Kind.command_timed_out
            (codes "file transfer exceeded its " ++ (format_seconds timeout ++ codes "s deadline"))
        else if is_os_error e.kind
        then raise Kind.connection_unavailable
            (codes "could not launch file transfer: " ++ e.message)
        else reraise e)

  -- What asyncio says of a process that was waited for: it has a return code. A wait within a time
  -- raises TimeoutError where it has none in that time.
  pub record IsWaited : Type 0 where
    pub by_wait : (w : W) → (g.wait w).0 ≡ ok tt → is_some (g.returncode (g.wait w).1) ≡ true
    pub by_wait_within :
        (time : ℕ) (w : W)
        → (g.wait_within time w).0 ≡ ok tt
        → is_some (g.returncode (g.wait_within time w).1) ≡ true

module _ {W : Type 0} (g : Group W) (waited : IsWaited g) where
  -- Where an action returns, the process has ended.
  abbrev EndsIt : {A : Type 0} → Result A → W → Type 0
  EndsIt (ok a) w = is_some (g.returncode w) ≡ true
  EndsIt (err e) w = Unit

  Ensures-waits :
      {P : W → Type 0} (action : Exec W (Unit {0}))
      → ((w : W) → (action w).0 ≡ ok tt → is_some (g.returncode (action w).1) ≡ true)
      → Ensures P action EndsIt
  Ensures-waits action h = record { at = λ w _. go (action w) (h w) }
    where
      go :
          (r : Result (Unit {0}) × W)
          → (r.0 ≡ ok tt → is_some (g.returncode r.1) ≡ true)
          → EndsIt r.0 r.1
      go (ok _, w) k = k refl
      go (err e, w) k = tt

  Ensures-any : {A : Type 0} {P : W → Type 0} (action : Exec W A) → Ensures P action (λ _ w. Unit)
  Ensures-any action = record { at = λ w _. tt }

  Ensures-stop_process : Ensures (λ w. Unit) (stop_process g) EndsIt
  unfolding stop_process
  Ensures-stop_process = Ensures-gets-bind g.returncode _ (λ code.
      Ensures-if (is_some code) _ _ (λ there. Ensures-pure tt (λ w (_, now). rw now there))
        (λ _.
          Ensures-bind (λ _ w. Unit) _ _ (Ensures-any (suppress_lookup g g.terminate))
            (λ _.
              Ensures-try EndsIt _ _ _
                (Ensures-waits (g.wait_within 2_000) (waited.by_wait_within 2_000))
                (λ _. Ensures-pure tt (λ w ended. ended))
                (λ e.
                  Ensures-if (is_timeout_error e.kind) _ _
                    (λ _.
                      Ensures-bind (λ _ w. Unit) _ _ (Ensures-any (suppress_lookup g g.kill))
                        (λ _. Ensures-waits g.wait waited.by_wait) (λ e' w h. tt))
                    (λ _. Ensures-reraise e (λ w h. tt))))
            (λ e w h. tt)))

  -- Where `stop_process` returns, its process has ended, whether it had ended before, did so after the
  -- first signal or had to be killed; this needs that a process that was waited for has a return code.
  pub stop_process_ended :
      (w : W) → (stop_process g w).0 ≡ ok tt → is_some (g.returncode (stop_process g w).1) ≡ true
  stop_process_ended w h = go (stop_process g w) (Ensures-stop_process.at w tt) h
    where
      go :
          (r : Result (Unit {0}) × W)
          → EndsIt r.0 r.1
          → r.0 ≡ ok tt
          → is_some (g.returncode r.1) ≡ true
      go (ok _, w') ended same = ended
      go (err e, w') ended same = absurd (cc same)

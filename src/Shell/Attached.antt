-- ===== src/Shell/Attached.antt =====
-- shell.py: `run_attached_ssh`, one SSH client on the terminal, and `_terminate_attached_process`.
use pazuzu.Base.{
  ℕ, ℤ, pos, ◌≡◌, Bool, true, false, ◌||◌, Option, none, some, List, ◌++◌, Text, codes, any,
  has_char, is_empty, is_some, if◌then◌else◌,
}
use pazuzu.Errors.{Kind, Result, ok, is_timeout_error}
use pazuzu.Exec.{Exec, pure, raise, raise_if, reraise, gets, attempt, handle, ◌>>=◌, ◌>>◌}
use pazuzu.Transport.Probing.{is_os_error}
use pazuzu.Shell.{normalized_exit_code}

-- What asyncio does with one process and with the cancellation. `race` waits for the first of the
-- two, and is `none` where the cancellation came first.
pub record Process (W : Type 0) : Type 0 where
  pub is_cancelled : W → Bool
  pub launch : List Text → W → Result (Unit {0}) × W
  pub race : W → Result (Option ℤ) × W
  pub returncode : W → Option ℤ
  pub terminate : W → Result (Unit {0}) × W
  pub kill : W → Result (Unit {0}) × W
  pub wait_within : ℕ → W → Result (Unit {0}) × W
  pub wait : W → Result (Unit {0}) × W

abbrev is_lookup_error : Kind → Bool
is_lookup_error Kind.process_lookup_error = true
is_lookup_error _ = false

abbrev pub is_task_cancelled : Kind → Bool
is_task_cancelled Kind.cancelled = true
is_task_cancelled _ = false

module _ {W : Type 0} (p : Process W) where
  -- `with contextlib.suppress(ProcessLookupError)`
  unfoldable pub suppress_lookup : Exec W (Unit {0}) → Exec W (Unit {0})
  suppress_lookup action = do
    tried ← attempt action
    handle tried pure (λ e. if is_lookup_error e.kind then pure tt else reraise e)

  -- `_terminate_attached_process`
  unfoldable pub terminate_attached_process : Exec W (Unit {0})
  terminate_attached_process = do
    code ← gets p.returncode
    if is_some code then pure tt else (do
      suppress_lookup p.terminate
      tried ← attempt (p.wait_within 2_000)
      handle tried pure
          (λ e. if is_timeout_error e.kind then suppress_lookup p.kill >> p.wait else reraise e))

  -- What follows once the process runs.
  unfoldable pub finished : Option ℤ → Exec W ℤ
  finished (some code) = pure (normalized_exit_code code)
  finished none = do terminate_attached_process; p.wait; pure (pos 130)

  unfoldable pub launched : List Text → Exec W (Unit {0})
  launched argv = do
    tried ← attempt (p.launch argv)
    handle tried pure (λ e.
        if is_os_error e.kind
        then raise Kind.connection_unavailable (codes "could not launch OpenSSH: " ++ e.message)
        else reraise e)

  -- `run_attached_ssh`, less the signal handlers.
  unfoldable pub run_attached_ssh : List Text → Exec W ℤ
  run_attached_ssh argv = do
    raise_if (is_empty argv || any (λ item. is_empty item || has_char 0 item) argv) Kind.value_error
        (codes "interactive SSH arguments must be non-empty and contain no NUL bytes")
    stopped ← gets p.is_cancelled
    if stopped then pure (pos 130) else (do
      launched argv
      ended ← attempt (p.race >>= finished)
      handle ended pure (λ e.
          if is_task_cancelled e.kind then terminate_attached_process >> reraise e else reraise e))

  -- What asyncio says of a process that was waited for: it has a return code.
  pub record IsWaited : Type 0 where
    pub by_race :
        (w : W) (code : ℤ)
        → (p.race w).0 ≡ ok (some code)
        → is_some (p.returncode (p.race w).1) ≡ true
    pub by_wait : (w : W) → (p.wait w).0 ≡ ok tt → is_some (p.returncode (p.wait w).1) ≡ true

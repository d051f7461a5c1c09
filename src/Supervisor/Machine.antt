-- ===== src/Supervisor/Machine.antt =====
-- The machine that the supervisor's methods run on: the supervisor, the rest of the world, and the
-- calls that the method has made so far. At each awaited call other tasks of the event loop may
-- run, so what the world answers may come with another supervisor; the methods hold for any such
-- answers, and what is assumed of other tasks is stated where it is needed.
use pazuzu.Base.{ℕ, Bool, List, ◌∷◌, Text, Bytes}
use pazuzu.Errors.{Kind, Result}
use pazuzu.Exec.{Exec, gets, raise, finally, modify, ◌>>=◌, ◌>>◌}
use pazuzu.Process.{ProcessResult}
use pazuzu.Lease.{SessionLease}
use pazuzu.Supervisor.{Supervisor, Outcome, unavailable_message}

-- A call of something outside supervisor.py, newest first in a trace.
pub data Call : Type 0 where
  lock_repair unlock_repair : Call
  control_check stop_master start_master adopt_existing detach_master : Call
  probe join_probe cancel_probe cancel_maintainer start_maintainer publish_budget : Call
  acquire_slot : ℕ → Call
  release_slot : SessionLease → Call
  session : Text → Bytes → ℕ → Call
  run_transfer : List Text → ℕ → Call
  sleep : ℕ → Call
  wait_wake : ℕ → Call
  wait_wake_forever : Call

-- A call in a supervisor and a world: what it returns or raises, and what is there afterwards.
abbrev pub Await : Type 0 → Type 0 → Type 0
Await W A = Supervisor → W → Result A × Supervisor × W

-- What the supervisor uses of its transport, of the slot pool, of asyncio and of the clock. The
-- argument of `acquire_slot` is the time that it may take; `wait_wake` answers whether it was woken.
pub record Env (W : Type 0) : Type 0 where
  pub monotonic : W → ℕ
  pub now : W → Text
  pub format_seconds : ℕ → Text
  pub format_rounded : ℕ → Text
  pub decode : Bytes → Text
  pub lock_repair : Await W (Unit {0})
  pub unlock_repair : Await W (Unit {0})
  pub control_check : Await W Bool
  pub stop_master : Await W (Unit {0})
  pub start_master : Await W (Unit {0})
  pub adopt_existing : Await W Bool
  pub detach_master : Await W (Unit {0})
  pub probe : Await W Outcome
  pub join_probe : Await W Outcome
  pub cancel_probe : Await W (Unit {0})
  pub cancel_maintainer : Await W (Unit {0})
  pub start_maintainer : Await W (Unit {0})
  pub publish_budget : Await W (Unit {0})
  pub acquire_slot : ℕ → Await W SessionLease
  pub release_slot : SessionLease → Await W (Unit {0})
  pub session : Text → Bytes → ℕ → Await W ProcessResult
  pub run_transfer : List Text → ℕ → Await W ProcessResult
  pub sleep : ℕ → Await W (Unit {0})
  pub wait_wake : ℕ → Await W Bool
  pub wait_wake_forever : Await W (Unit {0})

pub record Machine (W : Type 0) : Type 0 where
  pub sup : Supervisor
  pub world : W
  pub trace : List Call

abbrev pub Action : Type 0 → Type 0 → Type 0
Action W A = Exec (Machine W) A

module _ {W : Type 0} where
  -- `await` of a call outside.
  unfoldable pub call : {A : Type 0} → Call → Await W A → Action W A
  call c f m =
      let (r, sup, world) = f m.sup m.world in
      (r, record { sup = sup; world = world; trace = c ∷ m.trace })

  -- `self`, as it is now.
  unfoldable pub self : Action W Supervisor
  self = gets (λ m. m.sup)

  -- Assignments to attributes.
  unfoldable pub update : (Supervisor → Supervisor) → Action W (Unit {0})
  unfolding modify
  update f = modify (λ m. record m { sup = f m.sup })

module _ {W : Type 0} (env : Env W) where
  -- `time.monotonic()`
  unfoldable pub clock : Action W ℕ
  clock = gets (λ m. env.monotonic m.world)

  -- `_now()`
  unfoldable pub timestamp : Action W Text
  timestamp = gets (λ m. env.now m.world)

  -- `raise ConnectionUnavailable(self._unavailable_message())`
  unfoldable pub raise_unavailable : {A : Type 0} → Action W A
  unfolding self clock
  raise_unavailable = do
    s ← self
    now ← clock
    raise Kind.connection_unavailable (unavailable_message env.format_rounded now s)

  -- `async with self._repair_lock`
  unfoldable pub with_repair_lock : {A : Type 0} → Action W A → Action W A
  unfolding call
  with_repair_lock m = do
    call Call.lock_repair env.lock_repair
    finally m (call Call.unlock_repair env.unlock_repair)

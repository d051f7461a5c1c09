-- ===== src/Transport/Bridging.antt =====
-- transport.py: `run_bridge`, which keeps a forward and a remote service alive. Its loops end only as
-- a shutdown lets them, so here they run for a number of rounds; `none` is a loop that goes on.
use pazuzu.Base.{
  ℕ, zero, suc, ◌-◌, ◌*◌, ℤ, Bool, true, false, ◌&&◌, not, Option, none, some, List, ◌∷◌, ◌++◌,
  Text, Bytes, codes, drop, length, strip, is_nat, is_empty, min, leb, if◌then◌else◌,
}
use pazuzu.Errors.{Kind, Result, ok, err, is_connection_unavailable, is_timeout_error}
use pazuzu.Exec.{
  Exec, pure, raise, reraise, lift, gets, modify, attempt, handle, finally, ◌>>=◌, ◌>>◌,
}
use pazuzu.Lease.{SessionLease, SessionLeasePool, published, bridges}
use pazuzu.Settings.{SshSettings}
use pazuzu.Transport.Probing.{is_os_error}
use pazuzu.Transport.Bridge.{bridge_control_argv, bridge_session_argv}

-- What a bridge uses of the operating system: `subprocess.run` of a control command, which gives the
-- exit code and the output; the child, which it starts and waits for; the slot pool; the event and the clock.
pub record Machine (W : Type 0) : Type 0 where
  pub run : List Text → W → Result (ℤ × Bytes) × W
  pub serve : List Text → W → Result ℤ × W
  pub acquire : SessionLeasePool → ℕ → W → Result SessionLease × W
  pub release : SessionLease → W → Result (Unit {0}) × W
  pub wait_for_retry : ℕ → W → Bool × W
  pub is_stopped : W → Bool
  pub monotonic : W → ℕ
  pub published_budget : W → Option Text
  pub decode : Bytes → Text

-- What a bridge does, newest first in its trace. A forward and an acquisition say whether they
-- succeeded.
pub data Step : Type 0 where
  cancel : Step
  forward acquire : Bool → Step
  serve release : Step
  wait : ℕ → Step

pub record Bridge (W : Type 0) : Type 0 where
  pub forward_registered : Bool
  pub world : W
  pub trace : List Step

abbrev pub Method : Type 0 → Type 0 → Type 0
Method W A = Exec (Bridge W) A

abbrev pub returned : {A : Type 0} → Result A → Bool
returned (ok a) = true
returned (err e) = false

module _ {W : Type 0} where
  -- A call outside, with the step that its outcome is.
  unfoldable pub step : {A : Type 0} → (Bool → Step) → (W → Result A × W) → Method W A
  step kind f b =
      let (r, world) = f b.world in
      (r, record b { world = world; trace = kind (returned r) ∷ b.trace })

  -- `forward_registered = ...`
  unfoldable pub register : Bool → Method W (Unit {0})
  unfolding modify
  register value = modify (λ b. record b { forward_registered = value })

  unfoldable pub observe : {A : Type 0} → (W → A) → Method W A
  unfolding gets
  observe f = gets (λ b. f b.world)

-- `except (OSError, subprocess.TimeoutExpired)`
abbrev is_unmanaged : Kind → Bool
is_unmanaged Kind.timeout_expired = true
is_unmanaged kind = is_os_error kind

-- `detail or ...`
abbrev or_default : Text → Text
or_default detail = if is_empty detail then codes "could not register bridge forward" else detail

module _ {W : Type 0} (machine : Machine W) where
  -- `_control_bridge`, on the outcome of its command.
  unfoldable pub control_outcome : Bool → Result (ℤ × Bytes) → W → Result (Unit {0}) × W
  control_outcome required (ok (code, output)) w =
      if required && not (is_nat code 0)
      then raise Kind.connection_unavailable
          (or_default (strip (machine.decode (drop (length output - 4096) output)))) w
      else pure tt w
  control_outcome required (err e) w =
      if is_unmanaged e.kind
      then (if required
          then raise Kind.connection_unavailable
              (codes "could not manage bridge forward: " ++ e.message) w
          else pure tt w)
      else reraise e w

  unfoldable pub control_bridge : List Text → Bool → W → Result (Unit {0}) × W
  control_bridge argv required w = let (r, w') = machine.run argv w in control_outcome required r w'

  unfoldable pub cancel_forward : List Text → Method W (Unit {0})
  cancel_forward cancel_argv = step (λ _. Step.cancel) (control_bridge cancel_argv false)

  -- The loop for the lease; `some none` is a shutdown before there was one.
  unfoldable pub acquire_lease : ℕ → SessionLeasePool → Method W (Option (Option SessionLease))
  acquire_lease zero pool = pure none
  acquire_lease (suc rounds) pool = do
    taken ← attempt (step Step.acquire (machine.acquire pool 1_000))
    handle taken (λ lease. pure (some (some lease)))
        (λ e. if not (is_timeout_error e.kind) then reraise e else (do
          stopped ← observe machine.is_stopped
          if stopped then pure (some none) else acquire_lease rounds pool))

  -- `_wait_for_retry`
  unfoldable pub wait_for_retry : ℕ → Method W Bool
  wait_for_retry delay =
      step (λ _. Step.wait delay)
        (λ w. let (stopped, w') = machine.wait_for_retry delay w in (ok stopped, w'))

  module _ (cancel_argv forward_argv session_argv : List Text) where
    -- The child under the forward, and the `finally` that cancels it.
    unfoldable pub serve_once : Method W ℤ
    serve_once =
        finally (step (λ _. Step.serve) (machine.serve session_argv))
          (do cancel_forward cancel_argv; register false)

    -- The loop of `run_bridge`; a delay is in milliseconds.
    unfoldable pub bridge_rounds : ℕ → ℕ → Method W (Option ℕ)
    bridge_rounds zero delay = pure none
    bridge_rounds (suc rounds) delay = do
      stopped ← observe machine.is_stopped
      if stopped then pure (some 0) else (do
        tried ← attempt (step Step.forward (control_bridge forward_argv true))
        handle tried
            (λ _. do
              register true
              started_at ← observe machine.monotonic
              serve_once
              stopped' ← observe machine.is_stopped
              if stopped' then pure (some 0) else (do
                now ← observe machine.monotonic
                let next = if leb 60_000 (now - started_at) then 1_000 else delay
                stopped'' ← wait_for_retry next
                if stopped'' then pure (some 0) else bridge_rounds rounds (min 30_000 (next * 2))))
            (λ e. if not (is_connection_unavailable e.kind) then reraise e else (do
              stopped' ← wait_for_retry delay
              if stopped' then pure (some 0) else bridge_rounds rounds (min 30_000 (delay * 2)))))

    -- The outer `finally`, with a lease.
    unfoldable pub clean_up : SessionLease → Method W (Unit {0})
    clean_up lease = do
      registered ← gets (λ b. b.forward_registered)
      (if registered then cancel_forward cancel_argv else pure tt)
      step (λ _. Step.release) (machine.release lease)

    -- The `try` of `run_bridge`; a loop that goes on is left like one that ends.
    unfoldable pub bridge_with : ℕ → Option (Option SessionLease) → Method W (Option ℕ)
    bridge_with rounds none = pure none
    bridge_with rounds (some none) = pure (some 0)
    bridge_with rounds (some (some lease)) =
        finally (do cancel_forward cancel_argv; bridge_rounds rounds 1_000) (clean_up lease)

  -- `run_bridge`, less the signal handlers and what it prints.
  unfoldable pub run_bridge :
      SshSettings → Text → ℕ → Text → ℕ → List Text → ℕ → Method W (Option ℕ)
  run_bridge settings listen_host listen_port remote_host remote_port remote_command rounds = do
    cancel_argv ← lift (
        bridge_control_argv settings (codes "cancel") listen_host listen_port remote_host
          remote_port)
    forward_argv ← lift (
        bridge_control_argv settings (codes "forward") listen_host listen_port remote_host
          remote_port)
    session_argv ← lift (bridge_session_argv settings remote_port remote_command)
    content ← observe machine.published_budget
    budget ← lift (published settings.control_path settings.max_sessions content)
    pool ← lift (bridges budget)
    taken ← acquire_lease rounds pool
    bridge_with cancel_argv forward_argv session_argv rounds taken

-- ===== src/Shell/Loop.antt =====
-- shell.py: `run_shell` and what it waits for. The loops of the source end only as the connection or
-- a cancellation lets them, so here they run for a number of rounds; `none` is a loop that goes on.
use pazuzu.Base.{
  ℕ, zero, suc, ℤ, pos, Bool, not, Option, none, some, List, ◌∷◌, Text, codes, text_eq, is_nat,
  is_empty, is_some, ◌==◌, if◌then◌else◌,
}
use pazuzu.Errors.{Kind, Result, ok, err, is_pazuzu_error, is_local_cancellation}
use pazuzu.Exec.{Exec, pure, raise_if, reraise, lift, gets, modify, attempt, handle, ◌>>=◌, ◌>>◌}
use pazuzu.Json.{Dict}
use pazuzu.Settings.{SshAttachment}
use pazuzu.Shell.{
  ConnectionReporter, connection_lost, state_changed, connection_state, validate_session_name,
  shell_argv,
}

-- What `run_shell` is given: the calls of the gateway, the SSH client, the sleep of a poll
-- interval, and whether the cancellation is set.
pub record Callbacks (W : Type 0) : Type 0 where
  pub get_attachment : W → Result SshAttachment × W
  pub reconnect : W → Result Dict × W
  pub status : W → Result Dict × W
  pub spawn_ssh : List Text → W → Result ℤ × W
  pub sleep : W → Result (Unit {0}) × W
  pub is_cancelled : W → Bool

-- A client that was attached, with its arguments and its exit code, if it returned one.
pub record Attached : Type 0 where
  pub argv : List Text
  pub exit_code : Option ℤ

-- The state of a shell: its reporter, the clients so far, newest first, and the rest of the world.
pub record Session (W : Type 0) : Type 0 where
  pub reporter : ConnectionReporter
  pub attached : List Attached
  pub world : W

abbrev pub Step : Type 0 → Type 0 → Type 0
Step W A = Exec (Session W) A

module _ {W : Type 0} where
  abbrev pub report : (ConnectionReporter → ConnectionReporter) → Step W (Unit {0})
  report change = modify (λ s. record s { reporter = change s.reporter })

  unfoldable pub outside : {A : Type 0} → (W → Result A × W) → Step W A
  outside f s = let (r, world) = f s.world in (r, record s { world = world })

module _ {W : Type 0} (cb : Callbacks W) where
  unfoldable pub cancelled : Step W Bool
  cancelled = gets (λ s. cb.is_cancelled s.world)

  -- `_call_or_stop`: a cancellation that comes before the operation is done takes its place.
  unfoldable pub call_or_stop : {A : Type 0} → (W → Result A × W) → Step W A
  call_or_stop operation = do
    before ← cancelled
    raise_if before Kind.local_cancellation (codes "")
    done ← attempt (outside operation)
    stopped ← cancelled
    raise_if stopped Kind.local_cancellation (codes "")
    lift done

  -- `_wait_until_connected`
  unfoldable pub wait_until_connected : ℕ → Option Dict → Step W (Option (Unit {0}))
  wait_until_connected zero initial_health = pure none
  wait_until_connected (suc rounds) initial_health = do
    health ← elim initial_health [ some h ↦ pure h | none ↦ call_or_stop cb.status ]
    state ← lift (connection_state health)
    report (state_changed state)
    if text_eq state (codes "connected")
        then pure (some tt)
        else (do call_or_stop cb.sleep; wait_until_connected rounds none)

  -- `await spawn_ssh(argv, cancellation)`
  unfoldable pub attach : List Text → Step W ℤ
  attach argv s =
      let (r, world) = cb.spawn_ssh argv s.world in
      (
        r,
        record s {
          attached =
              record { argv = argv; exit_code = elim r [ ok code ↦ some code | err e ↦ none ] }
              ∷ s.attached;
          world = world;
        },
      )

  -- After a lost connection: the health for the next round.
  unfoldable pub reconnected : Step W (Option Dict)
  reconnected = do
    report connection_lost
    tried ← attempt (call_or_stop cb.reconnect)
    handle tried (λ health. pure (some health))
        (λ e. if is_pazuzu_error e.kind then pure none else reraise e)

  module _ (patience : ℕ) where
    -- What a round of `_ready_attachment` does before it asks for the attachment.
    unfoldable pub settle : Dict → Text → Step W (Option (Unit {0}))
    settle health state =
        if not (text_eq state (codes "connected"))
        then wait_until_connected patience (some health)
        else (do
          s ← gets (λ s. s)
          if is_some s.reporter.last_state
              then (do report (state_changed state); pure (some tt))
              else pure (some tt))

    -- The loop of `_ready_attachment`.
    unfoldable pub ready_rounds : ℕ → Dict → Step W (Option SshAttachment)
    ready_rounds zero health = pure none
    ready_rounds (suc rounds) health = do
      state ← lift (connection_state health)
      settled ← settle health state
      if not (is_some settled) then pure none else (do
        tried ← attempt (call_or_stop cb.get_attachment)
        handle tried (λ attachment. pure (some attachment))
            (λ e. if not (is_pazuzu_error e.kind) then reraise e else (do
              health' ← call_or_stop cb.status
              state' ← lift (connection_state health')
              if text_eq state' (codes "connected")
                  then reraise e
                  else ready_rounds rounds health')))

    -- `_ready_attachment`; `initial_health or ...` passes over an empty dictionary too.
    unfoldable pub ready_attachment : Option Dict → Step W (Option SshAttachment)
    ready_attachment initial_health = do
      health ← elim initial_health [
        | some h ↦ (if is_empty h then call_or_stop cb.status else pure h)
        | none ↦ call_or_stop cb.status
      ]
      ready_rounds patience health

    -- The loop of `run_shell`.
    unfoldable pub run_rounds : ℕ → Text → Option Dict → Step W (Option ℤ)
    run_rounds zero session initial_health = pure none
    run_rounds (suc rounds) session initial_health = do
      found ← ready_attachment initial_health
      elim found [
        | none ↦ pure none
        | some attachment ↦ (do
          argv ← lift (shell_argv attachment session)
          exit_code ← attach argv
          stopped ← cancelled
          if stopped
              then pure (some (pos 130))
              else if not (is_nat exit_code 255)
              then pure (some exit_code)
              else (do health ← reconnected; run_rounds rounds session health))
      ]

    -- `run_shell`, less the signal handlers; `poll_interval` is in milliseconds.
    unfoldable pub run_shell : ℕ → Text → ℕ → Step W (Option ℤ)
    run_shell rounds given poll_interval = do
      session ← lift (validate_session_name given)
      raise_if (poll_interval == 0) Kind.value_error (codes "shell poll interval must be positive")
      ended ← attempt (run_rounds rounds session none)
      handle ended pure
          (λ e. if is_local_cancellation e.kind then pure (some (pos 130)) else reraise e)

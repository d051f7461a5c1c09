-- ===== src/Shell/Returns.antt =====
-- When `run_shell` reattaches, and what it returns.
use pazuzu.Base.{
  ℕ, zero, suc, ℤ, pos, ◌≡◌, refl, ◌⊎◌, inl, inr, Bool, true, false, not, Option, none, some, List,
  [], ◌∷◌, Text, arith, All, is_nat, ◌==◌, if◌then◌else◌,
}
use pazuzu.Errors.{Exception, Result, ok, err, is_local_cancellation}
use pazuzu.Exec.{pure, reraise, lift, attempt, handle, ◌>>=◌}
use pazuzu.Exec.Keeps.{Keeps-raise_if}
use pazuzu.Exec.Ensures.{
  Ensures, Ensures-pure, Ensures-bind, Ensures-if, Ensures-lift-bind, Ensures-attempt-bind,
  Ensures-reraise, Ensures_of_Keeps,
}
use pazuzu.Json.{Dict}
use pazuzu.Settings.{SshAttachment}
use pazuzu.Shell.{validate_session_name, shell_argv}
use pazuzu.Shell.Loop.{
  Callbacks, Attached, Session, Step, cancelled, attach, reconnected, run_rounds, run_shell,
}
use pazuzu.Shell.Steady.{Keeps-cancelled, Keeps-ready_attachment, Keeps-reconnected}

-- A client that lost its connection: `ssh` exits with 255.
abbrev is_lost : Option ℤ → Bool
is_lost none = false
is_lost (some code) = is_nat code 255

abbrev pub AllLost : List Attached → Type 0
AllLost = All (λ a. is_lost a.exit_code ≡ true)

abbrev pub EarlierLost : List Attached → Type 0
EarlierLost [] = Unit
EarlierLost (a ∷ earlier) = AllLost earlier

abbrev pub last_exit : List Attached → Option ℤ
last_exit [] = none
last_exit (a ∷ earlier) = a.exit_code

-- A client's arguments are those of the session's command over the connection of an attachment.
abbrev pub IsFor : Text → Attached → Type 0
IsFor session a = (attachment : SshAttachment) × (shell_argv attachment session ≡ ok a.argv)

-- What holds between two rounds.
abbrev IsHistory : Text → List Attached → Type 0
IsHistory session clients = All (IsFor session) clients × AllLost clients

-- 130, or the exit code of the last client, which did not lose its connection.
abbrev pub IsReason : Result (Option ℤ) → List Attached → Type 0
IsReason (ok (some code)) clients =
    (code ≡ pos 130) ⊎ ((last_exit clients ≡ some code) × (is_nat code 255 ≡ false))
IsReason _ clients = Unit

abbrev pub IsRun : Text → Result (Option ℤ) → List Attached → Type 0
IsRun session r clients = All (IsFor session) clients × EarlierLost clients × IsReason r clients

AllLost-EarlierLost : (clients : List Attached) → AllLost clients → EarlierLost clients
AllLost-EarlierLost [] h = tt
AllLost-EarlierLost (a ∷ earlier) (_, h) = h

module _ {W : Type 0} (cb : Callbacks W) (patience : ℕ) (session : Text) where
  abbrev History : Session W → Type 0
  History s = IsHistory session s.attached

  abbrev Run : Result (Option ℤ) → Session W → Type 0
  Run r s = IsRun session r s.attached

  failed : (e : Exception) (s : Session W) → History s → Run (err e) s
  failed e s (ours, lost) = (ours, AllLost-EarlierLost s.attached lost, tt)

  -- After a client: it has its arguments, and its exit code is the one that was returned.
  abbrev IsClient : Result ℤ → List Attached → Type 0
  IsClient r [] = ⊥
  IsClient (ok code) (a ∷ earlier) =
      All (IsFor session) (a ∷ earlier) × AllLost earlier × (a.exit_code ≡ some code)
  IsClient (err e) (a ∷ earlier) = All (IsFor session) (a ∷ earlier) × AllLost earlier

  Ensures-attach :
      (attachment : SshAttachment) (argv : List Text)
      → shell_argv attachment session ≡ ok argv
      → Ensures History (attach cb argv) (λ r s. IsClient r s.attached)
  unfolding attach
  Ensures-attach attachment argv same = record {
    at = λ s (ours, lost). go (cb.spawn_ssh argv s.world).0 s.attached ours lost;
  }
    where
      go :
          (r : Result ℤ) (clients : List Attached)
          → All (IsFor session) clients
          → AllLost clients
          → IsClient r (
              record { argv = argv; exit_code = elim r [ ok code ↦ some code | err e ↦ none ] }
              ∷ clients)
      go (ok code) clients ours lost = (((attachment, same), ours), lost, refl)
      go (err e) clients ours lost = (((attachment, same), ours), lost)

  IsClient-Run :
      (r : Result ℤ) (clients : List Attached) (e : Exception)
      → IsClient r clients
      → IsRun session (err e) clients
  IsClient-Run r [] e h = absurd h
  IsClient-Run (ok code) (a ∷ earlier) e (ours, lost, _) = (ours, lost, tt)
  IsClient-Run (err _) (a ∷ earlier) e (ours, lost) = (ours, lost, tt)

  stopped_Run :
      (code : ℤ) (clients : List Attached)
      → IsClient (ok code) clients
      → IsRun session (ok (some (pos 130))) clients
  stopped_Run code [] h = absurd h
  stopped_Run code (a ∷ earlier) (ours, lost, _) = (ours, lost, inl refl)

  finished_Run :
      (code : ℤ) (clients : List Attached)
      → not (is_nat code 255) ≡ true
      → IsClient (ok code) clients
      → IsRun session (ok (some code)) clients
  finished_Run code [] other h = absurd h
  finished_Run code (a ∷ earlier) other (ours, lost, same) = (ours, lost, inr (same, ground arith))

  lost_History :
      (code : ℤ) (clients : List Attached)
      → not (is_nat code 255) ≡ false
      → IsClient (ok code) clients
      → IsHistory session clients
  lost_History code [] lost h = absurd h
  lost_History code (a ∷ earlier) lost (ours, all_lost, same) =
      (ours, (rw same (ground arith), all_lost))

  -- What a round does once it has the arguments.
  abbrev client_round : ℕ → List Text → Step W (Option ℤ)
  client_round rounds argv = attach cb argv >>= λ exit_code. cancelled cb >>= λ stopped.
      if stopped
      then pure (some (pos 130))
      else if not (is_nat exit_code 255)
      then pure (some exit_code)
      else reconnected cb >>= run_rounds cb patience rounds session

  Ensures-client :
      (rounds : ℕ) (attachment : SshAttachment) (argv : List Text)
      → shell_argv attachment session ≡ ok argv
      → ((health : Option Dict)
          → Ensures History (run_rounds cb patience rounds session health) Run)
      → Ensures History (client_round rounds argv) Run
  Ensures-client rounds attachment argv same next =
      Ensures-bind (λ r s. IsClient r s.attached) _ _ (Ensures-attach attachment argv same)
        (λ code.
          Ensures-bind (λ _ s. IsClient (ok code) s.attached) _ _
            (Ensures_of_Keeps _ (Keeps-cancelled cb (IsClient (ok code))) (λ r s h. h))
            (λ stopped.
              Ensures-if stopped _ _ (λ _. Ensures-pure _ (λ s h. stopped_Run code s.attached h))
                (λ _.
                  Ensures-if (not (is_nat code 255)) _ _
                    (λ other. Ensures-pure _ (λ s h. finished_Run code s.attached other h))
                    (λ lost. again code lost)))
            (λ e s h. IsClient-Run (ok code) s.attached e h))
        (λ e s h. IsClient-Run (err e) s.attached e h)
    where
      again :
          (code : ℤ)
          → not (is_nat code 255) ≡ false
          → Ensures
              (λ s. IsClient (ok code) s.attached)
              (reconnected cb >>= run_rounds cb patience rounds session)
              Run
      again code lost = record {
        at = λ s h.
            (Ensures-bind (λ _ s. History s) _ _
                (Ensures_of_Keeps _ (Keeps-reconnected cb (IsHistory session)) (λ r s h. h)) next
                failed).at
              s (lost_History code s.attached lost h);
      }

  Ensures-run_rounds :
      (rounds : ℕ) (health : Option Dict)
      → Ensures History (run_rounds cb patience rounds session health) Run
  unfolding run_rounds
  Ensures-run_rounds zero health =
      Ensures-pure none (λ s (ours, lost). (ours, AllLost-EarlierLost s.attached lost, tt))
  Ensures-run_rounds (suc rounds) health =
      Ensures-bind (λ _ s. History s) _ _
        (Ensures_of_Keeps _ (Keeps-ready_attachment cb (IsHistory session) patience health)
          (λ r s h. h))
        (go (Ensures-run_rounds rounds)) failed
    where
      go :
          ((health : Option Dict)
            → Ensures History (run_rounds cb patience rounds session health) Run)
          → (found : Option SshAttachment)
          → Ensures History
              (elim found [
                | none ↦ pure none
                | some attachment ↦ lift (shell_argv attachment session) >>= client_round rounds
              ])
              Run
      go next none =
          Ensures-pure none (λ s (ours, lost). (ours, AllLost-EarlierLost s.attached lost, tt))
      go next (some attachment) =
          Ensures-lift-bind _ _ (λ argv same. Ensures-client rounds attachment argv same next)
            failed

validate_session_name_ok :
    (given session : Text) → validate_session_name given ≡ ok session → session ≡ given
unfolding validate_session_name
validate_session_name_ok given session h = ground arith

module _ {W : Type 0} (cb : Callbacks W) (patience rounds : ℕ) where
  -- The `except _LocalCancellation`.
  Ensures-end :
      (session : Text) (r : Result (Option ℤ))
      → Ensures
          (λ s. IsRun session r s.attached)
          (handle r pure
            (λ e. if is_local_cancellation e.kind then pure (some (pos 130)) else reraise e))
          (Run cb patience session)
  unfolding handle
  Ensures-end session (ok code) = Ensures-pure code (λ s h. h)
  Ensures-end session (err e) =
      Ensures-if (is_local_cancellation e.kind) _ _
        (λ _. Ensures-pure _ (λ s (ours, lost, _). (ours, lost, inl refl)))
        (λ _. Ensures-reraise e (λ s h. h))

  Ensures-run_shell :
      (given : Text) (poll_interval : ℕ)
      → Ensures
          (History cb patience given)
          (run_shell cb patience rounds given poll_interval)
          (Run cb patience given)
  unfolding run_shell
  Ensures-run_shell given poll_interval =
      Ensures-lift-bind _ _
        (λ session same.
          Ensures-bind (λ _ s. History cb patience given s) _ _
            (Ensures_of_Keeps _ (Keeps-raise_if (poll_interval == 0) _ _) (λ r s h. h))
            (λ _. go session (validate_session_name_ok given session same))
            (failed cb patience given))
        (failed cb patience given)
    where
      go :
          (session : Text)
          → session ≡ given
          → Ensures
              (History cb patience given)
              (attempt (run_rounds cb patience rounds session none) >>= λ ended.
                handle ended pure
                  (λ e. if is_local_cancellation e.kind then pure (some (pos 130)) else reraise e))
              (Run cb patience given)
      go session same = rw same (
          Ensures-attempt-bind (Run cb patience given) _ _
            (Ensures-run_rounds cb patience given rounds none) (Ensures-end given))

-- However often `ssh` loses its connection, `run_shell` attaches a client again only after one that
-- exited with 255, and every client runs the session's command over an attachment of the gateway's
-- connection. What it returns is 130, or the exit code of its last client, which is not 255.
pub run_shell-IsRun :
    {W : Type 0} (cb : Callbacks W) (patience rounds : ℕ) (given : Text) (poll_interval : ℕ)
    (s : Session W)
    → s.attached ≡ []
    → let (r, s') = run_shell cb patience rounds given poll_interval s in IsRun given r s'.attached
run_shell-IsRun cb patience rounds given poll_interval s fresh =
    (Ensures-run_shell cb patience rounds given poll_interval).at s (rw fresh (tt, tt))

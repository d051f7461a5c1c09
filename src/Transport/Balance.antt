-- ===== src/Transport/Balance.antt =====
-- What a bridge undoes before it ends, and how long it waits.
use pazuzu.Base.{
  ℕ, zero, suc, ◌≡◌, refl, Bool, true, false, not, Option, none, some, List, ◌∷◌, Text, arith,
  if◌then◌else◌,
}
use pazuzu.Errors.{Exception, Result, ok, err, is_timeout_error}
use pazuzu.Exec.{pure, ◌>>◌}
use pazuzu.Exec.Ensures.{
  Ensures, Ensures-pure, Ensures-bind, Ensures-if, Ensures-reraise, Ensures-lift-bind,
  Ensures-gets-bind, Ensures-cleanup, Ensures-try,
}
use pazuzu.Lease.{SessionLease, SessionLeasePool}
use pazuzu.Settings.{SshSettings}
use pazuzu.Transport.Bridging.{
  Machine, Step, Bridge, returned, step, control_bridge, cancel_forward, acquire_lease, clean_up,
  bridge_with, run_bridge,
}
use pazuzu.Transport.Tidy.{
  IsTidy, IsClear, IsDone, IsClear-IsTidy, IsTidy-IsClear, Ensures-step, Ensures-observe,
  Tidy-bridge_rounds,
}

-- `subprocess.run` raises OSError or TimeoutExpired at most, so an unrequired control never raises.
abbrev pub IsQuiet : {W : Type 0} → Machine W → Type 0
IsQuiet {W} machine = (argv : List Text) (w : W) → (control_bridge machine argv false w).0 ≡ ok tt

module _ {W : Type 0} (machine : Machine W) (quiet : IsQuiet machine)
    (cancel_argv forward_argv session_argv : List Text) where
  -- A cancel that does not raise.
  Ensures-quiet_cancel :
      Ensures IsTidy (cancel_forward machine cancel_argv) (λ r b. (r ≡ ok tt) × IsClear b)
  unfolding cancel_forward step
  Ensures-quiet_cancel = record {
    at = λ b tidy. (quiet cancel_argv b.world, (refl, (tt, tidy.patient)));
  }

  Ensures-release :
      (lease : SessionLease)
      → Ensures IsClear (step (λ _. Step.release) (machine.release lease)) (λ _ b. IsDone b)
  Ensures-release lease = Ensures-step _ _ (λ r w b (clear, patient). (clear, refl, (tt, patient)))

  Ensures-clean_up :
      (lease : SessionLease)
      → Ensures IsTidy
          (clean_up machine cancel_argv forward_argv session_argv lease)
          (λ _ b. IsDone b)
  unfolding clean_up
  Ensures-clean_up lease = Ensures-gets-bind (λ b. b.forward_registered) _ go
    where
      go :
          (registered : Bool)
          → Ensures
              (λ b. IsTidy b × (b.forward_registered ≡ registered))
              ((if registered then cancel_forward machine cancel_argv else pure tt)
                >> step (λ _. Step.release) (machine.release lease))
              (λ _ b. IsDone b)
      go true =
          Ensures-bind (λ r b. (r ≡ ok tt) × IsClear b) _ _
            (record { at = λ b (tidy, _). Ensures-quiet_cancel.at b tidy })
            (λ _. record { at = λ b (_, clear). (Ensures-release lease).at b clear })
            (λ e b (same, _). absurd (cc same))
      go false =
          Ensures-bind {P = λ b. IsTidy b × (b.forward_registered ≡ false)}
            (λ r b. (r ≡ ok tt) × IsClear b) _ _
            (Ensures-pure tt (λ b (tidy, off). (refl, IsTidy-IsClear b off tidy)))
            (λ _. record { at = λ b (_, clear). (Ensures-release lease).at b clear })
            (λ e b (same, _). absurd (cc same))

  -- Before the lease.
  abbrev Taken : Result (Option (Option SessionLease)) → Bridge W → Type 0
  Taken (ok (some (some lease))) b = IsClear b
  Taken _ b = IsDone b

  Ensures-acquire_lease :
      (rounds : ℕ) (pool : SessionLeasePool)
      → Ensures IsDone (acquire_lease machine rounds pool) Taken
  unfolding acquire_lease
  Ensures-acquire_lease zero pool = Ensures-pure none (λ b done. done)
  Ensures-acquire_lease (suc rounds) pool =
      Ensures-try (λ r b. elim r as (λ _. Type 0) [ ok lease ↦ IsClear b | err e ↦ IsDone b ]) _ _ _
        (Ensures-step _ _ go) (λ lease. Ensures-pure (some (some lease)) (λ b clear. clear))
        (λ e.
          Ensures-if (not (is_timeout_error e.kind)) _ _ (λ _. Ensures-reraise e (λ b done. done))
            (λ _. Ensures-observe machine.is_stopped _ (λ stopped.
              Ensures-if stopped _ _ (λ _. Ensures-pure (some none) (λ b done. done))
                (λ _. Ensures-acquire_lease rounds pool))))
    where
      go : (r : Result SessionLease) (w : W) (b : Bridge W) → IsDone b → elim r as (λ _. Type 0) [
        | ok lease ↦ IsClear (record b { world = w; trace = Step.acquire (returned r) ∷ b.trace })
        | err e ↦ IsDone (record b { world = w; trace = Step.acquire (returned r) ∷ b.trace })
      ]
      go (ok lease) w b (clear, _, patient) = (clear, (tt, patient))
      go (err e) w b (clear, free, patient) = (clear, free, (tt, patient))

  Ensures-bridge_with :
      (rounds : ℕ) (taken : Option (Option SessionLease))
      → Ensures
          (Taken (ok taken))
          (bridge_with machine cancel_argv forward_argv session_argv rounds taken)
          (λ _ b. IsDone b)
  unfolding bridge_with
  Ensures-bridge_with rounds none = Ensures-pure none (λ b done. done)
  Ensures-bridge_with rounds (some none) = Ensures-pure (some 0) (λ b done. done)
  Ensures-bridge_with rounds (some (some lease)) =
      Ensures-cleanup {M = IsTidy} _ _
        (Ensures-bind (λ _ b. IsTidy b) _ _
          (record {
            at = λ b clear. IsClear-IsTidy _ (Ensures-quiet_cancel.at b (IsClear-IsTidy b clear)).1;
          })
          (λ _.
            Tidy-bridge_rounds machine cancel_argv forward_argv session_argv rounds 1_000
              (omega arith) (omega arith))
          (λ e b tidy. tidy))
        (Ensures-clean_up lease)

-- However a bridge ends, with an exit code or an exception, every forward that it registered was
-- followed by a cancel and its lease was given back, and each of its waits was one second to half a
-- minute long; this needs that `subprocess.run` raises nothing but OSError and TimeoutExpired.
pub run_bridge-IsDone :
    {W : Type 0} (machine : Machine W) (settings : SshSettings) (listen_host : Text)
    (listen_port : ℕ) (remote_host : Text) (remote_port : ℕ) (remote_command : List Text)
    (rounds : ℕ) (b : Bridge W)
    → IsQuiet machine
    → IsDone b
    → IsDone
        (run_bridge machine settings listen_host listen_port remote_host remote_port remote_command
          rounds b).1
unfolding run_bridge
run_bridge-IsDone {W} machine settings listen_host listen_port remote_host remote_port
      remote_command rounds b quiet =
    (Ensures-lift-bind _ _
        (λ cancel_argv _.
          Ensures-lift-bind _ _
            (λ forward_argv _.
              Ensures-lift-bind _ _
                (λ session_argv _. Ensures-observe machine.published_budget _ (λ content.
                  Ensures-lift-bind _ _
                    (λ budget _.
                      Ensures-lift-bind _ _
                        (λ pool _.
                          Ensures-bind (Taken machine quiet cancel_argv forward_argv session_argv) _
                            _
                            (Ensures-acquire_lease machine quiet cancel_argv forward_argv
                              session_argv rounds pool)
                            (Ensures-bridge_with machine quiet cancel_argv forward_argv session_argv
                              rounds)
                            (λ e b' done. done))
                        same)
                    same))
                same)
            same)
        same).at
      b
  where
    same : (e : Exception) (b' : Bridge W) → IsDone b' → IsDone b'
    same e b' done = done

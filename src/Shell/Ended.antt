-- ===== src/Shell/Ended.antt =====
-- `run_attached_ssh` does not leave its process behind.
use pazuzu.Base.{
  ℤ, ◌≡◌, refl, true, false, ◌||◌, Option, none, some, List, Text, any, has_char, is_empty, is_some,
  if◌then◌else◌,
}
use pazuzu.Errors.{Result, ok, err}
use pazuzu.Exec.{Exec, pure, reraise, attempt, handle, ◌>>=◌, ◌>>◌}
use pazuzu.Exec.Keeps.{Keeps-raise_if}
use pazuzu.Exec.Ensures.{
  Ensures, Ensures-pure, Ensures-bind, Ensures-if, Ensures-reraise, Ensures-attempt-bind,
  Ensures-gets-bind, Ensures_of_Keeps,
}
use pazuzu.Shell.Attached.{
  Process, IsWaited, is_task_cancelled, terminate_attached_process, finished, launched,
  run_attached_ssh,
}

module _ {W : Type 0} (p : Process W) (waited : IsWaited p) where
  abbrev HasEnded : W → Type 0
  HasEnded w = is_some (p.returncode w) ≡ true

  -- Where an action returns, the process has ended.
  abbrev EndsIt : {A : Type 0} → Result A → W → Type 0
  EndsIt (ok a) w = HasEnded w
  EndsIt (err e) w = Unit

  abbrev Anything : {A : Type 0} → Result A → W → Type 0
  Anything r w = Unit

  abbrev Raced : Result (Option ℤ) → W → Type 0
  Raced (ok (some code)) w = HasEnded w
  Raced _ w = Unit

  Ensures-race : Ensures (λ w. Unit) p.race Raced
  Ensures-race = record { at = λ w _. go (p.race w) (waited.by_race w) }
    where
      go :
          (r : Result (Option ℤ) × W)
          → ((code : ℤ) → r.0 ≡ ok (some code) → HasEnded r.1)
          → Raced r.0 r.1
      go (ok (some code), w) h = h code refl
      go (ok none, w) h = tt
      go (err e, w) h = tt

  Ensures-wait : Ensures (λ w. Unit) p.wait EndsIt
  Ensures-wait = record { at = λ w _. go (p.wait w) (waited.by_wait w) }
    where
      go : (r : Result (Unit {0}) × W) → (r.0 ≡ ok tt → HasEnded r.1) → EndsIt r.0 r.1
      go (ok _, w) h = h refl
      go (err e, w) h = tt

  Ensures-any : {A : Type 0} {P : W → Type 0} (action : Exec W A) → Ensures P action Anything
  Ensures-any action = record { at = λ w _. tt }

  Ensures-finished : (r : Option ℤ) → Ensures (Raced (ok r)) (finished p r) EndsIt
  unfolding finished
  Ensures-finished (some code) = Ensures-pure _ (λ w h. h)
  Ensures-finished none =
      Ensures-bind Anything _ _ (Ensures-any (terminate_attached_process p))
        (λ _. Ensures-bind EndsIt _ _ Ensures-wait (λ _. Ensures-pure _ (λ w h. h)) (λ e w h. tt))
        (λ e w h. tt)

  Ensures-handled :
      (r : Result ℤ)
      → Ensures
          (EndsIt r)
          (handle r pure (λ e.
            if is_task_cancelled e.kind
            then terminate_attached_process p >> reraise e
            else reraise e))
          EndsIt
  unfolding handle
  Ensures-handled (ok code) = Ensures-pure code (λ w h. h)
  Ensures-handled (err e) =
      Ensures-if (is_task_cancelled e.kind) _ _
        (λ _.
          Ensures-bind Anything _ _ (Ensures-any (terminate_attached_process p))
            (λ _. Ensures-reraise e (λ w h. tt)) (λ e' w h. tt))
        (λ _. Ensures-reraise e (λ w h. tt))

  Ensures-launched : (argv : List Text) → Ensures (λ w. Unit) (launched p argv) Anything
  Ensures-launched argv = Ensures-any (launched p argv)

  -- Where `run_attached_ssh` returns an exit code, its process has ended, unless the cancellation was
  -- set before there was one; this needs that a process that was waited for has a return code.
  pub run_attached_ssh_ended :
      (argv : List Text) (w : W) (code : ℤ)
      → p.is_cancelled w ≡ false
      → (run_attached_ssh p argv w).0 ≡ ok code
      → is_some (p.returncode (run_attached_ssh p argv w).1) ≡ true
  unfolding run_attached_ssh
  run_attached_ssh_ended argv w code running h = go _ (whole.at w running) h
    where
      started :
          Ensures
            (λ w'. Unit)
            (launched p argv >>= λ _. attempt (p.race >>= finished p) >>= λ ended.
              handle ended pure (λ e.
                if is_task_cancelled e.kind
                then terminate_attached_process p >> reraise e
                else reraise e))
            EndsIt
      started =
          Ensures-bind Anything _ _ (Ensures-launched argv)
            (λ _.
              Ensures-attempt-bind EndsIt _ _
                (Ensures-bind Raced _ _ Ensures-race Ensures-finished (λ e w' h'. tt))
                Ensures-handled)
            (λ e w' h'. tt)

      whole : Ensures (λ w'. p.is_cancelled w' ≡ false) (run_attached_ssh p argv) EndsIt
      whole =
          Ensures-bind (λ _ w'. p.is_cancelled w' ≡ false) _ _
            (Ensures_of_Keeps _
              (Keeps-raise_if (is_empty argv || any (λ item. is_empty item || has_char 0 item) argv)
                _ _)
              (λ r w' h'. h'))
            (λ _. Ensures-gets-bind p.is_cancelled _ (λ stopped.
              Ensures-if stopped _ _
                (λ set. Ensures-pure _ (λ w' (unset, now). absurd (cc (set, unset, now))))
                (λ _. record { at = λ w' _. started.at w' tt })))
            (λ e w' h'. tt)

      go : (r : Result ℤ × W) → EndsIt r.0 r.1 → r.0 ≡ ok code → HasEnded r.1
      go (ok _, w') ended same = ended
      go (err e, w') ended same = absurd (cc same)

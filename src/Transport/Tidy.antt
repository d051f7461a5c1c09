-- ===== src/Transport/Tidy.antt =====
-- What the loop of a bridge keeps: it knows what it registered, and it waits for a bounded time.
use pazuzu.Base.{
  ℕ, zero, suc, ◌*◌, ◌-◌, ◌≤◌, ◌≡◌, refl, Bool, true, false, not, none, some, List, [], ◌∷◌, Text,
  arith, All, Bool-cases, inl, inr, min, leb, if◌then◌else◌,
}
use pazuzu.Errors.{Result, ok, err, is_connection_unavailable}
use pazuzu.Exec.{pure, ◌>>=◌}
use pazuzu.Exec.Ensures.{
  Ensures, Ensures-pure, Ensures-bind, Ensures-if, Ensures-reraise, Ensures-cleanup, Ensures-try,
}
use pazuzu.Transport.Bridging.{
  Machine, Step, Bridge, Method, returned, step, register, observe, control_bridge, cancel_forward,
  wait_for_retry, serve_once, bridge_rounds,
}

-- Whether a forward was registered that no later cancel asked to undo.
abbrev pub is_registered : List Step → Bool
is_registered [] = false
is_registered (Step.cancel ∷ trace) = false
is_registered (Step.forward true ∷ trace) = true
is_registered (_ ∷ trace) = is_registered trace

-- Whether a lease was taken that was not given back since.
abbrev pub is_held : List Step → Bool
is_held [] = false
is_held (Step.release ∷ trace) = false
is_held (Step.acquire true ∷ trace) = true
is_held (_ ∷ trace) = is_held trace

-- A wait of one second to half a minute.
abbrev pub IsPatient : Step → Type 0
IsPatient (Step.wait delay) = (1_000 ≤ delay) × (delay ≤ 30_000)
IsPatient _ = Unit

-- What holds in the loop.
pub record IsTidy {W : Type 0} (b : Bridge W) : Type 0 where
  pub known : is_registered b.trace ≡ true → b.forward_registered ≡ true
  pub patient : All IsPatient b.trace

-- What holds before the lease is taken.
pub record IsIdle {W : Type 0} (b : Bridge W) : Type 0 where
  pub unregistered : is_registered b.trace ≡ false
  pub not_held : is_held b.trace ≡ false
  pub patient : All IsPatient b.trace

-- After a cancel nothing is registered.
abbrev pub IsClear : {W : Type 0} → Bridge W → Type 0
IsClear b = (is_registered b.trace ≡ false) × All IsPatient b.trace

pub IsClear-IsTidy : {W : Type 0} (b : Bridge W) → IsClear b → IsTidy b
IsClear-IsTidy b (clear, patient) = record {
  known = λ on. absurd (cc (clear, on));
  patient = patient;
}

pub IsTidy-IsClear :
    {W : Type 0} (b : Bridge W) → b.forward_registered ≡ false → IsTidy b → IsClear b
IsTidy-IsClear b off tidy = elim (Bool-cases (is_registered b.trace)) [
  | inl on ↦ absurd (cc (off, tidy.known on))
  | inr clear ↦ (clear, tidy.patient)
]

-- What holds at the end.
abbrev pub IsDone : {W : Type 0} → Bridge W → Type 0
IsDone b = (is_registered b.trace ≡ false) × (is_held b.trace ≡ false) × All IsPatient b.trace

module _ {W : Type 0} where
  pub Ensures-step :
      {A : Type 0} {P : Bridge W → Type 0} {Q : Result A → Bridge W → Type 0} (kind : Bool → Step)
      (f : W → Result A × W)
      → ((r : Result A) (w : W) (b : Bridge W)
          → P b
          → Q r (record b { world = w; trace = kind (returned r) ∷ b.trace }))
      → Ensures P (step kind f) Q
  unfolding step
  Ensures-step kind f h = record { at = λ b p. h (f b.world).0 (f b.world).1 b p }

  pub Ensures-observe :
      {A B : Type 0} {P : Bridge W → Type 0} {Q : Result B → Bridge W → Type 0} (f : W → A)
      (next : A → Method W B)
      → ((a : A) → Ensures P (next a) Q)
      → Ensures P (observe f >>= next) Q
  unfolding observe ◌>>=◌
  Ensures-observe f next h = record { at = λ b p. (h (f b.world)).at b p }

  pub Ensures-register :
      {P : Bridge W → Type 0} {Q : Result (Unit {0}) → Bridge W → Type 0} (value : Bool)
      → ((b : Bridge W) → P b → Q (ok tt) (record b { forward_registered = value }))
      → Ensures P (register value) Q
  unfolding register
  Ensures-register value h = record { at = h }

module _ {W : Type 0} (machine : Machine W)
    (cancel_argv forward_argv session_argv : List Text) where
  Ensures-cancel :
      {P : Bridge W → Type 0}
      → ((b : Bridge W) → P b → All IsPatient b.trace)
      → Ensures P (cancel_forward machine cancel_argv) (λ _ b. IsClear b)
  unfolding cancel_forward
  Ensures-cancel h = Ensures-step _ _ (λ r w b p. (refl, (tt, h b p)))

  Ensures-serve_once :
      Ensures IsTidy (serve_once machine cancel_argv forward_argv session_argv) (λ _ b. IsTidy b)
  unfolding serve_once
  Ensures-serve_once =
      Ensures-cleanup {M = IsTidy} _ _
        (Ensures-step _ _
          (λ r w b tidy. record { known = tidy.known; patient = (tt, tidy.patient) }))
        (Ensures-bind (λ _ b. IsClear b) _ _ (Ensures-cancel (λ b tidy. tidy.patient))
          (λ _. Ensures-register false (λ b clear. IsClear-IsTidy _ clear))
          (λ e b clear. IsClear-IsTidy b clear))

  Ensures-wait :
      (delay : ℕ)
      → 1_000 ≤ delay
      → delay ≤ 30_000
      → Ensures IsTidy (wait_for_retry machine delay) (λ _ b. IsTidy b)
  unfolding wait_for_retry
  Ensures-wait delay least most =
      Ensures-step _ _
        (λ r w b tidy. record { known = tidy.known; patient = ((least, most), tidy.patient) })

  abbrev Tidy : {A : Type 0} → Method W A → Type 0
  Tidy m = Ensures IsTidy m (λ _ b. IsTidy b)

  Tidy-bind :
      {A B : Type 0} (m : Method W A) (next : A → Method W B)
      → Tidy m
      → ((a : A) → Tidy (next a))
      → Tidy (m >>= next)
  Tidy-bind m next h hs = Ensures-bind (λ _ b. IsTidy b) m next h hs (λ e b tidy. tidy)

  Tidy-pure : {A : Type 0} (a : A) → Tidy (pure a)
  Tidy-pure a = Ensures-pure a (λ b tidy. tidy)

  -- A forward that was registered, or was not.
  abbrev Forwarded : Result (Unit {0}) → Bridge W → Type 0
  Forwarded (ok _) b = All IsPatient b.trace
  Forwarded (err e) b = IsTidy b

  Ensures-forward :
      Ensures IsTidy (step Step.forward (control_bridge machine forward_argv true)) Forwarded
  Ensures-forward = Ensures-step _ _ go
    where
      go :
          (r : Result (Unit {0})) (w : W) (b : Bridge W)
          → IsTidy b
          → Forwarded r (record b { world = w; trace = Step.forward (returned r) ∷ b.trace })
      go (ok _) w b tidy = (tt, tidy.patient)
      go (err e) w b tidy = record { known = tidy.known; patient = (tt, tidy.patient) }

  pub Tidy-bridge_rounds :
      (rounds delay : ℕ)
      → 1_000 ≤ delay
      → delay ≤ 30_000
      → Tidy (bridge_rounds machine cancel_argv forward_argv session_argv rounds delay)
  unfolding bridge_rounds
  Tidy-bridge_rounds zero delay least most = Tidy-pure none
  Tidy-bridge_rounds (suc rounds) delay least most =
      Ensures-observe machine.is_stopped _ (λ stopped.
        Ensures-if stopped _ _ (λ _. Tidy-pure (some 0))
          (λ _.
            Ensures-try Forwarded _ _ _ Ensures-forward
              (λ _.
                Ensures-bind (λ _ b. IsTidy b) _ _
                  (Ensures-register true
                    (λ b patient. record { known = λ on. refl; patient = patient }))
                  (λ _. Ensures-observe machine.monotonic _ (λ started_at.
                    Tidy-bind _ _ Ensures-serve_once (λ _.
                      Ensures-observe machine.is_stopped _ (λ stopped'.
                        Ensures-if stopped' _ _ (λ _. Tidy-pure (some 0))
                          (λ _. Ensures-observe machine.monotonic _ (λ now.
                            again (Tidy-bridge_rounds rounds)
                              (if leb 60_000 (now - started_at) then 1_000 else delay)
                              (ground arith) (ground arith)))))))
                  (λ e b tidy. tidy))
              (λ e.
                Ensures-if (not (is_connection_unavailable e.kind)) _ _
                  (λ _. Ensures-reraise e (λ b tidy. tidy))
                  (λ _. again (Tidy-bridge_rounds rounds) delay least most))))
    where
      again :
          ((d : ℕ)
            → 1_000 ≤ d
            → d ≤ 30_000
            → Tidy (bridge_rounds machine cancel_argv forward_argv session_argv rounds d))
          → (next : ℕ) → 1_000 ≤ next
          → next ≤ 30_000
          → Tidy (
              wait_for_retry machine next >>= λ stopped.
              if stopped
              then pure (some 0)
              else bridge_rounds machine cancel_argv forward_argv session_argv rounds
                  (min 30_000 (next * 2)))
      again more next least' most' = Tidy-bind _ _ (Ensures-wait next least' most') (λ stopped.
          Ensures-if stopped _ _ (λ _. Tidy-pure (some 0))
            (λ _. more (min 30_000 (next * 2)) (omega arith) (omega arith)))

-- ===== src/Supervisor/Attempts.antt =====
-- `_replace_master`: how often it starts a master, and what its return says.
use pazuzu.Base.{
  ℕ, zero, suc, ◌+◌, ◌*◌, ◌^◌, ◌≤◌, ◌≡◌, refl, ap, sym, ◌∙◌, true, Option, none, some, List, [],
  ◌∷◌, Text, codes, arith, min, ◌==◌,
}
use pazuzu.Errors.{Result, ok, err}
use pazuzu.Settings.{SshSettings}
use pazuzu.Exec.{gets, modify, pure, ◌>>=◌, ◌>>◌}
use pazuzu.Exec.Ensures.{
  Ensures, Ensures-pure, Ensures-reraise, Ensures-if, Ensures-bind, Ensures-lift-bind, Ensures-try,
}
use pazuzu.Supervisor.{
  Connection, Supervisor, is_connected, needs_authentication, classify_connection_failure,
  record_connected, bounded_backoff,
}
use pazuzu.Supervisor.Machine.{
  Call, Env, Machine, Action, call, self, update, clock, timestamp, raise_unavailable,
}
use pazuzu.Supervisor.Repair.{is_startup_failure, start_attempts, report_failure, replace_master}

-- How many of the calls started a master.
abbrev pub starts : List Call → ℕ
starts [] = 0
starts (Call.start_master ∷ trace) = suc (starts trace)
starts (_ ∷ trace) = starts trace

abbrev pub newest : List Call → Option Call
newest [] = none
newest (c ∷ trace) = some c

-- A start of the master returned, with the supervisor `sup`, in the world as it is.
abbrev pub HasStarted : {W : Type 0} → Env W → Supervisor → W → Type 0
HasStarted {W} env sup world =
    (before : Supervisor) × (w : W) × (env.start_master before w ≡ (ok tt, sup, world))

-- Connected by the newest call, which started the master and returned, and whose generation is one
-- more than before.
abbrev pub IsFresh : {W : Type 0} → Env W → Machine W → Type 0
IsFresh {W} env m =
    (is_connected m.sup.state ≡ true)
    × (m.sup.failures ≡ 0)
    × (m.sup.next_attempt ≡ 0)
    × (newest m.trace ≡ some Call.start_master)
    × (sup : Supervisor) × HasStarted env sup m.world
    × (m.sup.generation ≡ sup.generation + 1)

-- After `n` starts, with `left` attempts to go.
abbrev Attempted : {W : Type 0} → Env W → ℕ → ℕ → Result (Option Text) → Machine W → Type 0
Attempted env n left (ok none) m = (starts m.trace ≤ n + left) × IsFresh env m
Attempted env n left (ok (some detail)) m = starts m.trace ≤ n + left
Attempted env n left (err e) m = starts m.trace ≤ n + left

-- After `n` starts, of which `attempts` more are allowed.
abbrev pub Replaced : {W : Type 0} → Env W → ℕ → ℕ → Result (Unit {0}) → Machine W → Type 0
Replaced env n attempts (ok _) m = (starts m.trace ≤ n + attempts) × IsFresh env m
Replaced env n attempts (err e) m = starts m.trace ≤ n + attempts

module _ {W : Type 0} (env : Env W) where
  -- What the first start of some attempts leaves, before its outcome is looked at.
  abbrev Tried : ℕ → Machine W → Type 0
  Tried n m = (starts m.trace ≡ suc n) × (newest m.trace ≡ some Call.start_master)

  -- By its outcome: where it returned, its supervisor and its world are the ones at hand.
  abbrev Started : ℕ → Result (Unit {0}) → Machine W → Type 0
  Started n (ok _) m = Tried n m × HasStarted env m.sup m.world
  Started n (err e) m = Tried n m

  start_call :
      (n : ℕ)
      → Ensures (λ m. starts m.trace ≡ n) (call Call.start_master env.start_master) (Started n)
  unfolding call
  start_call n = record { at = λ m h. go m h (env.start_master m.sup m.world) refl }
    where
      go :
          (m : Machine W)
          → starts m.trace ≡ n
          → (r : Result (Unit {0}) × Supervisor × W) → env.start_master m.sup m.world ≡ r
          → Started n r.0 (record { sup = r.1; world = r.2; trace = Call.start_master ∷ m.trace })
      go m h (ok _, sup, world) same = ((ap suc h, refl), (m.sup, m.world, same))
      go m h (err e, sup, world) same = (ap suc h, refl)

  connects :
      (n left : ℕ)
      → Ensures
          (Started n (ok tt))
          (timestamp env >>= λ now.
            update (λ s. record_connected now (record s { generation = s.generation + 1 }))
            >> pure none)
          (Attempted env n (suc left))
  unfolding ◌>>=◌ timestamp update modify record_connected
  connects n left = record {
    at = λ m ((h, k), started). (omega arith, (refl, refl, refl, k, m.sup, started, refl));
  }

  quiet_stop :
      (n : ℕ)
      → Ensures (Tried n) (call Call.stop_master env.stop_master) (λ _ m. starts m.trace ≡ suc n)
  unfolding call
  quiet_stop n = record { at = λ m (h, k). h }

  quiet_sleep :
      (n delay : ℕ)
      → Ensures
          (λ m. starts m.trace ≡ suc n)
          (call (Call.sleep delay) (env.sleep delay))
          (λ _ m. starts m.trace ≡ suc n)
  unfolding call
  quiet_sleep n delay = record { at = λ m h. h }

  widen :
      (n left : ℕ) (r : Result (Option Text)) (m : Machine W)
      → Attempted env (suc n) left r m
      → Attempted env n (suc left) r m
  widen n left (ok none) m (h, k) = (omega arith, k)
  widen n left (ok (some detail)) m h = omega arith
  widen n left (err e) m h = omega arith

  Ensures-attempts :
      (left n done : ℕ) (detail : Text)
      → Ensures
          (λ m. starts m.trace ≡ n)
          (start_attempts env left done detail)
          (Attempted env n left)
  unfolding start_attempts
  Ensures-attempts zero n done detail = Ensures-pure (some detail) (λ m h. omega arith)
  Ensures-attempts (suc left) n done detail =
      Ensures-try (Started n) _ _ _ (start_call n) (λ _. connects n left)
        (λ e.
          Ensures-if (is_startup_failure e.kind) _ _
            (λ _.
              Ensures-bind (λ _ m. starts m.trace ≡ suc n) _ _ (quiet_stop n)
                (λ _.
                  Ensures-if (needs_authentication (classify_connection_failure e.message)) _ _
                    (λ _. Ensures-pure (some e.message) (λ m h. omega arith))
                    (λ _.
                      Ensures-if (left == 0) _ _
                        (λ _. Ensures-pure (some e.message) (λ m h. omega arith))
                        (λ _.
                          Ensures-bind (λ _ m. starts m.trace ≡ suc n) _ _
                            (quiet_sleep n (min 2_000 (500 * 2 ^ done)))
                            (λ _. record {
                              at = λ m h.
                                  widen n left _ _
                                    ((Ensures-attempts left (suc n) (done + 1) e.message).at m h);
                            })
                            (λ x m h. omega arith))))
                (λ x m h. omega arith))
            (λ _. Ensures-reraise e (λ m (h, k). omega arith)))

  abbrev Counted : ℕ → Machine W → Type 0
  Counted k m = starts m.trace ≤ k

  Ensures-unavailable :
      (n attempts : ℕ)
      → Ensures (Counted (n + attempts)) (raise_unavailable env) (Replaced env n attempts)
  unfolding raise_unavailable ◌>>=◌ self clock
  Ensures-unavailable n attempts = record { at = λ m h. h }

  -- What reads the machine, or assigns to the supervisor, starts no master.
  counting :
      {A : Type 0} (k : ℕ) (m : Action W A)
      → ((s : Machine W) → (m s).1.trace ≡ s.trace)
      → Ensures (Counted k) m (λ _ s. Counted k s)
  counting k m same = record { at = λ s h. rw (same s) h }

  Ensures-report :
      (n attempts : ℕ) (failure : Option Text)
      → Ensures
          (Attempted env n attempts (ok failure))
          (report_failure env failure)
          (Replaced env n attempts)
  unfolding report_failure timestamp clock self update modify gets
  Ensures-report n attempts none = Ensures-pure tt (λ m h. h)
  Ensures-report n attempts (some detail) =
      Ensures-bind (λ _ m. Counted (n + attempts) m) _ _ (counting _ _ (λ m. refl))
        (λ stamp.
          Ensures-bind (λ _ m. Counted (n + attempts) m) _ _ (counting _ _ (λ m. refl))
            (λ now.
              Ensures-bind (λ _ m. Counted (n + attempts) m) _ _ (counting _ _ (λ m. refl))
                (λ s.
                  Ensures-bind (λ _ m. Counted (n + attempts) m) _ _ (counting _ _ (λ m. refl))
                    (λ _.
                      Ensures-lift-bind (bounded_backoff (s.failures + 1)) _
                        (λ _ _. Ensures-unavailable n attempts) (λ e m h. h))
                    (λ e m h. h))
                (λ e m h. h))
            (λ e m h. h))
        (λ e m h. h)

  abbrev Ready : ℕ → SshSettings → Machine W → Type 0
  Ready n settings m = (starts m.trace ≡ n) × (m.sup.settings ≡ settings)

  begin :
      (n : ℕ) (settings : SshSettings)
      → Ensures
          (Ready n settings)
          (update
            (λ s. record s { repair_epoch = s.repair_epoch + 1; state = Connection.reconnecting }))
          (λ _ m. Ready n settings m)
  unfolding update modify
  begin n settings = record { at = λ m h. h }

  first_stop :
      (n : ℕ) (settings : SshSettings)
      → ((s : Supervisor) (w : W) → (env.stop_master s w).1.settings ≡ s.settings)
      → Ensures
          (Ready n settings)
          (call Call.stop_master env.stop_master)
          (λ _ m. Ready n settings m)
  unfolding call
  first_stop n settings keeps = record { at = λ m (h, e). (h, keeps m.sup m.world ∙ e) }

  read_self :
      (n : ℕ) (settings : SshSettings)
      → Ensures (Ready n settings) self (λ r m. Ready n settings m × (r ≡ ok m.sup))
  unfolding self gets
  read_self n settings = record { at = λ m h. (h, refl) }

  all_attempts :
      (n attempts : ℕ) (detail : Text)
      → Ensures
          (λ m. starts m.trace ≡ n)
          (start_attempts env attempts 0 detail >>= λ failure. report_failure env failure)
          (Replaced env n attempts)
  all_attempts n attempts detail =
      Ensures-bind (Attempted env n attempts) _ _ (Ensures-attempts attempts n 0 detail)
        (Ensures-report n attempts) (λ x m h. h)

  -- Replacing the master starts one at most `connection_attempts` times. If it returns, the newest
  -- call is a start that returned, in the world as it is, which was counted as a new generation, and
  -- the supervisor is connected with no failure and no backoff left, whatever other tasks did
  -- meanwhile, as long as stopping the old master leaves the settings alone.
  pub replace_master_lem :
      (m : Machine W)
      → ((s : Supervisor) (w : W) → (env.stop_master s w).1.settings ≡ s.settings)
      → let (r, m') = replace_master env m in
        Replaced env (starts m.trace) m.sup.settings.connection_attempts r m'
  unfolding replace_master
  replace_master_lem m keeps =
      (Ensures-bind {Q = Replaced env n settings.connection_attempts} (λ _ m'. Ready n settings m')
          _ _ (begin n settings)
          (λ _.
            Ensures-bind (λ _ m'. Ready n settings m') _ _ (first_stop n settings keeps)
              (λ _.
                Ensures-bind _ _ _ (read_self n settings)
                  (λ s. record {
                    at = λ m' ((h, e), r).
                        let same : s.settings.connection_attempts ≡ settings.connection_attempts =
                          cc in
                        let detail = codes "unknown SSH startup failure" in
                        rw (sym same)
                          ((all_attempts n s.settings.connection_attempts detail).at m' h);
                  })
                  (λ x m' ((h, e), r). omega arith))
              (λ x m' (h, e). omega arith))
          (λ x m' (h, e). omega arith)).at
        m (refl, refl)
    where
      n : ℕ
      n = starts m.trace

      settings : SshSettings
      settings = m.sup.settings

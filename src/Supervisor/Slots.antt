-- ===== src/Supervisor/Slots.antt =====
-- Holding a session slot: what the body of `hold` or `_operation` ensures, the whole ensures.
use pazuzu.Base.{ℕ, ◌-◌, ltb}
use pazuzu.Errors.{Exception, Result, err}
use pazuzu.Exec.{finally}
use pazuzu.Exec.Keeps.{Keeps, Keeps-pure, Keeps-bind, Keeps-finally, Keeps-handle, keeps_rules}
use pazuzu.Exec.Ensures.{
  Ensures, Ensures-raise, Ensures_of_Keeps, Ensures-if, Ensures-finally, Ensures-bind,
}
use pazuzu.Supervisor.Machine.{Env, Machine, Action, update, self}
use pazuzu.Supervisor.Stable.{
  IsKept, RepairPreserves, SlotsPreserve, Keeps-self, Keeps-clock, Keeps-ensure_connected,
  Keeps-update, Keeps-call,
}
use pazuzu.Supervisor.Operations.{slot_timeout, take_slot, hold, operation, least_remaining}

-- An invariant with the facts that the slots and the connection leave it alone.
pub record IsSteady {W : Type 0} (P : Machine W → Type 0) (env : Env W) : Type 0 where
  pub kept : IsKept P
  pub repair : RepairPreserves P env
  pub slots : SlotsPreserve P env

module _ {W : Type 0} (env : Env W) where
  module _ (P : Machine W → Type 0) (st : IsSteady P env) where
    self-Keeps : Keeps P self
    self-Keeps = Keeps-self P env st.kept st.repair

    slot_timeout-Keeps :
        {A : Type 0} (timeout : ℕ) (e : Exception) → Keeps P (slot_timeout env {A = A} timeout e)
    unfolding slot_timeout
    slot_timeout-Keeps timeout e = search (keeps_rules, self-Keeps)

    take_slot-Keeps : (timeout : ℕ) → Keeps P (take_slot env timeout)
    unfolding take_slot
    take_slot-Keeps timeout =
        Keeps-bind _ _
          (search (keeps_rules, Keeps-call P env st.kept st.repair, st.slots.acquire_slot))
          (λ taken.
            Keeps-handle taken _ _ (λ lease. Keeps-pure lease) (λ e. slot_timeout-Keeps timeout e))

    wait-Keeps :
        (timeout : ℕ)
        → Keeps P
            (finally (take_slot env timeout) (update (λ s. record s { waiting = s.waiting - 1 })))
    wait-Keeps timeout =
        Keeps-finally _ _ (take_slot-Keeps timeout)
          (Keeps-update P env st.kept st.repair _ st.kept.stops_waiting)

  module _ {A : Type 0} (P : Machine W → Type 0) (Q : Result A → Machine W → Type 0)
      (before : IsSteady P env) (after : (r : Result A) → IsSteady (Q r) env)
      (gives_up : (e : Exception) (m : Machine W) → P m → Q (err e) m)
      (fails : (r : Result A) (e : Exception) (m : Machine W) → Q r m → Q (err e) m) where
    pub Ensures-hold :
        (timeout : ℕ) (body : Action W A) → Ensures P body Q → Ensures P (hold env timeout body) Q
    unfolding hold
    Ensures-hold timeout body eb =
        Ensures-bind (λ _. P) _ _
          (Ensures_of_Keeps _ (Keeps-update P env before.kept before.repair _ before.kept.waits)
            (λ _ _ p. p))
          (λ _.
            Ensures-bind (λ _. P) _ _
              (Ensures_of_Keeps _ (wait-Keeps P before timeout) (λ _ _ p. p))
              (λ lease.
                Ensures-bind (λ _. P) _ _
                  (Ensures_of_Keeps _
                    (Keeps-update P env before.kept before.repair _ before.kept.activates)
                    (λ _ _ p. p))
                  (λ _.
                    Ensures-finally body _ eb
                      (λ r.
                        Keeps-bind _ _
                          (Keeps-update (Q r) env (after r).kept (after r).repair _
                            (after r).kept.deactivates)
                          (λ _.
                            Keeps-call (Q r) env (after r).kept (after r).repair _ _
                              ((after r).slots.release_slot lease)))
                      fails)
                  gives_up)
              gives_up)
          gives_up

    pub Ensures-operation :
        (timeout : ℕ) (body : ℕ → ℕ → Action W A)
        → ((generation remaining : ℕ) → Ensures P (body generation remaining) Q)
        → Ensures P (operation env timeout body) Q
    unfolding operation
    Ensures-operation timeout body eb =
        Ensures-bind (λ _. P) _ _
          (Ensures_of_Keeps _ (Keeps-clock P env before.kept before.repair) (λ _ _ p. p))
          (λ started. Ensures-hold timeout _ (
            Ensures-bind (λ _. P) _ _
              (Ensures_of_Keeps _ (Keeps-ensure_connected P env before.kept before.repair _)
                (λ _ _ p. p))
              (λ generation.
                Ensures-bind (λ _. P) _ _
                  (Ensures_of_Keeps _ (Keeps-clock P env before.kept before.repair) (λ _ _ p. p))
                  (λ now.
                    Ensures-if (ltb (timeout - (now - started)) least_remaining) _ _
                      (λ _. Ensures-raise _ _ gives_up) (λ _. eb generation _))
                  gives_up)
              gives_up))
          gives_up

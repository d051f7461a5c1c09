-- ===== src/Lease/Sharing.antt =====
-- `SessionBudget`: what its three pools guarantee to the clients that share the slot files.
use pazuzu.Base.{
  ℕ, zero, suc, ◌+◌, ◌-◌, ◌≤◌, ◌<◌, ◌≡◌, refl, ap, ◌∙◌, ◌≢◌, ◌⊎◌, inl, inr, true, false, none, [],
  ◌∷◌, arith, Text, codes, length,
}
use native.Mathlib.Decide.{ℕ_discrete}
use pazuzu.Errors.{ok}
use pazuzu.Lease.{
  SlotFile, slot_eq, Locks, is_held, SessionLeasePool, slot_file, try_acquire, SessionBudget,
  session_budget, operations, bridges, probes,
}
use pazuzu.Lease.Slots.{slot_eq_iff, Full, try_acquire_lem}
use pazuzu.Lease.Clients.{Reach, HasSlot, Reach_bounded, Reach_spares}

abbrev slot_at : SessionBudget → ℕ → SlotFile
slot_at budget i = record { directory = budget.directory; prefix = codes "slot"; index = i }

abbrev probe_at : SessionBudget → SlotFile
probe_at budget = record { directory = budget.directory; prefix = codes "probe"; index = 0 }

slots_below : SessionBudget → ℕ → Locks
slots_below budget zero = []
slots_below budget (suc n) = slot_at budget n ∷ slots_below budget n

slot_at_below :
    (budget : SessionBudget) (n i : ℕ)
    → i < n
    → is_held (slots_below budget n) (slot_at budget i) ≡ true
unfolding slots_below is_held
slot_at_below budget zero i h = absurd (omega arith)
slot_at_below budget (suc n) i h =
    ground (arith, slot_at_below budget n i, slot_eq_iff (slot_at budget n) (slot_at budget i))

length-slots_below : (budget : SessionBudget) (n : ℕ) → length (slots_below budget n) ≡ n
unfolding slots_below
length-slots_below budget zero = refl
length-slots_below budget (suc n) = omega (arith, length-slots_below budget n)

-- The files of a budget: the probe slot and the operation slots.
layout : SessionBudget → Locks
unfolding slots_below
layout budget = probe_at budget ∷ slots_below budget (budget.max_sessions - 1)

-- Which pools the three kinds of client poll.
abbrev pub Bridge : SessionBudget → SessionLeasePool → Type 0
Bridge budget pool = bridges budget ≡ ok pool

abbrev pub Operation : SessionBudget → SessionLeasePool → Type 0
Operation budget pool = operations budget ≡ ok pool

abbrev pub Probe : SessionBudget → SessionLeasePool → Type 0
Probe budget pool = probes budget ≡ ok pool

abbrev pub Client : SessionBudget → SessionLeasePool → Type 0
Client budget pool = Bridge budget pool ⊎ (Operation budget pool ⊎ Probe budget pool)

module _ (budget : SessionBudget) (pool : SessionLeasePool) (i : ℕ) (h : HasSlot pool i) where
  Bridge-slot :
      Bridge budget pool → (slot_file pool i ≡ slot_at budget i) × (i < budget.max_sessions - 2)
  unfolding bridges
  Bridge-slot e = ground arith

  Operation-slot :
      Operation budget pool → (slot_file pool i ≡ slot_at budget i) × (i < budget.max_sessions - 1)
  unfolding operations
  Operation-slot e = ground arith

  Probe-slot : Probe budget pool → slot_file pool i ≡ probe_at budget
  unfolding probes
  Probe-slot e = ground arith

Full-is_held :
    (pool : SessionLeasePool) (locks : Locks) (left index i : ℕ)
    → Full pool locks left index
    → index ≤ i
    → i < index + left
    → is_held locks (slot_file pool i) ≡ true
Full-is_held pool locks zero index i f lo hi = absurd (omega arith)
Full-is_held pool locks (suc left) index i (here, there) lo hi = elim (ℕ_discrete index i) [
  | yes e ↦ rw e at here
  | no ne ↦ Full-is_held pool locks left (index + 1) i there (omega arith) (omega arith)
]

free_slot_is_found :
    (pool : SessionLeasePool) (locks : Locks) (i : ℕ)
    → HasSlot pool i
    → is_held locks (slot_file pool i) ≡ false
    → try_acquire pool locks ≢ none
free_slot_is_found pool locks i (lo, hi) free e =
    let full = (try_acquire_lem pool locks).1.0 e in
    cc (Full-is_held pool locks pool.size pool.start_slot i full lo hi)

layout_lists :
    (budget : SessionBudget) (pool : SessionLeasePool) (i : ℕ)
    → Client budget pool
    → HasSlot pool i
    → is_held (layout budget) (slot_file pool i) ≡ true
unfolding layout is_held
layout_lists budget pool i (inl b) h =
    let (e, lt) = Bridge-slot budget pool i h b in
    ground (arith, slot_at_below budget (budget.max_sessions - 1) i (omega arith))
layout_lists budget pool i (inr (inl o)) h =
    let (e, lt) = Operation-slot budget pool i h o in
    ground (arith, slot_at_below budget (budget.max_sessions - 1) i lt)
layout_lists budget pool i (inr (inr p)) h =
    ground (arith, Probe-slot budget pool i h p, slot_eq_iff (probe_at budget) (probe_at budget))

length-layout :
    (control_path : Text) (m : ℕ) (budget : SessionBudget)
    → session_budget control_path m ≡ ok budget
    → length (layout budget) ≡ m
unfolding session_budget layout
length-layout control_path m budget e =
    ground (arith, length-slots_below budget (budget.max_sessions - 1))

-- Bridges, gateway operations and health probes that divide one budget never hold more locks in
-- all than its `max_sessions`, whatever the order in which they take and release slots.
pub sessions_bounded :
    (control_path : Text) (m : ℕ) (budget : SessionBudget) {locks : Locks}
    → session_budget control_path m ≡ ok budget
    → Reach (Client budget) locks
    → length locks ≤ m
sessions_bounded control_path m budget e r = omega (
  arith,
  Reach_bounded (Client budget) (layout budget) (layout_lists budget) r,
  length-layout control_path m budget e,
)

probe-ne-slot :
    (budget budget' : SessionBudget) (i : ℕ) → slot_eq (probe_at budget) (slot_at budget' i) ≡ false
unfolding slot_eq
probe-ne-slot budget budget' i = ground arith

slot-ne-probe :
    (budget budget' : SessionBudget) (i : ℕ) → slot_eq (slot_at budget' i) (probe_at budget) ≡ false
unfolding slot_eq
slot-ne-probe budget budget' i = ground arith

last_slot_spared :
    (budget : SessionBudget) (pool : SessionLeasePool) (i : ℕ)
    → (Bridge budget pool ⊎ Probe budget pool)
    → HasSlot pool i
    → slot_eq (slot_file pool i) (slot_at budget (budget.max_sessions - 2)) ≡ false
unfolding slot_eq
last_slot_spared budget pool i (inl b) h =
    let (e, lt) = Bridge-slot budget pool i h b in ground arith
last_slot_spared budget pool i (inr p) h =
    ap (λ f. slot_eq f (slot_at budget (budget.max_sessions - 2))) (Probe-slot budget pool i h p)
    ∙ probe-ne-slot budget budget (budget.max_sessions - 2)

-- While only bridges and probes hold slots, a gateway operation gets one at once: bridges cannot
-- take the last of the operation slots.
pub bridges_leave_room :
    (control_path : Text) (m : ℕ) (budget : SessionBudget) (pool : SessionLeasePool) {locks : Locks}
    → session_budget control_path m ≡ ok budget
    → operations budget ≡ ok pool
    → Reach (λ p. Bridge budget p ⊎ Probe budget p) locks
    → try_acquire pool locks ≢ none
unfolding session_budget operations
bridges_leave_room control_path m budget pool {locks} e o r =
    free_slot_is_found pool locks (budget.max_sessions - 2) (ground arith, ground arith)
      (ground (
        arith,
        Reach_spares _ (slot_at budget (budget.max_sessions - 2)) (last_slot_spared budget) r,
      ))

-- Work of any budget, of a bridge or of a gateway.
abbrev pub Work : SessionLeasePool → Type 0
Work pool = (budget : SessionBudget) × (Bridge budget pool ⊎ Operation budget pool)

probe_spared :
    (budget : SessionBudget) (pool : SessionLeasePool) (i : ℕ)
    → Work pool
    → HasSlot pool i
    → slot_eq (slot_file pool i) (probe_at budget) ≡ false
probe_spared budget pool i (other, inl b) h =
    ap (λ f. slot_eq f (probe_at budget)) (Bridge-slot other pool i h b).0
    ∙ slot-ne-probe budget other i
probe_spared budget pool i (other, inr o) h =
    ap (λ f. slot_eq f (probe_at budget)) (Operation-slot other pool i h o).0
    ∙ slot-ne-probe budget other i

-- Whatever budgets bridges and gateways divide, the probe slot stays free for a health probe until
-- a probe takes it.
pub Work-leaves_probe :
    (budget : SessionBudget) (pool : SessionLeasePool) {locks : Locks}
    → probes budget ≡ ok pool
    → Reach Work locks
    → try_acquire pool locks ≢ none
unfolding probes
Work-leaves_probe budget pool {locks} e r =
    free_slot_is_found pool locks 0 (ground arith, ground arith)
      (ground (arith, Reach_spares Work (probe_at budget) (probe_spared budget) r))

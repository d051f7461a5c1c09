-- ===== src/Lease/Clients.antt =====
-- Clients that share one directory of slot files: which of them may poll which pool, and the lock
-- tables that they can bring about.
use pazuzu.Base.{ℕ, ◌+◌, ◌≤◌, ◌<◌, ◌≡◌, refl, true, false, none, some, [], ◌∷◌, arith, All, length}
use pazuzu.Lease.{
  SlotFile, slot_eq, Locks, is_held, unlock, SessionLease, release, SessionLeasePool, slot_file,
  try_acquire,
}
use pazuzu.Lease.Slots.{slot_eq_iff, is_held-unlock, try_acquire_lem}

-- One client takes a slot of a pool that it may use, or releases a lease.
pub data Step (Allowed : SessionLeasePool → Type 0) (locks locks' : Locks) : Type 0 where
  acquires :
      (pool : SessionLeasePool) (lease : SessionLease)
      → Allowed pool
      → try_acquire pool locks ≡ some (lease, locks')
      → Step Allowed locks locks'
  releases : (lease : SessionLease) → (release lease locks).1 ≡ locks' → Step Allowed locks locks'

-- The tables that clients reach, whatever the order of their steps.
pub data Reach (Allowed : SessionLeasePool → Type 0) : Locks → Type 0 where
  start : Reach Allowed []
  next :
      {locks locks' : Locks}
      → Reach Allowed locks
      → Step Allowed locks locks'
      → Reach Allowed locks'

abbrev pub Distinct : Locks → Type 0
Distinct [] = Unit
Distinct (f ∷ locks) = (is_held locks f ≡ false) × Distinct locks

unlock-Distinct : (locks : Locks) (f : SlotFile) → Distinct locks → Distinct (unlock locks f)
unfolding unlock
unlock-Distinct [] f d = tt
unlock-Distinct (g ∷ locks) f (new, d) =
    ground (arith, unlock-Distinct locks f d, is_held-unlock locks f g, slot_eq_iff g f)

-- Every locked file is one of the files that some allowed pool names.
module _ (files : Locks) where
  abbrev pub Within : Locks → Type 0
  Within = All (λ f. is_held files f ≡ true)

  unlock-Within : (locks : Locks) (f : SlotFile) → Within locks → Within (unlock locks f)
  unfolding unlock
  unlock-Within [] f w = tt
  unlock-Within (g ∷ locks) f (h, w) = ground (arith, unlock-Within locks f w)

unlock_absent : (locks : Locks) (f : SlotFile) → is_held locks f ≡ false → unlock locks f ≡ locks
unfolding unlock is_held
unlock_absent [] f h = refl
unlock_absent (g ∷ locks) f h = ground (arith, unlock_absent locks f)

length-unlock :
    (locks : Locks) (f : SlotFile) → Distinct locks → length locks ≤ length (unlock locks f) + 1
unfolding unlock
length-unlock [] f d = omega arith
length-unlock (g ∷ locks) f (new, d) =
    ground (arith, length-unlock locks f d, slot_eq_iff g f, unlock_absent locks f)

others-Within :
    (files : Locks) (f : SlotFile) (locks : Locks)
    → Within (f ∷ files) locks
    → Within files (unlock locks f)
unfolding unlock is_held
others-Within files f [] w = tt
others-Within files f (g ∷ locks) (h, w) =
    ground (arith, others-Within files f locks w, slot_eq_iff g f, slot_eq_iff f g)

-- Distinct files out of a list are no more than the list is long.
pub length-Within :
    (files locks : Locks) → Distinct locks → Within files locks → length locks ≤ length files
unfolding is_held
length-Within [] [] d w = omega arith
length-Within [] (f ∷ locks) d (h, w) = cc
length-Within (f ∷ files) locks d w = omega (
  arith,
  length-unlock locks f d,
  length-Within files (unlock locks f) (unlock-Distinct locks f d) (others-Within files f locks w),
)

-- The slots of a pool, as indices.
abbrev pub HasSlot : SessionLeasePool → ℕ → Type 0
HasSlot pool i = (pool.start_slot ≤ i) × (i < pool.start_slot + pool.size)

module _ (Allowed : SessionLeasePool → Type 0) where
  module _ (files : Locks)
      (listed : (pool : SessionLeasePool) (i : ℕ)
        → Allowed pool
        → HasSlot pool i
        → is_held files (slot_file pool i) ≡ true) where
    abbrev IsDivided : Locks → Type 0
    IsDivided locks = Distinct locks × Within files locks

    release-IsDivided :
        (lease : SessionLease) (locks : Locks) → IsDivided locks → IsDivided (release lease locks).1
    unfolding release
    release-IsDivided lease locks (d, w) =
        elim lease.handle as (λ h. IsDivided (release (record { handle = h }) locks).1) [
          | none ↦ (d, w)
          | some f ↦ (unlock-Distinct locks f d, unlock-Within files locks f w)
        ]

    Step-IsDivided :
        {locks locks' : Locks} → Step Allowed locks locks' → IsDivided locks → IsDivided locks'
    Step-IsDivided {locks} {locks'} (acquires pool lease a e) (d, w) =
        let t = (try_acquire_lem pool locks).0 lease locks' e in
        rw t.locks_eq ((t.was_free, d), (listed pool t.slot a (omega arith), w))
    Step-IsDivided {locks} (releases lease e) inv = rw (← e) (release-IsDivided lease locks inv)

    Reach-IsDivided : {locks : Locks} → Reach Allowed locks → IsDivided locks
    Reach-IsDivided start = (tt, tt)
    Reach-IsDivided (next r st) = Step-IsDivided st (Reach-IsDivided r)

    -- However the clients interleave, no file is locked twice, and there are no more locks than
    -- files that the pools name.
    pub Reach_bounded : {locks : Locks} → Reach Allowed locks → length locks ≤ length files
    Reach_bounded {locks} r = let inv = Reach-IsDivided r in length-Within files locks inv.0 inv.1

  module _ (f : SlotFile)
      (spared : (pool : SessionLeasePool) (i : ℕ)
        → Allowed pool
        → HasSlot pool i
        → slot_eq (slot_file pool i) f ≡ false) where
    release_spares :
        (lease : SessionLease) (locks : Locks)
        → is_held locks f ≡ false
        → is_held (release lease locks).1 f ≡ false
    unfolding release
    release_spares lease locks h =
        elim lease.handle as (λ o. is_held (release (record { handle = o }) locks).1 f ≡ false) [
          | none ↦ h
          | some g ↦ ground (arith, is_held-unlock locks g f)
        ]

    -- A file that no allowed pool names stays free.
    pub Reach_spares : {locks : Locks} → Reach Allowed locks → is_held locks f ≡ false
    unfolding is_held
    Reach_spares start = refl
    Reach_spares (next {locks} {locks'} r (acquires pool lease a e)) =
        let t = (try_acquire_lem pool locks).0 lease locks' e in
        rw (t.locks_eq, spared pool t.slot a (omega arith)) (Reach_spares r)
    Reach_spares (next {locks} r (releases lease e)) =
        rw (← e) (release_spares lease locks (Reach_spares r))

-- ===== src/Lease/Slots.antt =====
-- What `_try_acquire` and `release` do to the lock table.
use pazuzu.Base.{
  ℕ, zero, suc, ◌+◌, ◌<◌, ◌≡◌, refl, ◌↔◌, true, false, Option, none, some, [], ◌∷◌, Bool-cases, inl,
  inr, arith, text_eq_iff, if◌then◌else◌,
}
use pazuzu.Lease.{
  SlotFile, slot_eq, Locks, is_held, unlock, SessionLease, release, SessionLeasePool, slot_file,
  scan_slots, try_acquire,
}

pub slot_eq_iff : (a b : SlotFile) → (slot_eq a b ≡ true) ↔ (a ≡ b)
unfolding slot_eq
slot_eq_iff a b = ground (arith, text_eq_iff a.prefix b.prefix, text_eq_iff a.directory b.directory)

pub is_held-unlock :
    (locks : Locks) (f g : SlotFile)
    → is_held (unlock locks f) g ≡ (if slot_eq f g then false else is_held locks g)
unfolding is_held unlock
is_held-unlock [] f g = ground arith
is_held-unlock (h ∷ locks) f g =
    ground (arith, is_held-unlock locks f g, slot_eq_iff h f, slot_eq_iff h g, slot_eq_iff f g)

-- Every slot from `index` on, `left` of them, is held.
abbrev pub Full : SessionLeasePool → Locks → ℕ → ℕ → Type 0
Full pool locks zero index = Unit
Full pool locks (suc left) index =
    (is_held locks (slot_file pool index) ≡ true) × Full pool locks left (index + 1)

-- The lease is the first free slot of those, and its lock is added to the table.
pub record FirstFree (pool : SessionLeasePool) (locks : Locks) (left index : ℕ)
    (lease : SessionLease) (locks' : Locks) : Type 0 where
  pub skipped : ℕ
  pub slot : ℕ
  pub within : skipped < left
  pub position : slot ≡ index + skipped
  pub full_before : Full pool locks skipped index
  pub was_free : is_held locks (slot_file pool slot) ≡ false
  pub lease_eq : lease ≡ record { handle = some (slot_file pool slot) }
  pub locks_eq : locks' ≡ slot_file pool slot ∷ locks

module _ {pool : SessionLeasePool} {locks : Locks} {left index : ℕ} {lease : SessionLease}
    {locks' : Locks} where
  first_free :
      is_held locks (slot_file pool index) ≡ false
      → ◌≡◌ {A = Option (SessionLease × Locks)}
          (some (record { handle = some (slot_file pool index) }, slot_file pool index ∷ locks))
          (some (lease, locks'))
      → FirstFree pool locks (suc left) index lease locks'
  first_free free e = record {
    skipped = 0;
    slot = index;
    within = omega arith;
    position = omega arith;
    full_before = tt;
    was_free = free;
    lease_eq = ground arith;
    locks_eq = ground arith;
  }

  later_free :
      is_held locks (slot_file pool index) ≡ true
      → FirstFree pool locks left (index + 1) lease locks'
      → FirstFree pool locks (suc left) index lease locks'
  later_free held f = record {
    skipped = suc f.skipped;
    slot = f.slot;
    within = omega arith;
    position = omega arith;
    full_before = (held, f.full_before);
    was_free = f.was_free;
    lease_eq = f.lease_eq;
    locks_eq = f.locks_eq;
  }

scan_slots-some :
    (pool : SessionLeasePool) (locks : Locks) (left index : ℕ) {lease : SessionLease}
    {locks' : Locks}
    → scan_slots pool locks left index ≡ some (lease, locks')
    → FirstFree pool locks left index lease locks'
unfolding scan_slots
scan_slots-some pool locks zero index h = cc
scan_slots-some pool locks (suc left) index h =
    elim (Bool-cases (is_held locks (slot_file pool index))) [
      | inl held ↦ later_free held (scan_slots-some pool locks left (index + 1) (rw held at h))
      | inr free ↦ first_free free (rw free at h)
    ]

scan_slots-none :
    (pool : SessionLeasePool) (locks : Locks) (left index : ℕ)
    → (scan_slots pool locks left index ≡ none) ↔ Full pool locks left index
unfolding scan_slots
scan_slots-none pool locks zero index = (λ h. tt, λ h. refl)
scan_slots-none pool locks (suc left) index =
    ground (arith, scan_slots-none pool locks left (index + 1))

-- A lease that `_try_acquire` grants is on the first slot of the pool that nobody holds, and only
-- that slot is locked; it grants none exactly when every slot of the pool is held.
pub try_acquire_lem :
    (pool : SessionLeasePool) (locks : Locks)
    → ((lease : SessionLease) (locks' : Locks)
        → try_acquire pool locks ≡ some (lease, locks')
        → FirstFree pool locks pool.size pool.start_slot lease locks')
      × ((try_acquire pool locks ≡ none) ↔ Full pool locks pool.size pool.start_slot)
unfolding try_acquire
try_acquire_lem pool locks = (
  λ lease locks' h. scan_slots-some pool locks pool.size pool.start_slot h,
  scan_slots-none pool locks pool.size pool.start_slot,
)

unlock_added :
    (locks : Locks) (g f : SlotFile)
    → is_held locks g ≡ false
    → is_held (unlock (g ∷ locks) g) f ≡ is_held locks f
unfolding is_held
unlock_added locks g f free = ground (arith, is_held-unlock (g ∷ locks) g f, slot_eq_iff g f)

-- Releasing a lease that was just acquired frees its slot and no other, and a second release
-- changes nothing.
pub release-try_acquire :
    (pool : SessionLeasePool) (locks : Locks) (lease : SessionLease) (locks' : Locks)
    → try_acquire pool locks ≡ some (lease, locks')
    → ((f : SlotFile) → is_held (release lease locks').1 f ≡ is_held locks f)
      × (let (lease', locks'') = release lease locks' in release lease' locks'' ≡ (lease', locks''))
unfolding release
release-try_acquire pool locks lease locks' h =
    let t = (try_acquire_lem pool locks).0 lease locks' h in
    rw (t.lease_eq, t.locks_eq) (λ f. unlock_added locks _ f t.was_free, refl)

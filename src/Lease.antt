-- ===== src/Lease.antt =====
-- lease.py: advisory locks on slot files, shared by the gateway and its bridges, and the division
-- of the session budget. The lock table holds the slot files that some process has locked by
-- `flock`; opening and closing the files, and the mode bits, are not modelled.
pub mod Slots
pub mod Clients
pub mod Sharing
pub mod Waiting
pub mod Published
use pazuzu.Base.{
  ℕ, ℤ, pos, negsuc, zero, suc, ◌+◌, ◌-◌, Bool, true, false, ◌&&◌, ◌||◌, Option, none, some, List,
  [], ◌∷◌, ◌++◌, Text, codes, text_eq, ltb, leb, ◌==◌, if◌then◌else◌, decimal, parse_int,
}
use pazuzu.Errors.{Kind, Result, ok, raise, raise_if, ◌>>=◌, ◌>>◌}

-- The file `directory / f"{prefix}-{index}"`.
pub record SlotFile : Type 0 where
  pub directory : Text
  pub prefix : Text
  pub index : ℕ

unfoldable pub slot_eq : SlotFile → SlotFile → Bool
unfolding text_eq
slot_eq a b = a.index == b.index && text_eq a.prefix b.prefix && text_eq a.directory b.directory

abbrev pub Locks : Type 0
Locks = List SlotFile

-- Whether some process holds the lock.
unfoldable pub is_held : Locks → SlotFile → Bool
unfolding slot_eq
is_held [] f = false
is_held (g ∷ locks) f = slot_eq g f || is_held locks f

unfoldable pub unlock : Locks → SlotFile → Locks
unfolding slot_eq
unlock [] f = []
unlock (g ∷ locks) f = let rest = unlock locks f in if slot_eq g f then rest else g ∷ rest

-- `SessionLease`: the locked file, until it is released.
pub record SessionLease : Type 0 where
  pub handle : Option SlotFile

-- `SessionLease.release`
unfoldable pub release : SessionLease → Locks → SessionLease × Locks
release lease locks = elim lease.handle [
  | none ↦ (lease, locks)
  | some f ↦ (record { handle = none }, unlock locks f)
]

pub record SessionLeasePool : Type 0 where
  pub directory : Text
  pub size : ℕ
  pub start_slot : ℕ
  pub prefix : Text

-- The constructor. A natural `start_slot` is never negative.
unfoldable pub session_lease_pool : Text → ℕ → ℕ → Text → Result SessionLeasePool
session_lease_pool directory size start_slot prefix = do
  raise_if (ltb size 1) Kind.value_error (codes "session lease pool size must be positive")
  ok (record { directory = directory; size = size; start_slot = start_slot; prefix = prefix })

abbrev pub slot_file : SessionLeasePool → ℕ → SlotFile
slot_file pool index = record { directory = pool.directory; prefix = pool.prefix; index = index }

-- The loop of `_try_acquire` over the `left` slots from `index` on.
scan_slots : SessionLeasePool → Locks → ℕ → ℕ → Option (SessionLease × Locks)
scan_slots pool locks zero index = none
scan_slots pool locks (suc left) index =
    if is_held locks (slot_file pool index)
    then scan_slots pool locks left (index + 1)
    else some (record { handle = some (slot_file pool index) }, slot_file pool index ∷ locks)

-- `SessionLeasePool._try_acquire`
unfoldable pub try_acquire : SessionLeasePool → Locks → Option (SessionLease × Locks)
unfolding scan_slots is_held
try_acquire pool locks = scan_slots pool locks pool.size pool.start_slot

-- One round of the loop of `acquire`: the lock table at the poll, and the clock after it.
pub record Poll : Type 0 where
  pub locks : Locks
  pub clock : ℕ

pub data Acquired : Type 0 where
  leased : SessionLease → Locks → Acquired
  timed_out waiting : Acquired

abbrev pub deadline_passed : Option ℕ → ℕ → Bool
deadline_passed none clock = false
deadline_passed (some deadline) clock = leb deadline clock

-- The loops of `acquire` and `acquire_async`, over the rounds that the environment makes
-- possible; `waiting` means that the rounds given do not end it.
unfoldable pub acquire : SessionLeasePool → Option ℕ → List Poll → Acquired
acquire pool deadline [] = waiting
acquire pool deadline (poll ∷ polls) = elim (try_acquire pool poll.locks) [
  | some (lease, locks) ↦ leased lease locks
  | none ↦
      let rest = acquire pool deadline polls in
      if deadline_passed deadline poll.clock then timed_out else rest
]

pub record SessionBudget : Type 0 where
  pub directory : Text
  pub max_sessions : ℕ

-- `session_lease_directory`: `control_path.with_suffix(control_path.suffix + ".sessions")`.
abbrev pub session_lease_directory : Text → Text
session_lease_directory control_path = control_path ++ codes ".sessions"

-- The constructor.
unfoldable pub session_budget : Text → ℕ → Result SessionBudget
session_budget control_path max_sessions = do
  raise_if (ltb max_sessions 2) Kind.value_error
      (codes "max_sessions must leave one probe and one operation slot")
  ok (record { directory = session_lease_directory control_path; max_sessions = max_sessions })

-- The number in the published file, or `default` where it cannot be read or is no number.
abbrev published_value : Option Text → ℕ → ℤ
published_value none default = pos default
published_value (some text) default = elim (parse_int text) [ none ↦ pos default | some v ↦ v ]

abbrev in_range : ℤ → ℕ → ℕ
in_range (pos v) default = if leb 2 v && leb v 64 then v else default
in_range (negsuc v) default = default

-- `SessionBudget.published`; `none` is a file that cannot be read as ASCII.
unfoldable pub published : Text → ℕ → Option Text → Result SessionBudget
unfolding session_budget
published control_path default content =
    session_budget control_path (in_range (published_value content default) default)

-- What `SessionBudget.publish` leaves in the file.
unfoldable pub publish : SessionBudget → Text
publish budget = decimal budget.max_sessions ++ codes "\n"

unfoldable pub operations : SessionBudget → Result SessionLeasePool
unfolding session_lease_pool
operations budget = session_lease_pool budget.directory (budget.max_sessions - 1) 0 (codes "slot")

unfoldable pub bridges : SessionBudget → Result SessionLeasePool
unfolding session_lease_pool
bridges budget = do
  raise_if (ltb budget.max_sessions 3) Kind.value_error
      (codes "bridges need max_sessions of at least 3")
  session_lease_pool budget.directory (budget.max_sessions - 2) 0 (codes "slot")

unfoldable pub probes : SessionBudget → Result SessionLeasePool
unfolding session_lease_pool
probes budget = session_lease_pool budget.directory 1 0 (codes "probe")

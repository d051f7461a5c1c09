-- ===== src/Examples/Leases.antt =====
-- Leases and the bounded reader at small inputs.
use pazuzu.Base.{
  ◌≤◌, ◌≡◌, refl, ◌≢◌, ◌⊎◌, ◌↔◌, inl, true, none, some, List, [], ◌∷◌, Bytes, codes, length, take,
  ltb, arith, parse_int,
}
use pazuzu.Errors.{ok}
use pazuzu.Process.{read_bounded}
use pazuzu.Process.Bounded.{concat, read_bounded_lem}
use pazuzu.Lease.{
  SlotFile, Locks, SessionLease, SessionLeasePool, try_acquire, Poll, SessionBudget, session_budget,
  published, publish, operations, bridges, probes,
}
use pazuzu.Settings.{SshSettings, default_settings, validate}
use pazuzu.Lease.Slots.{FirstFree, Full, try_acquire_lem}
use pazuzu.Lease.Clients.{Step, Reach}
use pazuzu.Lease.Sharing.{Client, Bridge, Probe, Work, sessions_bounded, bridges_leave_room}
use pazuzu.Lease.Published.{published-publish}

abbrev chunks : List Bytes
chunks = (1 ∷ 2 ∷ []) ∷ (3 ∷ 4 ∷ []) ∷ []

read_bounded_lem_example :
    read_bounded 3 chunks ≡ (take 3 (concat chunks), ltb 3 (length (concat chunks)))
read_bounded_lem_example = read_bounded_lem 3 chunks

read_bounded_run : read_bounded 3 chunks ≡ (1 ∷ 2 ∷ 3 ∷ [], true)
unfolding read_bounded
read_bounded_run = refl

abbrev budget : SessionBudget
budget = record { directory = codes "/x/ssh.ctl.sessions"; max_sessions = 3 }

abbrev slots : SessionLeasePool
slots = record { directory = budget.directory; size = 2; start_slot = 0; prefix = codes "slot" }

abbrev bridge_slots : SessionLeasePool
bridge_slots = record {
  directory = budget.directory;
  size = 1;
  start_slot = 0;
  prefix = codes "slot";
}

abbrev probe_slots : SessionLeasePool
probe_slots = record {
  directory = budget.directory;
  size = 1;
  start_slot = 0;
  prefix = codes "probe";
}

abbrev slot_0 : SlotFile
slot_0 = record { directory = budget.directory; prefix = codes "slot"; index = 0 }

abbrev lease_0 : SessionLease
lease_0 = record { handle = some slot_0 }

acquire_first : try_acquire slots [] ≡ some (lease_0, slot_0 ∷ [])
unfolding try_acquire
acquire_first = refl

acquire_bridge : try_acquire bridge_slots [] ≡ some (lease_0, slot_0 ∷ [])
unfolding try_acquire
acquire_bridge = refl

budget_made : session_budget (codes "/x/ssh.ctl") 3 ≡ ok budget
unfolding session_budget
budget_made = refl

operations_made : operations budget ≡ ok slots
unfolding operations
operations_made = refl

bridges_made : bridges budget ≡ ok bridge_slots
unfolding bridges
bridges_made = refl

probes_made : probes budget ≡ ok probe_slots
unfolding probes
probes_made = refl

try_acquire_lem_example :
    ((lease : SessionLease) (locks' : Locks)
      → try_acquire slots (slot_0 ∷ []) ≡ some (lease, locks')
      → FirstFree slots (slot_0 ∷ []) 2 0 lease locks')
    × ((try_acquire slots (slot_0 ∷ []) ≡ none) ↔ Full slots (slot_0 ∷ []) 2 0)
try_acquire_lem_example = try_acquire_lem slots (slot_0 ∷ [])

abbrev late_round : List Poll
late_round = record { locks = slot_0 ∷ []; clock = 9 } ∷ []

bridge_runs : Reach (Client budget) (slot_0 ∷ [])
bridge_runs =
    Reach.next Reach.start (Step.acquires bridge_slots lease_0 (inl bridges_made) acquire_bridge)

sessions_bounded_example : length (slot_0 ∷ []) ≤ 3
sessions_bounded_example = sessions_bounded (codes "/x/ssh.ctl") 3 budget budget_made bridge_runs

only-Bridge_runs : Reach (λ p. Bridge budget p ⊎ Probe budget p) (slot_0 ∷ [])
only-Bridge_runs =
    Reach.next Reach.start (Step.acquires bridge_slots lease_0 (inl bridges_made) acquire_bridge)

bridges_leave_room_example : try_acquire slots (slot_0 ∷ []) ≢ none
bridges_leave_room_example =
    bridges_leave_room (codes "/x/ssh.ctl") 3 budget slots budget_made operations_made
      only-Bridge_runs

Work-runs : Reach Work (slot_0 ∷ [])
Work-runs =
    Reach.next Reach.start
      (Step.acquires bridge_slots lease_0 (budget, inl bridges_made) acquire_bridge)

published-publish_example : published (codes "/x/ssh.ctl") 8 (some (publish budget)) ≡ ok budget
published-publish_example =
    published-publish (codes "/x/ssh.ctl") 3 8 budget (omega arith) (omega arith) budget_made

abbrev default_budget : SessionBudget
default_budget = record { directory = budget.directory; max_sessions = 8 }

unreadable : published (codes "/x/ssh.ctl") 8 (some (codes "many")) ≡ ok default_budget
unfolding published parse_int
unreadable = refl

abbrev login : SshSettings
login = default_settings (codes "login") (codes "/x/ssh.ctl")

login_checks : validate login ≡ ok tt
unfolding validate
login_checks = refl

-- ===== src/Supervisor.antt =====
-- supervisor.py: the state of `OpenSshSupervisor`, what a failure or a success records in it, and
-- the pure functions of the module. The methods are in the child modules.
pub mod Machine
pub mod Repair
pub mod Backoff
pub mod Stable
pub mod Tasks
pub mod Kept
pub mod Invariant
pub mod Slots
pub mod Replay
pub mod Quiet
pub mod Verdicts
pub mod Attempts
pub mod Operations
pub mod Maintenance
use pazuzu.Base.{
  ℕ, zero, suc, ◌+◌, ◌-◌, ◌*◌, ◌^◌, Bool, true, false, Option, none, some, List, [], ◌∷◌, ◌++◌,
  Text, codes, map, any, has_substring, is_empty, length, drop, min, ltb, leb, ◌==◌, if◌then◌else◌,
  ◌&&◌,
}
use pazuzu.Errors
use pazuzu.Errors.{Kind, Result}
use pazuzu.Settings.{SshSettings}

-- The values of `_state`.
pub data Connection : Type 0 where
  offline authentication_required reconnecting connected stopped detached : Connection

-- The results of a session probe.
pub data Outcome : Type 0 where
  ok slow busy failed : Outcome

-- The results of `_check`.
pub data Verdict : Type 0 where
  healthy degraded replaced : Verdict

abbrev pub is_connected : Connection → Bool
is_connected Connection.connected = true
is_connected _ = false

abbrev pub needs_authentication : Connection → Bool
needs_authentication Connection.authentication_required = true
needs_authentication _ = false

abbrev pub is_ok : Outcome → Bool
is_ok Outcome.ok = true
is_ok _ = false

-- `outcome in {"slow", "busy"}`
abbrev pub is_ambiguous : Outcome → Bool
is_ambiguous Outcome.slow = true
is_ambiguous Outcome.busy = true
is_ambiguous _ = false

abbrev pub is_healthy : Verdict → Bool
is_healthy Verdict.healthy = true
is_healthy _ = false

-- `_probe_flight`: the epoch that a probe was started in, and whether its task is done.
pub record ProbeFlight : Type 0 where
  pub epoch : ℕ
  pub is_done : Bool

-- The attributes that change. Clock readings are in milliseconds, timestamps are texts.
pub record Supervisor : Type 0 where
  pub settings : SshSettings
  pub active : ℕ
  pub waiting : ℕ
  pub probe_flight : Option ProbeFlight
  pub repair_epoch : ℕ
  pub wake : Bool
  pub has_maintainer : Bool
  pub closed : Bool
  pub state : Connection
  pub generation : ℕ
  pub connected_at : Option Text
  pub last_success_at : Option Text
  pub last_failure_at : Option Text
  pub last_error : Option Text
  pub failures : ℕ
  pub next_attempt : ℕ
  pub probe_failures : ℕ
  pub last_probe : Option Outcome
  pub last_probe_seconds : Option ℕ

-- `OpenSshSupervisor.__init__`
abbrev pub open_ssh_supervisor : SshSettings → Supervisor
open_ssh_supervisor settings = record {
  settings = settings;
  active = 0;
  waiting = 0;
  probe_flight = none;
  repair_epoch = 0;
  wake = false;
  has_maintainer = false;
  closed = false;
  state = Connection.offline;
  generation = 0;
  connected_at = none;
  last_success_at = none;
  last_failure_at = none;
  last_error = none;
  failures = 0;
  next_attempt = 0;
  probe_failures = 0;
  last_probe = none;
  last_probe_seconds = none;
}

-- The delay of `_bounded_backoff`, in milliseconds.
unfoldable pub capped_backoff : ℕ → ℕ
capped_backoff failures = min 60_000 (5_000 * 2 ^ (failures - 1))

-- `_bounded_backoff`, which multiplies a float by a power of two: from 2 ** 1024 on, Python cannot
-- convert the power.
unfoldable pub bounded_backoff : ℕ → Result ℕ
bounded_backoff failures =
    if ltb failures 1_025
    then Errors.ok (capped_backoff failures)
    else Errors.raise Kind.overflow_error (codes "int too large to convert to float")

-- `time.monotonic() + ...`, or what was there before if the backoff raises.
abbrev retry_at : ℕ → ℕ → Result ℕ → ℕ
retry_at now before (Errors.ok delay) = now + delay
retry_at now before (Errors.err e) = before

auth_markers : List Text
auth_markers =
    codes "authentication failed"
    ∷ codes "authentication required"
    ∷ codes "certificate expired"
    ∷ codes "login required"
    ∷ codes "not logged in"
    ∷ codes "permission denied"
    ∷ codes "waiting on browser"
    ∷ []

-- `str.lower` on the letters of ASCII, which are the only ones that the markers hold.
lower : ℕ → ℕ
lower c = if leb b'A' c && leb c b'Z' then c + 32 else c

-- `any(item in lowered for item in AUTH_MARKERS)`
unfoldable pub has_auth_marker : Text → Bool
unfolding auth_markers lower has_substring
has_auth_marker detail = any (λ item. has_substring item (map lower detail)) auth_markers

unfoldable pub classify_connection_failure : Text → Connection
classify_connection_failure detail =
    if has_auth_marker detail then Connection.authentication_required else Connection.offline

-- `detail[-2000:]`
abbrev pub last_characters : ℕ → Text → Text
last_characters n text = drop (length text - n) text

-- `_record_connected`, at the time `timestamp`.
unfoldable pub record_connected : Text → Supervisor → Supervisor
record_connected timestamp s = record s {
  state = Connection.connected;
  connected_at = some timestamp;
  last_success_at = some timestamp;
  last_error = none;
  failures = 0;
  next_attempt = 0;
  probe_failures = 0;
  last_probe = none;
}

-- What `_record_failure` assigns, at the time `timestamp` and the clock reading `now`.
unfoldable pub record_failure : Text → ℕ → Text → Supervisor → Supervisor
unfolding bounded_backoff
record_failure timestamp now detail s = record s {
  state = classify_connection_failure detail;
  last_failure_at = some timestamp;
  last_error = some (last_characters 2000 detail);
  failures = s.failures + 1;
  next_attempt = retry_at now s.next_attempt (bounded_backoff (s.failures + 1));
}

-- `self._last_error or "..."`
abbrev or_default : Option Text → Text → Text
or_default none default = default
or_default (some text) default = if is_empty text then default else text

-- `_unavailable_message` at the clock reading `now`; `seconds` formats a delay by `:.0f`.
unfoldable pub unavailable_message : (ℕ → Text) → ℕ → Supervisor → Text
unavailable_message seconds now s =
    let retry_in = s.next_attempt - now in
    or_default s.last_error (codes "SSH connection is unavailable")
    ++ ((if retry_in == 0
          then []
          else codes "; automatic retry in " ++ (seconds retry_in ++ codes "s"))
        ++ (if needs_authentication s.state
            then codes "; reauthorise with the configured SSH provider, then run pazuzu reconnect"
            else []))

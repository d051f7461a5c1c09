-- ===== src/Transport.antt =====
-- transport.py: `OpenSshTransport`, its state and the commands that it runs. The methods that
-- check, probe and wait for a master are in Transport/Probing, the commands of a bridge in
-- Transport/Bridge.
pub mod Probing
pub mod Settling
pub mod Readiness
pub mod Living
pub mod Mastering
pub mod Startup
pub mod Signals
pub mod Ownership
pub mod Bridge
pub mod Bridging
pub mod Tidy
pub mod Balance
pub mod Steady
pub mod Foreign
pub mod Releasing
pub mod Launching
pub mod Starting
use pazuzu.Base.{
  ℕ, zero, suc, ◌+◌, ◌-◌, ℤ, pos, Bool, Option, none, some, List, [], ◌∷◌, ◌++◌, Text, Bytes, codes,
  decimal, is_empty, length, drop, strip, if◌then◌else◌,
}
use pazuzu.Errors.{Kind, Result, ok, err}
use pazuzu.Exec.{Exec, gets, raise, pure, ◌>>=◌}
use pazuzu.Process.{ProcessResult}
use pazuzu.Lease.{SessionLease, SessionBudget}
use pazuzu.Settings.{SshSettings}

-- The attributes: `master` is the process that this gateway started, if any, and `log_open` says whether
-- the handle of its log is open.
pub record OpenSshTransport : Type 0 where
  pub settings : SshSettings
  pub master : Option ℕ
  pub log_path : Option Text
  pub log_open : Bool
  pub start_count : ℕ
  pub budget : SessionBudget

-- A call of the operating system, newest first in a trace: `terminate` and `kill` signal a process
-- group, `spawn` has whether the call that starts a process returned it, and `verify` asks whether a
-- process is the recorded master, and has the answer. A `spawn` that is cancelled raises, though its
-- thread may have started a process all the same; no attribute and no receipt has that process.
pub data Step : Type 0 where
  take_probe_slot give_back_probe_slot : Step
  run : List Text → Step
  pause : ℕ → Step
  spawn : Bool → Step
  terminate kill wait_exit : ℕ → Step
  verify : ℕ → Bool → Step

-- What the transport uses of subprocesses, files and the clock; a world is what they depend on.
pub record Host (W : Type 0) : Type 0 where
  pub monotonic : W → ℕ
  pub format_seconds : ℕ → Text
  pub decode : Bytes → Text
  pub path_exists : Text → W → Bool
  pub poll : ℕ → W → Option ℤ
  pub new_log_path : Text → ℕ → W → Text
  pub read_log : Text → W → Option Bytes
  pub run_process : List Text → Bytes → ℕ → ℕ → W → Result ProcessResult × W
  pub acquire_probe : SessionBudget → ℕ → W → Result SessionLease × W
  pub release_probe : SessionLease → W → Result (Unit {0}) × W
  pub sleep : ℕ → W → W

pub record Site (W : Type 0) : Type 0 where
  pub transport : OpenSshTransport
  pub world : W
  pub trace : List Step

abbrev pub Method : Type 0 → Type 0 → Type 0
Method W A = Exec (Site W) A

module _ {W : Type 0} where
  -- A call that changes the world.
  unfoldable pub perform : {A : Type 0} → Step → (W → Result A × W) → Method W A
  perform step f site =
      let (r, world) = f site.world in
      (r, record { transport = site.transport; world = world; trace = step ∷ site.trace })

  unfoldable pub self : Method W OpenSshTransport
  self = gets (λ site. site.transport)

  unfoldable pub observe : {A : Type 0} → (W → A) → Method W A
  observe f = gets (λ site. f site.world)

-- The command of `_control_command`.
unfoldable pub control_argv : SshSettings → Text → List Text
control_argv settings operation =
    settings.ssh_binary
    ∷ codes "-S"
    ∷ settings.control_path
    ∷ codes "-o"
    ∷ codes "ConnectTimeout=5"
    ∷ codes "-O"
    ∷ operation
    ∷ settings.host
    ∷ []

-- The command of `session`.
unfoldable pub session_argv : SshSettings → Text → List Text
session_argv settings command =
    settings.ssh_binary
    ∷ codes "-T"
    ∷ codes "-S"
    ∷ settings.control_path
    ∷ codes "-o"
    ∷ codes "ControlMaster=no"
    ∷ codes "-o"
    ∷ codes "ControlPersist=no"
    ∷ codes "-o"
    ∷ codes "ProxyCommand=/usr/bin/false"
    ∷ codes "-o"
    ∷ codes "ConnectTimeout=5"
    ∷ settings.host
    ∷ command
    ∷ []

-- `_master_argv`; `seconds` formats a time by `:g`.
unfoldable pub master_argv : (ℕ → Text) → SshSettings → List Text
master_argv seconds settings =
    settings.ssh_binary
    ∷ codes "-T"
    ∷ codes "-N"
    ∷ codes "-S"
    ∷ settings.control_path
    ∷ codes "-o"
    ∷ codes "ControlMaster=yes"
    ∷ codes "-o"
    ∷ codes "ControlPersist=no"
    ∷ codes "-o"
    ∷ (codes "ConnectTimeout=" ++ seconds settings.connect_timeout)
    ∷ codes "-o"
    ∷ codes "ConnectionAttempts=1"
    ∷ codes "-o"
    ∷ (codes "ServerAliveInterval=" ++ decimal settings.keepalive_interval)
    ∷ codes "-o"
    ∷ (codes "ServerAliveCountMax=" ++ decimal settings.keepalive_count)
    ∷ settings.host
    ∷ []

module _ {W : Type 0} (host : Host W) where
  log_path : OpenSshTransport → W → Text
  log_path t w = elim t.log_path [
    | some path ↦ path
    | none ↦ host.new_log_path t.settings.control_path t.start_count w
  ]

  log_detail : Option Bytes → Text
  log_detail none = []
  log_detail (some content) = strip (host.decode (drop (length content - 8000) content))

  -- `_master_error`
  unfoldable pub master_error : Text → OpenSshTransport → W → Text
  unfolding log_path log_detail
  master_error prefix t w =
      let detail = log_detail (host.read_log (log_path t w) w) in
      if is_empty detail then prefix else prefix ++ (codes ": " ++ detail)

  -- `raise ConnectionUnavailable(self._master_error(prefix))`
  unfoldable pub raise_master_error : {A : Type 0} → Text → Method W A
  unfolding self observe
  raise_master_error prefix = do
    t ← self
    message ← observe (master_error prefix t)
    raise Kind.connection_unavailable message

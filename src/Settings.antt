-- ===== src/Settings.antt =====
-- transport.py: the settings of one private OpenSSH master, and the snapshot of a connected
-- master that direct clients get. Times are in milliseconds; a number of them that the program
-- refuses as not positive is 0 here.
pub mod Descriptor
pub mod Pools
use pazuzu.Base.{
  ℕ, ◌*◌, Bool, ◌&&◌, ◌||◌, not, Text, codes, ltb, leb, is_empty, has_char, min, length,
}
use pazuzu.Errors.{Kind, Result, ok, raise_if, ◌>>◌}

pub record SshSettings : Type 0 where
  pub host : Text
  pub control_path : Text
  pub ssh_binary : Text
  pub connect_timeout : ℕ
  pub probe_timeout : ℕ
  pub probe_interval : ℕ
  pub probe_failures : ℕ
  pub keepalive_interval : ℕ
  pub keepalive_count : ℕ
  pub connection_attempts : ℕ
  pub max_sessions : ℕ
  pub max_output_bytes : ℕ

abbrev pub default_max_sessions : ℕ
default_max_sessions = 8

-- The fields that have no default are the host and the control path.
abbrev pub default_settings : Text → Text → SshSettings
default_settings host control_path = record {
  host = host;
  control_path = control_path;
  ssh_binary = codes "/usr/bin/ssh";
  connect_timeout = 60_000;
  probe_timeout = 30_000;
  probe_interval = 60_000;
  probe_failures = 3;
  keepalive_interval = 15;
  keepalive_count = 3;
  connection_attempts = 2;
  max_sessions = default_max_sessions;
  max_output_bytes = 1024 * 1024;
}

-- `lo <= n <= hi`
abbrev pub is_between : ℕ → ℕ → ℕ → Bool
is_between lo hi n = leb lo n && leb n hi

-- `SshSettings.validate`; the control path counts in bytes, as it is ASCII here.
unfoldable pub validate : SshSettings → Result (Unit {0})
validate s = do
  raise_if (is_empty s.host) Kind.value_error (codes "SSH host must not be empty")
  raise_if (not (is_between 2 64 s.max_sessions)) Kind.value_error
      (codes "max_sessions must be between 2 and 64")
  raise_if (not (is_between 1 5 s.connection_attempts)) Kind.value_error
      (codes "connection_attempts must be between 1 and 5")
  raise_if (not (is_between 1 10 s.probe_failures)) Kind.value_error
      (codes "probe_failures must be between 1 and 10")
  raise_if (leb (min s.connect_timeout (min s.probe_timeout s.probe_interval)) 0) Kind.value_error
      (codes "SSH timeouts must be positive")
  raise_if (ltb 100 (length s.control_path)) Kind.value_error
      (codes "control socket path is too long; choose a path below 100 bytes")

-- `SshAttachment`
pub record SshAttachment : Type 0 where
  pub host : Text
  pub ssh_binary : Text
  pub control_path : Text
  pub generation : ℕ

-- `SshAttachment.__post_init__`: the constructor of a checked snapshot.
unfoldable pub ssh_attachment : Text → Text → Text → ℕ → Result SshAttachment
unfolding has_char
ssh_attachment host ssh_binary control_path generation = do
  raise_if (is_empty host || has_char 0 host) Kind.value_error
      (codes "attachment host must be non-empty and contain no NUL bytes")
  raise_if (is_empty ssh_binary || has_char 0 ssh_binary) Kind.value_error
      (codes "attachment SSH executable must be non-empty and contain no NUL bytes")
  raise_if (is_empty control_path || has_char 0 control_path) Kind.value_error
      (codes "attachment control path must be non-empty and contain no NUL bytes")
  raise_if (ltb generation 1) Kind.value_error
      (codes "attachment generation must be a positive integer")
  ok (record {
    host = host;
    ssh_binary = ssh_binary;
    control_path = control_path;
    generation = generation;
  })

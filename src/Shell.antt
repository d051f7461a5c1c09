-- ===== src/Shell.antt =====
-- shell.py: session names, the remote command, and the reporter of connection states. The loop that
-- attaches and reattaches is in Shell/Loop, and one attached SSH client in Shell/Attached.
pub mod Loop
pub mod Attached
pub mod Ended
pub mod Steady
pub mod Returns
pub mod Messages
pub mod Command
pub mod Progress
use pazuzu.Base.{
  ℕ, ◌+◌, ℤ, pos, negsuc, Bool, true, false, not, ◌&&◌, ◌||◌, Option, none, some, List, [], ◌∷◌,
  ◌++◌, Text, codes, text_eq, is_empty, has_char, length, leb, if◌then◌else◌,
}
use pazuzu.Errors.{Kind, Result, ok, raise, raise_if, ◌>>=◌, ◌>>◌}
use pazuzu.Json.{Json, Dict, get}
use pazuzu.Shlex.{quote, join}
use pazuzu.Settings.{SshAttachment}
use pazuzu.Slurm.{is_alphanumeric, matches}

-- `SESSION_PATTERN`
unfoldable pub is_session_name : Text → Bool
unfolding is_alphanumeric has_char
is_session_name s =
    matches is_alphanumeric (λ c. is_alphanumeric c || has_char c (codes "_.-")) s
    && leb (length s) 64

unfoldable pub validate_session_name : Text → Result Text
validate_session_name session = do
  raise_if (not (is_session_name session)) Kind.value_error (
      codes
        "session name must be 1-64 ASCII letters, digits, '.', '_', or '-', and start with a letter or digit")
  ok session

abbrev pub tmux_required_message : Text
tmux_required_message = codes "pazuzu shell requires tmux on the remote host"

-- The lines before the last of the remote command.
abbrev pub tmux_check : Text
tmux_check =
    codes "command -v tmux >/dev/null 2>&1 || {\n"
    ++ (codes "    printf '%s\\n' "
        ++ (quote tmux_required_message ++ codes " >&2\n    exit 127\n}\n"))

unfoldable pub remote_tmux_command : Text → Result Text
remote_tmux_command given = do
  session ← validate_session_name given
  ok (
      tmux_check
      ++ (codes "exec "
          ++ join (codes "tmux" ∷ codes "new-session" ∷ codes "-A" ∷ codes "-s" ∷ session ∷ [])))

unfoldable pub shell_argv : SshAttachment → Text → Result (List Text)
shell_argv attachment session = do
  command ← remote_tmux_command session
  ok (
      attachment.ssh_binary
      ∷ codes "-tt"
      ∷ codes "-S"
      ∷ attachment.control_path
      ∷ codes "-o"
      ∷ codes "ControlMaster=no"
      ∷ codes "-o"
      ∷ codes "ControlPersist=no"
      ∷ codes "-o"
      ∷ codes "ProxyCommand=/usr/bin/false"
      ∷ codes "-o"
      ∷ codes "ConnectTimeout=5"
      ∷ codes "--"
      ∷ attachment.host
      ∷ command
      ∷ [])

-- `require_interactive_terminal`, given `isatty()` of both streams.
unfoldable pub require_interactive_terminal : Bool → Bool → Result (Unit {0})
require_interactive_terminal stdin_isatty stdout_isatty =
    raise_if (not stdin_isatty || not stdout_isatty) Kind.value_error
      (codes "pazuzu shell requires an interactive terminal on stdin and stdout")

-- `_normalized_exit_code`; a negative code is a signal's number.
unfoldable pub normalized_exit_code : ℤ → ℤ
normalized_exit_code (pos n) = pos n
normalized_exit_code (negsuc n) = pos (128 + (n + 1))

-- `_connection_state`
unfoldable pub connection_state : Dict → Result Text
connection_state health = elim (get health (codes "connection")) [
  | some (Json.text (c ∷ state)) ↦ ok (c ∷ state)
  | _ ↦ raise Kind.protocol_error (codes "gateway status has no valid connection state")
]

abbrev pub authentication_message : Text
authentication_message =
    codes
      "pazuzu: SSH reauthorization is required.\nComplete the configured provider login in another terminal, then run\n`pazuzu reconnect`. Waiting to reattach; press Ctrl-C to stop.\n"

-- The message for a state that is new.
unfoldable pub state_message : Text → Text
state_message state =
    if text_eq state (codes "connected")
    then codes "pazuzu: connection restored; reattaching\n"
    else if text_eq state (codes "authentication_required")
    then authentication_message
    else if text_eq state (codes "reconnecting")
    then codes "pazuzu: reconnecting SSH; waiting to reattach\n"
    else if text_eq state (codes "offline")
    then codes "pazuzu: SSH connection is unavailable; waiting to reattach\n"
    else codes "pazuzu: SSH connection state is " ++ (state ++ codes "; waiting to reattach\n")

-- `_ConnectionReporter`; the stream is what was written to it, newest first.
pub record ConnectionReporter : Type 0 where
  pub stream : List Text
  pub last_state : Option Text

-- `state == self.last_state`
abbrev pub is_last : Text → Option Text → Bool
is_last state none = false
is_last state (some last) = text_eq state last

unfoldable pub connection_lost : ConnectionReporter → ConnectionReporter
connection_lost r = record {
  stream = codes "pazuzu: connection lost; remote tmux session is still running\n" ∷ r.stream;
  last_state = some (codes "lost");
}

unfoldable pub state_changed : Text → ConnectionReporter → ConnectionReporter
state_changed state r =
    if is_last state r.last_state
    then r
    else record { stream = state_message state ∷ r.stream; last_state = some state }

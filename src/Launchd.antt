-- ===== src/Launchd.antt =====
-- launchd.py: the agents of the gateway, of the MCP adapter and of the bridges, and their status.
-- Launchd/Services installs and removes them, Launchd/Files has their files, and what their arguments
-- say is in Launchd/Options.
pub mod Services
pub mod Options
pub mod Ending
pub mod Files
pub mod Written
pub mod Mounted
use pazuzu.Base.{
  ℕ, zero, suc, ◌+◌, ℤ, Bool, true, false, ◌&&◌, ◌||◌, not, Option, none, some, List, [], ◌∷◌, ◌++◌,
  Text, codes, text_eq, int_text, is_nat, is_digit, has_char, length, leb, parse_int, all, contains,
  if◌then◌else◌,
}
use pazuzu.Errors.{Kind, Exception, Result, ok, err}
use pazuzu.Exec.{Exec, pure, raise_if, gets, modify, ◌>>=◌, ◌>>◌}
use pazuzu.Slurm.{matches}

abbrev pub gateway_label : Text
gateway_label = codes "science.jamali.pazuzu.gateway"

abbrev pub mcp_label : Text
mcp_label = codes "science.jamali.pazuzu.mcp"

-- `BRIDGE_NAME`
unfoldable pub is_bridge_name : Text → Bool
unfolding is_digit has_char
is_bridge_name s =
    matches (λ c. leb b'a' c && leb c b'z' || is_digit c)
      (λ c. leb b'a' c && leb c b'z' || is_digit c || has_char c (codes "-")) s
    && leb (length s) 32

abbrev pub bad_name : Exception
bad_name = record {
  kind = Kind.value_error;
  message = codes "bridge name must be 1-32 lowercase letters, digits, or hyphens";
}

-- `_bridge_label`
unfoldable pub bridge_label : Text → Result Text
bridge_label name =
    if is_bridge_name name then ok (codes "science.jamali.pazuzu.bridge." ++ name) else err bad_name

-- The dictionary of `_plist`, less what is the same for all agents.
pub record Agent : Type 0 where
  pub label : Text
  pub program_arguments : List Text
  pub process_type : Text
  pub standard_out_path : Text
  pub standard_error_path : Text

-- What the module uses of the system: launchctl, the agents' files, sockets, the clock, and the paths
-- that it computes from the home directory.
pub record Mac (W : Type 0) : Type 0 where
  pub is_darwin : Bool
  pub domain : Text
  pub state_dir : Text
  pub socket_path : Text
  pub control_path : Text
  pub program : Text
  pub beside : Text → Text
  pub write_agent : Agent → W → Result Text × W
  pub program_arguments : Text → W → Result (List Text)
  pub bridge_labels : W → List Text
  pub remove_agent : Text → W → Option Text × W
  pub launchctl : List Text → W → Result (ℤ × Text) × W
  pub agent_path : Text → Text
  pub path_exists : Text → W → Bool
  pub run_ssh : List Text → W → Result (Unit {0}) × W
  pub unix_ready : Text → W → Bool
  pub tcp_ready : Text → ℤ → W → Bool
  pub monotonic : W → ℕ
  pub sleep : ℕ → W → W

-- `_option`
unfoldable pub option : List Text → Text → Option Text
option [] name = none
option (argument ∷ arguments) name =
    let rest = option arguments name in if text_eq argument name then first arguments else rest
  where
    first : List Text → Option Text
    first [] = none
    first (value ∷ values) = some value

unfoldable pub agent : Text → Text → List Text → Text → Text → Agent
agent state_dir label arguments log_name process_type = record {
  label = label;
  program_arguments = arguments;
  process_type = process_type;
  standard_out_path = state_dir ++ (codes "/" ++ (log_name ++ codes ".stdout.log"));
  standard_error_path = state_dir ++ (codes "/" ++ (log_name ++ codes ".stderr.log"));
}

unfoldable pub gateway_arguments : Text → Text → Text → Text → Option ℤ → List Text
gateway_arguments program host socket_path control_path max_sessions =
    program
    ∷ codes "serve"
    ∷ codes "--host"
    ∷ host
    ∷ codes "--socket"
    ∷ socket_path
    ∷ codes "--control-path"
    ∷ control_path
    ∷ elim max_sessions [ none ↦ [] | some n ↦ codes "--max-sessions" ∷ int_text n ∷ [] ]

unfoldable pub mcp_arguments : Text → Text → ℤ → List Text
mcp_arguments program socket_path port =
    program
    ∷ codes "--socket"
    ∷ socket_path
    ∷ codes "--transport"
    ∷ codes "streamable-http"
    ∷ codes "--port"
    ∷ int_text port
    ∷ []

unfoldable pub bridge_arguments : Text → Text → Text → Text → ℤ → Text → ℤ → List Text → List Text
bridge_arguments program host control_path listen_host listen_port remote_host remote_port
      remote_command =
    program
    ∷ codes "bridge"
    ∷ codes "--host"
    ∷ host
    ∷ codes "--control-path"
    ∷ control_path
    ∷ codes "--listen-host"
    ∷ listen_host
    ∷ codes "--listen-port"
    ∷ int_text listen_port
    ∷ codes "--remote-host"
    ∷ remote_host
    ∷ codes "--remote-port"
    ∷ int_text remote_port
    ∷ codes "--"
    ∷ remote_command

-- A host to connect to for a host to listen on.
unfoldable pub connect_host : Text → Text
connect_host host =
    if contains (codes "0.0.0.0" ∷ codes "::" ∷ []) host then codes "127.0.0.1" else host

-- `host or "127.0.0.1"`
abbrev pub or_local : Option Text → Text
or_local (some (c ∷ host)) = c ∷ host
or_local _ = codes "127.0.0.1"

abbrev status_text : Bool → Bool → Text
status_text loaded ready =
    if loaded && ready
    then codes "ready"
    else if loaded
    then codes "waiting"
    else codes "not_loaded"

module _ {W : Type 0} (mac : Mac W) where
  unfoldable pub launchctl : List Text → Exec W (ℤ × Text)
  launchctl arguments w = mac.launchctl arguments w

  abbrev service : Text → Text
  service label = mac.domain ++ (codes "/" ++ label)

  -- `_loaded`
  unfoldable pub is_loaded : Text → Exec W Bool
  is_loaded label = do
    (code, output) ← launchctl (codes "print" ∷ service label ∷ [])
    pure (is_nat code 0)

  -- `_wait_until_unloaded`, for a number of rounds; `false` if they do not end it.
  unfoldable pub wait_until_unloaded : ℕ → Text → ℕ → Exec W Bool
  wait_until_unloaded zero label deadline = pure false
  wait_until_unloaded (suc rounds) label deadline = do
    loaded ← is_loaded label
    if not loaded then pure true else (do
      now ← gets mac.monotonic
      raise_if (leb deadline now) Kind.runtime_error
          (codes "launchd did not unload " ++ (label ++ codes " within 5s"))
      modify (mac.sleep 50)
      wait_until_unloaded rounds label deadline)

  unfoldable pub unload : ℕ → Text → Exec W Bool
  unload rounds label = do
    launchctl (codes "bootout" ∷ service label ∷ [])
    now ← gets mac.monotonic
    wait_until_unloaded rounds label (now + 5_000)

  -- `_tcp_listener_ready`
  unfoldable pub tcp_listener_ready : Text → Option Text → W → Bool
  tcp_listener_ready host none w = false
  tcp_listener_ready host (some port) w = elim (parse_int port) [
    | none ↦ false
    | some n ↦ mac.tcp_ready (connect_host host) n w
  ]

  abbrev arguments_ready : Text → Result (List Text) → W → Result Bool
  arguments_ready label (err e) w = err e
  arguments_ready label (ok arguments) w = ok (
      if text_eq label mcp_label
      then tcp_listener_ready (codes "127.0.0.1") (option arguments (codes "--port")) w
      else tcp_listener_ready (or_local (option arguments (codes "--listen-host")))
          (option arguments (codes "--listen-port")) w)

  -- `_ready`
  unfoldable pub is_ready : Text → W → Result Bool
  is_ready label w =
      if text_eq label gateway_label
      then ok (mac.unix_ready mac.socket_path w)
      else arguments_ready label (mac.program_arguments label w) w

  -- The statuses of `service_status`, for these labels.
  unfoldable pub statuses : List Text → Exec W (List (Text × Text))
  statuses [] = pure []
  statuses (label ∷ labels) = do
    loaded ← is_loaded label
    ready ← (if loaded then (λ w. (is_ready label w, w)) else pure false)
    rest ← statuses labels
    pure ((label, status_text loaded ready) ∷ rest)

  unfoldable pub service_status : Exec W (List (Text × Text))
  service_status = do
    bridges ← gets mac.bridge_labels
    statuses (gateway_label ∷ mcp_label ∷ bridges)

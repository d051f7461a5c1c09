-- ===== src/Launchd/Mounted.antt =====
-- A Mac whose agents are files: what an agent is installed with is what its status looks at.
use pazuzu.Base.{ℕ, ℤ, ◌≡◌, refl, ap, ◌∙◌, some, List, Text, codes, int_text, parse_int-int_text}
use pazuzu.Errors.{Result, ok, err}
use pazuzu.Json.{Json}
use pazuzu.Launchd.{
  Agent, Mac, agent, bridge_label, bridge_arguments, is_ready, or_local, connect_host,
  tcp_listener_ready,
}
use pazuzu.Launchd.Options.{IsPlain, is_ready-bridge_arguments}
use pazuzu.Launchd.Files.{
  Files, IsFiles, domain, agent_path, write_agent, program_arguments, bridge_labels,
}
use pazuzu.Launchd.Written.{IsReplaced, write_agent-program_arguments}

-- The system of a user with this home directory and number; `str` is the one of Python.
unfoldable pub mac_on :
    {Content W : Type 0} → Files Content W → Text → (Json → Text) → ℕ → Mac W → Mac W
mac_on files home str uid mac = record mac {
  domain = domain uid;
  agent_path = agent_path home;
  write_agent = write_agent files home mac.state_dir;
  program_arguments = program_arguments files home str;
  bridge_labels = bridge_labels files home;
}

IsReplaced-ok :
    (home target : Text) (a : Agent) (before after : Result (List Text)) (r : Result Text)
    → IsReplaced home a before r after
    → r ≡ ok target
    → after ≡ ok a.program_arguments
IsReplaced-ok home target a before after (ok path) (_, new) same = new
IsReplaced-ok home target a before after (err e) old same = absurd (cc same)

tcp_listener_ready-int_text :
    {W : Type 0} (mac : Mac W) (host : Text) (n : ℤ) (w : W)
    → tcp_listener_ready mac host (some (int_text n)) w ≡ mac.tcp_ready (connect_host host) n w
unfolding tcp_listener_ready
tcp_listener_ready-int_text mac host n w = rw (parse_int-int_text n, tcp_listener_ready) refl

module _ (program host control_path listen_host : Text) (listen_port : ℤ) (remote_host : Text)
    (remote_port : ℤ) (remote_command : List Text) (plain_program : IsPlain program)
    (plain_host : IsPlain host) (plain_path : IsPlain control_path)
    (plain_listen : IsPlain listen_host) where
  abbrev arguments : List Text
  arguments =
      bridge_arguments program host control_path listen_host listen_port remote_host remote_port
        remote_command

  abbrev bridge_agent : Text → Text → Text → Agent
  bridge_agent state_dir label log_name =
      agent state_dir label arguments log_name (codes "Background")

  -- Once the file of a bridge's agent is written, the status of the bridge asks the address that it was
  -- installed to listen on, whatever was in the file before and whatever options its remote command
  -- has, if the program, the host, the control path and the listen host do not begin with a dash.
  pub is_ready-write_agent :
      {Content W : Type 0} (files : Files Content W) (is_files : IsFiles files) (home : Text)
      (str : Json → Text) (uid : ℕ) (mac : Mac W) (name label log_name target : Text) (w : W)
      → bridge_label name ≡ ok label
      → ((mac_on files home str uid mac).write_agent
          (bridge_agent mac.state_dir label log_name)
          w).0
        ≡ ok target
      → is_ready
          (mac_on files home str uid mac)
          label
          ((mac_on files home str uid mac).write_agent
            (bridge_agent mac.state_dir label log_name)
            w).1
        ≡ ok (
            mac.tcp_ready
              (connect_host (or_local (some listen_host)))
              listen_port
              ((mac_on files home str uid mac).write_agent
                (bridge_agent mac.state_dir label log_name)
                w).1)
  unfolding mac_on agent
  is_ready-write_agent files is_files home str uid mac name label log_name target w named done =
      is_ready-bridge_arguments program host control_path listen_host listen_port remote_host
        remote_port remote_command plain_program plain_host plain_path plain_listen
        (mac_on files home str uid mac) name label _ named
        (IsReplaced-ok home target (bridge_agent mac.state_dir label log_name) _ _ _
          (write_agent-program_arguments files is_files home mac.state_dir str
            (bridge_agent mac.state_dir label log_name) w)
          done)
      ∙ ap ok (
          tcp_listener_ready-int_text (mac_on files home str uid mac) (or_local (some listen_host))
            listen_port _)

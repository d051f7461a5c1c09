-- ===== src/Launchd/Options.antt =====
-- What is read back of the arguments of an installed agent.
use pazuzu.Base.{
  ℤ, ◌≡◌, refl, sym, Bool, true, false, Option, some, List, [], ◌∷◌, ◌++◌, Text, codes, arith,
  text_eq, starts_with, int_text, if◌then◌else◌,
}
use pazuzu.Errors.{ok_injective, ok, err}
use pazuzu.Launchd.{
  Mac, bad_name, gateway_label, mcp_label, is_bridge_name, bridge_label, option, bridge_arguments,
  gateway_arguments, or_local, is_ready, tcp_listener_ready,
}

-- A text that is no option.
abbrev pub IsPlain : Text → Type 0
IsPlain t = starts_with t (codes "-") ≡ false

IsPlain-ne : (t name : Text) → IsPlain t → text_eq t (b'-' ∷ name) ≡ false
unfolding starts_with text_eq
IsPlain-ne [] name h = refl
IsPlain-ne (c ∷ t) name h = ground arith

-- The host of the gateway that was installed.
pub option-gateway_arguments :
    (program host socket_path control_path : Text) (max_sessions : Option ℤ)
    → IsPlain program
    → option (gateway_arguments program host socket_path control_path max_sessions) (codes "--host")
      ≡ some host
unfolding option gateway_arguments text_eq
option-gateway_arguments program host socket_path control_path max_sessions h =
    rw (IsPlain-ne program (codes "-host") h) refl

bridge_label_ok :
    (name label : Text)
    → bridge_label name ≡ ok label
    → label ≡ codes "science.jamali.pazuzu.bridge." ++ name
unfolding bridge_label
bridge_label_ok name label h = ok_injective (go (is_bridge_name name) h)
  where
    go :
        (b : Bool)
        → (if b then ok (codes "science.jamali.pazuzu.bridge." ++ name) else err bad_name)
          ≡ ok label
        → ok label ≡ ok (codes "science.jamali.pazuzu.bridge." ++ name)
    go true k = sym k
    go false k = absurd (cc k)

-- A bridge's label is no other agent's.
bridge_label_ne :
    (name label : Text)
    → bridge_label name ≡ ok label
    → (text_eq label gateway_label ≡ false) × (text_eq label mcp_label ≡ false)
unfolding text_eq
bridge_label_ne name label h = rw (bridge_label_ok name label h) (refl, refl)

module _ (program host control_path listen_host : Text) (listen_port : ℤ) (remote_host : Text)
    (remote_port : ℤ) (remote_command : List Text) (plain_program : IsPlain program)
    (plain_host : IsPlain host) (plain_path : IsPlain control_path)
    (plain_listen : IsPlain listen_host) where
  abbrev arguments : List Text
  arguments =
      bridge_arguments program host control_path listen_host listen_port remote_host remote_port
        remote_command

  listen_host_option : option arguments (codes "--listen-host") ≡ some listen_host
  unfolding option bridge_arguments text_eq
  listen_host_option =
      rw
        (
          IsPlain-ne program (codes "-listen-host") plain_program,
          IsPlain-ne host (codes "-listen-host") plain_host,
          IsPlain-ne control_path (codes "-listen-host") plain_path,
        )
        refl

  listen_port_option : option arguments (codes "--listen-port") ≡ some (int_text listen_port)
  unfolding option bridge_arguments text_eq
  listen_port_option =
      rw
        (
          IsPlain-ne program (codes "-listen-port") plain_program,
          IsPlain-ne host (codes "-listen-port") plain_host,
          IsPlain-ne control_path (codes "-listen-port") plain_path,
          IsPlain-ne listen_host (codes "-listen-port") plain_listen,
        )
        refl

  -- The status of an installed bridge is asked of the address that it was installed to listen on, whatever
  -- options its remote command has, if the program, the host, the control path and the listen host do
  -- not begin with a dash.
  pub is_ready-bridge_arguments :
      {W : Type 0} (mac : Mac W) (name label : Text) (w : W)
      → bridge_label name ≡ ok label
      → mac.program_arguments label w ≡ ok arguments
      → is_ready mac label w
        ≡ ok (tcp_listener_ready mac (or_local (some listen_host)) (some (int_text listen_port)) w)
  unfolding is_ready
  is_ready-bridge_arguments mac name label w named written =
      let (not_gateway, not_mcp) = bridge_label_ne name label named in
      rw (written, not_gateway, not_mcp) (rw (listen_host_option, listen_port_option) refl)

-- ===== src/Transport/Bridge.antt =====
-- transport.py: the commands of a bridge, which forwards a port and runs a service over the master.
use pazuzu.Base.{
  ℕ, ◌||◌, not, List, [], ◌∷◌, ◌++◌, Text, codes, any, decimal, contains, has_char, is_empty,
}
use pazuzu.Errors.{Kind, Result, ok, raise_if, ◌>>=◌, ◌>>◌}
use pazuzu.Settings.{SshSettings, is_between, validate}
use pazuzu.Shlex.{quote, join}

-- `_bridge_spec`
unfoldable pub bridge_spec : SshSettings → Text → ℕ → Text → ℕ → Result Text
unfolding validate has_char
bridge_spec settings listen_host listen_port remote_host remote_port = do
  validate settings
  raise_if
      (is_empty listen_host
        || is_empty remote_host
        || has_char 0 listen_host
        || has_char 0 remote_host)
      Kind.value_error (codes "bridge hosts must be non-empty and contain no NUL bytes")
  raise_if (not (is_between 1 65_535 listen_port) || not (is_between 1 65_535 remote_port))
      Kind.value_error (codes "bridge ports must be between 1 and 65535")
  ok (
      listen_host
      ++ (b':' ∷ (decimal listen_port ++ (b':' ∷ (remote_host ++ (b':' ∷ decimal remote_port))))))

unfoldable pub bridge_control_argv : SshSettings → Text → Text → ℕ → Text → ℕ → Result (List Text)
unfolding bridge_spec contains
bridge_control_argv settings operation listen_host listen_port remote_host remote_port = do
  raise_if (not (contains (codes "forward" ∷ codes "cancel" ∷ []) operation)) Kind.value_error
      (codes "bridge control operation must be forward or cancel")
  forward ← bridge_spec settings listen_host listen_port remote_host remote_port
  ok (
      settings.ssh_binary
      ∷ codes "-S"
      ∷ settings.control_path
      ∷ codes "-o"
      ∷ codes "ControlMaster=no"
      ∷ codes "-o"
      ∷ codes "ProxyCommand=/usr/bin/false"
      ∷ codes "-o"
      ∷ codes "ExitOnForwardFailure=yes"
      ∷ codes "-O"
      ∷ operation
      ∷ codes "-L"
      ∷ forward
      ∷ settings.host
      ∷ [])

-- The remote script that holds a lock while the service runs and stops it when its input ends.
unfoldable pub lifecycle : ℕ → Text
lifecycle remote_port =
    codes "command -v flock >/dev/null 2>&1 || { "
    ++ (codes "echo \"pazuzu bridge: remote flock is required\" >&2; exit 69; }; "
        ++ (codes "host=$(hostname) || exit 69; "
            ++ (codes "case \"$host\" in *[!A-Za-z0-9._-]*) exit 69;; esac; "
                ++ (codes "lock_root=${XDG_RUNTIME_DIR:-\"$HOME/.cache\"}/pazuzu/bridges; "
                    ++ (codes "umask 077; mkdir -p \"$lock_root\" || exit 69; "
                        ++ ((codes "exec 9>\"$lock_root/bridge-$host-"
                              ++ (decimal remote_port ++ codes ".lock\" || exit 69; "))
                            ++ (codes "flock 9 || exit 69; child=; guard=; cleanup() { "
                                ++ (codes "[ -z \"$guard\" ] || kill \"$guard\" 2>/dev/null; "
                                    ++ (codes
                                          "[ -z \"$child\" ] || kill -TERM \"$child\" 2>/dev/null; }; "
                                        ++ (codes "trap cleanup HUP INT TERM; exec 3<&0; "
                                            ++ (codes "\"$@\" </dev/null & child=$!; "
                                                ++ (codes
                                                      "(IFS= read -r _ <&3 || kill -TERM \"$child\" 2>/dev/null) & guard=$!; "
                                                    ++ (codes "wait \"$child\"; code=$?; "
                                                        ++ (codes
                                                            "kill \"$guard\" 2>/dev/null; wait \"$guard\" 2>/dev/null; exit \"$code\""))))))))))))))

unfoldable pub bridge_session_argv : SshSettings → ℕ → List Text → Result (List Text)
unfolding validate has_char
bridge_session_argv settings remote_port remote_command = do
  validate settings
  raise_if (not (is_between 1 65_535 remote_port)) Kind.value_error
      (codes "bridge remote port must be between 1 and 65535")
  raise_if
      (is_empty remote_command || any (λ item. is_empty item || has_char 0 item) remote_command)
      Kind.value_error (codes "bridge remote command must contain non-empty arguments")
  ok (
      settings.ssh_binary
      ∷ codes "-T"
      ∷ codes "-S"
      ∷ settings.control_path
      ∷ codes "-o"
      ∷ codes "ControlMaster=no"
      ∷ codes "-o"
      ∷ codes "ControlPersist=no"
      ∷ codes "-o"
      ∷ codes "ProxyCommand=/usr/bin/false"
      ∷ settings.host
      ∷ (codes "exec sh -c "
          ++ (quote (lifecycle remote_port) ++ (codes " pazuzu-bridge " ++ join remote_command)))
      ∷ [])

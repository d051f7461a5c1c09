-- ===== src/Launchd/Services.antt =====
-- launchd.py: how the agents are loaded, installed and removed.
use pazuzu.Base.{
  ℕ, zero, suc, ◌+◌, ◌*◌, ℤ, Bool, true, not, Option, none, some, List, [], ◌∷◌, ◌++◌, Text, codes,
  int_text, is_nat, is_empty, strip, if◌then◌else◌,
}
use pazuzu.Errors.{Kind, ok}
use pazuzu.Exec.{
  Exec, pure, raise, raise_if, reraise, lift, gets, modify, attempt, handle, ◌>>=◌, ◌>>◌,
}
use pazuzu.Transport.Probing.{is_os_error}
use pazuzu.Launchd.{
  Agent, Mac, gateway_label, mcp_label, bridge_label, option, agent, gateway_arguments,
  mcp_arguments, bridge_arguments, launchctl, is_loaded, unload,
}

-- `detail or ...` in `_bootstrap`
abbrev failure_text : ℤ → Text → Text
failure_text code output =
    if is_empty (strip output) then codes "exit code " ++ int_text code else strip output

-- `except (OSError, subprocess.TimeoutExpired)`
abbrev is_unmanaged : Kind → Bool
is_unmanaged Kind.timeout_expired = true
is_unmanaged kind = is_os_error kind

-- `removed.append(target)`, if there was a file.
abbrev pub added : Option Text → Option (List Text) → Option (List Text)
added removed none = none
added none (some paths) = some paths
added (some path) (some paths) = some (path ∷ paths)

module _ {W : Type 0} (mac : Mac W) where
  -- The attempts of `_bootstrap` that are left, and the last failure.
  unfoldable pub bootstrap : ℕ → ℕ → Text → Text → Text → Exec W (Unit {0})
  bootstrap zero attempt_number label target failure =
      raise Kind.runtime_error (codes "could not load " ++ (label ++ (codes ": " ++ failure)))
  bootstrap (suc left) attempt_number label target failure = do
    (code, output) ← launchctl mac (codes "bootstrap" ∷ mac.domain ∷ target ∷ [])
    loaded ← (if is_nat code 0 then pure true else is_loaded mac label)
    if loaded then pure tt else (do
      modify (mac.sleep (200 * (attempt_number + 1)))
      bootstrap left (attempt_number + 1) label target (failure_text code output))

  -- `_install`; `none` if the rounds do not unload the agent that was there.
  unfoldable pub install : ℕ → Agent → Exec W (Option Text)
  install rounds content = do
    target ← mac.write_agent content
    unloaded ← unload mac rounds content.label
    if not unloaded
        then pure none
        else (do bootstrap 5 0 content.label target []; pure (some target))

  unfoldable pub configured_host : Exec W (Option Text)
  configured_host = do
    arguments ← (λ w. (mac.program_arguments gateway_label w, w))
    pure (option arguments (codes "--host"))

  -- `_executable`; `beside` is the path of a file beside the program's.
  unfoldable pub executable : Text → Exec W Text
  executable name = do
    exists ← gets (mac.path_exists (mac.beside name))
    raise_if (not exists) Kind.runtime_error (
        codes "could not find '"
        ++ (name
            ++ (codes "' beside "
                ++ (mac.program
                    ++ codes "; install Pazuzu with `uv tool install '.[mcp]'` first"))))
    pure (mac.beside name)

  -- The second agent of `install_services`.
  unfoldable pub install_mcp : ℕ → Text → Option ℤ → Exec W (Option (List Text))
  install_mcp rounds first none = pure (some (first ∷ []))
  install_mcp rounds first (some port) = do
    program ← executable (codes "pazuzu-mcp")
    second ← install rounds (
        agent mac.state_dir mcp_label (mcp_arguments program mac.socket_path port) (codes "mcp")
          (codes "Standard"))
    pure (elim second [ none ↦ none | some target ↦ some (first ∷ target ∷ []) ])

  unfoldable pub install_services : ℕ → Text → Option ℤ → Option ℤ → Exec W (Option (List Text))
  install_services rounds host mcp_port max_sessions = do
    raise_if (not mac.is_darwin) Kind.runtime_error
        (codes "LaunchAgent installation is available only on macOS")
    program ← executable (codes "pazuzu")
    installed ← install rounds (
        agent mac.state_dir gateway_label
          (gateway_arguments program host mac.socket_path mac.control_path max_sessions)
          (codes "gateway") (codes "Standard"))
    elim installed [ none ↦ pure none | some first ↦ install_mcp rounds first mcp_port ]

  -- `not host` too, where there is one.
  unfoldable pub some_host : Option Text → Exec W Text
  some_host (some (c ∷ host)) = pure (c ∷ host)
  some_host _ =
      raise Kind.runtime_error (codes "install the Pazuzu gateway before installing a bridge")

  unfoldable pub install_bridge : ℕ → Text → List Text → Text → ℤ → Text → ℤ → Exec W (Option Text)
  install_bridge rounds name remote_command listen_host listen_port remote_host remote_port = do
    found ← configured_host
    host ← some_host found
    raise_if (is_empty remote_command) Kind.value_error (codes "remote command must not be empty")
    label ← lift (bridge_label name)
    program ← executable (codes "pazuzu")
    install rounds (
        agent mac.state_dir label
          (bridge_arguments program host mac.control_path listen_host listen_port remote_host
            remote_port remote_command)
          (codes "bridge-" ++ name) (codes "Background"))

  -- The file of an agent, if there was one.
  unfoldable pub remove_file : Text → Exec W (Option Text)
  remove_file label w = let (removed, w') = mac.remove_agent label w in (ok removed, w')

  -- `remove_bridge`; `none` if the rounds do not unload it.
  unfoldable pub remove_bridge : ℕ → Text → Exec W (Option (Option Text))
  remove_bridge rounds name = do
    label ← lift (bridge_label name)
    unloaded ← unload mac rounds label
    if not unloaded then pure none else (do removed ← remove_file label; pure (some removed))

  -- `_stop_detached_master`
  unfoldable pub stop_detached_master : Option Text → Exec W (Unit {0})
  stop_detached_master none = pure tt
  stop_detached_master (some host) = do
    exists ← gets (mac.path_exists mac.control_path)
    if not exists then pure tt else (do
      tried ← attempt (λ w.
          mac.run_ssh
            (codes "/usr/bin/ssh"
              ∷ codes "-S"
              ∷ mac.control_path
              ∷ codes "-o"
              ∷ codes "ProxyCommand=/usr/bin/false"
              ∷ codes "-O"
              ∷ codes "exit"
              ∷ host
              ∷ [])
            w)
      handle tried pure (λ e. if is_unmanaged e.kind then pure tt else reraise e))

  -- The loop of `uninstall_services`.
  unfoldable pub uninstall : ℕ → List Text → Exec W (Option (List Text))
  uninstall rounds [] = pure (some [])
  uninstall rounds (label ∷ labels) = do
    unloaded ← unload mac rounds label
    if not unloaded then pure none else (do
      removed ← remove_file label
      rest ← uninstall rounds labels
      pure (added removed rest))

  unfoldable pub uninstall_services : ℕ → Exec W (Option (List Text))
  uninstall_services rounds = do
    host ← configured_host
    bridges ← gets mac.bridge_labels
    removed ← uninstall rounds (bridges ++ (mcp_label ∷ gateway_label ∷ []))
    elim removed [ none ↦ pure none | some paths ↦ stop_detached_master host >> pure (some paths) ]

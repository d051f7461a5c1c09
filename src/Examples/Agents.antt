-- ===== src/Examples/Agents.antt =====
-- A Mac on which one bridge is installed.
use pazuzu.Base.{pos, ◌≡◌, refl, none, [], ◌∷◌, codes, text_eq, starts_with}
use pazuzu.Errors.{ok}
use pazuzu.Exec.{◌>>=◌}
use pazuzu.Launchd.{
  Agent, Mac, agent, is_bridge_name, bridge_label, bridge_arguments, connect_host, is_ready,
}
use pazuzu.Launchd.Options.{IsPlain}
use pazuzu.Launchd.Files.{agent_path, temporary_path, write_plist, write_agent}
use pazuzu.Launchd.Mounted.{mac_on, is_ready-write_agent}
use pazuzu.Examples.Programs.{idle_mac}
use pazuzu.Examples.Files.{Disk, files, files-IsFiles}

-- The remote command has an option of the same name.
abbrev notebook : Agent
notebook =
    agent (codes "/x") (codes "science.jamali.pazuzu.bridge.notebook")
      (bridge_arguments (codes "/bin/pazuzu") (codes "login") (codes "/x/ssh.ctl")
        (codes "127.0.0.1") (pos 8_888) (codes "localhost") (pos 80)
        (codes "serve" ∷ codes "--listen-port" ∷ codes "80" ∷ []))
      (codes "bridge-notebook") (codes "Background")

abbrev mac : Mac Disk
mac = mac_on files (codes "/home") (λ v. []) 501 (idle_mac (λ w. 0) (λ n w. w))

abbrev empty : Disk
empty path = none

notebook_label :
    bridge_label (codes "notebook") ≡ ok (codes "science.jamali.pazuzu.bridge.notebook")
unfolding bridge_label is_bridge_name
notebook_label = refl

program-IsPlain : IsPlain (codes "/bin/pazuzu")
unfolding starts_with
program-IsPlain = refl

host-IsPlain : IsPlain (codes "login")
unfolding starts_with
host-IsPlain = refl

control_path-IsPlain : IsPlain (codes "/x/ssh.ctl")
unfolding starts_with
control_path-IsPlain = refl

listen_host-IsPlain : IsPlain (codes "127.0.0.1")
unfolding starts_with
listen_host-IsPlain = refl

notebook_written :
    (mac.write_agent notebook empty).0
    ≡ ok (codes "/home/Library/LaunchAgents/science.jamali.pazuzu.bridge.notebook.plist")
unfolding mac_on agent write_agent write_plist agent_path temporary_path text_eq ◌>>=◌
notebook_written = refl

is_ready-write_agent_example :
    is_ready mac (codes "science.jamali.pazuzu.bridge.notebook") (mac.write_agent notebook empty).1
    ≡ ok (
        (idle_mac (λ w. 0) (λ n w. w)).tcp_ready
          (connect_host (codes "127.0.0.1"))
          (pos 8_888)
          (mac.write_agent notebook empty).1)
is_ready-write_agent_example =
    is_ready-write_agent (codes "/bin/pazuzu") (codes "login") (codes "/x/ssh.ctl")
      (codes "127.0.0.1") (pos 8_888) (codes "localhost") (pos 80)
      (codes "serve" ∷ codes "--listen-port" ∷ codes "80" ∷ []) program-IsPlain host-IsPlain
      control_path-IsPlain listen_host-IsPlain files files-IsFiles (codes "/home") (λ v. []) 501
      (idle_mac (λ w. 0) (λ n w. w)) (codes "notebook")
      (codes "science.jamali.pazuzu.bridge.notebook") (codes "bridge-notebook") _ empty
      notebook_label notebook_written

-- ===== src/Examples/Shells.antt =====
-- Shells whose gateway always answers.
use pazuzu.Base.{
  ℕ, zero, suc, ◌-◌, arith, text_eq, ℤ, pos, negsuc, ◌≡◌, refl, true, false, Option, none, some,
  List, [], ◌∷◌, ◌++◌, Text, codes, is_some, has_char,
}
use pazuzu.Errors.{Result, ok}
use pazuzu.Exec.{handle, ◌>>=◌}
use pazuzu.Json.{Json, Dict, get}
use pazuzu.Settings.{SshAttachment}
use pazuzu.Shlex.{join}
use pazuzu.Shell.{
  ConnectionReporter, connection_state, normalized_exit_code, remote_tmux_command, is_session_name,
  validate_session_name, tmux_check,
}
use pazuzu.Shell.Loop.{Callbacks, Session, run_shell, ready_attachment}
use pazuzu.Shell.Progress.{Calls, Polled, ComesBack, back, later, ready_attachment-ComesBack}
use pazuzu.Shell.Returns.{IsRun, run_shell-IsRun}
use pazuzu.Shell.Attached.{Process, IsWaited, launched, finished, run_attached_ssh}
use pazuzu.Shell.Ended.{run_attached_ssh_ended}
use pazuzu.Shell.Command.{IsName, remote_tmux_command_ok}

-- The exit codes of the next clients.
abbrev Exits : Type 0
Exits = List ℤ

abbrev next_exit : Exits → Result ℤ × Exits
next_exit [] = (ok (pos 0), [])
next_exit (code ∷ exits) = (ok code, exits)

abbrev connected_health : Dict
connected_health = (codes "connection", Json.text (codes "connected")) ∷ []

abbrev attachment : SshAttachment
attachment = record {
  host = codes "login";
  ssh_binary = codes "/usr/bin/ssh";
  control_path = codes "/x/ssh.ctl";
  generation = 1;
}

abbrev callbacks : Callbacks Exits
callbacks = record {
  get_attachment = λ w. (ok attachment, w);
  reconnect = λ w. (ok connected_health, w);
  status = λ w. (ok connected_health, w);
  spawn_ssh = λ argv w. next_exit w;
  sleep = λ w. (ok tt, w);
  is_cancelled = λ w. false;
}

-- The connection breaks twice, then the user leaves.
abbrev session : Session Exits
session = record {
  reporter = record { stream = []; last_state = none };
  attached = [];
  world = pos 255 ∷ pos 255 ∷ pos 3 ∷ [];
}

run_shell-IsRun_example :
    let (r, s) = run_shell callbacks 5 5 (codes "main") 1_000 session in
    IsRun (codes "main") r s.attached
run_shell-IsRun_example = run_shell-IsRun callbacks 5 5 (codes "main") 1_000 session refl

main_command :
    remote_tmux_command (codes "main") ≡ ok (tmux_check ++ codes "exec tmux new-session -A -s main")
unfolding remote_tmux_command validate_session_name is_session_name join
main_command = refl

remote_tmux_command_ok_example :
    (tmux_check ++ codes "exec tmux new-session -A -s main"
      ≡ tmux_check ++ (codes "exec tmux new-session -A -s " ++ codes "main"))
    × IsName (codes "main")
remote_tmux_command_ok_example =
    remote_tmux_command_ok (codes "main") (tmux_check ++ codes "exec tmux new-session -A -s main")
      main_command

abbrev states : List Text
states =
    codes "offline"
    ∷ codes "offline"
    ∷ codes "reconnecting"
    ∷ codes "connected"
    ∷ codes "connected"
    ∷ []

-- A process that a signal ends; its world is the return code.
abbrev process : Process (Option ℤ)
process = record {
  is_cancelled = λ w. false;
  launch = λ argv w. (ok tt, none);
  race = λ w. (ok (some (negsuc 14)), some (negsuc 14));
  returncode = λ w. w;
  terminate = λ w. (ok tt, w);
  kill = λ w. (ok tt, w);
  wait_within = λ time w. (ok tt, some (pos 0));
  wait = λ w. (ok tt, some (pos 0));
}

process-IsWaited : IsWaited process
process-IsWaited = record { by_race = λ w code h. refl; by_wait = λ w h. refl }

signalled : (run_attached_ssh process (codes "ssh" ∷ []) none).0 ≡ ok (pos 143)
unfolding run_attached_ssh ◌>>=◌ has_char launched handle finished normalized_exit_code
signalled = refl

run_attached_ssh_ended_example :
    is_some (process.returncode (run_attached_ssh process (codes "ssh" ∷ []) none).1) ≡ true
run_attached_ssh_ended_example =
    run_attached_ssh_ended process process-IsWaited (codes "ssh" ∷ []) none (pos 143) refl signalled

-- A gateway whose connection is back after as many polls as its world says.
abbrev offline_health : Dict
offline_health = (codes "connection", Json.text (codes "offline")) ∷ []

abbrev health_after : ℕ → Dict
health_after zero = connected_health
health_after (suc n) = offline_health

abbrev recovering : Callbacks ℕ
recovering = record {
  get_attachment = λ w. (ok attachment, w);
  reconnect = λ w. (ok offline_health, w);
  status = λ w. (ok (health_after w), w);
  spawn_ssh = λ argv w. (ok (pos 0), w);
  sleep = λ w. (ok tt, w - 1);
  is_cancelled = λ w. false;
}

offline-Polled : (n : ℕ) → Polled recovering (suc n) offline_health (codes "offline") (suc n)
unfolding connection_state get text_eq
offline-Polled n = record {
  calls = record { before = refl; returns = refl; after = refl };
  says = refl;
}

connected-Polled : Polled recovering 0 connected_health (codes "connected") 0
unfolding connection_state get text_eq
connected-Polled = record {
  calls = record { before = refl; returns = refl; after = refl };
  says = refl;
}

sleeps : Calls recovering recovering.sleep 1 tt 0
sleeps = record { before = refl; returns = refl; after = refl }

comes_back : ComesBack recovering 1 (codes "offline") 1 0
unfolding text_eq
comes_back = later refl sleeps connected-Polled (back refl)

ready_attachment-ComesBack_example :
    (r : ConnectionReporter) × (ready_attachment recovering 3 none
        (record { reporter = session.reporter; attached = []; world = 1 })
      ≡ (ok (some attachment), record { reporter = r; attached = []; world = 0 }))
ready_attachment-ComesBack_example =
    ready_attachment-ComesBack recovering 2 session.reporter [] attachment (offline-Polled 0)
      comes_back (omega arith) (record { before = refl; returns = refl; after = refl })

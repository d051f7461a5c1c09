-- ===== src/Examples/Masters.antt =====
-- A transport whose master answers only after some rounds, on a host that is scripted: the world is
-- the clock, subprocesses take no time, and every session is refused.
use pazuzu.Base.{ℕ, ◌+◌, ◌≡◌, refl, false, none, some, [], ◌∷◌, codes, arith, pos, leb, has_char}
use pazuzu.Errors.{Exception, ok, err}
use pazuzu.Process.{ProcessResult}
use pazuzu.Lease.{SessionLease}
use pazuzu.Settings.{SshSettings, SshAttachment, default_settings, ssh_attachment}
use pazuzu.Settings.Descriptor.{path_text, as_dict, from_dict, from_dict-as_dict}
use pazuzu.Transport.{Step, Host, Site, session_argv}
use pazuzu.Transport.Probing.{probe, wait_until_ready}
use pazuzu.Transport.Settling.{probe_trace}
use pazuzu.Transport.Readiness.{IsClock, IsAnswered, wait_until_ready-IsAnswered}

abbrev pub login : SshSettings
login = default_settings (codes "login") (codes "/x/ssh.ctl")

abbrev attachment : SshAttachment
attachment = record {
  host = codes "login";
  ssh_binary = codes "/usr/bin/ssh";
  control_path = codes "/x/ssh.ctl";
  generation = 3;
}

attachment_checks :
    ssh_attachment (codes "login") (codes "/usr/bin/ssh") (codes "/x/ssh.ctl") 3 ≡ ok attachment
unfolding ssh_attachment has_char
attachment_checks = refl

path_normal : path_text (codes "/x/ssh.ctl") ≡ codes "/x/ssh.ctl"
unfolding path_text
path_normal = refl

path_collapses : path_text (codes "/x//./ssh.ctl/") ≡ codes "/x/ssh.ctl"
unfolding path_text
path_collapses = refl

from_dict-as_dict_example : from_dict (as_dict attachment) ≡ ok attachment
from_dict-as_dict_example = from_dict-as_dict attachment attachment_checks path_normal

abbrev refused : ProcessResult
refused = record {
  exit_code = pos 255;
  stdout = [];
  stderr = codes "Session open refused by peer";
  stdout_truncated = false;
  stderr_truncated = false;
}

abbrev pub slot : SessionLease
slot = record { handle = none }

abbrev pub late : Host ℕ
late = record {
  monotonic = λ w. w;
  format_seconds = λ n. [];
  decode = λ b. b;
  path_exists = λ path w. leb 3_000 w;
  poll = λ pid w. none;
  new_log_path = λ path n w. path;
  read_log = λ path w. none;
  run_process = λ argv stdin timeout limit w. (ok refused, w);
  acquire_probe = λ budget timeout w. (ok slot, w);
  release_probe = λ lease w. (ok tt, w);
  sleep = λ n w. w + n;
}

pub late-IsClock : IsClock late
late-IsClock = record {
  runs = λ argv stdin timeout limit w. omega arith;
  sleeps = λ n w. omega arith;
}

abbrev pub site : Site ℕ
site = record {
  transport = record {
    settings = login;
    master = some 71;
    log_path = none;
    log_open = false;
    start_count = 1;
    budget = record { directory = codes "/x/ssh.ctl.sessions"; max_sessions = 8 };
  };
  world = 1_000;
  trace = [];
}

probe_trace_example :
    ((lease : SessionLease)
      → ok slot ≡ ok lease
      → (probe late site).1.trace
        ≡ Step.give_back_probe_slot
          ∷ Step.run (session_argv login (codes "true"))
          ∷ Step.take_probe_slot
          ∷ [])
    × ((e : Exception) → ok slot ≡ err e → (probe late site).1.trace ≡ Step.take_probe_slot ∷ [])
probe_trace_example = probe_trace late site

wait_until_ready-IsAnswered_example : IsAnswered (wait_until_ready late 651 site).0
wait_until_ready-IsAnswered_example =
    wait_until_ready-IsAnswered late late-IsClock site 650 (omega arith)

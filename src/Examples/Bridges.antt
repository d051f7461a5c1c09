-- ===== src/Examples/Bridges.antt =====
-- A bridge whose service ends twice before it is shut down, and a master that is stopped.
use pazuzu.Base.{
  ℕ, suc, ℤ, pos, negsuc, ◌≡◌, refl, arith, true, false, is_some, Option, none, some, [], ◌∷◌,
  codes, leb,
}
use pazuzu.Errors.{Kind, ok, raise, is_timeout_error}
use pazuzu.Exec.{pure, handle, ◌>>=◌}
use pazuzu.Transport.Bridging.{Machine, Bridge, control_bridge, control_outcome, run_bridge}
use pazuzu.Process.Running.{Group, IsWaited, suppress_lookup, stop_process}
use pazuzu.Process.Stopping.{IsStopped, stop_process-IsStopped}
use pazuzu.Transport.Tidy.{IsDone}
use pazuzu.Transport.Balance.{IsQuiet, run_bridge-IsDone}
use pazuzu.Transport.Mastering.{Posix, stop_master}
use pazuzu.Transport.Startup.{start_master}
use pazuzu.Transport.Signals.{IsAuthorized}
use pazuzu.Transport.Ownership.{stop_master-IsAuthorized}
use pazuzu.Transport.{Site}
use pazuzu.Transport.Foreign.{IsPosix}
use pazuzu.Transport.Releasing.{IsStarted}
use pazuzu.Transport.Starting.{start_master-IsStarted}
use pazuzu.Examples.Masters.{login, late, late-IsClock, site, slot}

-- The world counts the waits.
abbrev machine : Machine ℕ
machine = record {
  run = λ argv w. (ok (pos 0, []), w);
  serve = λ argv w. (ok (pos 1), w);
  acquire = λ pool timeout w. (ok slot, w);
  release = λ lease w. (ok tt, w);
  wait_for_retry = λ delay w. (false, suc w);
  is_stopped = λ w. leb 2 w;
  monotonic = λ w. 0;
  published_budget = λ w. none;
  decode = λ b. b;
}

machine-IsQuiet : IsQuiet machine
unfolding control_bridge control_outcome pure
machine-IsQuiet argv w = refl

abbrev bridge : Bridge ℕ
bridge = record { forward_registered = false; world = 0; trace = [] }

run_bridge-IsDone_example :
    IsDone
      (run_bridge machine login
        (codes "127.0.0.1")
        8_080
        (codes "localhost")
        80
        (codes "serve" ∷ [])
        9
        bridge).1
run_bridge-IsDone_example =
    run_bridge-IsDone machine login (codes "127.0.0.1") 8_080 (codes "localhost") 80
      (codes "serve" ∷ []) 9 bridge machine-IsQuiet (refl, refl, tt)

-- A receipt names process 72, which is such a master.
abbrev posix : Posix ℕ
posix = record {
  open_log = λ path w. (ok tt, w);
  spawn = λ argv w. (ok 71, w);
  create = λ path content w. (ok tt, w);
  replace = λ source target w. (ok tt, w);
  unlink = λ path w. (ok tt, w);
  read_text = λ path w. some (codes "72\n");
  getpgid = λ pid w. some pid;
  ps = λ pid w. some (pos 0, codes "/usr/bin/ssh -T -N -S /x/ssh.ctl -o ControlMaster=yes login");
  terminate_group = λ pid w. (ok tt, w);
  kill_group = λ pid w. (ok tt, w);
  wait_exit = λ pid timeout w. (ok tt, w);
}

stop_master-IsAuthorized_example : IsAuthorized (some 71) (stop_master late posix site).1.trace
stop_master-IsAuthorized_example = stop_master-IsAuthorized late posix site tt

posix-IsPosix : IsPosix posix
posix-IsPosix = record {
  opens = λ path w. tt;
  spawns = λ argv w. tt;
  terminates = λ pid w. tt;
  kills = λ pid w. tt;
  waits = λ pid time w. tt;
  unlinks = λ path w. tt;
  creates = λ target content w. tt;
  replaces = λ source target w. tt;
}

abbrev new_site : Site ℕ
new_site = record site { transport = record site.transport { master = none } }

-- The master that is started refuses every session.
start_master-IsStarted_example :
    let (r, site') = start_master late posix (codes "/x/") (codes "ssh.ctl.owner") 651 new_site in
    IsStarted late r site'
start_master-IsStarted_example =
    start_master-IsStarted late posix late-IsClock posix-IsPosix (codes "/x/")
      (codes "ssh.ctl.owner") 650 new_site refl (omega arith)

-- A process that ignores the first signal; its world is the return code.
abbrev stubborn : Group (Option ℤ)
stubborn = record {
  spawn = λ argv piped w. (ok tt, none);
  finish = λ stdin timeout w. (raise Kind.timeout_error [], w);
  gather = λ w. (ok tt, w);
  returncode = λ w. w;
  terminate = λ w. (ok tt, w);
  kill = λ w. (ok tt, w);
  wait_within = λ time w. (raise Kind.timeout_error [], w);
  wait = λ w. (ok tt, some (negsuc 8));
}

stubborn-IsWaited : IsWaited stubborn
stubborn-IsWaited = record { by_wait = λ w h. refl; by_wait_within = λ time w h. absurd (cc h) }

stubborn_stops : (stop_process stubborn none).0 ≡ ok tt
unfolding stop_process ◌>>=◌ suppress_lookup handle is_timeout_error
stubborn_stops = refl

stop_process-IsStopped_example :
    IsStopped stubborn none (stop_process stubborn none).1
    × (is_some (stubborn.returncode (stop_process stubborn none).1) ≡ true)
stop_process-IsStopped_example =
    stop_process-IsStopped stubborn stubborn-IsWaited none stubborn_stops

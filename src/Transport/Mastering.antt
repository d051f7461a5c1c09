-- ===== src/Transport/Mastering.antt =====
-- transport.py: stopping the process of a master, and the receipt that lets a replacement gateway
-- find it. Transport/Startup starts one.
use pazuzu.Base.{
  ℕ, zero, suc, ℤ, pos, Bool, true, false, ◌&&◌, not, Option, none, some, is_some, List, ◌∷◌, ◌++◌,
  Text, codes, decimal, strip, all, is_digit, is_empty, parse_int, has_substring, is_nat, ◌==◌,
  if◌then◌else◌,
}
use pazuzu.Errors.{Kind, Result, ok}
use pazuzu.Exec.{pure, reraise, modify, attempt, handle, ◌>>=◌, ◌>>◌}
use pazuzu.Settings.{SshSettings}
use pazuzu.Transport.{OpenSshTransport, Step, Host, Method, perform, self, observe}
use pazuzu.Transport.Probing.{control_command, control_check}

-- What starting and stopping use of the operating system besides: files, process groups, `ps` and
-- the start of a process.
pub record Posix (W : Type 0) : Type 0 where
  pub open_log : Text → W → Result (Unit {0}) × W
  pub spawn : List Text → W → Result ℕ × W
  pub create : Text → Text → W → Result (Unit {0}) × W
  pub replace : Text → Text → W → Result (Unit {0}) × W
  pub unlink : Text → W → Result (Unit {0}) × W
  pub read_text : Text → W → Option Text
  pub getpgid : ℕ → W → Option ℕ
  pub ps : ℕ → W → Option (ℤ × Text)
  pub terminate_group : ℕ → W → Result (Unit {0}) × W
  pub kill_group : ℕ → W → Result (Unit {0}) × W
  pub wait_exit : ℕ → ℕ → W → Result (Unit {0}) × W

-- `_master_owner_file`
unfoldable pub master_owner_file : Text → Text
master_owner_file control_path = control_path ++ codes ".owner"

-- The name of the temporary file beside it; `parent` is the directory with a slash, `name` the rest.
unfoldable pub temporary_name : Text → Text → ℕ → Text
temporary_name parent name pid =
    parent ++ (codes "." ++ (name ++ (codes "." ++ (decimal pid ++ codes ".tmp"))))

abbrev positive_int : Option ℤ → Option ℕ
positive_int (some (pos (suc n))) = some (suc n)
positive_int _ = none

-- `_read_master_owner`, on what the receipt holds.
unfoldable pub read_owner : Option Text → Option ℕ
read_owner none = none
read_owner (some content) =
    if not (is_empty (strip content)) && all is_digit (strip content)
    then positive_int (parse_int (strip content))
    else none

-- The test of `_is_recorded_master` on what `ps` prints.
unfoldable pub names_master : SshSettings → Option (ℤ × Text) → Bool
names_master settings none = false
names_master settings (some (code, output)) =
    is_nat code 0
    && has_substring settings.ssh_binary (strip output)
    && has_substring (codes " -N ") (strip output)
    && has_substring settings.control_path (strip output)
    && has_substring (codes "ControlMaster=yes") (strip output)
    && has_substring settings.host (strip output)

abbrev is_leader : ℕ → Option ℕ → Bool
is_leader pid none = false
is_leader pid (some group) = group == pid

abbrev pub is_lookup_error : Kind → Bool
is_lookup_error Kind.process_lookup_error = true
is_lookup_error _ = false

abbrev pub is_expired : Kind → Bool
is_expired Kind.timeout_expired = true
is_expired _ = false

module _ {W : Type 0} where
  -- `with contextlib.suppress(...)`
  unfoldable pub suppress : (Kind → Bool) → Method W (Unit {0}) → Method W (Unit {0})
  suppress expected action = do
    tried ← attempt action
    handle tried pure (λ e. if expected e.kind then pure tt else reraise e)

  -- Assignments to attributes.
  unfoldable pub update : (OpenSshTransport → OpenSshTransport) → Method W (Unit {0})
  unfolding modify
  update f = modify (λ site. record site { transport = f site.transport })

module _ {W : Type 0} (host : Host W) (posix : Posix W) where
  -- A call that is not in the trace.
  unfoldable pub outside : {A : Type 0} → (W → Result A × W) → Method W A
  outside f site = let (r, w) = f site.world in (r, record site { world = w })

  unfoldable pub pause : Method W (Unit {0})
  pause = perform (Step.pause 100) (λ w. (ok tt, host.sleep 100 w))

  -- `_is_recorded_master`
  unfoldable pub is_recorded : SshSettings → ℕ → W → Bool
  is_recorded settings pid w =
      is_leader pid (posix.getpgid pid w) && names_master settings (posix.ps pid w)

  unfoldable pub verify : ℕ → Method W Bool
  verify pid site =
      let answer = is_recorded site.transport.settings pid site.world in
      (ok answer, record site { trace = Step.verify pid answer ∷ site.trace })

  unfoldable pub terminate : ℕ → Method W (Unit {0})
  terminate pid =
      suppress is_lookup_error (perform (Step.terminate pid) (posix.terminate_group pid))

  unfoldable pub kill : ℕ → Method W (Unit {0})
  kill pid = suppress is_lookup_error (perform (Step.kill pid) (posix.kill_group pid))

  -- The loop of `_stop_recorded_master`: whether the process is no longer there.
  unfoldable pub recorded_rounds : ℕ → ℕ → Method W Bool
  recorded_rounds zero pid = pure false
  recorded_rounds (suc rounds) pid = do
    there ← verify pid
    if not there then pure true else (do pause; recorded_rounds rounds pid)

  unfoldable pub stop_verified : ℕ → Method W (Unit {0})
  stop_verified pid = do
    there ← verify pid
    if not there
        then pure tt
        else (do terminate pid; gone ← recorded_rounds 20 pid; if gone then pure tt else kill pid)

  -- `_stop_recorded_master`
  unfoldable pub stop_recorded_master : Method W (Unit {0})
  stop_recorded_master = do
    t ← self
    content ← observe (posix.read_text (master_owner_file t.settings.control_path))
    elim (read_owner content) [ none ↦ pure tt | some pid ↦ stop_verified pid ]

  -- A loop that polls the process.
  unfoldable pub poll_rounds : ℕ → ℕ → Method W (Unit {0})
  poll_rounds zero pid = pure tt
  poll_rounds (suc rounds) pid = do
    code ← observe (host.poll pid)
    if is_some code then pure tt else (do pause; poll_rounds rounds pid)

  unfoldable pub stop_process : ℕ → Method W (Unit {0})
  stop_process pid = do
    poll_rounds 20 pid
    code ← observe (host.poll pid)
    (if is_some code then pure tt else (do terminate pid; poll_rounds 20 pid))
    code' ← observe (host.poll pid)
    (if is_some code' then pure tt else kill pid)
    suppress is_expired (perform (Step.wait_exit pid) (posix.wait_exit pid 1_000))

  -- `_stop_owned_master`
  unfoldable pub stop_owned_master : Method W (Unit {0})
  stop_owned_master = do
    t ← self
    update (λ s. record s { master = none })
    elim t.master [ none ↦ pure tt | some pid ↦ stop_process pid ]

  -- `_release_master_state`
  unfoldable pub release_master_state : Method W (Unit {0})
  release_master_state = do
    update (λ s. record s { log_path = none; log_open = false })
    t ← self
    outside (posix.unlink t.settings.control_path)
    outside (posix.unlink (master_owner_file t.settings.control_path))

  -- `stop_master`
  unfoldable pub stop_master : Method W (Unit {0})
  stop_master = do
    answers ← control_check host
    (if answers then control_command host (codes "exit") >> pure tt else pure tt)
    stop_owned_master
    stop_recorded_master
    release_master_state

  -- `detach_master`
  unfoldable pub detach_master : Method W (Unit {0})
  detach_master = update (λ s. record s { log_open = false })

-- ===== src/Transport/Startup.antt =====
-- transport.py: starting the process of a master, and writing its receipt.
use pazuzu.Base.{
  ℕ, ◌+◌, Bool, true, false, some, List, [], ◌∷◌, ◌++◌, Text, codes, decimal, if◌then◌else◌,
}
use pazuzu.Errors.{Kind, Result, ok, err}
use pazuzu.Exec.{pure, raise, reraise, attempt, handle, finally, ◌>>=◌, ◌>>◌}
use pazuzu.Transport.{Step, Host, Method, self, observe, master_argv}
use pazuzu.Transport.Probing.{is_os_error, wait_until_ready}
use pazuzu.Transport.Mastering.{
  Posix, master_owner_file, temporary_name, update, outside, stop_owned_master,
  release_master_state,
}

abbrev pub has_returned : Result ℕ → Bool
has_returned (ok pid) = true
has_returned (err e) = false

module _ {W : Type 0} (host : Host W) (posix : Posix W) where
  -- `_write_master_owner`; `target` is the receipt, and `temporary` the file that is renamed to it.
  unfoldable pub write_master_owner : Text → Text → ℕ → Method W (Unit {0})
  write_master_owner target temporary pid =
      finally
        (do
          outside host posix (posix.create temporary (decimal pid ++ (10 ∷ [])))
          outside host posix (posix.replace temporary target))
        (outside host posix (posix.unlink temporary))

  -- What a start that failed undoes.
  unfoldable pub abandon : Method W (Unit {0})
  abandon = do stop_owned_master host posix; release_master_state host posix

  -- `_spawn_master` in a thread, which a cancelled call leaves to run.
  unfoldable pub spawn_master : List Text → Method W ℕ
  spawn_master argv site =
      let (r, world) = posix.spawn argv site.world in
      (r, record site { world = world; trace = Step.spawn (has_returned r) ∷ site.trace })

  -- Up to the master's process.
  unfoldable pub launch_master : Method W ℕ
  launch_master = do
    t ← self
    outside host posix (posix.unlink t.settings.control_path)
    update (λ s. record s { start_count = s.start_count + 1 })
    path ← observe (host.new_log_path t.settings.control_path (t.start_count + 1))
    update (λ s. record s { log_path = some path })
    outside host posix (posix.open_log path)
    update (λ s. record s { log_open = true })
    launched ← attempt (spawn_master (master_argv host.format_seconds t.settings))
    handle launched pure (λ e.
        if is_os_error e.kind
        then release_master_state host posix
          >> raise Kind.connection_unavailable
              (codes "could not launch OpenSSH master: " ++ e.message)
        else reraise e)

  -- The receipt of a master that runs.
  unfoldable pub own_master : (ℕ → Text) → ℕ → Method W (Unit {0})
  own_master temporary pid = do
    t ← self
    written ←
        attempt (write_master_owner (master_owner_file t.settings.control_path) (temporary pid) pid)
    handle written pure (λ e.
        if is_os_error e.kind
        then abandon
          >> raise Kind.connection_unavailable
              (codes "could not persist OpenSSH master ownership: " ++ e.message)
        else reraise e)

  -- `start_master`, with so many rounds to wait; `false` if they do not end the wait. The receipt
  -- is the file `name` in `parent`.
  unfoldable pub start_master : Text → Text → ℕ → Method W Bool
  start_master parent name rounds = do
    pid ← launch_master
    update (λ s. record s { master = some pid })
    own_master (temporary_name parent name) pid
    ready ← attempt (wait_until_ready host rounds)
    handle ready pure (λ e. abandon >> reraise e)

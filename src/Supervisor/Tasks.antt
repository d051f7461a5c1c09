-- ===== src/Supervisor/Tasks.antt =====
-- The tasks that the event loop runs on one supervisor: a public method, or the maintenance loop
-- for some number of rounds.
use pazuzu.Base.{ℕ, Bool, List, Text, Bytes}
use pazuzu.Exec.{pure, ◌>>◌}
use pazuzu.Transfer.{Tool}
use pazuzu.Supervisor.Machine.{Env, Action}
use pazuzu.Supervisor.Operations
use pazuzu.Supervisor.Maintenance

pub data Task : Type 0 where
  execute : Text → Bytes → ℕ → Bool → Task
  reconnect health : Bool → Task
  connection_attachment start close detach : Task
  transfer : Tool → List Text → Text → ℕ → Task
  maintain : ℕ → Task

-- A task, without what it returns.
unfoldable pub perform : {W : Type 0} → Env W → Task → Action W (Unit {0})
perform env (Task.execute command stdin timeout retry_safe) = do
  Operations.execute env command stdin timeout retry_safe
  pure tt
perform env (Task.reconnect force) = do Operations.reconnect env force; pure tt
perform env (Task.health probe) = do Operations.health env probe; pure tt
perform env Task.connection_attachment = do Operations.connection_attachment env; pure tt
perform env (Task.transfer tool arguments executable timeout) = do
  Operations.transfer env tool arguments executable timeout
  pure tt
perform env (Task.maintain rounds) = Maintenance.maintain env rounds
perform env Task.start = Maintenance.start env
perform env Task.close = Maintenance.close env
perform env Task.detach = Maintenance.detach env

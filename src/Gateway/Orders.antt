-- ===== src/Gateway/Orders.antt =====
-- What clients can make a gateway do: a request runs one public method of the supervisor, or none.
use pazuzu.Base.{
  ℕ, ◌≡◌, refl, ◌⊎◌, inl, inr, ◌∙◌, sym, Bool, true, false, List, Text, Bytes, arith, if◌then◌else◌,
}
use pazuzu.Errors.{Kind, Result, ok, err}
use pazuzu.Exec.{pure, raise, raise_if, lift, ◌>>=◌, ◌>>◌}
use pazuzu.Json.{Json, Dict}
use pazuzu.Transfer.{Tool}
use pazuzu.Settings.{SshAttachment}
use pazuzu.Supervisor.Machine.{Env, Machine, Action}
use pazuzu.Supervisor.Tasks.{Task, perform}
use pazuzu.Supervisor.Operations.{
  CommandResult, Health, execute, connection_attachment, health, reconnect, transfer,
}
use pazuzu.Gateway.Dispatch.{
  execute_request, transfer_request, status_request, reconnect_request, attachment_request, choose,
  dispatch,
}

module _ {W : Type 0} (env : Env W) where
  -- The machine is left as it was, or as one task leaves it.
  abbrev pub IsOneTask : {A : Type 0} → Action W A → Machine W → Type 0
  IsOneTask action m =
      ((action m).1 ≡ m) ⊎ ((task : Task) × ((action m).1 ≡ (perform env task m).1))

  -- The same for every machine, as a rule for each way to build an action.
  pub record Orders {A : Type 0} (action : Action W A) : Type 0 where
    pub at : (m : Machine W) → IsOneTask action m

  Orders-pure : {A : Type 0} (a : A) → Orders (pure a)
  unfolding pure
  Orders-pure a = record { at = λ m. inl refl }

  Orders-raise : {A : Type 0} (k : Kind) (t : Text) → Orders (raise {A = A} k t)
  unfolding raise
  Orders-raise k t = record { at = λ m. inl refl }

  Orders-lift :
      {A B : Type 0} (r : Result A) (f : A → Action W B)
      → ((a : A) → Orders (f a))
      → Orders (lift r >>= f)
  unfolding lift ◌>>=◌
  Orders-lift (ok a) f h = h a
  Orders-lift (err e) f h = record { at = λ m. inl refl }

  Orders-raise_if :
      {B : Type 0} (b : Bool) (k : Kind) (t : Text) (f : Action W B)
      → Orders f
      → Orders (raise_if b k t >> f)
  unfolding raise pure ◌>>=◌
  Orders-raise_if true k t f h = record { at = λ m. inl refl }
  Orders-raise_if false k t f h = record { at = λ m. h.at m }

  Orders-if :
      {A : Type 0} (b : Bool) (f g : Action W A) → Orders f → Orders g → Orders (if b then f else g)
  Orders-if true f g h k = h
  Orders-if false f g h k = k

  pub state_of :
      {A B : Type 0} (action : Action W A) (f : A → B) (m : Machine W)
      → ((action >>= λ a. pure (f a)) m).1 ≡ (action m).1
  unfolding ◌>>=◌ pure
  state_of action f m = ground arith

  -- A method, of which only the result is turned into something else.
  Orders-task :
      {A B : Type 0} (task : Task) (method : Action W A) (f : A → B)
      → ((m : Machine W) → (perform env task m).1 ≡ (method m).1)
      → Orders (method >>= λ a. pure (f a))
  Orders-task task method f h = record { at = λ m. inr (task, state_of method f m ∙ sym (h m)) }

  -- A method whose result is turned into an answer.
  Orders-execute :
      {B : Type 0} (command : Text) (stdin : Bytes) (timeout : ℕ) (retry_safe : Bool)
      (f : CommandResult → B)
      → Orders (execute env command stdin timeout retry_safe >>= λ r. pure (f r))
  unfolding perform
  Orders-execute command stdin timeout retry_safe f =
      Orders-task (Task.execute command stdin timeout retry_safe) _ f
        (state_of (execute env command stdin timeout retry_safe) (λ _. tt))

  Orders-transfer :
      {B : Type 0} (tool : Tool) (arguments : List Text) (executable : Text) (timeout : ℕ)
      (f : CommandResult → B)
      → Orders (transfer env tool arguments executable timeout >>= λ r. pure (f r))
  unfolding perform
  Orders-transfer tool arguments executable timeout f =
      Orders-task (Task.transfer tool arguments executable timeout) _ f
        (state_of (transfer env tool arguments executable timeout) (λ _. tt))

  Orders-reconnect :
      {B : Type 0} (force : Bool) (f : Health → B)
      → Orders (reconnect env force >>= λ h. pure (f h))
  unfolding perform
  Orders-reconnect force f =
      Orders-task (Task.reconnect force) _ f (state_of (reconnect env force) (λ _. tt))

  Orders-health :
      {B : Type 0} (probe : Bool) (f : Health → B) → Orders (health env probe >>= λ h. pure (f h))
  unfolding perform
  Orders-health probe f =
      Orders-task (Task.health probe) _ f (state_of (health env probe) (λ _. tt))

  Orders-attachment :
      {B : Type 0} (f : SshAttachment → B) → Orders (connection_attachment env >>= λ a. pure (f a))
  unfolding perform
  Orders-attachment f =
      Orders-task Task.connection_attachment _ f (state_of (connection_attachment env) (λ _. tt))

  ruleset order_rules = (
    Orders-pure, Orders-raise, Orders-lift, Orders-raise_if, Orders-if, Orders-execute,
    Orders-transfer, Orders-reconnect, Orders-health, Orders-attachment,
  )

  Orders-execute_request : (params : Dict) → Orders (execute_request env params)
  unfolding execute_request
  Orders-execute_request params = search order_rules depth 20

  Orders-transfer_request : (params : Dict) → Orders (transfer_request env params)
  unfolding transfer_request
  Orders-transfer_request params = search order_rules depth 20

  Orders-status_request : (params : Dict) → Orders (status_request env params)
  unfolding status_request
  Orders-status_request params = search order_rules depth 20

  Orders-reconnect_request : (params : Dict) → Orders (reconnect_request env params)
  unfolding reconnect_request
  Orders-reconnect_request params = search order_rules depth 20

  Orders-attachment_request :
      (operation : Text) (params : Dict) → Orders (attachment_request env operation params)
  unfolding attachment_request
  Orders-attachment_request operation params = search order_rules depth 20

  -- Whatever a client sends, a gateway runs at most one public method of its supervisor for it: it
  -- leaves the supervisor and its world as they were, or as one such method leaves them.
  pub dispatch-Orders :
      (repr : Json → Text) (request : Dict) (m : Machine W)
      → IsOneTask (dispatch env repr request) m
  unfolding dispatch choose
  dispatch-Orders repr request m = go.at m
    where
      go : Orders (dispatch env repr request)
      go =
          search
            (
              order_rules, Orders-execute_request, Orders-transfer_request, Orders-status_request,
              Orders-reconnect_request, Orders-attachment_request,
            )
            depth 30

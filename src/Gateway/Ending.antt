-- ===== src/Gateway/Ending.antt =====
-- How `GatewayServer.serve` ends: what it leaves of the master, and that a closing gateway serves none.
use pazuzu.Base.{◌≡◌, refl, Bool, true, false, List, [], ◌∷◌, Text, if◌then◌else◌}
use pazuzu.Errors.{Exception, Result, ok, err}
use pazuzu.Exec.{pure, attempt, finally, after, ◌>>=◌, ◌>>◌}
use pazuzu.Exec.Ensures.{Ensures, Ensures-bind}
use pazuzu.Json.{Json}
use pazuzu.Supervisor.{Connection}
use pazuzu.Supervisor.Machine.{Call, Env, Machine, Action, call, update, with_repair_lock}
use pazuzu.Supervisor.Stable.{IsRespectful}
use pazuzu.Supervisor.Maintenance.{close, detach}
use pazuzu.Supervisor.Invariant.{IsSound}
use pazuzu.Gateway.{Codec}
use pazuzu.Gateway.Lifetime.{serve-IsSound}
use pazuzu.Gateway.Server.{Listener, Ended, GatewayServer, accept_client, answer_all, serve}

-- The last call told the transport to leave the master to a replacement.
abbrev pub leaves_master : List Call → Bool
leaves_master (Call.detach_master ∷ trace) = true
leaves_master _ = false

-- The last call but for a lock stopped the master.
abbrev pub stops_master : List Call → Bool
stops_master (Call.unlock_repair ∷ Call.stop_master ∷ trace) = true
stops_master _ = false

-- What a gateway that returned has done with the master at last.
abbrev pub IsEnded : {W : Type 0} → Bool → Result (Unit {0}) → Machine W → Type 0
IsEnded true (ok _) m = leaves_master m.trace ≡ true
IsEnded false (ok _) m = stops_master m.trace ≡ true
IsEnded preserve (err e) m = Unit

module _ {W : Type 0} (env : Env W) where
  abbrev Anything : Machine W → Type 0
  Anything m = Unit

  ends_err :
      (preserve : Bool) (e : Exception) (m : Machine W) → Unit {0} → IsEnded preserve (err e) m
  ends_err true e m h = tt
  ends_err false e m h = tt

  Ensures-detach : Ensures Anything (detach env) (IsEnded true)
  unfolding detach call update
  Ensures-detach =
      Ensures-bind (λ _ m. Unit) _ _ (record { at = λ m h. tt })
        (λ _.
          Ensures-bind (λ r m. leaves_master m.trace ≡ true) _ _ (record { at = λ m h. refl })
            (λ _. record { at = λ m h. h }) (λ e m h. tt))
        (λ e m h. tt)

  -- The master is stopped under the lock, which is given back.
  abbrev Stopped : Result (Unit {0}) → Machine W → Type 0
  Stopped (ok _) m = stops_master (Call.unlock_repair ∷ m.trace) ≡ true
  Stopped (err e) m = Unit

  Ensures-unlocked :
      (body : Action W (Unit {0}))
      → Ensures Anything body Stopped
      → Ensures Anything (finally body (call Call.unlock_repair env.unlock_repair)) (IsEnded false)
  unfolding finally call
  Ensures-unlocked body h = record {
    at = λ m u.
        go (body m).0 (body m).1 (h.at m tt) (env.unlock_repair (body m).1.sup (body m).1.world).0;
  }
    where
      go :
          (r : Result (Unit {0})) (m : Machine W)
          → Stopped r m
          → (q : Result (Unit {0}))
          → let (q', sup, world) = env.unlock_repair m.sup m.world in
            let unlocked : Machine W = record {
              sup = sup;
              world = world;
              trace = Call.unlock_repair ∷ m.trace;
            } in
            IsEnded false (after r (q, unlocked)).0 (after r (q, unlocked)).1
      go (ok _) m stopped (ok _) = stopped
      go (err e) m stopped (ok _) = tt
      go r m stopped (err e) = tt

  Ensures-close : Ensures Anything (close env) (IsEnded false)
  unfolding close with_repair_lock call update
  Ensures-close =
      Ensures-bind (λ _ m. Unit) _ _ (record { at = λ m h. tt })
        (λ _.
          Ensures-bind (λ _ m. Unit) _ _ (record { at = λ m h. tt })
            (λ _. Ensures-unlocked _ stopping) (λ e m h. tt))
        (λ e m h. tt)
    where
      stopping :
          Ensures Anything
            (call Call.stop_master env.stop_master
              >> update (λ s. record s { state = Connection.stopped }))
            Stopped
      stopping =
          Ensures-bind (λ _ m. stops_master (Call.unlock_repair ∷ m.trace) ≡ true) _ _
            (record { at = λ m h. refl }) (λ _. record { at = λ m h. h }) (λ e m h. tt)

  Ensures-finally :
      (preserve : Bool) (action : Action W (Unit {0})) (cleanup : Action W (Unit {0}))
      → Ensures Anything cleanup (IsEnded preserve)
      → Ensures Anything (finally action cleanup) (IsEnded preserve)
  unfolding finally
  Ensures-finally preserve action cleanup h = record {
    at = λ m u.
        go preserve (action m).0 (cleanup (action m).1).0 (cleanup (action m).1).1
          (h.at (action m).1 tt);
  }
    where
      go :
          (preserve : Bool) (r q : Result (Unit {0})) (m : Machine W)
          → IsEnded preserve q m
          → IsEnded preserve (after r (q, m)).0 (after r (q, m)).1
      go true (ok _) (ok _) m ended = ended
      go false (ok _) (ok _) m ended = ended
      go true (err e) (ok _) m ended = tt
      go false (err e) (ok _) m ended = tt
      go true r (err e) m ended = tt
      go false r (err e) m ended = tt

  Ensures-cleanup :
      (preserve : Bool)
      → Ensures Anything (if preserve then detach env else close env) (IsEnded preserve)
  Ensures-cleanup true = Ensures-detach
  Ensures-cleanup false = Ensures-close

  module _ {Line : Type 0} (codec : Codec Line) (repr : Json → Text) where
    Ensures-serve :
        (path : Text) (found : Listener) (requests : List (Line × Bool)) (ended : Ended)
        (server : GatewayServer)
        → Ensures Anything
            (serve codec env repr path found requests ended server)
            (IsEnded server.preserve_master)
    unfolding serve
    Ensures-serve path found requests ended server =
        Ensures-bind (λ _ m. Unit) _ _ (record { at = λ m h. tt })
          (λ _.
            Ensures-bind (λ _ m. Unit) _ _ (record { at = λ m h. tt })
              (λ _.
                Ensures-finally server.preserve_master _ _ (Ensures-cleanup server.preserve_master))
              (ends_err server.preserve_master))
          (ends_err server.preserve_master)

    -- A closing gateway answers none of the requests.
    closing_answers :
        (server : GatewayServer) (requests : List (Line × Bool))
        → server.closing ≡ true
        → answer_all codec env repr server requests ≡ pure tt
    unfolding answer_all accept_client attempt pure ◌>>=◌
    closing_answers server [] closing = refl
    closing_answers server ((line, disconnects) ∷ requests) closing =
        rw (closing, closing_answers server requests closing) refl

    answered_requests :
        (server : GatewayServer) (requests : List (Line × Bool))
        → answer_all codec env repr server requests
          ≡ answer_all codec env repr server (if server.closing then [] else requests)
    unfolding answer_all pure
    answered_requests server requests = go server.closing refl
      where
        go :
            (closing : Bool)
            → server.closing ≡ closing
            → answer_all codec env repr server requests
              ≡ answer_all codec env repr server (if closing then [] else requests)
        go true closing = closing_answers server requests closing
        go false serving = refl

-- From its start to its end, a gateway keeps its supervisor sound, whatever lines its clients send and
-- however it ends, if no other task breaks soundness while a method awaits. Where it returns, the
-- last it did was to leave the master to a replacement, if it was asked to preserve it, or to stop
-- the master under the repair lock; and a gateway that is closing answers no request at all.
pub serve-IsEnded :
    {Line W : Type 0} (codec : Codec Line) (env : Env W) (repr : Json → Text) (path : Text)
    (found : Listener) (requests : List (Line × Bool)) (ended : Ended) (server : GatewayServer)
    (m : Machine W)
    → IsRespectful (λ m'. IsSound m'.sup) env
    → IsSound m.sup
    → let (r, m') = serve codec env repr path found requests ended server m in
      IsSound m'.sup
      × IsEnded server.preserve_master r m'
      × (answer_all codec env repr server requests
          ≡ answer_all codec env repr server (if server.closing then [] else requests))
serve-IsEnded codec env repr path found requests ended server m resp h = (
  serve-IsSound codec env repr path found requests ended server m resp h,
  (Ensures-serve env codec repr path found requests ended server).at m tt,
  answered_requests env codec repr server requests,
)

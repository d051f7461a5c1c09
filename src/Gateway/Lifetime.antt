-- ===== src/Gateway/Lifetime.antt =====
-- What `GatewayServer` keeps from its start to its end, whatever clients send it.
use pazuzu.Base.{◌≡◌, ◌≢◌, refl, inl, inr, Bool, none, List, [], ◌∷◌, Text}
use pazuzu.Errors.{Exception, Result, ok, err}
use pazuzu.Exec.{raise, reraise}
use pazuzu.Exec.Keeps.{
  Keeps, Keeps-pure, Keeps-attempt, Keeps-bind, Keeps-finally, Keeps-if, keeps_rules,
}
use pazuzu.Exec.Inversion.{bind_ok, finally_ok}
use pazuzu.Json.{Json, Dict}
use pazuzu.Supervisor.Machine.{Env, Machine, Action}
use pazuzu.Supervisor.Stable.{IsKept, IsRespectful}
use pazuzu.Supervisor.Kept.{Keeps-perform, Keeps-start, Keeps-close, Keeps-detach}
use pazuzu.Supervisor.Invariant.{IsSound, IsSound-IsKept}
use pazuzu.Gateway.{Codec}
use pazuzu.Gateway.Dispatch.{Answer, dispatch}
use pazuzu.Gateway.Orders.{IsOneTask, dispatch-Orders}
use pazuzu.Gateway.Server.{
  Listener, Ended, GatewayServer, report, give_up, conclude, response, handle_client, accept_client,
  answer_all, prepare_socket, wait_end, serve,
}

-- A predicate that every public method keeps.
module _ {W : Type 0} (P : Machine W → Type 0) (env : Env W) (kept : IsKept P)
    (resp : IsRespectful P env) where
  one_task :
      {A : Type 0} (action : Action W A) (m : Machine W)
      → IsOneTask env action m
      → P m
      → P (action m).1
  one_task action m (inl same) h = rw same h
  one_task action m (inr (task, same)) h = rw same ((Keeps-perform P env kept resp task).at m h)

  module _ {Line : Type 0} (codec : Codec Line) (repr : Json → Text) where
    Keeps-dispatch : (request : Dict) → Keeps P (dispatch env repr request)
    Keeps-dispatch request = record {
      at = λ m h. one_task (dispatch env repr request) m (dispatch-Orders env repr request m) h;
    }

    Keeps-report : (id : Json) (e : Exception) → Keeps P (report codec env repr id e)
    unfolding report
    Keeps-report id e = search keeps_rules depth 10

    Keeps-give_up : (id : Json) (r : Result Answer) → Keeps P (give_up codec env repr id r)
    unfolding give_up
    Keeps-give_up id (ok a) = Keeps-pure none
    Keeps-give_up id (err e) = search (keeps_rules, Keeps-report) depth 10

    Keeps-conclude : (id : Json) (r : Result Answer) → Keeps P (conclude codec env repr id r)
    unfolding conclude
    Keeps-conclude id (ok a) = search keeps_rules depth 10
    Keeps-conclude id (err e) = Keeps-report id e

    Keeps-response :
        (line : Line) (disconnects : Bool) → Keeps P (response codec env repr line disconnects)
    unfolding response
    Keeps-response line disconnects =
        search (keeps_rules, Keeps-dispatch, Keeps-report, Keeps-give_up, Keeps-conclude) depth 20

    -- One request, whatever its line holds.
    Keeps-handle_client :
        (line : Line) (disconnects : Bool) → Keeps P (handle_client codec env repr line disconnects)
    unfolding handle_client
    Keeps-handle_client line disconnects = search (keeps_rules, Keeps-response) depth 20

    Keeps-accept_client :
        (server : GatewayServer) (line : Line) (disconnects : Bool)
        → Keeps P (accept_client codec env repr server line disconnects)
    unfolding accept_client
    Keeps-accept_client server line disconnects =
        Keeps-if server.closing _ _ (λ _. Keeps-pure none)
          (λ _. Keeps-handle_client line disconnects)

    Keeps-answer_all :
        (server : GatewayServer) (requests : List (Line × Bool))
        → Keeps P (answer_all codec env repr server requests)
    unfolding answer_all
    Keeps-answer_all server [] = Keeps-pure tt
    Keeps-answer_all server ((line, disconnects) ∷ requests) =
        Keeps-bind _ _ (Keeps-attempt _ (Keeps-accept_client server line disconnects))
          (λ _. Keeps-answer_all server requests)

    Keeps-prepare_socket : (path : Text) (found : Listener) → Keeps P (prepare_socket path found)
    unfolding prepare_socket
    Keeps-prepare_socket path Listener.answering = search keeps_rules depth 5
    Keeps-prepare_socket path Listener.stale = search keeps_rules depth 5
    Keeps-prepare_socket path Listener.absent = search keeps_rules depth 5

    Keeps-wait_end : (ended : Ended) → Keeps P (wait_end ended)
    unfolding wait_end
    Keeps-wait_end Ended.stop_event = search keeps_rules depth 5
    Keeps-wait_end (Ended.maintenance (ok _)) = search keeps_rules depth 5
    Keeps-wait_end (Ended.maintenance (err e)) = search keeps_rules depth 5

    Keeps-serve :
        (path : Text) (found : Listener) (requests : List (Line × Bool)) (ended : Ended)
        (server : GatewayServer)
        → Keeps P (serve codec env repr path found requests ended server)
    unfolding serve
    Keeps-serve path found requests ended server =
        Keeps-bind _ _ (Keeps-prepare_socket path found) (λ _.
          Keeps-bind _ _ (Keeps-start P env kept resp) (λ _.
            Keeps-finally _ _
              (Keeps-bind _ _ (Keeps-answer_all server requests) (λ _. Keeps-wait_end ended))
              (Keeps-if server.preserve_master _ _ (λ _. Keeps-detach P env kept resp)
                (λ _. Keeps-close P env kept resp))))

-- From its start to its end, a gateway keeps its supervisor sound, whatever lines its clients send,
-- whether they wait for the replies or not, and however it ends; this needs that no other task
-- breaks soundness while a method awaits.
pub serve-IsSound :
    {Line W : Type 0} (codec : Codec Line) (env : Env W) (repr : Json → Text) (path : Text)
    (found : Listener) (requests : List (Line × Bool)) (ended : Ended) (server : GatewayServer)
    (m : Machine W)
    → IsRespectful (λ m'. IsSound m'.sup) env
    → IsSound m.sup
    → IsSound (serve codec env repr path found requests ended server m).1.sup
serve-IsSound codec env repr path found requests ended server m resp h =
    (Keeps-serve (λ m'. IsSound m'.sup) env IsSound-IsKept resp codec repr path found requests ended
        server).at
      m h

wait_end_ok :
    {W : Type 0} (ended : Ended) (m : Machine W)
    → (wait_end ended m).0 ≡ ok tt
    → ended ≡ Ended.stop_event
unfolding wait_end raise reraise
wait_end_ok Ended.stop_event m h = refl
wait_end_ok (Ended.maintenance (ok _)) m h = absurd (cc h)
wait_end_ok (Ended.maintenance (err e)) m h = absurd (cc h)

prepare_socket_ok :
    {W : Type 0} (path : Text) (found : Listener) (m : Machine W)
    → (prepare_socket path found m).0 ≡ ok tt
    → found ≢ Listener.answering
unfolding prepare_socket raise
prepare_socket_ok path Listener.answering m h same = absurd (cc h)
prepare_socket_ok path Listener.absent m h same = absurd (cc same)
prepare_socket_ok path Listener.stale m h same = absurd (cc same)

-- `serve` returns only after a stop event and only where no other gateway answers on its socket: if
-- maintenance ends, with or without an exception, or anything else fails, then it raises, so that
-- the service manager starts it again.
pub serve_ok :
    {Line W : Type 0} (codec : Codec Line) (env : Env W) (repr : Json → Text) (path : Text)
    (found : Listener) (requests : List (Line × Bool)) (ended : Ended) (server : GatewayServer)
    (m : Machine W)
    → (serve codec env repr path found requests ended server m).0 ≡ ok tt
    → (ended ≡ Ended.stop_event) × (found ≢ Listener.answering)
unfolding serve
serve_ok codec env repr path found requests ended server m h =
    let (_, clear, h1) = bind_ok _ _ m tt h in
    let (_, _, h2) = bind_ok _ _ (prepare_socket path found m).1 tt h1 in
    let (_, _, h3) = bind_ok _ _ _ tt (finally_ok _ _ _ tt h2) in
    (wait_end_ok ended _ h3, prepare_socket_ok path found m clear)

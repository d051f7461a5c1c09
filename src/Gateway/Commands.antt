-- ===== src/Gateway/Commands.antt =====
-- Commands through a gateway: what becomes of a client's `execute` in the gateway's supervisor.
use pazuzu.Base.{
  ℕ, ◌+◌, ◌≤◌, ◌<◌, ◌≡◌, refl, inl, inr, ◌∙◌, Bool, true, false, Option, some, none, Text, Bytes,
  Bool-cases, codes, arith, All, length, text_eq, if◌then◌else◌, ltb,
}
use pazuzu.Errors.{Exception, Result, ok, err}
use pazuzu.Exec.{pure, lift, reraise, continue, handle, attempt, ◌>>=◌}
use pazuzu.Exec.Adds.{
  Adds, Adds-before, Adds-then, Adds-attempt, Adds-handle, Adds-finally, Adds-pure, Adds-lift,
  Adds-raise_if, adds_rules,
}
use pazuzu.Json.{Json, Dict, get, members, object_of}
use pazuzu.Base64.{decode-encode}
use pazuzu.Supervisor.Machine.{Env, Machine}
use pazuzu.Supervisor.Operations.{CommandResult, execute}
use pazuzu.Supervisor.Quiet.{Adds-health, Adds-reconnect}
use pazuzu.Supervisor.Replay.{sessions, Policy, execute_sends}
use pazuzu.Gateway.{
  Codec, IsFaithful, max_stdin_bytes, max_message_bytes, result_dict, encode_message,
  decode_message,
}
use pazuzu.Gateway.Dispatch.{
  Answer, answer, execute_request, text_of, stdin_of, required, milliseconds, boolean_of, choose,
  dispatch, params_of, status_request, reconnect_request,
}
use pazuzu.Gateway.Server.{conclude, report, response, handle_client, encoded}
use pazuzu.Gateway.Calls.{
  Client, envelope, execute_params, exchange, call_gateway, execute_via_gateway,
}
use pazuzu.Gateway.Orders.{state_of}
use pazuzu.Gateway.Relay.{Served, connected, received, decode_message-dumps}

-- How many commands a gateway's supervisor has sent.
abbrev pub sent : {Line W : Type 0} → Served Line W → ℕ
sent (m, line) = sessions m.trace

-- The most that one command may send.
abbrev pub most : Bool → ℕ
most retry_safe = if retry_safe then 2 else 1

module _ {W : Type 0} (env : Env W) (repr : Json → Text) where
  -- A client's `execute` reaches the supervisor's method with its command, its standard input byte by
  -- byte, its time and its permission to replay, whatever they are, if the input is of bytes and
  -- within the limit; what the method returns is the answer.
  pub dispatch-execute_params :
      (request_id command : Text) (stdin : Bytes) (timeout : ℕ) (retry_safe : Bool) (m : Machine W)
      → All (λ b. b < 256) stdin
      → length stdin ≤ max_stdin_bytes
      → dispatch env repr
          (envelope request_id (codes "execute") (execute_params command stdin timeout retry_safe))
          m
        ≡ (execute env command stdin timeout retry_safe >>= λ r. pure (answer (result_dict r))) m
  unfolding dispatch envelope execute_params choose execute_request get text_eq params_of text_of
      required milliseconds boolean_of stdin_of lift ◌>>=◌
  dispatch-execute_params request_id command stdin timeout retry_safe m bytes small =
      rw (decode-encode stdin bytes) (ground arith)

  Policy-most :
      (n : ℕ) (retry_safe : Bool) (r : Result CommandResult) (k : ℕ)
      → Policy n retry_safe r k
      → k ≤ n + most retry_safe
  Policy-most n true (ok r) k h = ground arith
  Policy-most n false (ok r) k h = ground arith
  Policy-most n true (err e) k h = h
  Policy-most n false (err e) k h = h

  Adds-execute :
      {A : Type 0} (command : Text) (stdin : Bytes) (timeout : ℕ) (retry_safe : Bool)
      (f : CommandResult → A)
      → Adds
          (λ m. sessions m.trace)
          (most retry_safe)
          (execute env command stdin timeout retry_safe >>= λ r. pure (f r))
  Adds-execute command stdin timeout retry_safe f = record {
    at = λ m. rw (state_of env (execute env command stdin timeout retry_safe) f m) (
        Policy-most (sessions m.trace) retry_safe _ _
          (execute_sends env command stdin timeout retry_safe m));
  }

  -- Whatever else its params hold, a request to execute sends no more than it permits.
  Adds-execute_request :
      (params : Dict) (retry_safe : Bool)
      → get params (codes "retry_safe") ≡ some (Json.boolean retry_safe)
      → Adds (λ m. sessions m.trace) (most retry_safe) (execute_request env params)
  unfolding execute_request boolean_of
  Adds-execute_request params retry_safe h = rw h (search (adds_rules, Adds-execute) depth 20)

  -- A request for the status or for a reconnection sends no command, whatever its params hold.
  pub Adds-dispatch_status :
      (request_id : Text) (params : Dict)
      → Adds
          (λ m. sessions m.trace)
          0
          (dispatch env repr (envelope request_id (codes "status") params))
  unfolding dispatch envelope choose get text_eq params_of lift ◌>>=◌ status_request
  Adds-dispatch_status request_id params = record {
    at = (Adds-then (λ m. sessions m.trace) 0 _ _ (Adds-health env _) (λ h. Adds-pure _ 0 _)).at;
  }

  Adds-reconnect_request :
      (params : Dict) → Adds (λ m. sessions m.trace) 0 (reconnect_request env params)
  unfolding reconnect_request
  Adds-reconnect_request params = search (adds_rules, Adds-reconnect) depth 20

  pub Adds-dispatch_reconnect :
      (request_id : Text) (params : Dict)
      → Adds
          (λ m. sessions m.trace)
          0
          (dispatch env repr (envelope request_id (codes "reconnect") params))
  unfolding dispatch envelope choose get text_eq params_of lift ◌>>=◌
  Adds-dispatch_reconnect request_id params = record {
    at = (Adds-reconnect_request (members (object_of params))).at;
  }

module _ {Line W : Type 0} (codec : Codec Line) (env : Env W) (repr : Json → Text) where
  conclude_state :
      (id : Json) (r : Result Answer) (m : Machine W) → (conclude codec env repr id r m).1 ≡ m
  unfolding conclude report pure reraise
  conclude_state id (ok a) m = refl
  conclude_state id (err e) m = ground arith

  encoding_state :
      (r : Result (Option Dict)) (m : Machine W)
      → (continue r (λ message. lift (encoded codec message)) m).1 ≡ m
  unfolding lift
  encoding_state (ok message) m = refl
  encoding_state (err e) m = refl

  handle_client_state :
      (faithful : IsFaithful codec) (request : Dict) (m : Machine W)
      → (handle_client codec env repr (codec.dumps request) false m).1
        ≡ (dispatch env repr request m).1
  unfolding handle_client response ◌>>=◌ lift handle attempt
  handle_client_state faithful request m =
      rw (decode_message-dumps codec faithful request)
        (encoding_state _ _ ∙ conclude_state _ (dispatch env repr request m).0 _)

-- A client whose link leads to a gateway.
module _ {Line W : Type 0} (c : Client Line (Served Line W)) (env : Env W) (repr : Json → Text)
    (silence : Exception) (faithful : IsFaithful c.codec) where
  abbrev pub client : Client Line (Served Line W)
  client = connected c env repr silence

  read_state :
      (r : Result (Option Line)) (w : Served Line W)
      → (continue
          (received c.codec env repr silence r)
          (λ reply st. (decode_message c.codec reply, st))
          w).1
        ≡ w
  read_state (ok none) w = refl
  read_state (ok (some line)) w = refl
  read_state (err e) w = refl

  Adds-exchange :
      (n : ℕ) (request : Dict) (timeout : ℕ)
      → Adds (λ m. sessions m.trace) n (dispatch env repr request)
      → Adds sent n (exchange client request timeout)
  unfolding exchange ◌>>=◌ lift encode_message
  Adds-exchange n request timeout bound = record {
    at = λ (m, line).
        elim (Bool-cases (ltb max_message_bytes (c.codec.size (c.codec.dumps request)))) [
          | inl long ↦ rw long (omega arith)
          | inr short ↦
              rw (short, ◌>>=◌)
                (rw
                  (
                    read_state (handle_client c.codec env repr (c.codec.dumps request) false m).0
                        ((handle_client c.codec env repr (c.codec.dumps request) false m).1, none),
                    handle_client_state c.codec env repr faithful request m,
                  )
                  (bound.at m))
        ];
  }

  -- A call sends no more than its request can make the gateway send, if it arrives at all.
  pub Adds-call_gateway :
      (n : ℕ) (request_id operation : Text) (params : Dict) (timeout : ℕ)
      → Adds (λ m. sessions m.trace) n (dispatch env repr (envelope request_id operation params))
      → Adds sent n (call_gateway client request_id operation params timeout)
  unfolding call_gateway
  Adds-call_gateway n request_id operation params timeout bound =
      Adds-before sent n _ _ (Adds-attempt sent 0 _ idle) (λ opened.
        Adds-before sent n _ _
          (Adds-handle sent 0 opened _ _ (λ _. Adds-pure sent 0 tt)
            (λ e. search adds_rules depth 10))
          (λ _.
            Adds-then sent n _ _
              (Adds-finally sent n _ _
                (Adds-then sent n _ _ (Adds-attempt sent n _ (Adds-exchange n _ timeout bound))
                  (λ tried. search adds_rules depth 10))
                idle)
              (λ response. Adds-lift sent 0 _)))
    where
      idle : Adds {State = Served Line W} sent 0 (λ w. (ok tt, w))
      idle = record { at = λ w. omega arith }

  Adds-dispatch_execute :
      (request_id command : Text) (stdin : Bytes) (timeout : ℕ) (retry_safe : Bool)
      → Adds
          (λ m. sessions m.trace)
          (most retry_safe)
          (dispatch env repr (
            envelope request_id
              (codes "execute")
              (execute_params command stdin timeout retry_safe)))
  unfolding dispatch envelope execute_params choose get text_eq params_of lift ◌>>=◌
  Adds-dispatch_execute request_id command stdin timeout retry_safe = record {
    at =
        (Adds-execute_request env repr (execute_params command stdin timeout retry_safe) retry_safe
          refl).at;
  }

  -- However a command of a client fails on its way, its reply is lost or connections break, a gateway
  -- sends it once at most, or twice at most if the client allows a replay.
  pub execute_via_gateway_sends :
      (request_id command : Text) (stdin : Bytes) (timeout : ℕ) (retry_safe : Bool)
      → Adds sent
          (most retry_safe)
          (execute_via_gateway client request_id command stdin timeout retry_safe)
  unfolding execute_via_gateway
  execute_via_gateway_sends request_id command stdin timeout retry_safe =
      Adds-raise_if sent (most retry_safe) _ _ _ _ (
        Adds-call_gateway (most retry_safe) request_id (codes "execute") _ _
          (Adds-dispatch_execute request_id command stdin timeout retry_safe))

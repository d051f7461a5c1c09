-- ===== src/McpServer/Health.antt =====
-- The health route of the adapter and the gateway together.
use pazuzu.Base.{
  ◌≤◌, ◌≡◌, refl, ◌∙◌, false, some, none, [], ◌∷◌, Text, codes, text_eq, if◌then◌else◌,
}
use pazuzu.Errors.{Exception, Result, ok, err}
use pazuzu.Exec.{pure, gets, lift, attempt, handle, ◌>>=◌}
use pazuzu.Json.{Json, Dict, get}
use pazuzu.Supervisor
use pazuzu.Supervisor.{Connection}
use pazuzu.Supervisor.Machine.{Env, Machine, self, clock}
use pazuzu.Supervisor.Operations
use pazuzu.Supervisor.Operations.{Health}
use pazuzu.Gateway.{IsFaithful, max_message_bytes, health_dict, connection_text}
use pazuzu.Gateway.Dispatch.{Answer, answer, dispatch, choose, params_of, status_request}
use pazuzu.Gateway.Calls.{Client, envelope, call_gateway}
use pazuzu.Gateway.Relay.{Served, connected, reply_of, call_gateway-dispatch}
use pazuzu.Client
use pazuzu.Client.{Runtime}
use pazuzu.McpServer.{JsonResponse, is_connected, with_status, health_route}

-- The params of a status request that does not probe.
abbrev pub no_probe : Dict
no_probe = (codes "probe", Json.boolean false) ∷ []

module _ {W : Type 0} (env : Env W) (m : Machine W) where
  -- What the gateway says of its supervisor without a probe.
  abbrev pub snapshot : Result Health × Machine W
  snapshot = Operations.health env false m

  abbrev pub status_answer : Result Health → Result Answer
  status_answer (ok h) = ok (answer (health_dict h))
  status_answer (err e) = err e

  -- It is of the supervisor as it is, and leaves it so.
  snapshot_ok : (h : Health) × (snapshot ≡ (ok h, m)) × (h.connection ≡ m.sup.state)
  unfolding Operations.health self clock gets pure ◌>>=◌
  snapshot_ok = (_, refl, refl)

  dispatch-status :
      (repr : Json → Text) (id : Text) (h : Health)
      → snapshot ≡ (ok h, m)
      → dispatch env repr (envelope id (codes "status") no_probe) m
        ≡ (ok (answer (health_dict h)), m)
  unfolding dispatch envelope choose get text_eq params_of status_request lift pure ◌>>=◌
  dispatch-status repr id h known = rw known refl

-- The word of the route for a connection.
abbrev pub word_of : Connection → Text
word_of state = if Supervisor.is_connected state then codes "ok" else codes "degraded"

is_connected-health_dict :
    (h : Health) → is_connected (health_dict h) ≡ Supervisor.is_connected h.connection
unfolding is_connected health_dict get text_eq connection_text
is_connected-health_dict h = go h.connection
  where
    go :
        (state : Connection)
        → text_eq (connection_text state) (codes "connected") ≡ Supervisor.is_connected state
    go Connection.offline = refl
    go Connection.authentication_required = refl
    go Connection.reconnecting = refl
    go Connection.connected = refl
    go Connection.stopped = refl
    go Connection.detached = refl

-- The route adds its word to what the gateway says.
with_status-health_dict :
    (status : Text) (h : Health)
    → get (with_status status (health_dict h)) (codes "status") ≡ some (Json.text status)
unfolding with_status health_dict get text_eq
with_status-health_dict status h = refl

content-health_dict :
    (status : Text) (h : Health)
    → with_status status (health_dict h) ≡ (codes "status", Json.text status) ∷ health_dict h
unfolding with_status health_dict get text_eq
content-health_dict status h = refl

module _ {Line W : Type 0} (c : Client Line (Served Line W)) (py : Runtime (Served Line W))
    (env : Env W) (repr : Json → Text) (silence : Exception) (faithful : IsFaithful c.codec)
    (request_id : Text) (m : Machine W) where
  called :
      (h : Health)
      → snapshot env m ≡ (ok h, m)
      → c.codec.size (c.codec.dumps (envelope request_id (codes "status") no_probe))
        ≤ max_message_bytes
      → c.codec.size (c.codec.dumps (reply_of (Json.text request_id) (ok (answer (health_dict h)))))
        ≤ max_message_bytes
      → call_gateway
          (connected c env repr silence)
          request_id
          (codes "status")
          no_probe
          5_000
          (m, none)
        ≡ (ok (health_dict h), (m, none))
  called h known short small =
      let same = dispatch-status env m repr request_id h known in
      call_gateway-dispatch c env repr silence faithful request_id (codes "status") no_probe 5_000 m
        short (rw same tt) (rw same small)
      ∙ rw same refl

  -- Where the messages of this call are of at most 8 MiB, the health route answers with the code 200,
  -- leaves the gateway as it is, and its content is the status, which is "ok" if the supervisor is
  -- connected and "degraded" otherwise, before all that the supervisor's health says, unchanged.
  pub health_route-state :
      py.uuid4 (m, none) ≡ (ok request_id, (m, none))
      → c.codec.size (c.codec.dumps (envelope request_id (codes "status") no_probe))
        ≤ max_message_bytes
      → ((h : Health)
          → snapshot env m ≡ (ok h, m)
          → c.codec.size
              (c.codec.dumps (reply_of (Json.text request_id) (ok (answer (health_dict h)))))
            ≤ max_message_bytes)
      → (r : JsonResponse) × (health_route (connected c env repr silence) py (m, none)
          ≡ (ok r, (m, none)))
        × (r.status_code ≡ 200)
        × (get r.content (codes "status") ≡ some (Json.text (word_of m.sup.state)))
        × (h : Health) × (snapshot env m ≡ (ok h, m))
        × (r.content ≡ (codes "status", Json.text (word_of m.sup.state)) ∷ health_dict h)
  unfolding health_route Client.health attempt handle pure ◌>>=◌
  health_route-state fresh short small =
      let (h, known, same) = snapshot_ok env m in
      (
        record { content = with_status (word_of m.sup.state) (health_dict h); status_code = 200 },
        rw (fresh, called h known short (small h known))
            (rw (is_connected-health_dict h) (rw same refl)),
        refl,
        with_status-health_dict (word_of m.sup.state) h,
        h,
        known,
        content-health_dict (word_of m.sup.state) h,
      )

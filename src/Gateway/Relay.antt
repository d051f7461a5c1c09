-- ===== src/Gateway/Relay.antt =====
-- A client and a gateway together: what a call returns or raises is what the supervisor did.
use pazuzu.Base.{
  ℕ, ◌≤◌, ◌≡◌, refl, ◌∙◌, ap, true, false, Option, some, none, Text, codes, arith, is_empty,
  if◌then◌else◌, text_eq, text_eq_iff,
}
use pazuzu.Errors.{Kind, Exception, Result, ok, err}
use pazuzu.Exec.{pure, lift, attempt, handle, finally, ◌>>=◌}
use pazuzu.Json.{Json, Dict, members-object_of, get, or_else}
use pazuzu.Supervisor.Machine.{Env, Machine}
use pazuzu.Gateway.{Codec, IsFaithful, max_message_bytes, encode_message, decode_message}
use pazuzu.Gateway.Dispatch.{Answer, dispatch}
use pazuzu.Gateway.Server.{
  is_reported, success, failure, report, conclude, response, encoded, handle_client,
}
use pazuzu.Gateway.Calls.{Link, Client, envelope, read_reply, error_message, exchange, call_gateway}

-- A world with a gateway in it, and the line that a client has sent.
abbrev pub Served : Type 0 → Type 0 → Type 0
Served Line W = Machine W × Option Line

-- What a client sees of an answer.
abbrev pub relayed : Result Answer → Result Dict
relayed (ok a) = ok a.result
relayed (err e) = err (record {
  kind = Kind.pazuzu_error;
  message = if is_empty e.message then codes "gateway operation failed" else e.message;
})

-- The response to a request.
abbrev pub reply_of : Json → Result Answer → Dict
reply_of id (ok a) = success id a.result
reply_of id (err e) = failure id e

-- Errors of a kind that the gateway reports.
abbrev pub IsReported : Result Answer → Type 0
IsReported (ok a) = Unit
IsReported (err e) = is_reported e.kind ≡ true

module _ {Line W : Type 0} (codec : Codec Line) (env : Env W) (repr : Json → Text)
    (silence : Exception) where
  abbrev pub received : Result (Option Line) → Result Line
  received (ok (some line)) = ok line
  received _ = err silence

  abbrev answered : Result (Option Line) × Machine W → Result Line × Served Line W
  answered (r, m) = (received r, (m, none))

  abbrev read_answer : Served Line W → Result Line × Served Line W
  read_answer (m, none) = (err silence, (m, none))
  read_answer (m, some line) = answered (handle_client codec env repr line false m)

  -- The link to a gateway that serves one request at a time; `silence` is what a client gets where
  -- no line comes back.
  abbrev pub gateway_link : Link Line (Served Line W)
  gateway_link = record {
    open_connection = λ w. (ok tt, w);
    write = λ line (m, sent). (ok tt, (m, some line));
    read_line = λ timeout w. read_answer w;
    close_connection = λ w. w;
  }

module _ {Line : Type 0} (codec : Codec Line) (faithful : IsFaithful codec) where
  encode_message-ok :
      (d : Dict)
      → codec.size (codec.dumps d) ≤ max_message_bytes
      → encode_message codec d ≡ ok (codec.dumps d)
  unfolding encode_message
  encode_message-ok d h = ground arith

  encoded-ok :
      (d : Dict)
      → codec.size (codec.dumps d) ≤ max_message_bytes
      → encoded codec (some d) ≡ ok (some (codec.dumps d))
  unfolding encoded
  encoded-ok d h = ground (arith, encode_message-ok d)

  pub decode_message-dumps : (d : Dict) → decode_message codec (codec.dumps d) ≡ ok d
  unfolding decode_message
  decode_message-dumps d = rw (faithful d) (ap ok (members-object_of d))

  module _ {W : Type 0} (env : Env W) (repr : Json → Text) (request : Dict) (m : Machine W) where
    concluded :
        (id : Json) (r : Result Answer) (m' : Machine W)
        → IsReported r
        → conclude codec env repr id r m' ≡ (ok (some (reply_of id r)), m')
    unfolding conclude report pure
    concluded id (ok a) m' h = refl
    concluded id (err e) m' h = rw h refl

    -- A request that is answered or refused in a reported way gets the reply that says so.
    handle_client-dumps :
        (id : Json)
        → or_else (get request (codes "id")) Json.null ≡ id
        → IsReported (dispatch env repr request m).0
        → codec.size (codec.dumps (reply_of id (dispatch env repr request m).0)) ≤ max_message_bytes
        → handle_client codec env repr (codec.dumps request) false m ≡ (
          ok (some (codec.dumps (reply_of id (dispatch env repr request m).0))),
          (dispatch env repr request m).1,
        )
    unfolding handle_client response ◌>>=◌ lift handle
    handle_client-dumps id same h small =
        rw (decode_message-dumps request, handle)
          (rw
            (ap
                (λ i.
                  conclude codec env repr i (dispatch env repr request m).0
                    (dispatch env repr request m).1)
                same
              ∙ concluded id (dispatch env repr request m).0 (dispatch env repr request m).1 h)
            (rw (encoded-ok _ small) refl))

-- What the client reads off either reply.
read_reply-success :
    (str_json : Json → Text) (id : Text) (result : Dict)
    → read_reply str_json id (success (Json.text id) result) ≡ ok result
unfolding read_reply success get text_eq
read_reply-success str_json id result = ground (arith, text_eq_iff id id, members-object_of result)

read_reply-failure :
    (str_json : Json → Text) (id : Text) (e : Exception)
    → read_reply str_json id (failure (Json.text id) e) ≡ relayed (err e)
unfolding read_reply failure get text_eq error_message
read_reply-failure str_json id e = ground (arith, text_eq_iff id id)

read_reply-reply_of :
    (str_json : Json → Text) (id : Text) (r : Result Answer)
    → read_reply str_json id (reply_of (Json.text id) r) ≡ relayed r
read_reply-reply_of str_json id (ok a) = read_reply-success str_json id a.result
read_reply-reply_of str_json id (err e) = read_reply-failure str_json id e

-- A client whose link leads to a gateway.
abbrev pub connected :
    {Line W : Type 0}
    → Client Line (Served Line W)
    → Env W
    → (Json → Text)
    → Exception
    → Client Line (Served Line W)
connected c env repr silence = record c { link = gateway_link c.codec env repr silence }

module _ {Line W : Type 0} (c : Client Line (Served Line W)) (env : Env W) (repr : Json → Text)
    (silence : Exception) (faithful : IsFaithful c.codec) (request_id operation : Text)
    (params : Dict) (timeout : ℕ) (m : Machine W) where
  abbrev request : Dict
  request = envelope request_id operation params

  request_id-eq : or_else (get request (codes "id")) Json.null ≡ Json.text request_id
  unfolding envelope get text_eq
  request_id-eq = refl

  exchange-dispatch :
      c.codec.size (c.codec.dumps request) ≤ max_message_bytes
      → IsReported (dispatch env repr request m).0
      → c.codec.size
          (c.codec.dumps (reply_of (Json.text request_id) (dispatch env repr request m).0))
        ≤ max_message_bytes
      → exchange (connected c env repr silence) request timeout (m, none) ≡ (
        ok (reply_of (Json.text request_id) (dispatch env repr request m).0),
        ((dispatch env repr request m).1, none),
      )
  unfolding exchange ◌>>=◌ lift
  exchange-dispatch small h small_reply = rw (encode_message-ok c.codec faithful request small) (
      rw
        (handle_client-dumps c.codec faithful env repr request m (Json.text request_id)
          request_id-eq h small_reply)
        (rw
          (decode_message-dumps c.codec faithful
            (reply_of (Json.text request_id) (dispatch env repr request m).0))
          refl))

  -- A call through a gateway's socket returns just what the gateway's dispatch returns, raises a
  -- `PazuzuError` with the message of what it raises, and leaves the gateway as the dispatch leaves
  -- it; this needs that both messages fit into 8 MiB, and that an exception is of a kind that the
  -- gateway reports.
  pub call_gateway-dispatch :
      c.codec.size (c.codec.dumps request) ≤ max_message_bytes
      → IsReported (dispatch env repr request m).0
      → c.codec.size
          (c.codec.dumps (reply_of (Json.text request_id) (dispatch env repr request m).0))
        ≤ max_message_bytes
      → call_gateway (connected c env repr silence) request_id operation params timeout (m, none)
        ≡ (relayed (dispatch env repr request m).0, ((dispatch env repr request m).1, none))
  unfolding call_gateway ◌>>=◌ lift handle finally attempt
  call_gateway-dispatch small h small_reply =
      rw (exchange-dispatch small h small_reply)
        (rw (read_reply-reply_of c.str_json request_id (dispatch env repr request m).0) refl)

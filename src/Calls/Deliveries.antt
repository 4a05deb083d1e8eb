-- ===== src/Calls/Deliveries.antt =====
-- From the call of an operation in src/operations/RemoteCache.cpp, over the connection and back.
use cpp17_client.Base.{
  ℕ, ◌≡◌, refl, arith, List, [], ◌∷◌, ◌++◌, true, ◌==◌, Option, none, some, ok, Option,
}
use cpp17_client.Base.Readers.{Takes}
use cpp17_client.Failure.{ServerAddress}
use cpp17_client.Operations.{Operation, Body, parsed, parse_body, response_opcode}
use cpp17_client.Operations.Results.{result_of}
use cpp17_client.Multiplex.{
  Multiplexer, PendingRequest, Response, find_pending, insert_pending, execute, register,
  take_number, enlist,
}
use cpp17_client.Multiplex.Reading.{read_round}
use cpp17_client.Multiplex.Frames.{
  Reply, Update, IsSendableReply, reply_bytes, response, topology_of,
}
use cpp17_client.Multiplex.Rounds.{Served, served, reply_with, Takes-read_round}
use cpp17_client.Multiplex.Loop.{IsReading}
use cpp17_client.Cache.{pooled}
use cpp17_client.Calls.{
  RetryContext, Future, future, Connections, pending_of, call_of, call_over, delivered, get_from,
  future_get,
}

find_pending-insert_pending :
    (pending : List (ℕ × PendingRequest)) (id : ℕ) (p : PendingRequest)
    → find_pending (insert_pending pending id p) id ≡ some p
unfolding find_pending insert_pending
find_pending-insert_pending [] id p = let same : (id == id) ≡ true = ground arith in rw same refl
find_pending-insert_pending ((k, q) ∷ pending) id p =
    ground (arith, find_pending-insert_pending pending id p)

-- What a call leaves behind: its future, and the connection with the request in `pending_`.
abbrev pub future_of : Operation → List ServerAddress → RetryContext → Multiplexer → Future
future_of op tried ctx m = record {
  operation = op;
  message_id = m.next_message_id;
  tried = tried;
  excluded = ctx.exclude_nodes;
}

abbrev pub registered : Operation → List ℕ → Multiplexer → Multiplexer
registered op cache_name m = (register m (pending_of op cache_name)).1

-- A call over a pooled connection that is up returns a future when the request goes out.
call_over_sent :
    (net : Connections) (op : Operation) (cache_name : List ℕ) (ctx : RetryContext)
    (a : ServerAddress) (tried : List ServerAddress)
    → (net.connection_to a).connected ≡ true
    → ((bytes : List ℕ) → net.sends bytes ≡ true)
    → call_over net op cache_name ctx (pooled a tried) ≡ (
      future (future_of op tried ctx (net.connection_to a)),
      some (registered op cache_name (net.connection_to a)),
    )
unfolding call_over call_of execute register
call_over_sent net op cache_name ctx a tried up sends = simp (up, sends) refl

-- The reply to a call: with its message id and its operation's opcode.
abbrev pub reply_to : Operation → Multiplexer → ℕ → Option Update → Reply
reply_to op m status update =
    reply_with m.next_message_id status update (response (response_opcode op))

abbrev pub response_with : ℕ → Option Update → Body → Response
response_with status update body = record {
  status = some status;
  body = body;
  error = none;
  topology_update = topology_of update;
}

-- What comes back to the future over the connection, wherever in the stream it stands.
reply_delivered :
    (m : Multiplexer) (op : Operation) (cache_name : List ℕ) (ctx : RetryContext)
    (tried : List ServerAddress) (status : ℕ) (update : Option Update) (body : Body)
    (bytes : List ℕ)
    → IsReading m
    → IsSendableReply m.client_intelligence (reply_to op m status update)
    → Takes (parse_body op status m.protocol_version) bytes (parsed body)
    → Takes
        (read_round (registered op cache_name m))
        (reply_bytes (reply_to op m status update) ++ bytes)
        (served
          (registered op cache_name m)
          (reply_to op m status update)
          (pending_of op cache_name)
          (response_with status update body))
unfolding register take_number enlist
reply_delivered m op cache_name ctx tried status update body bytes h s t =
    let same : (response_opcode op == response_opcode op) ≡ true = ground arith in
    Takes-read_round s
      (find_pending-insert_pending m.pending m.next_message_id (pending_of op cache_name))
      (Served.body_served same t)

-- A call over a pooled connection whose read loop runs and whose request goes out returns a future; and when
-- the server's reply to that request arrives, anywhere in the stream, with a topology only if the client is
-- aware of the hash distribution and with a body that the operation's parser takes, one round of the read
-- loop takes it to its last byte and answers the request with it, and the future delivers what
-- the operation makes of its status and body.
pub call_over-future_get :
    (net : Connections) (op : Operation) (cache_name : List ℕ) (ctx : RetryContext)
    (a : ServerAddress) (tried : List ServerAddress) (status : ℕ) (update : Option Update)
    (body : Body) (bytes : List ℕ)
    → IsReading (net.connection_to a)
    → ((request : List ℕ) → net.sends request ≡ true)
    → IsSendableReply
        (net.connection_to a).client_intelligence
        (reply_to op (net.connection_to a) status update)
    → Takes (parse_body op status (net.connection_to a).protocol_version) bytes (parsed body)
    → (f : Future) × (m : Multiplexer) × (r : Response) × (call_over net op cache_name ctx
          (pooled a tried)
        ≡ (future f, some m))
      × Takes
          (read_round m)
          (reply_bytes (reply_to op (net.connection_to a) status update) ++ bytes)
          (served m (reply_to op (net.connection_to a) status update) (pending_of op cache_name) r)
      × (future_get f r ≡ ok (delivered f (result_of op status body)))
unfolding future_get get_from
call_over-future_get net op cache_name ctx a tried status update body bytes h sends s t = (
  future_of op tried ctx (net.connection_to a),
  registered op cache_name (net.connection_to a),
  response_with status update body,
  call_over_sent net op cache_name ctx a tried h.0 sends,
  reply_delivered (net.connection_to a) op cache_name ctx tried status update body bytes h s t,
  refl,
)

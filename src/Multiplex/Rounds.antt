-- ===== src/Multiplex/Rounds.antt =====
-- One round of `MultiplexedConnection::readLoop` on a response that the protocol allows.
use cpp17_client.Base.{
  ℕ, ◌≡◌, refl, sym, List, if◌then◌else◌, ◌∷◌, [], ◌++◌, true, false, ◌==◌, Option, none, some,
  append-nil, subst,
}
use cpp17_client.Base.Readers.{return, Takes, Takes-bind, Takes-map}
use cpp17_client.Failure.{FailurePhase}
use cpp17_client.Operations.{Body, parsed, failed}
use cpp17_client.Failure.{typed}
use cpp17_client.Multiplex.{
  Multiplexer, PendingRequest, Response, exception, error_result, find_pending, erase_pending,
}
use cpp17_client.Multiplex.Reading.{
  answer, answered, stored_topology_id, notified, parsed_response, respond, settle, read_round,
}
use cpp17_client.Topology.{TopologyInfo}
use cpp17_client.Announcement.Complete.{announced}
use cpp17_client.Multiplex.Frames.{
  Reply, Content, error_text, response, Update, error_of, IsSendableReply, reply_bytes, frame_of,
  topology_of, Takes-receive_frame,
}

-- A reply's content and its body's bytes, as the client that waits with `p` makes a response of them.
pub data Served (m : Multiplexer) (p : PendingRequest) (status : ℕ) (update : Option Update)
    : Content → List ℕ → Response → Type 0 where
  error_served :
      {message : List ℕ}
      → Served m p status update (error_text message) [] (
          error_result
            (some status)
            (typed (exception m FailurePhase.server_error (some status)))
            (topology_of update))
  mismatch_served :
      {opcode : ℕ}
      → (opcode == p.expected_opcode) ≡ false
      → Served m p status update
          (response opcode)
          []
          (error_result none (typed (exception m FailurePhase.server_error none)) none)
  body_served :
      {opcode : ℕ} {bytes : List ℕ} {body : Body}
      → (opcode == p.expected_opcode) ≡ true
      → Takes (p.body_parser status m.protocol_version p.flags) bytes (parsed body)
      → Served m p status update (response opcode) bytes (record {
        status = some status;
        body = body;
        error = none;
        topology_update = topology_of update;
      })
  status_served :
      {opcode : ℕ} {bytes : List ℕ} {code : ℕ}
      → (opcode == p.expected_opcode) ≡ true
      → Takes (p.body_parser status m.protocol_version p.flags) bytes (failed code)
      → Served m p status update (response opcode) bytes (
          error_result none
            (typed (record {
              phase = FailurePhase.server_error;
              server_status = some code;
              tried_nodes = [];
              owners_exhausted = false;
            }))
            none)

abbrev pub reply_with : ℕ → ℕ → Option Update → Content → Reply
reply_with id status update content = record {
  message_id = id;
  status = status;
  update = update;
  content = content;
}

Takes-answer :
    {m : Multiplexer} {p : PendingRequest} (id : ℕ) {status : ℕ} {update : Option Update}
    {c : Content} {bytes : List ℕ} {x : Response}
    → Served m p status update c bytes x
    → Takes (answer m (frame_of (reply_with id status update c)) (error_of c) p) bytes x
unfolding answer respond parsed_response return
Takes-answer id error_served = record { apply = λ front rest. rw append-nil refl }
Takes-answer id (mismatch_served e) = record { apply = λ front rest. rw (e, append-nil) refl }
Takes-answer id (body_served e t) = record { apply = λ front rest. rw (e, t.apply front rest) refl }
Takes-answer id (status_served e t) = record {
  apply = λ front rest. rw (e, t.apply front rest) refl;
}

-- The requests but for those of one id.
unfoldable pub others : List (ℕ × PendingRequest) → ℕ → List (ℕ × PendingRequest)
others [] id = []
others ((k, p) ∷ pending) id =
    let rest = others pending id in if k == id then rest else (k, p) ∷ rest

abbrev pub id_after : ℕ → Option Update → ℕ
id_after old none = old
id_after old (some u) = u.topology_id

abbrev pub updates_after :
    List (TopologyInfo × List ℕ) → Option Update → List ℕ → List (TopologyInfo × List ℕ)
updates_after updates none cache_name = updates
updates_after updates (some u) cache_name =
    updates ++ ((announced u.topology_id u.addresses u.version u.segments, cache_name) ∷ [])

-- The state behind a reply that is served: the request no longer waits, the response is its answer, and
-- a topology has taken effect.
abbrev pub served : Multiplexer → Reply → PendingRequest → Response → Multiplexer
served m r p x = record {
  node = m.node;
  protocol_version = m.protocol_version;
  client_intelligence = m.client_intelligence;
  connected = m.connected;
  stop_read_loop = m.stop_read_loop;
  next_message_id = m.next_message_id;
  topology_id = id_after m.topology_id r.update;
  pending = others m.pending r.message_id;
  answers = m.answers ++ ((r.message_id, x) ∷ []);
  updates = updates_after m.updates r.update p.cache_name;
}

erase_pending-others :
    (pending : List (ℕ × PendingRequest)) (id : ℕ) → erase_pending pending id ≡ others pending id
unfolding erase_pending others
erase_pending-others [] id = refl
erase_pending-others ((k, p) ∷ pending) id = rw (erase_pending-others pending id) refl

answered-served :
    (m : Multiplexer) (id status : ℕ) (update : Option Update) (c : Content) (p : PendingRequest)
    (x : Response)
    → answered m (frame_of (reply_with id status update c)) p x
      ≡ served m (reply_with id status update c) p x
unfolding answered stored_topology_id notified
answered-served m id status none c p x = rw (erase_pending-others m.pending id) refl
answered-served m id status (some u) c p x = rw (erase_pending-others m.pending id) refl

pub Takes-read_round :
    {m : Multiplexer} {r : Reply} {p : PendingRequest} {bytes : List ℕ} {x : Response}
    → IsSendableReply m.client_intelligence r
    → find_pending m.pending r.message_id ≡ some p
    → Served m p r.status r.update r.content bytes x
    → Takes (read_round m) (reply_bytes r ++ bytes) (served m r p x)
unfolding read_round settle
Takes-read_round {m} {r} {p} {bytes} {x} h e s =
    (Takes-bind _ (Takes-receive_frame m.client_intelligence r h) (
      subst (λ o. Takes (settle m (frame_of r) o) bytes (served m r p x)) (sym e)
        (subst (λ t. Takes (settle m (frame_of r) (some p)) bytes t)
          (answered-served m r.message_id r.status r.update r.content p x)
          (Takes-map _ (Takes-answer r.message_id s)))))

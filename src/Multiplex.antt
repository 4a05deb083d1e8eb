-- ===== src/Multiplex.antt =====
-- src/transport/MultiplexedConnection.cpp: many requests over one socket. A promise is the message id
-- of its request, and `answers` lists the promises that were set, in order. The socket is the list of
-- the bytes that the peer sends, as in Stream.antt.
pub mod Reading
pub mod Frames
pub mod Rounds
pub mod Loop
pub mod Misfits
pub mod Progress
pub mod Ends
pub mod Threads
mod Runs
use cpp17_client.Base.{
  ℕ, zero, suc, ◌+◌, ◌%◌, ◌^◌, List, [], ◌∷◌, ◌++◌, map, length, Bool, true, false, not,
}
use cpp17_client.Base.{◌==◌, ltb, if◌then◌else◌, Option, none, some}
use cpp17_client.Base.{Outcome, ok, err, ◌>>=◌, Error, runtime_error}
use cpp17_client.Base.Readers.{Reader}
use cpp17_client.Header.{ClientIntelligence, RequestHeader, request_magic, write_request_header}
use cpp17_client.Header.{response_magic}
use cpp17_client.Failure.{ServerAddress, FailurePhase, HotRodClientException, Thrown, typed, plain}
use cpp17_client.Stream.{closed, receive_vlong, receive_byte_array}
use cpp17_client.Topology.{TopologyInfo, new_topology}
use cpp17_client.Announcement.{parse_topology_info}
use cpp17_client.Operations.{Body, empty, Parsed, parsed, failed}

-- The status is `none` where the source leaves it unset.
pub record Response : Type 0 where
  pub status : Option ℕ
  pub body : Body
  pub error : Option Thrown
  pub topology_update : Option TopologyInfo

-- The body parser takes the status, the protocol's version and the flags. It throws a
-- `HotRodClientException` as `failed`, and else only what the socket throws when it is closed.
pub record PendingRequest : Type 0 where
  pub body_parser : ℕ → ℕ → ℕ → Reader Parsed
  pub expected_opcode : ℕ
  pub cache_name : List ℕ
  pub flags : ℕ

-- `updates` lists the calls of the topology callback.
pub record Multiplexer : Type 0 where
  pub node : ServerAddress
  pub protocol_version : ℕ
  pub client_intelligence : ClientIntelligence
  pub connected : Bool
  pub stop_read_loop : Bool
  pub next_message_id : ℕ
  pub topology_id : ℕ
  pub pending : List (ℕ × PendingRequest)
  pub answers : List (ℕ × Response)
  pub updates : List (TopologyInfo × List ℕ)

-- An exception that names this connection's server.
abbrev pub exception : Multiplexer → FailurePhase → Option ℕ → HotRodClientException
exception m phase status = record {
  phase = phase;
  server_status = status;
  tried_nodes = m.node ∷ [];
  owners_exhausted = false;
}

abbrev pub error_result : Option ℕ → Thrown → Option TopologyInfo → Response
error_result status e update = record {
  status = status;
  body = empty;
  error = some e;
  topology_update = update;
}

unfoldable pub find_pending : List (ℕ × PendingRequest) → ℕ → Option PendingRequest
find_pending [] id = none
find_pending ((k, p) ∷ pending) id =
    let rest = find_pending pending id in if k == id then some p else rest

unfoldable pub erase_pending : List (ℕ × PendingRequest) → ℕ → List (ℕ × PendingRequest)
erase_pending [] id = []
erase_pending ((k, p) ∷ pending) id =
    let rest = erase_pending pending id in if k == id then rest else (k, p) ∷ rest

-- `pending_[id] = p` of the map, which is ordered by the ids.
unfoldable pub insert_pending :
    List (ℕ × PendingRequest) → ℕ → PendingRequest → List (ℕ × PendingRequest)
insert_pending [] id p = (id, p) ∷ []
insert_pending ((k, q) ∷ pending) id p =
    let rest = insert_pending pending id p in
    if id == k
    then (id, p) ∷ pending
    else if ltb id k
    then (id, p) ∷ (k, q) ∷ pending
    else (k, q) ∷ rest

abbrev pub with_requests :
    Multiplexer → ℕ → List (ℕ × PendingRequest) → List (ℕ × Response) → Multiplexer
with_requests m next_message_id pending answers = record {
  node = m.node;
  protocol_version = m.protocol_version;
  client_intelligence = m.client_intelligence;
  connected = m.connected;
  stop_read_loop = m.stop_read_loop;
  next_message_id = next_message_id;
  topology_id = m.topology_id;
  pending = pending;
  answers = answers;
  updates = m.updates;
}

abbrev pub with_flags : Multiplexer → Bool → Bool → Multiplexer
with_flags m connected stop_read_loop = record {
  node = m.node;
  protocol_version = m.protocol_version;
  client_intelligence = m.client_intelligence;
  connected = connected;
  stop_read_loop = stop_read_loop;
  next_message_id = m.next_message_id;
  topology_id = m.topology_id;
  pending = m.pending;
  answers = m.answers;
  updates = m.updates;
}

-- The setters work only while there is no connection.
unfoldable pub set_protocol_version : Multiplexer → ℕ → Outcome Multiplexer
set_protocol_version m version =
    if m.connected
    then err (runtime_error "Cannot change protocol version after connect()")
    else ok (record {
      node = m.node;
      protocol_version = version;
      client_intelligence = m.client_intelligence;
      connected = m.connected;
      stop_read_loop = m.stop_read_loop;
      next_message_id = m.next_message_id;
      topology_id = m.topology_id;
      pending = m.pending;
      answers = m.answers;
      updates = m.updates;
    })

unfoldable pub set_client_intelligence : Multiplexer → ClientIntelligence → Outcome Multiplexer
set_client_intelligence m intelligence =
    if m.connected
    then err (runtime_error "Cannot change client intelligence after connect()")
    else ok (record {
      node = m.node;
      protocol_version = m.protocol_version;
      client_intelligence = intelligence;
      connected = m.connected;
      stop_read_loop = m.stop_read_loop;
      next_message_id = m.next_message_id;
      topology_id = m.topology_id;
      pending = m.pending;
      answers = m.answers;
      updates = m.updates;
    })

-- `nextMessageId_++` on 64 bits.
unfoldable pub take_number : Multiplexer → ℕ × Multiplexer
take_number m =
    (m.next_message_id, with_requests m ((m.next_message_id + 1) % 2 ^ 64) m.pending m.answers)

unfoldable pub enlist : Multiplexer → ℕ → PendingRequest → Multiplexer
unfolding insert_pending
enlist m id p = with_requests m m.next_message_id (insert_pending m.pending id p) m.answers

unfoldable pub register : Multiplexer → PendingRequest → ℕ × Multiplexer
unfolding take_number enlist
register m p = let (id, numbered) = take_number m in (id, enlist numbered id p)

unfoldable pub build_request : Multiplexer → ℕ → ℕ → List ℕ → List ℕ → ℕ → List ℕ
build_request m message_id opcode body cache_name flags =
    write_request_header [] (record {
      magic = request_magic;
      message_id = message_id;
      version = m.protocol_version;
      opcode = opcode;
      cache_name = cache_name;
      flags = flags;
      client_intelligence = m.client_intelligence;
      topology_id = m.topology_id;
      key_media_type = 0;
      value_media_type = 0;
      other_params = [];
    })
    ++ body

unfoldable pub withdraw : Multiplexer → ℕ → Multiplexer
unfolding erase_pending
withdraw m id = with_requests m m.next_message_id (erase_pending m.pending id) m.answers

-- A failed `send` takes the entry back.
unfoldable pub send_failed : Multiplexer → ℕ → HotRodClientException × Multiplexer
unfolding withdraw
send_failed m id = (exception m FailurePhase.after_send none, withdraw m id)

-- What a call of `execute` comes to: an exception, or the bytes sent and the message id of the future.
pub data Execution : Type 0 where
  thrown : HotRodClientException → Execution
  sent : ℕ → List ℕ → Execution

-- With no other thread in between; `sends` says whether `send` of the bytes returns.
unfoldable pub execute :
    (List ℕ → Bool) → Multiplexer → List ℕ → ℕ → PendingRequest → Execution × Multiplexer
unfolding register build_request send_failed
execute sends m request_body request_opcode p =
    if not m.connected
    then (thrown (exception m FailurePhase.before_send none), m)
    else let (id, registered) = register m p in
      let request = build_request registered id request_opcode request_body p.cache_name p.flags in
      let after = send_failed registered id in
      if sends request then (sent id request, registered) else (thrown after.0, after.1)

-- The answers that `closeAllPending` gives.
unfoldable pub connection_lost : Multiplexer → List (ℕ × PendingRequest) → List (ℕ × Response)
connection_lost m [] = []
connection_lost m ((id, p) ∷ pending) =
    (id, error_result none (typed (exception m FailurePhase.after_send none)) none)
    ∷ connection_lost m pending

unfoldable pub close_all_pending : Multiplexer → Multiplexer
unfolding connection_lost
close_all_pending m =
    with_requests m m.next_message_id [] (m.answers ++ connection_lost m m.pending)

-- The handler of the loop's `catch`.
unfoldable pub disconnected : Multiplexer → Multiplexer
disconnected m = if not m.stop_read_loop then with_flags m false m.stop_read_loop else m

unfoldable pub read_failed : Multiplexer → Multiplexer
unfolding disconnected close_all_pending
read_failed m = close_all_pending (disconnected m)

-- `close` after the read thread has been joined.
unfoldable pub close : Multiplexer → Multiplexer
unfolding close_all_pending
close m = close_all_pending (with_flags m false true)

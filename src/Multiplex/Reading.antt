-- ===== src/Multiplex/Reading.antt =====
-- The read loop of src/transport/MultiplexedConnection.cpp.
use cpp17_client.Base.{ℕ, zero, suc, List, [], ◌∷◌, ◌++◌, length, Bool, true, false, not}
use cpp17_client.Base.{◌&&◌, ◌==◌, if◌then◌else◌, Option, none, some}
use cpp17_client.Base.{Outcome, ok, err, undefined, runtime_error}
use cpp17_client.Base.Readers.{Reader, ◌>>=◌, ◌>>◌, return, throw_if, next_byte}
use cpp17_client.Header.{ClientIntelligence}
use cpp17_client.Header.{response_magic}
use cpp17_client.Failure.{FailurePhase}
use cpp17_client.Stream.{closed, receive_vlong, receive_byte_array}
use cpp17_client.Topology.{TopologyInfo, new_topology}
use cpp17_client.Announcement.{parse_topology_info}
use cpp17_client.Operations.{Parsed, parsed, failed}
use cpp17_client.Failure.{typed, plain}
use cpp17_client.Multiplex.{
  Multiplexer, PendingRequest, Response, exception, error_result, find_pending, erase_pending,
  read_failed,
}

-- `Opcode::ERROR_RESPONSE`.
abbrev pub error_response : ℕ
error_response = 0x50

-- A response header with the topology and the error message that may follow it.
pub record Frame : Type 0 where
  pub message_id : ℕ
  pub opcode : ℕ
  pub status : ℕ
  pub topology : Option TopologyInfo
  pub error_message : Option (List ℕ)

abbrev pub is_aware : ClientIntelligence → Bool
is_aware ClientIntelligence.basic = false
is_aware ClientIntelligence.topology_aware = true
is_aware ClientIntelligence.hash_distribution_aware = true

unfoldable pub receive_topology : ClientIntelligence → ℕ → Reader (Option TopologyInfo)
receive_topology intelligence topology_marker =
    if not (topology_marker == 0) && is_aware intelligence
    then (parse_topology_info new_topology intelligence >>= λ t. return (some t))
    else return none

unfoldable pub receive_error : ℕ → Reader (Option (List ℕ))
receive_error opcode =
    if opcode == error_response
    then (receive_byte_array >>= λ message. return (some message))
    else return none

-- Part 1 of a round of the read loop, up to the topology. The three bytes behind the id are received at
-- once in the source.
unfoldable pub receive_start : ClientIntelligence → Reader Frame
unfolding receive_topology
receive_start intelligence = do
  magic ← next_byte closed
  throw_if (not (magic == response_magic)) (runtime_error "Invalid magic byte in response: ")
  message_id ← receive_vlong
  opcode ← next_byte closed
  status ← next_byte closed
  topology_marker ← next_byte closed
  topology ← receive_topology intelligence topology_marker
  return record {
    message_id = message_id;
    opcode = opcode;
    status = status;
    topology = topology;
    error_message = none;
  }

abbrev pub with_message : Frame → Option (List ℕ) → Frame
with_message f error_message = record {
  message_id = f.message_id;
  opcode = f.opcode;
  status = f.status;
  topology = f.topology;
  error_message = error_message;
}

-- Part 1b.
unfoldable pub receive_message : Frame → Reader Frame
unfolding receive_error
receive_message f = do message ← receive_error f.opcode; return (with_message f message)

unfoldable pub receive_frame : ClientIntelligence → Reader Frame
unfolding receive_start receive_message
receive_frame intelligence = receive_start intelligence >>= receive_message

-- The outcome of the body parser at an offset, as the response; a parser that threw because the socket
-- was closed had taken all bytes.
unfoldable pub parsed_response :
    Multiplexer → Frame → ℕ → Outcome (Parsed × ℕ) → Outcome (Response × ℕ)
parsed_response m f size (ok (parsed body, offset)) = ok (
  record { status = some f.status; body = body; error = none; topology_update = f.topology },
  offset,
)
parsed_response m f size (ok (failed code, offset)) = ok (
  error_result none
      (typed (record {
        phase = FailurePhase.server_error;
        server_status = some code;
        tried_nodes = [];
        owners_exhausted = false;
      }))
      none,
  offset,
)
parsed_response m f size (err e) = ok (error_result none (plain e) none, size)
parsed_response m f size undefined = undefined

unfoldable pub respond : Multiplexer → Frame → PendingRequest → Reader Response
unfolding parsed_response
respond m f p buffer offset =
    parsed_response m f (length buffer)
      (p.body_parser f.status m.protocol_version p.flags buffer offset)

-- Parts 2b to 5 of a round.
unfoldable pub answer : Multiplexer → Frame → Option (List ℕ) → PendingRequest → Reader Response
unfolding respond
answer m f (some message) p = return (
    error_result (some f.status) (typed (exception m FailurePhase.server_error (some f.status)))
      f.topology)
answer m f none p =
    if not (f.opcode == p.expected_opcode)
    then return (error_result none (typed (exception m FailurePhase.server_error none)) none)
    else respond m f p

-- `topologyId_.store`.
unfoldable pub stored_topology_id : ℕ → Option TopologyInfo → ℕ
stored_topology_id old none = old
stored_topology_id old (some t) = t.topology_id

unfoldable pub notified :
    List (TopologyInfo × List ℕ) → Option TopologyInfo → List ℕ → List (TopologyInfo × List ℕ)
notified updates none cache_name = updates
notified updates (some t) cache_name = updates ++ ((t, cache_name) ∷ [])

-- A round for an id that nobody waits for leaves the requests as they are.
unfoldable pub orphaned : Multiplexer → Frame → Multiplexer
unfolding stored_topology_id
orphaned m f = record {
  node = m.node;
  protocol_version = m.protocol_version;
  client_intelligence = m.client_intelligence;
  connected = m.connected;
  stop_read_loop = m.stop_read_loop;
  next_message_id = m.next_message_id;
  topology_id = stored_topology_id m.topology_id f.topology;
  pending = m.pending;
  answers = m.answers;
  updates = m.updates;
}

unfoldable pub answered : Multiplexer → Frame → PendingRequest → Response → Multiplexer
unfolding stored_topology_id notified erase_pending
answered m f p r = record {
  node = m.node;
  protocol_version = m.protocol_version;
  client_intelligence = m.client_intelligence;
  connected = m.connected;
  stop_read_loop = m.stop_read_loop;
  next_message_id = m.next_message_id;
  topology_id = stored_topology_id m.topology_id f.topology;
  pending = erase_pending m.pending f.message_id;
  answers = m.answers ++ ((f.message_id, r) ∷ []);
  updates = notified m.updates f.topology p.cache_name;
}

unfoldable pub settle : Multiplexer → Frame → Option PendingRequest → Reader Multiplexer
unfolding answer answered orphaned
settle m f none = return (orphaned m f)
settle m f (some p) = do r ← answer m f f.error_message p; return (answered m f p r)

-- One round of the read loop.
unfoldable pub read_round : Multiplexer → Reader Multiplexer
unfolding receive_frame settle find_pending
read_round m = do
  f ← receive_frame m.client_intelligence
  settle m f (find_pending m.pending f.message_id)

-- What a round that throws has stored: the id of a topology that it had received.
unfoldable pub interrupted : Multiplexer → Outcome (Frame × ℕ) → Multiplexer
unfolding orphaned
interrupted m (ok (f, offset)) = orphaned m f
interrupted m (err e) = m
interrupted m undefined = m

-- What follows a round: the next one, or the handler of the loop's `catch`.
unfoldable pub after_round :
    (Multiplexer → ℕ → Outcome (Option Multiplexer))
    → Multiplexer
    → Outcome (Multiplexer × ℕ)
    → Outcome (Option Multiplexer)
after_round next m (ok (m', offset)) = next m' offset
after_round next m (err e) = ok (some (read_failed m))
after_round next m undefined = undefined

-- The loop, with no other thread in between; `none` is that the fuel ran out.
unfoldable pub read_loop : ℕ → Multiplexer → List ℕ → ℕ → Outcome (Option Multiplexer)
unfolding after_round interrupted
read_loop zero m buffer offset = ok none
read_loop (suc fuel) m buffer offset =
    if not m.stop_read_loop && m.connected
    then after_round (λ m' offset'. read_loop fuel m' buffer offset')
        (interrupted m (receive_start m.client_intelligence buffer offset))
        (read_round m buffer offset)
    else ok (some m)

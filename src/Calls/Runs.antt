-- ===== src/Calls/Runs.antt =====
-- Calls of `get` over a pooled connection, and retries.
use cpp17_client.Base.{◌≡◌, ◌||◌, refl, arith, List, [], ◌∷◌, ◌++◌, true, false, none, some, ok}
use cpp17_client.Base.Readers.{Takes, Takes-map}
use cpp17_client.Codec.Framing.{counted}
use cpp17_client.Stream.Receiving.{Takes-receive_byte_array}
use cpp17_client.Header.{ClientIntelligence}
use cpp17_client.Failure.{ServerAddress, FailurePhase, HotRodClientException, typed, same_address}
use cpp17_client.Selection.{has_node, union_nodes, order_key_candidates}
use cpp17_client.Topology.{TopologyInfo}
use cpp17_client.Routing.{cleared}
use cpp17_client.Operations.{
  Operation, Body, response_opcode, parsed, parse_body, parse_found, parse_value,
}
use cpp17_client.Operations.Results.{result_of}
use cpp17_client.Multiplex.{
  Multiplexer, Response, execute, register, withdraw, exception, error_result,
}
use cpp17_client.Multiplex.Reading.{read_round}
use cpp17_client.Multiplex.Frames.{reply_bytes}
use cpp17_client.Multiplex.Rounds.{served}
use cpp17_client.Cache.{Network, RemoteCache, pooled, get_connection_for_server, select_any_server}
use cpp17_client.Calls.{
  no_context, excluding, rethrow_with_tried_nodes, choose_connection, pending_of, Future, future,
  failed, Connections, call_of, call_over, throws, delivered, get_from, future_get,
}
use cpp17_client.Calls.Deliveries.{reply_to, call_over-future_get}
use cpp17_client.Calls.Retries.{retry_avoids_nodes, call_over_failed_nodes}

abbrev node_a : ServerAddress
node_a = record { host = 97 ∷ []; port = 1 }

abbrev node_b : ServerAddress
node_b = record { host = 98 ∷ []; port = 1 }

abbrev connection : ServerAddress → Multiplexer
connection node = record {
  node = node;
  protocol_version = 41;
  client_intelligence = ClientIntelligence.hash_distribution_aware;
  connected = true;
  stop_read_loop = false;
  next_message_id = 5;
  topology_id = 0;
  pending = [];
  answers = [];
  updates = [];
}

abbrev working : Connections
working = record {
  seed_connection = connection node_a;
  connection_to = connection;
  sends = λ bytes. true;
}

abbrev get_one : Operation
get_one = Operation.get (1 ∷ [])

value_taken :
    Takes (parse_body get_one 0 41) (counted (7 ∷ 8 ∷ [])) (parsed (Body.value (7 ∷ 8 ∷ [])))
unfolding parse_body parse_found parse_value
value_taken =
    Takes-map (λ bytes. parsed (Body.value bytes))
      (Takes-receive_byte_array (7 ∷ 8 ∷ []) (omega arith))

call_over-future_get_example :
    (f : Future) × (m : Multiplexer) × (r : Response) × (call_over working get_one [] no_context
        (pooled node_b (node_b ∷ []))
      ≡ (future f, some m))
    × Takes
        (read_round m)
        (reply_bytes (reply_to get_one (connection node_b) 0 none) ++ counted (7 ∷ 8 ∷ []))
        (served m (reply_to get_one (connection node_b) 0 none) (pending_of get_one []) r)
    × (future_get f r ≡ ok (delivered f (result_of get_one 0 (Body.value (7 ∷ 8 ∷ [])))))
unfolding response_opcode
call_over-future_get_example =
    call_over-future_get working get_one [] no_context node_b (node_b ∷ []) 0 none
      (Body.value (7 ∷ 8 ∷ [])) (counted (7 ∷ 8 ∷ [])) (refl, refl) (λ bytes. refl)
      (omega arith, tt, refl) value_taken

-- The first attempt ran into the loss of the connection to the one node; the ping that follows reaches
-- the other.
abbrev first_try : Future
first_try = record {
  operation = Operation.ping;
  message_id = 5;
  tried = node_a ∷ [];
  excluded = [];
}

abbrev lost : HotRodClientException
lost = exception (connection node_a) FailurePhase.after_send none

abbrev two_servers : TopologyInfo
two_servers = record {
  topology_id = 1;
  servers =
      record { host = 97 ∷ []; port = 1; hash_id = 0 }
      ∷ record { host = 98 ∷ []; port = 1; hash_id = 1 }
      ∷ [];
  round_robin_index = 0;
  hash_function_version = 0;
  num_segments = 0;
  segment_owners = [];
}

abbrev cache : List ServerAddress → RemoteCache
cache pool = record {
  client_intelligence = ClientIntelligence.topology_aware;
  proxy_to_non_owner = false;
  topology = two_servers;
  consistent_hash = cleared;
  connection_pool = pool;
}

abbrev up : Network
up = record { is_connected = λ a. false; connects = λ a. true }

first_failure :
    future_get first_try (error_result none (typed lost) none)
    ≡ ok (throws (typed (exception (connection node_a) FailurePhase.after_send none)))
unfolding future_get get_from rethrow_with_tried_nodes union_nodes has_node same_address
first_failure = refl

second_choice :
    choose_connection up (cache []) Operation.ping (excluding lost)
    ≡ ok (pooled node_b (node_b ∷ []), cache (node_b ∷ []))
unfolding choose_connection select_any_server excluding order_key_candidates has_node same_address
    get_connection_for_server
second_choice = refl

retry_avoids_nodes_example :
    (has_node first_try.excluded node_b || has_node first_try.tried node_b) ≡ false
retry_avoids_nodes_example =
    retry_avoids_nodes first_try (error_result none (typed lost) none) lost up (cache [])
      (cache (node_b ∷ [])) Operation.ping (pooled node_b (node_b ∷ [])) first_failure second_choice

-- The send fails on the second attempt: the exception does not name the first node.
abbrev stuck : Connections
stuck = record {
  seed_connection = connection node_a;
  connection_to = connection;
  sends = λ bytes. false;
}

second_failure : call_over stuck get_one [] (excluding lost) (pooled node_b (node_b ∷ [])) ≡ (
  failed (exception (connection node_b) FailurePhase.after_send none),
  some (withdraw (register (connection node_b) (pending_of get_one [])).1 5),
)
unfolding call_over call_of execute
second_failure = refl

call_over_failed_nodes_example :
    (exception (connection node_b) FailurePhase.after_send none).tried_nodes ≡ node_b ∷ []
call_over_failed_nodes_example =
    call_over_failed_nodes stuck get_one [] (excluding lost) node_b (node_b ∷ [])
      (exception (connection node_b) FailurePhase.after_send none) _ second_failure

-- ===== src/Retry/Runs.antt =====
-- Pings that lose the connection to one server after the other.
use cpp17_client.Base.{◌≡◌, refl, [], ◌∷◌, true, false, none, some}
use cpp17_client.Failure.{ServerAddress, FailurePhase, typed, same_address, is_transient}
use cpp17_client.Header.{ClientIntelligence}
use cpp17_client.Topology.{TopologyInfo}
use cpp17_client.Routing.{cleared}
use cpp17_client.Operations.{Operation}
use cpp17_client.Multiplex.{Multiplexer, Response, exception, error_result}
use cpp17_client.Cache.{select_any_server, get_connection_for_server}
use cpp17_client.Selection.{has_node, union_nodes, order_key_candidates}
use cpp17_client.Calls.{Connections, call, future_get, excluding_nodes}
use cpp17_client.Retry.{
  World, Run, to_node, to_seed, nowhere, threw, returned, with_retry, ping_with_retry,
}
use cpp17_client.Retry.Live.{IsServing}
use cpp17_client.Retry.Success.{ping_with_retry-IsServing}
use cpp17_client.Operations.{Body}
use cpp17_client.Operations.Results.{Result}
use cpp17_client.Base.{List, ◌≤◌, length, ap, ◌∙◌, arith, if◌then◌else◌}
use cpp17_client.Retry.Attempts.{IsWorking}
use cpp17_client.Retry.Bounded.{IsOver, with_retry-IsOver}
use cpp17_client.Retry.Distinct.{AreFresh, with_retry-AreFresh}

abbrev connection : ServerAddress → Multiplexer
connection node = record {
  node = node;
  protocol_version = 41;
  client_intelligence = ClientIntelligence.topology_aware;
  connected = true;
  stop_read_loop = false;
  next_message_id = 0;
  topology_id = 0;
  pending = [];
  answers = [];
  updates = [];
}

abbrev first_node : ServerAddress
first_node = record { host = 97 ∷ []; port = 1 }

abbrev working : Connections
working = record {
  seed_connection = connection first_node;
  connection_to = connection;
  sends = λ bytes. true;
}

working-IsWorking : IsWorking working
working-IsWorking = record { seed_up = refl; up = λ a. refl; sends = λ bytes. refl }

abbrev two_servers : TopologyInfo
two_servers = record {
  topology_id = 1;
  servers =
      record { host = 97 ∷ []; port = 1; hash_id = 0 }
      ∷ record { host = 98 ∷ []; port = 1; hash_id = 1 }
      ∷ [];
  round_robin_index = 0;
  hash_function_version = 0;
  num_segments = 0;
  segment_owners = [];
}

abbrev world : World
world = record {
  net = record { is_connected = λ a. true; connects = λ a. true };
  over = working;
  cache = record {
    client_intelligence = ClientIntelligence.topology_aware;
    proxy_to_non_owner = true;
    topology = two_servers;
    consistent_hash = cleared;
    connection_pool = [];
  };
  response = λ f.
      error_result none (typed (exception (connection first_node) FailurePhase.after_send none))
        none;
}

with_retry-IsOver_example :
    (run : Run) × (with_retry (λ number. world) Operation.ping [] 3 ≡ some run) × IsOver 3 1 run
with_retry-IsOver_example = with_retry-IsOver (λ number. world) Operation.ping [] 3

with_retry-AreFresh_example :
    (run : Run) × (with_retry (λ number. world) Operation.ping [] 3 ≡ some run)
    × AreFresh [] run.nodes
with_retry-AreFresh_example =
    with_retry-AreFresh (λ number. world) Operation.ping [] 3 (λ number. working-IsWorking)

-- Both servers in turn, and then there is none left to try.
run_over_both :
    with_retry (λ number. world) Operation.ping [] 3
    ≡ some (record {
      ending = threw (
          typed (record {
            phase = FailurePhase.before_send;
            server_status = none;
            tried_nodes = first_node ∷ record { host = 98 ∷ []; port = 1 } ∷ [];
            owners_exhausted = false;
          }));
      nodes = to_node first_node ∷ to_node (record { host = 98 ∷ []; port = 1 }) ∷ nowhere ∷ [];
    })
unfolding with_retry call select_any_server order_key_candidates has_node same_address
    get_connection_for_server future_get is_transient union_nodes excluding_nodes
run_over_both = refl

-- A client without a topology tries the connection of the constructor again and again.
abbrev without_topology : World
without_topology = record {
  net = world.net;
  over = working;
  cache = record {
    client_intelligence = ClientIntelligence.basic;
    proxy_to_non_owner = true;
    topology = record {
      topology_id = 0;
      servers = [];
      round_robin_index = 0;
      hash_function_version = 0;
      num_segments = 0;
      segment_owners = [];
    };
    consistent_hash = cleared;
    connection_pool = [];
  };
  response = world.response;
}

run_over_seed :
    with_retry (λ number. without_topology) Operation.ping [] 2
    ≡ some (record {
      ending = threw (typed (exception (connection first_node) FailurePhase.after_send none));
      nodes = to_seed ∷ to_seed ∷ [];
    })
unfolding with_retry call select_any_server order_key_candidates has_node same_address
    get_connection_for_server future_get is_transient union_nodes excluding_nodes
run_over_seed = refl

-- Of two servers the second one answers.
abbrev live_node : ServerAddress
live_node = record { host = 98 ∷ []; port = 1 }

abbrev replied_by : List ServerAddress → Response
replied_by [] = record { status = some 0; body = Body.empty; error = none; topology_update = none }
replied_by (a ∷ tried) =
    if same_address a live_node
    then record { status = some 0; body = Body.empty; error = none; topology_update = none }
    else error_result none (typed (exception (connection a) FailurePhase.after_send none)) none

abbrev serving : World
serving = record {
  net = world.net;
  over = working;
  cache = world.cache;
  response = λ f. replied_by f.tried;
}

serving-IsServing : IsServing (first_node ∷ live_node ∷ []) live_node serving
unfolding same_address is_transient
serving-IsServing = record {
  same_servers = refl;
  connects = λ a. refl;
  working = working-IsWorking;
  answers =
      λ f h. (ap (λ tried. (replied_by tried).error) h, ap (λ tried. (replied_by tried).status) h);
  fails = λ f a h other. (
    exception (connection a) FailurePhase.after_send none,
    ap (λ tried. (replied_by tried).error) h ∙ rw other refl,
    refl,
    refl,
  );
}

ping_with_retry-IsServing_example :
    (run : Run) × (ping_with_retry (λ number. serving) [] 2 ≡ some run)
    × (run.ending ≡ returned Result.done)
    × (length run.nodes ≤ 2)
unfolding has_node same_address
ping_with_retry-IsServing_example =
    ping_with_retry-IsServing (first_node ∷ live_node ∷ []) live_node (λ number. serving)
      (λ number. serving-IsServing) [] 2 refl (omega arith)

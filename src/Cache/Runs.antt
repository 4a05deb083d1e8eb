-- ===== src/Cache/Runs.antt =====
-- A key with one owner among two servers, with the network down and up.
use cpp17_client.Base.{ℕ, ◌≡◌, refl, List, [], ◌∷◌, ◌++◌, map, true, false, ◌&&◌, ◌||◌, none, ok}
use cpp17_client.Failure.{ServerAddress, same_address, HotRodClientException, FailurePhase}
use cpp17_client.Selection.{has_node, order_key_candidates, union_nodes}
use cpp17_client.Header.{ClientIntelligence}
use cpp17_client.Topology.{TopologyInfo, address, new_topology}
use cpp17_client.Announcement.Complete.{announced, numbered, number_all}
use cpp17_client.Routing.{get_owners, cleared, update_from_topology, get_segment}
use cpp17_client.Murmur.{hash32}
use cpp17_client.Cache.{
  Network, RemoteCache, pooled, refused, with_pool, select_server_for_key, handle_topology_update,
  get_connection_for_server,
}
use cpp17_client.Cache.Choices.{select_server_for_key_refused, select_server_for_key_pooled}

abbrev server_a : ServerAddress
server_a = record { host = 97 ∷ []; port = 11222 }

abbrev server_b : ServerAddress
server_b = record { host = 98 ∷ []; port = 11322 }

abbrev server_c : ServerAddress
server_c = record { host = 99 ∷ []; port = 11422 }

abbrev topology : TopologyInfo
topology = announced 5 (server_a ∷ server_b ∷ []) 3 ((0 ∷ 1 ∷ []) ∷ (1 ∷ 0 ∷ []) ∷ (1 ∷ []) ∷ [])

abbrev hello : List ℕ
hello = 104 ∷ 101 ∷ 108 ∷ 108 ∷ 111 ∷ []

abbrev fresh_cache : RemoteCache
fresh_cache = record {
  client_intelligence = ClientIntelligence.hash_distribution_aware;
  proxy_to_non_owner = true;
  topology = new_topology;
  consistent_hash = cleared;
  connection_pool = server_b ∷ server_c ∷ [];
}

abbrev cache : RemoteCache
cache = handle_topology_update fresh_cache topology

abbrev down : Network
down = record { is_connected = λ a. false; connects = λ a. false }

abbrev up : Network
up = record { is_connected = λ a. false; connects = λ a. true }

abbrev unreachable : HotRodClientException
unreachable = record {
  phase = FailurePhase.before_send;
  server_status = none;
  tried_nodes = server_b ∷ server_a ∷ [];
  owners_exhausted = true;
}

owners_known : get_owners cache.consistent_hash hello cache.topology ≡ ok (numbered server_b 1 ∷ [])
unfolding handle_topology_update update_from_topology number_all get_owners get_segment hash32
owners_known = refl

refused_run :
    select_server_for_key down cache hello [] ≡ ok (refused unreachable, with_pool cache [])
unfolding select_server_for_key handle_topology_update update_from_topology number_all get_owners
    get_segment hash32 order_key_candidates has_node same_address get_connection_for_server
    union_nodes
refused_run = refl

pooled_run :
    select_server_for_key up cache hello []
    ≡ ok (pooled server_b (server_b ∷ []), with_pool cache (server_b ∷ []))
unfolding select_server_for_key handle_topology_update update_from_topology number_all get_owners
    get_segment hash32 order_key_candidates has_node same_address get_connection_for_server
    union_nodes
pooled_run = refl

select_server_for_key_refused_example :
    (unreachable.owners_exhausted ≡ true)
    × ((a : ServerAddress)
        → has_node unreachable.tried_nodes a ≡ (
            has_node [] a
            || has_node (map address (numbered server_b 1 ∷ [])) a
            || cache.proxy_to_non_owner && has_node (map address cache.topology.servers) a))
select_server_for_key_refused_example =
    select_server_for_key_refused down cache (with_pool cache []) hello []
      (numbered server_b 1 ∷ []) unreachable owners_known refused_run

select_server_for_key_pooled_example :
    (has_node [] server_b ≡ false)
    × (has_node (server_b ∷ []) server_b ≡ true)
    × ((rest : List ServerAddress) × ((server_b ∷ []) ++ rest
          ≡ order_key_candidates
              (map address (numbered server_b 1 ∷ []))
              (map address cache.topology.servers)
              []
              cache.proxy_to_non_owner))
select_server_for_key_pooled_example =
    select_server_for_key_pooled up cache (with_pool cache (server_b ∷ [])) hello []
      (numbered server_b 1 ∷ []) server_b (server_b ∷ []) owners_known pooled_run

-- ===== src/Cache.antt =====
-- src/operations/RemoteCache.cpp: the choice of the connection for a call, the pool of connections,
-- and the routing state that a topology update replaces. A pooled connection is the address that it
-- goes to; its pool key, host and port joined by a colon, is the address. The lock, held for the whole
-- of each function, makes it one step.
pub mod Candidates
pub mod Choices
pub mod Pool
mod Runs
use cpp17_client.Base.{List, [], ◌∷◌, ◌++◌, map, Bool, true, false, not, ◌&&◌, ◌||◌, if◌then◌else◌}
use cpp17_client.Base.{Option, none, some, Outcome, ok, ◌>>=◌, ℕ}
use cpp17_client.Failure.{ServerAddress, same_address, HotRodClientException, FailurePhase}
use cpp17_client.Selection.{has_node, order_key_candidates, union_nodes}
use cpp17_client.Header.{ClientIntelligence}
use cpp17_client.Topology.{ServerInfo, TopologyInfo, address}
use cpp17_client.Routing.{
  ConsistentHash, has_hash_topology, get_segment, get_owners, update_from_topology,
}

-- What the network does during a call: whether a pooled connection is still up, and whether
-- `MultiplexedConnection::connect` to a server returns.
pub record Network : Type 0 where
  pub is_connected : ServerAddress → Bool
  pub connects : ServerAddress → Bool

pub record RemoteCache : Type 0 where
  pub client_intelligence : ClientIntelligence
  pub proxy_to_non_owner : Bool
  pub topology : TopologyInfo
  pub consistent_hash : ConsistentHash
  pub connection_pool : List ServerAddress

abbrev pub with_pool : RemoteCache → List ServerAddress → RemoteCache
with_pool c pool = record {
  client_intelligence = c.client_intelligence;
  proxy_to_non_owner = c.proxy_to_non_owner;
  topology = c.topology;
  consistent_hash = c.consistent_hash;
  connection_pool = pool;
}

-- `connectionPool_.erase`.
unfoldable pub erase : ServerAddress → List ServerAddress → List ServerAddress
erase a [] = []
erase a (p ∷ pool) = if same_address p a then erase a pool else p ∷ erase a pool

-- Whether a connection is returned, and the pool behind it; otherwise `connect` has thrown.
unfoldable pub get_connection_for_server :
    Network → List ServerAddress → ServerAddress → Bool × List ServerAddress
unfolding erase
get_connection_for_server net pool a =
    if has_node pool a && net.is_connected a
    then (true, pool)
    else if net.connects a
    then (true, a ∷ erase a pool)
    else (false, erase a pool)

-- The result of the loop over the candidates.
pub record Attempt : Type 0 where
  pub found : Option ServerAddress
  pub tried : List ServerAddress
  pub pool : List ServerAddress

-- `tried` holds the candidates before.
unfoldable pub try_candidates :
    Network → List ServerAddress → List ServerAddress → List ServerAddress → Attempt
try_candidates net pool tried [] = record { found = none; tried = tried; pool = pool }
try_candidates net pool tried (cand ∷ candidates) =
    let connection = get_connection_for_server net pool cand in
    let rest = try_candidates net connection.1 (tried ++ (cand ∷ [])) candidates in
    if connection.0
    then record { found = some cand; tried = tried ++ (cand ∷ []); pool = connection.1 }
    else rest

-- What a choice comes to: a pooled connection and the nodes tried, the connection of the constructor,
-- or an exception.
pub data Choice : Type 0 where
  pooled : ServerAddress → List ServerAddress → Choice
  seed : Choice
  refused : HotRodClientException → Choice

-- The lambda `attempted` and the loop over the owners.
unfoldable pub all_attempted : List ServerAddress → List ServerAddress → List ServerAddress → Bool
all_attempted tried exclude_nodes [] = true
all_attempted tried exclude_nodes (o ∷ owners) =
    if has_node tried o || has_node exclude_nodes o
    then all_attempted tried exclude_nodes owners
    else false

unfoldable pub no_servers : List ServerAddress → List ServerAddress → Bool → HotRodClientException
no_servers exclude_nodes tried owners_exhausted = record {
  phase = FailurePhase.before_send;
  server_status = none;
  tried_nodes = union_nodes exclude_nodes tried;
  owners_exhausted = owners_exhausted;
}

unfoldable pub choice_of :
    Option ServerAddress → List ServerAddress → HotRodClientException → Choice
choice_of (some a) tried e = pooled a tried
choice_of none tried e = refused e

-- With owners known.
unfoldable pub choose_among :
    Network → RemoteCache → List ServerAddress → List ServerAddress → Choice × RemoteCache
unfolding try_candidates choice_of all_attempted no_servers
choose_among net c exclude_nodes owners =
    let candidates =
      order_key_candidates owners (map address c.topology.servers) exclude_nodes
        c.proxy_to_non_owner in
    let attempt = try_candidates net c.connection_pool [] candidates in
    (
      choice_of attempt.found attempt.tried (
          no_servers exclude_nodes attempt.tried
            (all_attempted attempt.tried exclude_nodes owners)),
      with_pool c attempt.pool,
    )

unfoldable pub choose_owner :
    Network → RemoteCache → List ServerAddress → List ServerInfo → Choice × RemoteCache
unfolding choose_among
choose_owner net c exclude_nodes [] = (seed, c)
choose_owner net c exclude_nodes (o ∷ owners) =
    choose_among net c exclude_nodes (map address (o ∷ owners))

abbrev pub is_hash_aware : ClientIntelligence → Bool
is_hash_aware ClientIntelligence.hash_distribution_aware = true
is_hash_aware _ = false

unfoldable pub select_server_for_key :
    Network → RemoteCache → List ℕ → List ServerAddress → Outcome (Choice × RemoteCache)
unfolding choose_owner
select_server_for_key net c key exclude_nodes =
    if is_hash_aware c.client_intelligence && has_hash_topology c.consistent_hash
    then (get_owners c.consistent_hash key c.topology >>= λ owners.
        ok (choose_owner net c exclude_nodes owners))
    else ok (seed, c)

-- The choice among all servers, of which there is at least one.
unfoldable pub choose_any :
    Network → RemoteCache → List ServerAddress → List ServerAddress → Choice × RemoteCache
unfolding try_candidates choice_of no_servers
choose_any net c exclude_nodes [] = (seed, c)
choose_any net c exclude_nodes (a ∷ all) =
    let candidates = order_key_candidates [] (a ∷ all) exclude_nodes true in
    let attempt = try_candidates net c.connection_pool [] candidates in
    (
      choice_of attempt.found attempt.tried (no_servers exclude_nodes attempt.tried false),
      with_pool c attempt.pool,
    )

unfoldable pub select_any_server : Network → RemoteCache → List ServerAddress → Choice × RemoteCache
unfolding choose_any
select_any_server net c exclude_nodes =
    choose_any net c exclude_nodes (map address c.topology.servers)

unfoldable pub cleanup_stale_connections :
    List ServerAddress → List ServerAddress → List ServerAddress
cleanup_stale_connections current [] = []
cleanup_stale_connections current (p ∷ pool) =
    if has_node current p
    then p ∷ cleanup_stale_connections current pool
    else cleanup_stale_connections current pool

unfoldable pub handle_topology_update : RemoteCache → TopologyInfo → RemoteCache
unfolding cleanup_stale_connections
handle_topology_update c topo = record {
  client_intelligence = c.client_intelligence;
  proxy_to_non_owner = c.proxy_to_non_owner;
  topology = topo;
  consistent_hash =
      if is_hash_aware c.client_intelligence then update_from_topology topo else c.consistent_hash;
  connection_pool = cleanup_stale_connections (map address topo.servers) c.connection_pool;
}

-- ===== src/Cache/Pool.antt =====
-- The pool of src/operations/RemoteCache.cpp under a topology update.
use cpp17_client.Base.{◌≡◌, refl, arith, List, [], ◌∷◌, map, ◌&&◌}
use cpp17_client.Failure.{ServerAddress}
use cpp17_client.Failure.Axes.{same_address_iff}
use cpp17_client.Selection.{has_node}
use cpp17_client.Topology.{TopologyInfo, address}
use cpp17_client.Cache.{RemoteCache, cleanup_stale_connections, handle_topology_update}

has_node-cleanup_stale_connections :
    (current pool : List ServerAddress) (a : ServerAddress)
    → has_node (cleanup_stale_connections current pool) a ≡ (has_node pool a && has_node current a)
unfolding cleanup_stale_connections has_node
has_node-cleanup_stale_connections current [] a = refl
has_node-cleanup_stale_connections current (p ∷ pool) a =
    ground (arith, has_node-cleanup_stale_connections current pool a, same_address_iff p a)

-- A topology update leaves in the pool the connections to servers of the new topology and no others.
pub has_node-handle_topology_update :
    (c : RemoteCache) (topo : TopologyInfo) (a : ServerAddress)
    → has_node (handle_topology_update c topo).connection_pool a
      ≡ (has_node c.connection_pool a && has_node (map address topo.servers) a)
unfolding handle_topology_update
has_node-handle_topology_update c topo a =
    has_node-cleanup_stale_connections (map address topo.servers) c.connection_pool a

-- ===== src/Topology.antt =====
-- src/topology/TopologyInfo.cpp: the servers of a cluster and the round-robin choice among them. A
-- pointer to a server is the server; `nullptr` is `none`. `hashId` is its 32-bit pattern.
pub mod Rounds
pub mod WellFormed
mod Runs
use cpp17_client.Base.{ℕ, zero, suc, ◌+◌, ◌%◌, List, [], ◌∷◌, ◌++◌, map, length, Bool}
use cpp17_client.Base.{Option, none, some, if◌then◌else◌, Outcome, ok, undefined, element, ◌>>=◌}
use cpp17_client.Failure.{ServerAddress, same_address}
use cpp17_client.Selection.{has_node}

pub record ServerInfo : Type 0 where
  pub host : List ℕ
  pub port : ℕ
  pub hash_id : ℕ

-- What `ServerInfo::operator==` compares.
abbrev pub address : ServerInfo → ServerAddress
address s = record { host = s.host; port = s.port }

pub record TopologyInfo : Type 0 where
  pub topology_id : ℕ
  pub servers : List ServerInfo
  pub round_robin_index : ℕ
  pub hash_function_version : ℕ
  pub num_segments : ℕ
  pub segment_owners : List (List ℕ)

abbrev pub with_servers : TopologyInfo → List ServerInfo → ℕ → TopologyInfo
with_servers t servers index = record {
  topology_id = t.topology_id;
  servers = servers;
  round_robin_index = index;
  hash_function_version = t.hash_function_version;
  num_segments = t.num_segments;
  segment_owners = t.segment_owners;
}

-- `TopologyInfo::TopologyInfo`.
abbrev pub new_topology : TopologyInfo
new_topology = record {
  topology_id = 0;
  servers = [];
  round_robin_index = 0;
  hash_function_version = 0;
  num_segments = 0;
  segment_owners = [];
}

-- A vector of no servers gives `nullptr`; else the server at the index, which moves on.
pick : TopologyInfo → List ServerInfo → Outcome (Option ServerInfo × TopologyInfo)
pick t [] = ok (none, t)
pick t (first ∷ others) = do
  server ← element (first ∷ others) t.round_robin_index
  ok (
    some server,
    with_servers t (first ∷ others) ((t.round_robin_index + 1) % length (first ∷ others)),
  )

unfoldable pub select_server : TopologyInfo → Outcome (Option ServerInfo × TopologyInfo)
unfolding pick
select_server t = pick t t.servers

-- `std::find(servers_.begin(), servers_.end(), server) != servers_.end()`.
unfoldable pub has_server : List ServerInfo → ServerInfo → Bool
has_server servers s = has_node (map address servers) (address s)

unfoldable pub push_server : List ServerInfo → ServerInfo → List ServerInfo
unfolding has_server
push_server servers s = if has_server servers s then servers else servers ++ (s ∷ [])

unfoldable pub add_server : TopologyInfo → ServerInfo → TopologyInfo
unfolding push_server
add_server t s = with_servers t (push_server t.servers s) t.round_robin_index

-- `std::remove_if` and `erase`.
unfoldable pub without : ServerAddress → List ServerInfo → List ServerInfo
without a [] = []
without a (s ∷ servers) =
    if same_address (address s) a then without a servers else s ∷ without a servers

unfoldable pub remove_server : TopologyInfo → ServerAddress → TopologyInfo
unfolding without
remove_server t a = with_servers t (without a t.servers) t.round_robin_index

abbrev pub clear_servers : TopologyInfo → TopologyInfo
clear_servers t = with_servers t [] 0

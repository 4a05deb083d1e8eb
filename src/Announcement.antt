-- ===== src/Announcement.antt =====
-- `TopologyInfo::parseTopologyInfo` of src/topology/TopologyInfo.cpp: a topology read off the stream
-- behind a response header that announces one. An exception leaves the caller without a topology, so
-- only the state behind a complete reading is kept. The outputs that repeat fields are left out.
pub mod Items
pub mod Complete
pub mod Shape
pub mod Progress
mod Runs
use cpp17_client.Base.{ℕ, zero, suc, ◌+◌, ◌*◌, ◌%◌, ◌^◌, bit_and, bit_or, List, [], ◌∷◌, ◌++◌, drop}
use cpp17_client.Base.{◌==◌, if◌then◌else◌, Outcome, ok, err}
use cpp17_client.Base.Readers.{Reader, ◌>>=◌, return, next_byte}
use cpp17_client.Base
use cpp17_client.Codec.{read_vint, u32}
use cpp17_client.Header.{ClientIntelligence}
use cpp17_client.Stream.{closed, receive}
use cpp17_client.Topology.{ServerInfo, TopologyInfo, push_server}

-- The loop of the lambda `readVInt`, which collects the bytes of the number.
unfoldable pub collect_vint : List ℕ → List ℕ → ℕ → Outcome (List ℕ × ℕ)
collect_vint [] vint_bytes offset = err closed
collect_vint (b ∷ rest) vint_bytes offset =
    let more = collect_vint rest (vint_bytes ++ (b ∷ [])) (offset + 1) in
    if bit_and b 0x80 == 0 then ok (vint_bytes ++ (b ∷ []), offset + 1) else more

-- `Codec::readVInt(vintBytes, 0)`.
unfoldable pub decode_vint : List ℕ → Reader ℕ
decode_vint vint_bytes buffer offset =
    Base.◌>>=◌ (read_vint vint_bytes 0) (λ value. ok (value.0, offset))

unfoldable pub parse_vint : Reader ℕ
unfolding collect_vint decode_vint
parse_vint = (λ buffer offset. collect_vint (drop offset buffer) [] offset) >>= decode_vint

-- The lambda `readString`.
unfoldable pub parse_string : Reader (List ℕ)
unfolding parse_vint
parse_string = do count ← parse_vint; if count == 0 then return [] else receive count

-- One server; the port's two bytes, the higher first, are received at once in the source.
unfoldable pub parse_server : ℕ → Reader ServerInfo
unfolding parse_string
parse_server i = do
  host ← parse_string
  high ← next_byte closed
  low ← next_byte closed
  return record { host = host; port = bit_or (high * 2 ^ 8) low; hash_id = u32 i }

-- The loop over the servers: `count` are still to come, and `i` is the next one's place.
unfoldable pub parse_servers : ℕ → ℕ → List ServerInfo → Reader (List ServerInfo)
unfolding parse_server
parse_servers zero i servers = return servers
parse_servers (suc count) i servers = do
  server ← parse_server i
  parse_servers count (i + 1) (push_server servers server)

-- The loop over the segments: `count` are still to come.
unfoldable pub parse_owners : ℕ → List (List ℕ) → Reader (List (List ℕ))
parse_owners zero segment_owners = return segment_owners
parse_owners (suc count) segment_owners = do
  num_owners ← next_byte closed
  owners ← receive num_owners
  parse_owners count (segment_owners ++ (owners ∷ []))

-- The part that only a client that is aware of the hash distribution is sent; others keep what the
-- topology has.
unfoldable pub parse_hash :
    ClientIntelligence → ℕ → List ServerInfo → TopologyInfo → Reader TopologyInfo
unfolding parse_vint parse_owners
parse_hash ClientIntelligence.hash_distribution_aware topology_id servers t = do
  hash_function_version ← next_byte closed
  num_segments ← parse_vint
  segment_owners ← parse_owners num_segments []
  return record {
    topology_id = topology_id;
    servers = servers;
    round_robin_index = 0;
    hash_function_version = hash_function_version;
    num_segments = num_segments;
    segment_owners = segment_owners;
  }
parse_hash _ topology_id servers t = return record {
  topology_id = topology_id;
  servers = servers;
  round_robin_index = 0;
  hash_function_version = t.hash_function_version;
  num_segments = t.num_segments;
  segment_owners = t.segment_owners;
}

unfoldable pub parse_topology_info : TopologyInfo → ClientIntelligence → Reader TopologyInfo
unfolding parse_servers parse_hash
parse_topology_info t intelligence = do
  topology_id ← parse_vint
  num_servers ← parse_vint
  servers ← parse_servers num_servers 0 []
  parse_hash intelligence topology_id servers t

-- ===== src/Routing.antt =====
-- src/hash/ConsistentHash.cpp: which servers own a key. An `int` or `int32_t` is its 32-bit pattern.
-- A server's hash id is unique in the topology, so that a pointer to a server is the server.
pub mod Segments
pub mod Owners
pub mod Wire
pub mod Steps
pub mod Tables
mod Runs
use cpp17_client.Base.{
  ℕ, ◌+◌, ◌-◌, ◌*◌, ◌/◌, ◌^◌, bit_and, List, [], ◌∷◌, length, map, Option, none, some,
}
use cpp17_client.Base.{ltb, leb, ◌==◌, not, ◌||◌, if◌then◌else◌, Bool, true, false, get_elem?}
use cpp17_client.Base.{Outcome, ok, element, ◌>>=◌}
use cpp17_client.Topology.{ServerInfo, TopologyInfo}
use cpp17_client.Murmur.{hash32}

pub record ConsistentHash : Type 0 where
  pub num_segments : ℕ
  pub num_owners : ℕ
  pub segment_owners : List (List ℕ)

-- `ConsistentHash::ConsistentHash` and `ConsistentHash::clear`.
abbrev pub cleared : ConsistentHash
cleared = record { num_segments = 0; num_owners = 0; segment_owners = [] }

-- `n > 0` of an `int`.
abbrev pub is_positive : ℕ → Bool
is_positive n = if n == 0 then false else ltb n (2 ^ 31)

abbrev pub has_hash_topology : ConsistentHash → Bool
has_hash_topology ch = is_positive ch.num_segments

-- A negative number of segments gives a quotient of at most 0, for which the source returns 0.
unfoldable pub segment_of : ConsistentHash → ℕ → ℕ
segment_of ch hash =
    let normalized_hash : ℕ = bit_and hash 0x7fffffff in
    let segment : ℕ =
      if ltb ch.num_segments (2 ^ 31) then normalized_hash * ch.num_segments / 2 ^ 31 else 0 in
    if leb (length ch.segment_owners) segment then 0 else segment

unfoldable pub get_segment : ConsistentHash → List ℕ → Outcome ℕ
unfolding segment_of
get_segment ch key =
    if ch.num_segments == 0 || length ch.segment_owners == 0
    then ok 0
    else (hash32 key 9001 >>= λ hash. ok (segment_of ch hash))

unfoldable pub find_server_by_hash_id : ℕ → List ServerInfo → Option ServerInfo
find_server_by_hash_id hash_id [] = none
find_server_by_hash_id hash_id (server ∷ servers) =
    if server.hash_id == hash_id then some server else find_server_by_hash_id hash_id servers

-- The first owner, where the segment has one.
unfoldable pub primary_of : Option (List ℕ) → List ServerInfo → Option ServerInfo
unfolding find_server_by_hash_id
primary_of none servers = none
primary_of (some []) servers = none
primary_of (some (primary ∷ others)) servers = find_server_by_hash_id primary servers

unfoldable pub get_primary_owner :
    ConsistentHash → List ℕ → TopologyInfo → Outcome (Option ServerInfo)
unfolding primary_of
get_primary_owner ch key topology =
    if not (has_hash_topology ch)
    then ok none
    else (get_segment ch key >>= λ segment.
        ok (primary_of (get_elem? ch.segment_owners segment) topology.servers))

unfoldable pub push_found : Option ServerInfo → List ServerInfo → List ServerInfo
push_found none owners = owners
push_found (some server) owners = server ∷ owners

-- The servers of the hash ids, without the ids that no server has.
unfoldable pub collect_owners : List ℕ → List ServerInfo → List ServerInfo
unfolding push_found find_server_by_hash_id
collect_owners [] servers = []
collect_owners (hash_id ∷ hash_ids) servers =
    push_found (find_server_by_hash_id hash_id servers) (collect_owners hash_ids servers)

unfoldable pub owners_of : Option (List ℕ) → List ServerInfo → List ServerInfo
unfolding collect_owners
owners_of none servers = []
owners_of (some hash_ids) servers = collect_owners hash_ids servers

unfoldable pub get_owners : ConsistentHash → List ℕ → TopologyInfo → Outcome (List ServerInfo)
unfolding owners_of
get_owners ch key topology =
    if not (has_hash_topology ch)
    then ok []
    else (get_segment ch key >>= λ segment.
        ok (owners_of (get_elem? ch.segment_owners segment) topology.servers))

unfoldable pub cons_id : Option ServerInfo → Option (List ℕ) → Option (List ℕ)
cons_id (some server) (some hash_ids) = some (server.hash_id ∷ hash_ids)
cons_id (some server) none = none
cons_id none rest = none

-- The loop over a segment's server indices; `none` is an index that no server has.
unfoldable pub convert_indices : List ServerInfo → List ℕ → Option (List ℕ)
unfolding cons_id
convert_indices servers [] = some []
convert_indices servers (index ∷ indices) =
    cons_id (get_elem? servers index) (convert_indices servers indices)

unfoldable pub cons_segment : Option (List ℕ) → Option (List (List ℕ)) → Option (List (List ℕ))
cons_segment (some hash_ids) (some segments) = some (hash_ids ∷ segments)
cons_segment (some hash_ids) none = none
cons_segment none rest = none

-- The loop over the segments.
unfoldable pub convert_segments : List ServerInfo → List (List ℕ) → Option (List (List ℕ))
unfolding convert_indices cons_segment
convert_segments servers [] = some []
convert_segments servers (indices ∷ segments) =
    cons_segment (convert_indices servers indices) (convert_segments servers segments)

unfoldable pub first_size : List (List ℕ) → ℕ
first_size [] = 0
first_size (owners ∷ segments) = length owners

unfoldable pub converted : ℕ → ℕ → Option (List (List ℕ)) → ConsistentHash
converted num_segments num_owners none = cleared
converted num_segments num_owners (some segment_owners) = record {
  num_segments = num_segments;
  num_owners = num_owners;
  segment_owners = segment_owners;
}

-- `static_cast<size_t>` of an `int`.
abbrev pub size_of_int : ℕ → ℕ
size_of_int n = if ltb n (2 ^ 31) then n else (2 ^ 64 - 2 ^ 32 + n)

unfoldable pub update_from_topology : TopologyInfo → ConsistentHash
unfolding convert_segments first_size converted
update_from_topology topology =
    if topology.num_segments == 0
    then cleared
    else if not (length topology.segment_owners == size_of_int topology.num_segments)
    then cleared
    else converted topology.num_segments (first_size topology.segment_owners)
        (convert_segments topology.servers topology.segment_owners)

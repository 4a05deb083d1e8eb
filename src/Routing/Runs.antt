-- ===== src/Routing/Runs.antt =====
-- Two servers and three segments, and the theorems at concrete keys.
use cpp17_client.Base.{
  ℕ, ◌+◌, ◌*◌, ◌%◌, ◌^◌, ◌≤◌, ◌<◌, ◌≡◌, refl, arith, List, [], ◌∷◌, length, ok, some, get_elem?,
  ◌++◌, true, runtime_error,
}
use cpp17_client.Failure.{ServerAddress}
use cpp17_client.Topology.{TopologyInfo}
use cpp17_client.Announcement.Complete.{announced, number_all}
use cpp17_client.Murmur.{hash32}
use cpp17_client.Murmur.Bounds.{IsHashable, All-IsHashable}
use cpp17_client.Routing.{
  has_hash_topology, cleared, get_segment, get_owners, get_primary_owner, update_from_topology,
}
use cpp17_client.Routing.Wire.{parse_hash_topology, parsed, thrown, with_table, filled}
use cpp17_client.Routing.Steps.{head_bytes, row_bytes, rows_bytes}
use cpp17_client.Routing.Tables.{
  table_bytes, parse_hash_topology-table_bytes, parse_hash_topology-cut,
}
use cpp17_client.Routing.Segments.{get_segment_part}
use cpp17_client.Routing.Owners.{servers_at, first_server, table, get_owners-update_from_topology}

abbrev cluster : List ServerAddress
cluster = record { host = 97 ∷ []; port = 11222 } ∷ record { host = 98 ∷ []; port = 11322 } ∷ []

abbrev three_segments : List (List ℕ)
three_segments = (0 ∷ 1 ∷ []) ∷ (1 ∷ 0 ∷ []) ∷ (1 ∷ []) ∷ []

abbrev hello : List ℕ
hello = 104 ∷ 101 ∷ 108 ∷ 108 ∷ 111 ∷ []

abbrev message : TopologyInfo
message = announced 5 cluster 3 three_segments

hello-IsHashable : IsHashable hello
hello-IsHashable =
    All-IsHashable hello
      (omega arith, (omega arith, (omega arith, (omega arith, (omega arith, tt)))))

hello_segment : get_segment (table cluster three_segments) hello ≡ ok 2
unfolding get_segment hash32
hello_segment = refl

get_segment_part_example :
    (h : ℕ) × (segment : ℕ) × (hash32 hello 9001 ≡ ok h)
    × (get_segment (table cluster three_segments) hello ≡ ok segment)
    × (segment < 3)
    × (segment * 2 ^ 31 ≤ h % 2 ^ 31 * 3)
    × (h % 2 ^ 31 * 3 < (segment + 1) * 2 ^ 31)
get_segment_part_example =
    get_segment_part (table cluster three_segments) hello (refl, omega arith, omega arith)
      hello-IsHashable

get_owners-update_from_topology_example :
    (segment : ℕ) × (indices : List ℕ) × (get_segment (update_from_topology message) hello
      ≡ ok segment)
    × (get_elem? three_segments segment ≡ some indices)
    × (get_owners (update_from_topology message) hello message ≡ ok (servers_at cluster indices))
    × (get_primary_owner (update_from_topology message) hello message
        ≡ ok (first_server (servers_at cluster indices)))
get_owners-update_from_topology_example =
    get_owners-update_from_topology cluster 5 3 three_segments hello (omega arith) (omega arith)
      (
        (omega arith, (omega arith, tt)),
        ((omega arith, (omega arith, tt)), ((omega arith, tt), tt)),
      )
      hello-IsHashable

abbrev unknown_server : TopologyInfo
unknown_server = announced 5 cluster 3 ((0 ∷ []) ∷ (1 ∷ 2 ∷ []) ∷ [])

two_servers : length unknown_server.servers ≤ 2
unfolding number_all
two_servers = omega arith

abbrev before : List ℕ
before = 9 ∷ []

-- Three segments of two owners on the wire.
abbrev ids : List (List ℕ)
ids = (1 ∷ 2 ∷ []) ∷ (2 ∷ 3 ∷ []) ∷ (3 ∷ 0xFFFFFFFF ∷ []) ∷ []

parse_hash_topology-table_bytes_example :
    parse_hash_topology cleared (before ++ (table_bytes 2 ids ++ (7 ∷ []))) (length before)
    ≡ parsed (with_table 3 2 ids) (length (before ++ table_bytes 2 ids))
parse_hash_topology-table_bytes_example =
    parse_hash_topology-table_bytes cleared before (7 ∷ []) 2 ids (omega arith) (omega arith)
      (omega arith)
      (
        (refl, (omega arith, (omega arith, tt))),
        ((refl, (omega arith, (omega arith, tt))), ((refl, (omega arith, (omega arith, tt))), tt)),
      )

-- The bytes end within the second owner of the second segment.
parse_hash_topology-cut_example :
    (parse_hash_topology cleared
        (before
          ++ (head_bytes 3 2
              ++ (rows_bytes ((1 ∷ 2 ∷ []) ∷ []) ++ (row_bytes (2 ∷ []) ++ (0 ∷ 0 ∷ [])))))
        (length before)
      ≡ thrown
          (runtime_error "ConsistentHash: buffer too short for hash ID")
          (with_table 3 2 ((1 ∷ 2 ∷ []) ∷ (2 ∷ 0 ∷ []) ∷ [] ∷ [])))
    × (has_hash_topology (with_table 3 2 ((1 ∷ 2 ∷ []) ∷ (2 ∷ 0 ∷ []) ∷ [] ∷ [])) ≡ true)
unfolding filled
parse_hash_topology-cut_example =
    parse_hash_topology-cut cleared before (0 ∷ 0 ∷ []) (2 ∷ []) ((1 ∷ 2 ∷ []) ∷ []) 3 2 1 1 refl
      (omega arith) refl (omega arith) ((refl, (omega arith, (omega arith, tt))), tt)
      (omega arith, tt) (omega arith)

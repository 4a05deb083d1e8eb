-- ===== src/Announcement/Runs.antt =====
-- A cluster of two servers and three segments on the wire.
use cpp17_client.Base.{◌≡◌, refl, arith, List, [], ◌∷◌, ◌++◌, length, ok, ℕ}
use cpp17_client.Failure.{ServerAddress, same_address}
use cpp17_client.Selection.{has_node}
use cpp17_client.Selection.Nodes.{IsDistinct}
use cpp17_client.Header.{ClientIntelligence}
use cpp17_client.Topology.{new_topology}
use cpp17_client.Announcement.{parse_topology_info}
use cpp17_client.Announcement.Complete.{servers_bytes, server_bytes, hash_bytes, owners_bytes}
use cpp17_client.Codec.Septets.{septets}
use cpp17_client.Codec.Framing.{counted}
use cpp17_client.Announcement.Complete.{topology_bytes, announced, parse_topology_info_complete}
use cpp17_client.Announcement.Shape.{IsSound, parse_topology_info-IsSound}

abbrev addresses : List ServerAddress
addresses = record { host = 97 ∷ []; port = 11222 } ∷ record { host = 98 ∷ []; port = 11322 } ∷ []

abbrev segments : List (List ℕ)
segments = (0 ∷ 1 ∷ []) ∷ (1 ∷ 0 ∷ []) ∷ (1 ∷ []) ∷ []

abbrev message : List ℕ
message =
    9 ∷ 5 ∷ 2 ∷ 1 ∷ 97 ∷ 43 ∷ 214 ∷ 1 ∷ 98 ∷ 44 ∷ 58 ∷ 3 ∷ 3 ∷ 2 ∷ 0 ∷ 1 ∷ 2 ∷ 1 ∷ 0 ∷ 1 ∷ 1 ∷ 7
    ∷ []

addresses-IsDistinct : IsDistinct addresses
unfolding has_node same_address
addresses-IsDistinct = (refl, (refl, tt))

message_bytes : message ≡ (9 ∷ []) ++ (topology_bytes 5 addresses 3 segments ++ (7 ∷ []))
unfolding topology_bytes septets servers_bytes server_bytes counted hash_bytes owners_bytes
message_bytes = refl

parse_topology_info_complete_example :
    parse_topology_info new_topology ClientIntelligence.hash_distribution_aware
      ((9 ∷ []) ++ (topology_bytes 5 addresses 3 segments ++ (7 ∷ [])))
      1
    ≡ ok (
      announced 5 addresses 3 segments,
      length ((9 ∷ []) ++ topology_bytes 5 addresses 3 segments),
    )
parse_topology_info_complete_example =
    parse_topology_info_complete new_topology 5 addresses 3 segments (9 ∷ []) (7 ∷ []) (omega arith)
      (omega arith) (omega arith) ((omega arith, omega arith), ((omega arith, omega arith), tt))
      addresses-IsDistinct

parse_topology_info-IsSound_example : IsSound (announced 5 addresses 3 segments)
parse_topology_info-IsSound_example =
    parse_topology_info-IsSound new_topology ClientIntelligence.hash_distribution_aware
      ((9 ∷ []) ++ (topology_bytes 5 addresses 3 segments ++ (7 ∷ []))) 1
      (announced 5 addresses 3 segments)
      (length ((9 ∷ []) ++ topology_bytes 5 addresses 3 segments)) refl
      parse_topology_info_complete_example

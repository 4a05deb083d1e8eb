-- ===== src/Topology/Runs.antt =====
-- The servers of tests/unit/TopologyInfoTest.cpp, and the theorems at concrete inputs.
use cpp17_client.Base.{◌≡◌, refl, [], ◌∷◌, ◌++◌, drop, take, inr, arith, ok, undefined, length}
use cpp17_client.Base.{true, map}
use cpp17_client.Failure.{same_address}
use cpp17_client.Selection.{has_node}
use cpp17_client.Topology.{
  ServerInfo, TopologyInfo, address, new_topology, add_server, remove_server, with_servers,
  select_server,
}
use cpp17_client.Topology.Rounds.{select_times, chosen, select_times_round}
use cpp17_client.Topology.WellFormed.{IsApart, IsWellFormed, select_server-remove_server_undefined}

abbrev server_1 : ServerInfo
server_1 = record { host = 49 ∷ []; port = 11222; hash_id = 0 }

abbrev server_2 : ServerInfo
server_2 = record { host = 50 ∷ []; port = 11322; hash_id = 1 }

abbrev server_3 : ServerInfo
server_3 = record { host = 51 ∷ []; port = 11422; hash_id = 2 }

abbrev three : TopologyInfo
three = with_servers new_topology (server_1 ∷ server_2 ∷ server_3 ∷ []) 2

three_added :
    add_server (add_server (with_servers new_topology (server_1 ∷ []) 2) server_2) server_3 ≡ three
unfolding add_server has_node same_address
three_added = refl

added_again : add_server three server_1 ≡ three
unfolding add_server has_node same_address
added_again = refl

three-IsApart : IsApart three.servers
unfolding has_node same_address
three-IsApart = (refl, (refl, (refl, tt)))

three-IsWellFormed : IsWellFormed three
three-IsWellFormed = (three-IsApart, inr (omega arith))

select_times_round_example :
    select_times (length three.servers) three
    ≡ ok (chosen (drop 2 three.servers ++ take 2 three.servers), three)
select_times_round_example = select_times_round three (omega arith)

server_2_known : has_node (map address three.servers) (address server_2) ≡ true
unfolding has_node same_address
server_2_known = refl

select_server-remove_server_undefined_example :
    select_server (remove_server three (address server_2)) ≡ undefined
select_server-remove_server_undefined_example =
    select_server-remove_server_undefined three (address server_2) three-IsApart server_2_known
      (omega arith) refl

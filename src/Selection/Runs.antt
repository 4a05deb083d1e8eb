-- ===== src/Selection/Runs.antt =====
-- The routing cases of tests/unit/ServerSelectionTest.cpp, and the theorems at concrete inputs.
use cpp17_client.Base.{◌≡◌, refl, List, [], ◌∷◌, ◌++◌, true, false, not, ◌&&◌, ◌||◌, if◌then◌else◌}
use cpp17_client.Failure.{ServerAddress, same_address}
use cpp17_client.Selection.{has_node, order_key_candidates, union_nodes}
use cpp17_client.Selection.Sets.{candidates_of, with_nodes, order_key_candidates-with_nodes}
use mathlib.Core.Quot
use cpp17_client.Selection.Nodes.{IsDistinct}
use cpp17_client.Selection.Candidates.{keep, order_key_candidates-keep}

abbrev node_a : ServerAddress
node_a = record { host = 97 ∷ []; port = 11222 }

abbrev node_b : ServerAddress
node_b = record { host = 98 ∷ []; port = 11222 }

abbrev node_c : ServerAddress
node_c = record { host = 99 ∷ []; port = 11222 }

abbrev owners : List ServerAddress
owners = node_b ∷ node_a ∷ []

abbrev servers : List ServerAddress
servers = node_a ∷ node_b ∷ node_c ∷ []

owners_first : order_key_candidates owners servers [] true ≡ node_b ∷ node_a ∷ node_c ∷ []
unfolding order_key_candidates has_node same_address
owners_first = refl

owners_only : order_key_candidates owners servers (node_b ∷ []) false ≡ node_a ∷ []
unfolding order_key_candidates has_node same_address
owners_only = refl

owners-IsDistinct : IsDistinct owners
unfolding has_node same_address
owners-IsDistinct = (refl, (refl, tt))

servers-IsDistinct : IsDistinct servers
unfolding has_node same_address
servers-IsDistinct = (refl, (refl, (refl, tt)))

order_key_candidates-keep_example :
    order_key_candidates owners servers (node_b ∷ []) true
    ≡ keep (λ n. not (has_node (node_b ∷ []) n)) owners
      ++ (if true
          then keep (λ n. not (has_node (node_b ∷ []) n) && not (has_node owners n)) servers
          else [])
order_key_candidates-keep_example =
    order_key_candidates-keep owners servers (node_b ∷ []) true owners-IsDistinct servers-IsDistinct

order_key_candidates-with_nodes_example :
    ((n : ServerAddress)
      → has_node
          (candidates_of owners servers true
            (with_nodes (node_c ∷ node_a ∷ []) (with_nodes (node_a ∷ []) (Quot.mk []))))
          n
        ≡ ((has_node owners n || true && has_node servers n)
            && not
                (has_node [] n || has_node (node_a ∷ []) n || has_node (node_c ∷ node_a ∷ []) n)))
    × (order_key_candidates owners servers
          (union_nodes (union_nodes [] (node_a ∷ [])) (node_c ∷ node_a ∷ []))
          true
        ≡ order_key_candidates owners servers
            (union_nodes (union_nodes [] (node_c ∷ node_a ∷ [])) (node_a ∷ []))
            true)
    × (order_key_candidates owners servers
          (union_nodes (union_nodes [] (node_a ∷ [])) (node_a ∷ []))
          true
        ≡ order_key_candidates owners servers (union_nodes [] (node_a ∷ [])) true)
order_key_candidates-with_nodes_example =
    order_key_candidates-with_nodes owners servers [] (node_a ∷ []) (node_c ∷ node_a ∷ []) true

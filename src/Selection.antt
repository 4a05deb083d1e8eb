-- ===== src/Selection.antt =====
-- include/hotrod/ServerSelection.h: the ordered candidates for a key, and the union of node lists.
pub mod Nodes
pub mod Candidates
pub mod Sets
mod Runs
use cpp17_client.Base.{List, [], ◌∷◌, ◌++◌, Bool, true, false, ◌||◌, if◌then◌else◌}
use cpp17_client.Failure.{ServerAddress, same_address}

-- `std::find(nodes.begin(), nodes.end(), a) != nodes.end()`.
unfoldable pub has_node : List ServerAddress → ServerAddress → Bool
has_node [] a = false
has_node (n ∷ nodes) a = same_address n a || has_node nodes a

-- The lambda `pushUnique`.
unfoldable pub push_unique :
    List ServerAddress → List ServerAddress → ServerAddress → List ServerAddress
push_unique exclude out s =
    if has_node exclude s then out else if has_node out s then out else out ++ (s ∷ [])

-- `for (const auto& s : nodes) pushUnique(s);`
unfoldable pub push_all :
    List ServerAddress → List ServerAddress → List ServerAddress → List ServerAddress
push_all exclude out [] = out
push_all exclude out (s ∷ nodes) = push_all exclude (push_unique exclude out s) nodes

unfoldable pub order_key_candidates :
    List ServerAddress → List ServerAddress → List ServerAddress → Bool → List ServerAddress
unfolding push_unique push_all
order_key_candidates owners all_servers exclude proxy_to_non_owner =
    let out = push_all exclude [] owners in
    if proxy_to_non_owner then push_all exclude out all_servers else out

unfoldable pub union_nodes : List ServerAddress → List ServerAddress → List ServerAddress
union_nodes a [] = a
union_nodes a (n ∷ b) = union_nodes (if has_node a n then a else a ++ (n ∷ [])) b

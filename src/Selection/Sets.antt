-- ===== src/Selection/Sets.antt =====
-- The excluded nodes of include/hotrod/ServerSelection.h as a set: a retry context holds a list of them, and
-- neither its order nor its repetitions matter.
use mathlib.Core.Quot
use mathlib.Core.Quot.{Quot, Quot-set}
use cpp17_client.Base.{
  ◌≡◌, refl, ap, arith, List, [], ◌∷◌, ◌++◌, Bool, not, ◌&&◌, ◌||◌, if◌then◌else◌,
}
use cpp17_client.Failure.{ServerAddress}
use cpp17_client.Selection.{has_node, push_unique, push_all, order_key_candidates, union_nodes}
use cpp17_client.Selection.Candidates.{has_node-order_key_candidates, has_node-union_nodes}

-- The same nodes are in both lists.
abbrev pub SameNodes : List ServerAddress → List ServerAddress → Type 0
SameNodes a b = (n : ServerAddress) → has_node a n ≡ has_node b n

abbrev pub NodeSet : Type 0
NodeSet = Quot SameNodes

push_all-SameNodes :
    (exclude exclude' out nodes : List ServerAddress)
    → SameNodes exclude exclude'
    → push_all exclude out nodes ≡ push_all exclude' out nodes
unfolding push_all push_unique
push_all-SameNodes exclude exclude' out [] h = refl
push_all-SameNodes exclude exclude' out (s ∷ nodes) h = rw (h s) (
    push_all-SameNodes exclude exclude'
      (if has_node exclude' s then out else if has_node out s then out else out ++ (s ∷ [])) nodes
      h)

order_key_candidates-SameNodes :
    (owners servers exclude exclude' : List ServerAddress) (proxy : Bool)
    → SameNodes exclude exclude'
    → order_key_candidates owners servers exclude proxy
      ≡ order_key_candidates owners servers exclude' proxy
unfolding order_key_candidates
order_key_candidates-SameNodes owners servers exclude exclude' proxy h =
    rw
      (
        push_all-SameNodes exclude exclude' [] owners h,
        push_all-SameNodes exclude exclude' (push_all exclude' [] owners) servers h,
      )
      refl

ServerAddress-set : IsSet ServerAddress
ServerAddress-set = hlevel

nodes_set : IsSet (List ServerAddress)
nodes_set = hlevel

-- The candidates for a set of excluded nodes.
pub candidates_of : List ServerAddress → List ServerAddress → Bool → NodeSet → List ServerAddress
candidates_of owners servers proxy =
    Quot.lift nodes_set (λ exclude. order_key_candidates owners servers exclude proxy)
      (λ exclude exclude' h. order_key_candidates-SameNodes owners servers exclude exclude' proxy h)

union_nodes-SameNodes :
    (nodes exclude exclude' : List ServerAddress)
    → SameNodes exclude exclude'
    → SameNodes (union_nodes exclude nodes) (union_nodes exclude' nodes)
union_nodes-SameNodes nodes exclude exclude' h n =
    rw (has_node-union_nodes exclude nodes n, has_node-union_nodes exclude' nodes n, h n) refl

-- `unionNodes` with these nodes, on sets.
pub with_nodes : List ServerAddress → NodeSet → NodeSet
with_nodes nodes =
    Quot.lift Quot-set (λ exclude. Quot.mk (union_nodes exclude nodes))
      (λ exclude exclude' h. Quot.sound (union_nodes-SameNodes nodes exclude exclude' h))

with_nodes_comm :
    (a b : List ServerAddress) (s : NodeSet)
    → with_nodes a (with_nodes b s) ≡ with_nodes b (with_nodes a s)
unfolding with_nodes
with_nodes_comm a b =
    Quot.ind (λ s. Quot-set _ _)
      (λ exclude. Quot.sound (λ n. ground (
        arith,
        has_node-union_nodes (union_nodes exclude b) a n,
        has_node-union_nodes (union_nodes exclude a) b n,
        has_node-union_nodes exclude b n,
        has_node-union_nodes exclude a n,
      )))

with_nodes_twice :
    (a : List ServerAddress) (s : NodeSet) → with_nodes a (with_nodes a s) ≡ with_nodes a s
unfolding with_nodes
with_nodes_twice a =
    Quot.ind (λ s. Quot-set _ _)
      (λ exclude. Quot.sound (λ n. ground (
        arith,
        has_node-union_nodes (union_nodes exclude a) a n,
        has_node-union_nodes exclude a n,
      )))

-- The candidates depend on the excluded nodes as a set, to which the nodes of a failure are added: with the
-- nodes of two failures added, they are the owners, and through proxies all servers, that are neither in the
-- set nor among the nodes of either failure; and neither the order in which the nodes of two failures have been
-- added makes a difference nor that the nodes of a failure are added again.
pub order_key_candidates-with_nodes :
    (owners servers exclude a b : List ServerAddress) (proxy : Bool)
    → ((n : ServerAddress)
        → has_node
            (candidates_of owners servers proxy (with_nodes b (with_nodes a (Quot.mk exclude))))
            n
          ≡ ((has_node owners n || proxy && has_node servers n)
              && not (has_node exclude n || has_node a n || has_node b n)))
      × (order_key_candidates owners servers (union_nodes (union_nodes exclude a) b) proxy
          ≡ order_key_candidates owners servers (union_nodes (union_nodes exclude b) a) proxy)
      × (order_key_candidates owners servers (union_nodes (union_nodes exclude a) a) proxy
          ≡ order_key_candidates owners servers (union_nodes exclude a) proxy)
unfolding candidates_of with_nodes
order_key_candidates-with_nodes owners servers exclude a b proxy = (
  (λ n. ground (
    arith,
    has_node-order_key_candidates owners servers (union_nodes (union_nodes exclude a) b) proxy n,
    has_node-union_nodes (union_nodes exclude a) b n,
    has_node-union_nodes exclude a n,
  )),
  ap (candidates_of owners servers proxy) (with_nodes_comm b a (Quot.mk exclude)),
  ap (candidates_of owners servers proxy) (with_nodes_twice a (Quot.mk exclude)),
)

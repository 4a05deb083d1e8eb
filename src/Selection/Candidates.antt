-- ===== src/Selection/Candidates.antt =====
-- What include/hotrod/ServerSelection.h promises of `orderKeyCandidates` and `unionNodes`.
use cpp17_client.Base.{
  ◌≡◌, refl, sym, ◌∙◌, arith, List, [], ◌∷◌, ◌++◌, Bool, true, false, not, ◌&&◌, ◌||◌,
}
use cpp17_client.Base.{if◌then◌else◌, Bool-cases, inl, inr, append_assoc, append-nil}
use cpp17_client.Failure.{ServerAddress}
use cpp17_client.Failure.Axes.{same_address_iff}
use cpp17_client.Selection.{has_node, push_unique, push_all, union_nodes, order_key_candidates}
use cpp17_client.Selection.Nodes.{
  IsDistinct, IsDistinct-snoc, has_node-append, has_node-push_all, push_all-IsDistinct,
}

-- The nodes that pass a test, in order.
unfoldable pub keep : (ServerAddress → Bool) → List ServerAddress → List ServerAddress
keep p [] = []
keep p (n ∷ nodes) = if p n then n ∷ keep p nodes else keep p nodes

keep_ext :
    (p q : ServerAddress → Bool) (nodes : List ServerAddress)
    → ((n : ServerAddress) → has_node nodes n ≡ true → p n ≡ q n)
    → keep p nodes ≡ keep q nodes
unfolding keep has_node
keep_ext p q [] h = refl
keep_ext p q (x ∷ nodes) h = ground (
  arith,
  h x (ground (arith, same_address_iff x x)),
  keep_ext p q nodes (λ n m. h n (ground arith)),
)

-- What `pushUnique` lets through, given the list before.
abbrev fresh : List ServerAddress → List ServerAddress → ServerAddress → Bool
fresh exclude out n = not (has_node exclude n) && not (has_node out n)

fresh_later :
    (exclude out : List ServerAddress) (s n : ServerAddress) (nodes : List ServerAddress)
    → has_node nodes s ≡ false
    → has_node nodes n ≡ true
    → fresh exclude (out ++ (s ∷ [])) n ≡ fresh exclude out n
unfolding has_node
fresh_later exclude out s n nodes h k =
    ground (arith, has_node-append out (s ∷ []) n, same_address_iff s n)

push_all-keep :
    (exclude out nodes : List ServerAddress)
    → IsDistinct nodes
    → push_all exclude out nodes ≡ out ++ keep (fresh exclude out) nodes
unfolding push_all push_unique keep
push_all-keep exclude out [] d = sym (append-nil out)
push_all-keep exclude out (s ∷ nodes) (d, ds) = ground (
  arith,
  push_all-keep exclude out nodes ds,
  push_all-keep exclude (out ++ (s ∷ [])) nodes ds,
  keep_ext (fresh exclude (out ++ (s ∷ []))) (fresh exclude out) nodes
      (λ n h. fresh_later exclude out s n nodes d h),
  append_assoc out (s ∷ []) (keep (fresh exclude out) nodes),
)

-- The candidates are exactly the owners and, where proxying is allowed, the servers that are not
-- excluded.
pub has_node-order_key_candidates :
    (owners servers exclude : List ServerAddress) (proxy : Bool) (n : ServerAddress)
    → has_node (order_key_candidates owners servers exclude proxy) n
      ≡ ((has_node owners n || proxy && has_node servers n) && not (has_node exclude n))
unfolding order_key_candidates has_node
has_node-order_key_candidates owners servers exclude proxy n = ground (
  arith,
  has_node-push_all exclude [] owners n,
  has_node-push_all exclude (push_all exclude [] owners) servers n,
)

-- No candidate stands twice in the list, whatever the owners and servers repeat.
pub order_key_candidates-IsDistinct :
    (owners servers exclude : List ServerAddress) (proxy : Bool)
    → IsDistinct (order_key_candidates owners servers exclude proxy)
unfolding order_key_candidates
order_key_candidates-IsDistinct owners servers exclude true =
    push_all-IsDistinct exclude (push_all exclude [] owners) servers
      (push_all-IsDistinct exclude [] owners tt)
order_key_candidates-IsDistinct owners servers exclude false =
    push_all-IsDistinct exclude [] owners tt

fresh_after_owners :
    (exclude owners : List ServerAddress) (n : ServerAddress)
    → fresh exclude (push_all exclude [] owners) n
      ≡ (not (has_node exclude n) && not (has_node owners n))
unfolding has_node
fresh_after_owners exclude owners n = ground (arith, has_node-push_all exclude [] owners n)

-- For owners and servers without repetitions: first the owners that are not excluded, in owner order,
-- then, with proxying, the other servers that are not excluded, in topology order.
pub order_key_candidates-keep :
    (owners servers exclude : List ServerAddress) (proxy : Bool)
    → IsDistinct owners
    → IsDistinct servers
    → order_key_candidates owners servers exclude proxy
      ≡ keep (λ n. not (has_node exclude n)) owners
        ++ (if proxy
            then keep (λ n. not (has_node exclude n) && not (has_node owners n)) servers
            else [])
unfolding order_key_candidates has_node
order_key_candidates-keep owners servers exclude proxy d e = ground (
  arith,
  push_all-keep exclude [] owners d,
  push_all-keep exclude (push_all exclude [] owners) servers e,
  keep_ext (fresh exclude []) (λ n. not (has_node exclude n)) owners (λ n h. ground arith),
  keep_ext (fresh exclude (push_all exclude [] owners))
      (λ n. not (has_node exclude n) && not (has_node owners n)) servers
      (λ n h. fresh_after_owners exclude owners n),
  append-nil (keep (λ n. not (has_node exclude n)) owners),
)

union_member :
    (a b : List ServerAddress) (n : ServerAddress)
    → has_node (union_nodes a b) n ≡ (has_node a n || has_node b n)
unfolding union_nodes has_node
union_member a [] n = ground arith
union_member a (m ∷ b) n = ground (
  arith,
  union_member a b n,
  union_member (a ++ (m ∷ [])) b n,
  has_node-append a (m ∷ []) n,
  same_address_iff m n,
)

-- The union has the members of both lists and no others.
pub has_node-union_nodes :
    (a b : List ServerAddress) (n : ServerAddress)
    → has_node (union_nodes a b) n ≡ (has_node a n || has_node b n)
has_node-union_nodes = union_member

-- The union begins with the first list, in its order, and repeats no node if that list does not.
pub union_nodes_extends :
    (a b : List ServerAddress)
    → IsDistinct a
    → ((t : List ServerAddress) × (union_nodes a b ≡ a ++ t)) × IsDistinct (union_nodes a b)
unfolding union_nodes
union_nodes_extends a [] d = (([], sym (append-nil a)), d)
union_nodes_extends a (n ∷ b) d = elim (Bool-cases (has_node a n)) [
  | inl old ↦ rw old (union_nodes_extends a b d)
  | inr new ↦
      let ((t, e), d') = union_nodes_extends (a ++ (n ∷ [])) b (IsDistinct-snoc a n d new) in
      rw new ((n ∷ t, e ∙ append_assoc a (n ∷ []) t), d')
]

-- A retry whose exclusion set is the union of the nodes excluded and tried before has no candidate
-- that was excluded or tried.
pub retry_avoids_tried :
    (owners servers excluded tried : List ServerAddress) (proxy : Bool) (n : ServerAddress)
    → (has_node excluded n || has_node tried n) ≡ true
    → has_node (order_key_candidates owners servers (union_nodes excluded tried) proxy) n ≡ false
retry_avoids_tried owners servers excluded tried proxy n h = ground (
  arith,
  has_node-order_key_candidates owners servers (union_nodes excluded tried) proxy n,
  has_node-union_nodes excluded tried n,
)

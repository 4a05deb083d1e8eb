-- ===== src/Selection/Nodes.antt =====
-- Membership in node lists under the operations of include/hotrod/ServerSelection.h.
use cpp17_client.Base.{◌≡◌, refl, arith, List, [], ◌∷◌, ◌++◌, false, not, ◌&&◌, ◌||◌}
use cpp17_client.Failure.{ServerAddress, same_address}
use cpp17_client.Failure.Axes.{same_address_iff}
use cpp17_client.Selection.{has_node, push_unique, push_all}

pub has_node-append :
    (xs ys : List ServerAddress) (a : ServerAddress)
    → has_node (xs ++ ys) a ≡ (has_node xs a || has_node ys a)
unfolding has_node
has_node-append [] ys a = refl
has_node-append (x ∷ xs) ys a = ground (arith, has_node-append xs ys a)

-- No node stands twice in the list.
abbrev pub IsDistinct : List ServerAddress → Type 0
IsDistinct [] = Unit {0}
IsDistinct (x ∷ xs) = (has_node xs x ≡ false) × IsDistinct xs

pub IsDistinct-snoc :
    (xs : List ServerAddress) (s : ServerAddress)
    → IsDistinct xs
    → has_node xs s ≡ false
    → IsDistinct (xs ++ (s ∷ []))
unfolding has_node
IsDistinct-snoc [] s d h = (refl, tt)
IsDistinct-snoc (x ∷ xs) s (d, ds) h = (
  ground (arith, has_node-append xs (s ∷ []) x, same_address_iff x s, same_address_iff s x),
  IsDistinct-snoc xs s ds (ground arith),
)

pub has_node-push_unique :
    (exclude out : List ServerAddress) (s a : ServerAddress)
    → has_node (push_unique exclude out s) a
      ≡ (has_node out a || same_address s a && not (has_node exclude a))
unfolding push_unique has_node
has_node-push_unique exclude out s a =
    ground (arith, has_node-append out (s ∷ []) a, same_address_iff s a)

pub has_node-push_all :
    (exclude out nodes : List ServerAddress) (a : ServerAddress)
    → has_node (push_all exclude out nodes) a
      ≡ (has_node out a || has_node nodes a && not (has_node exclude a))
unfolding push_all has_node
has_node-push_all exclude out [] a = ground arith
has_node-push_all exclude out (s ∷ nodes) a = ground (
  arith,
  has_node-push_all exclude (push_unique exclude out s) nodes a,
  has_node-push_unique exclude out s a,
)

pub push_unique-IsDistinct :
    (exclude out : List ServerAddress) (s : ServerAddress)
    → IsDistinct out
    → IsDistinct (push_unique exclude out s)
unfolding push_unique
push_unique-IsDistinct exclude out s d = ground (arith, IsDistinct-snoc out s)

pub push_all-IsDistinct :
    (exclude out nodes : List ServerAddress)
    → IsDistinct out
    → IsDistinct (push_all exclude out nodes)
unfolding push_all
push_all-IsDistinct exclude out [] d = d
push_all-IsDistinct exclude out (s ∷ nodes) d =
    push_all-IsDistinct exclude (push_unique exclude out s) nodes
      (push_unique-IsDistinct exclude out s d)

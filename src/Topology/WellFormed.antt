-- ===== src/Topology/WellFormed.antt =====
-- Well-formed topologies under the operations of src/topology/TopologyInfo.cpp.
use cpp17_client.Base.{
  suc, ◌≤◌, ◌+◌, ◌%◌, ◌<◌, ◌≡◌, refl, arith, List, [], ◌∷◌, ◌++◌, map, length, length-append, true,
  false, not, ◌&&◌, ◌||◌, Option, none, some, inr, ◌⊎◌, ◌↔◌, ok, undefined, element_total,
  element_past, ap,
}
use cpp17_client.Failure.{ServerAddress, same_address}
use cpp17_client.Failure.Axes.{same_address_iff}
use cpp17_client.Selection.{has_node}
use cpp17_client.Selection.Nodes.{IsDistinct, IsDistinct-snoc, has_node-append}
use cpp17_client.Topology.{
  ServerInfo, TopologyInfo, address, has_server, push_server, add_server, without, remove_server,
  select_server, pick, with_servers,
}
use native.Mathlib.Nat.{mod-lt}

-- No two servers have the same host and port.
abbrev pub IsApart : List ServerInfo → Type 0
IsApart servers = IsDistinct (map address servers)

-- And the round-robin index points at a server, or is 0.
abbrev pub IsWellFormed : TopologyInfo → Type 0
IsWellFormed t =
    IsApart t.servers × ((t.round_robin_index ≡ 0) ⊎ (t.round_robin_index < length t.servers))

pub map-append :
    (xs ys : List ServerInfo) → map address (xs ++ ys) ≡ map address xs ++ map address ys
map-append [] ys = refl
map-append (x ∷ xs) ys = ap (◌∷◌ (address x)) (map-append xs ys)

-- Adding a server keeps its list apart.
pub push_server-IsApart :
    (servers : List ServerInfo) (s : ServerInfo) → IsApart servers → IsApart (push_server servers s)
unfolding push_server has_server
push_server-IsApart servers s d =
    ground (arith, map-append servers (s ∷ []), IsDistinct-snoc (map address servers) (address s) d)

-- What `selectServer` promises of a topology: it returns, and leaves the servers and the form; it
-- returns a server exactly when there is one.
abbrev pub Selects : TopologyInfo → Type 0
Selects t =
    (found : Option ServerInfo) × (t' : TopologyInfo) × (select_server t ≡ ok (found, t'))
    × (t'.servers ≡ t.servers)
    × IsWellFormed t'
    × ((found ≡ none) ↔ (t.servers ≡ []))

choice_made :
    (t : TopologyInfo) (servers : List ServerInfo)
    → t.servers ≡ servers
    → IsWellFormed t
    → Selects t
unfolding select_server pick
choice_made t [] e w = (none, t, rw e refl, refl, w, (λ _. e, λ _. refl))
choice_made t (s ∷ servers) e (d, h) =
    let size : length t.servers ≡ suc (length servers) = ap length e in
    let (found, read) = element_total (s ∷ servers) t.round_robin_index (ground arith) in
    let inside : (t.round_robin_index + 1) % length t.servers < length t.servers =
      mod-lt _ (omega arith) in
    (
      some found,
      with_servers t t.servers ((t.round_robin_index + 1) % length t.servers),
      rw (e, read) refl,
      refl,
      (d, inr inside),
      (λ h. cc, λ h. cc),
    )

-- On a well-formed topology `selectServer` returns, a server exactly when there is one, and leaves
-- the servers and the form.
pub select_server-IsWellFormed : (t : TopologyInfo) → IsWellFormed t → Selects t
select_server-IsWellFormed t = choice_made t t.servers refl

length-push_server :
    (servers : List ServerInfo) (s : ServerInfo) → length servers ≤ length (push_server servers s)
unfolding push_server
length-push_server servers s = ground (arith, length-append servers (s ∷ []))

has_server-push_server :
    (servers : List ServerInfo) (s a : ServerInfo)
    → has_server (push_server servers s) a
      ≡ (has_server servers a || same_address (address s) (address a))
unfolding push_server has_server has_node
has_server-push_server servers s a = ground (
  arith,
  map-append servers (s ∷ []),
  has_node-append (map address servers) (address s ∷ []) (address a),
  same_address_iff (address s) (address a),
)

-- `addServer` keeps the form; afterwards the topology has the added server and those that it had.
pub add_server-IsWellFormed :
    (t : TopologyInfo) (s : ServerInfo)
    → IsWellFormed t
    → IsWellFormed (add_server t s)
      × ((a : ServerInfo)
          → has_server (add_server t s).servers a
            ≡ (has_server t.servers a || same_address (address s) (address a)))
unfolding add_server
add_server-IsWellFormed t s (d, h) = (
  (push_server-IsApart t.servers s d, ground (arith, length-push_server t.servers s)),
  has_server-push_server t.servers s,
)

has_server-without :
    (a : ServerAddress) (servers : List ServerInfo) (s : ServerInfo)
    → has_server (without a servers) s ≡ (has_server servers s && not (same_address (address s) a))
unfolding without has_server has_node
has_server-without a [] s = refl
has_server-without a (x ∷ servers) s =
    ground (arith, has_server-without a servers s, same_address_iff (address x) (address s))

without-IsApart :
    (a : ServerAddress) (servers : List ServerInfo) → IsApart servers → IsApart (without a servers)
unfolding without has_server
without-IsApart a [] d = d
without-IsApart a (x ∷ servers) (h, d) =
    ground (arith, without-IsApart a servers d, has_server-without a servers x)

-- `removeServer` takes away the servers with the host and port and no others, and keeps the list
-- apart.
pub remove_server-IsApart :
    (t : TopologyInfo) (a : ServerAddress)
    → IsApart t.servers
    → IsApart (remove_server t a).servers
      × ((s : ServerInfo)
          → has_server (remove_server t a).servers s
            ≡ (has_server t.servers s && not (same_address (address s) a)))
unfolding remove_server
remove_server-IsApart t a d = (without-IsApart a t.servers d, has_server-without a t.servers)

without_none :
    (a : ServerAddress) (servers : List ServerInfo)
    → has_node (map address servers) a ≡ false
    → without a servers ≡ servers
unfolding without has_node
without_none a [] h = refl
without_none a (x ∷ servers) h = ground (arith, without_none a servers)

length-without :
    (a : ServerAddress) (servers : List ServerInfo)
    → IsApart servers
    → has_node (map address servers) a ≡ true
    → length (without a servers) + 1 ≡ length servers
unfolding without has_node
length-without a [] d h = cc
length-without a (x ∷ servers) (k, d) h =
    ground
      (arith, length-without a servers d, without_none a servers, same_address_iff (address x) a)

pick_past :
    (t : TopologyInfo) (servers : List ServerInfo)
    → 1 ≤ length servers
    → length servers ≤ t.round_robin_index
    → pick t servers ≡ undefined
unfolding pick
pick_past t [] h l = absurd (omega arith)
pick_past t (s ∷ servers) h l = rw (element_past (s ∷ servers) t.round_robin_index l) refl

-- `removeServer` leaves the round-robin index alone: where it points at the last of two or more
-- servers and any one of them is removed, the next `selectServer` reads past the end of the vector.
pub select_server-remove_server_undefined :
    (t : TopologyInfo) (a : ServerAddress)
    → IsApart t.servers
    → has_node (map address t.servers) a ≡ true
    → 2 ≤ length t.servers
    → t.round_robin_index + 1 ≡ length t.servers
    → select_server (remove_server t a) ≡ undefined
unfolding select_server remove_server
select_server-remove_server_undefined t a d h l k =
    let shorter : length (without a t.servers) + 1 ≡ length t.servers =
      length-without a t.servers d h in
    pick_past (remove_server t a) (without a t.servers) (omega arith) (omega arith)

-- ===== src/Client/Pool.antt =====
-- `RemoteCache::getConnectionForServer` of src/operations/RemoteCache.cpp with the connections themselves in the
-- pool, where Cache.antt has their addresses.
use cpp17_client.Base.{
  ℕ, ◌≡◌, refl, ap, arith, List, [], ◌∷◌, map, Bool, Bool-cases, true, false, ◌&&◌, if◌then◌else◌,
  Option, none, some, inl, inr,
}
use cpp17_client.Failure.{ServerAddress, same_address, Thrown}
use cpp17_client.Failure.Axes.{same_address_iff}
use cpp17_client.Selection.{has_node}
use cpp17_client.Multiplex.{set_protocol_version, set_client_intelligence}
use cpp17_client.Socket
use cpp17_client.Socket.{Address}
use cpp17_client.Cache.{Network, erase, get_connection_for_server}
use cpp17_client.Client.{
  Link, Platform, Opening, up, down, lost, Client, new_link, configure, connect_with, connect,
  set_authentication, connect_to_server,
}
use cpp17_client.Client.Handover.{IsSettled, connect-IsSettled}

-- What a connection to a server meets: the name service's answer and the bytes that the server sends.
pub record Peers : Type 0 where
  pub resolved : ServerAddress → Option (List Address)
  pub sends : ServerAddress → List ℕ
  pub open_sockets : List ℕ

unfoldable pub find_link : List Link → ServerAddress → Option Link
find_link [] a = none
find_link (l ∷ pool) a =
    let rest = find_link pool a in if same_address l.mux.node a then some l else rest

unfoldable pub erase_link : ServerAddress → List Link → List Link
erase_link a [] = []
erase_link a (l ∷ pool) =
    let rest = erase_link a pool in if same_address l.mux.node a then rest else l ∷ rest

-- A connection and the pool behind the call, or the exception of `connect` and the pool.
pub data Acquired : Type 0 where
  got : Link → List Link → Acquired
  refused : Thrown → List Link → Acquired
  undefined_behaviour : Acquired

unfoldable pub pooled_link : ServerAddress → List Link → Opening → Acquired
unfolding erase_link
pooled_link a pool (up l offset) = got l (l ∷ erase_link a pool)
pooled_link a pool (down e l) = refused e (erase_link a pool)
pooled_link a pool lost = undefined_behaviour

module _ (os : Platform) (peers : Peers) (c : Client) (pool : List Link) (a : ServerAddress) where
  unfoldable pub opening_to : Opening
  opening_to = connect_to_server os (peers.resolved a) (peers.sends a) c a peers.open_sockets

  unfoldable pub get_found : Option Link → Acquired
  unfolding pooled_link opening_to
  get_found none = pooled_link a pool opening_to
  get_found (some l) = if l.mux.connected then got l pool else pooled_link a pool opening_to

  unfoldable pub get_link : Acquired
  unfolding get_found find_link
  get_link = get_found (find_link pool a)

abbrev pub nodes_of : List Link → List ServerAddress
nodes_of pool = map (λ l. l.mux.node) pool

abbrev pub is_up : Option Link → Bool
is_up none = false
is_up (some l) = l.mux.connected

abbrev pub comes_up : Opening → Bool
comes_up (up l offset) = true
comes_up (down e l) = false
comes_up lost = false

-- The network that these connections and peers are to the choice of a connection.
abbrev pub network_of : Platform → Peers → Client → List Link → Network
network_of os peers c pool = record {
  is_connected = λ a. is_up (find_link pool a);
  connects = λ a.
      comes_up (connect_to_server os (peers.resolved a) (peers.sends a) c a peers.open_sockets);
}

-- The connection goes to the server and is up, and the addresses come out as given.
pub data Implements (a : ServerAddress) (chosen : Bool × List ServerAddress)
    : Acquired → Type 0 where
  with_link :
      {l : Link} {pool : List Link}
      → l.mux.node ≡ a
      → l.mux.connected ≡ true
      → chosen ≡ (true, nodes_of pool)
      → Implements a chosen (got l pool)
  with_none :
      {e : Thrown} {pool : List Link}
      → chosen ≡ (false, nodes_of pool)
      → Implements a chosen (refused e pool)
  unsaid : Implements a chosen undefined_behaviour

nodes_of-erase_link :
    (a : ServerAddress) (pool : List Link) → nodes_of (erase_link a pool) ≡ erase a (nodes_of pool)
unfolding erase_link erase
nodes_of-erase_link a [] = refl
nodes_of-erase_link a (l ∷ pool) = elim (Bool-cases (same_address l.mux.node a)) [
  | inl same ↦ simp same (nodes_of-erase_link a pool)
  | inr other ↦ simp other (ap (◌∷◌ l.mux.node) (nodes_of-erase_link a pool))
]

-- Whether the pool has a connection to the server, and to which.
data Finds (a : ServerAddress) (pool : List Link) : Option Link → Type 0 where
  found : {l : Link} → l.mux.node ≡ a → has_node (nodes_of pool) a ≡ true → Finds a pool (some l)
  absent : has_node (nodes_of pool) a ≡ false → Finds a pool none

find_link-Finds : (a : ServerAddress) (pool : List Link) → Finds a pool (find_link pool a)
unfolding find_link has_node
find_link-Finds a [] = absent refl
find_link-Finds a (l ∷ pool) = elim (Bool-cases (same_address l.mux.node a)) [
  | inl same ↦ simp same (found ((same_address_iff l.mux.node a).0 same) (ground arith))
  | inr other ↦ simp other (further other (find_link-Finds a pool))
]
  where
    further :
        {o : Option Link}
        → same_address l.mux.node a ≡ false
        → Finds a pool o
        → Finds a (l ∷ pool) o
    further other (found e h) = found e (ground arith)
    further other (absent h) = absent (ground arith)

-- What a new connection comes to: it goes to the server and is up.
abbrev OpensTo : ServerAddress → Opening → Type 0
OpensTo a (up l offset) = (l.mux.node ≡ a) × (l.mux.connected ≡ true)
OpensTo a (down e l) = Unit
OpensTo a lost = Unit

settled_link :
    (l : Link) (sockets : List ℕ) (o : Opening) → IsSettled l sockets o → OpensTo l.mux.node o
settled_link l sockets (up l' offset) (same, socket) =
    (ap (λ m. m.node) same, ap (λ m. m.connected) same)
settled_link l sockets (down e l') h = tt
settled_link l sockets lost h = tt

-- A new connection with the client's settings.
abbrev configured : Client → ServerAddress → List ℕ → Link
configured c server open_sockets =
    let fresh = new_link server open_sockets in
    record {
      mux = record fresh.mux {
        protocol_version = c.protocol_version;
        client_intelligence = c.routing.client_intelligence;
      };
      authentication = c.authentication;
      socket = fresh.socket;
    }

opening_to-OpensTo :
    (os : Platform) (peers : Peers) (c : Client) (pool : List Link) (a : ServerAddress)
    → OpensTo a (opening_to os peers c pool a)
unfolding opening_to connect_to_server connect_with configure set_protocol_version
    set_client_intelligence set_authentication Socket.close
opening_to-OpensTo os peers c pool a =
    let l = configured c a peers.open_sockets in
    settled_link l peers.open_sockets (connect os (peers.resolved a) (peers.sends a) l)
      (connect-IsSettled os l peers.open_sockets (peers.resolved a) (peers.sends a) refl refl)

pooled_link-Implements :
    (a : ServerAddress) (pool : List Link) (o : Opening)
    → OpensTo a o
    → Implements a
        (if comes_up o
          then (true, a ∷ erase a (nodes_of pool))
          else (false, erase a (nodes_of pool)))
        (pooled_link a pool o)
unfolding pooled_link
pooled_link-Implements a pool (up l offset) (there, on) =
    Implements.with_link there on (rw (there, nodes_of-erase_link a pool) refl)
pooled_link-Implements a pool (down e l) h =
    Implements.with_none (rw (nodes_of-erase_link a pool) refl)
pooled_link-Implements a pool lost h = Implements.unsaid

get_found-Implements :
    (os : Platform) (peers : Peers) (c : Client) (pool : List Link) (a : ServerAddress)
    (found_link : Option Link)
    → Finds a pool found_link
    → Implements a
        (if has_node (nodes_of pool) a && is_up found_link
          then (true, nodes_of pool)
          else if comes_up (opening_to os peers c pool a)
          then (true, a ∷ erase a (nodes_of pool))
          else (false, erase a (nodes_of pool)))
        (get_found os peers c pool a found_link)
unfolding get_found
get_found-Implements os peers c pool a none (absent h) = simp h (
    pooled_link-Implements a pool (opening_to os peers c pool a)
      (opening_to-OpensTo os peers c pool a))
get_found-Implements os peers c pool a (some l) (found e h) = elim (Bool-cases l.mux.connected) [
  | inl on ↦ simp (h, on) (Implements.with_link e on refl)
  | inr off ↦
      simp (h, off)
        (pooled_link-Implements a pool (opening_to os peers c pool a)
          (opening_to-OpensTo os peers c pool a))
]

-- `getConnectionForServer` over the connections themselves does what the choice of a connection takes it to do
-- over their addresses, where a pooled connection is up if its flag says so, and a new one comes up if
-- `MultiplexedConnection::connect` with the client's settings returns: the connection that it returns goes to
-- the server and is up, and the addresses in the pool come out as there, also when `connect` throws. Undefined
-- behaviour in `connect` is left out.
pub get_link-Implements :
    (os : Platform) (peers : Peers) (c : Client) (pool : List Link) (a : ServerAddress)
    → Implements a
        (get_connection_for_server (network_of os peers c pool) (nodes_of pool) a)
        (get_link os peers c pool a)
unfolding get_link get_connection_for_server opening_to
get_link-Implements os peers c pool a =
    get_found-Implements os peers c pool a (find_link pool a) (find_link-Finds a pool)

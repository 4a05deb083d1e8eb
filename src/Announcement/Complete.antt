-- ===== src/Announcement/Complete.antt =====
-- `TopologyInfo::parseTopologyInfo` against the encoding of a topology by the protocol.
use cpp17_client.Base.{
  ℕ, ◌+◌, ◌*◌, ◌/◌, ◌%◌, ◌^◌, ◌<◌, ◌≡◌, refl, sym, subst, ◌∙◌, arith, List, [], ◌∷◌, ◌++◌, length,
  ok, true, false, map, All, append_assoc, append-nil, bit_or,
}
use cpp17_client.Base.Bits.{bit_or-high}
use cpp17_client.Base.Readers.{Takes, Takes-bind, Takes-return, Takes-map, Takes-next_byte}
use cpp17_client.Codec.Septets.{septets}
use cpp17_client.Codec.Framing.{counted}
use cpp17_client.Failure.{ServerAddress}
use cpp17_client.Failure.Axes.{same_address_iff}
use cpp17_client.Selection.{has_node}
use cpp17_client.Selection.Nodes.{IsDistinct, has_node-append}
use cpp17_client.Header.{ClientIntelligence}
use cpp17_client.Stream.{closed}
use cpp17_client.Stream.Receiving.{Takes-receive}
use cpp17_client.Topology.{ServerInfo, TopologyInfo, address, push_server, has_server}
use cpp17_client.Topology.WellFormed.{map-append}
use cpp17_client.Announcement.{
  parse_server, parse_servers, parse_owners, parse_hash, parse_topology_info,
}
use cpp17_client.Announcement.Items.{Takes-parse_vint, Takes-parse_string}

unfoldable pub server_bytes : ServerAddress → List ℕ
server_bytes a = counted a.host ++ ((a.port / 256) ∷ (a.port % 256) ∷ [])

abbrev pub IsSendableServer : ServerAddress → Type 0
IsSendableServer a = (length a.host < 2 ^ 32) × (a.port < 2 ^ 16)

abbrev pub numbered : ServerAddress → ℕ → ServerInfo
numbered a i = record { host = a.host; port = a.port; hash_id = i }

Takes-parse_server :
    (a : ServerAddress) (i : ℕ)
    → IsSendableServer a
    → i < 2 ^ 32
    → Takes (parse_server i) (server_bytes a) (numbered a i)
unfolding parse_server server_bytes
Takes-parse_server a i (h, k) l =
    let port : bit_or (a.port / 256 * 2 ^ 8) (a.port % 256) ≡ a.port =
      omega (arith, bit_or-high 8 (a.port / 256) (a.port % 256) (omega arith)) in
    let index : i % 2 ^ 32 ≡ i = omega arith in
    subst (Takes (parse_server i) (server_bytes a)) (rw (port, index) refl) (
      Takes-bind _ (Takes-parse_string a.host h) (
        Takes-bind _ (Takes-next_byte closed (a.port / 256))
          (Takes-bind _ (Takes-next_byte closed (a.port % 256)) (Takes-return _))))

unfoldable pub servers_bytes : List ServerAddress → List ℕ
servers_bytes [] = []
servers_bytes (a ∷ addresses) = server_bytes a ++ servers_bytes addresses

-- The servers as the loop collects them, numbered from `i` on.
unfoldable pub push_numbered : List ServerInfo → ℕ → List ServerAddress → List ServerInfo
push_numbered servers i [] = servers
push_numbered servers i (a ∷ addresses) =
    push_numbered (push_server servers (numbered a i)) (i + 1) addresses

unfoldable pub number_all : ℕ → List ServerAddress → List ServerInfo
number_all i [] = []
number_all i (a ∷ addresses) = numbered a i ∷ number_all (i + 1) addresses

Takes-parse_servers :
    (addresses : List ServerAddress) (i : ℕ) (servers : List ServerInfo)
    → All IsSendableServer addresses
    → i + length addresses < 2 ^ 32
    → Takes
        (parse_servers (length addresses) i servers)
        (servers_bytes addresses)
        (push_numbered servers i addresses)
unfolding parse_servers servers_bytes push_numbered
Takes-parse_servers [] i servers h l = Takes-return servers
Takes-parse_servers (a ∷ addresses) i servers (h, hs) l =
    Takes-bind _ (Takes-parse_server a i h (omega arith))
      (Takes-parse_servers addresses (i + 1) (push_server servers (numbered a i)) hs (omega arith))

-- Servers that differ are all kept, in order.
push_numbered-number_all :
    (servers : List ServerInfo) (i : ℕ) (addresses : List ServerAddress)
    → IsDistinct addresses
    → ((a : ServerAddress) → has_node addresses a ≡ true → has_node (map address servers) a ≡ false)
    → push_numbered servers i addresses ≡ servers ++ number_all i addresses
unfolding push_numbered number_all push_server has_server has_node
push_numbered-number_all servers i [] d f = sym (append-nil servers)
push_numbered-number_all servers i (a ∷ addresses) (h, d) f =
    let fresh : has_node (map address servers) a ≡ false =
      f a (ground (arith, same_address_iff a a)) in
    rw fresh (
      push_numbered-number_all (servers ++ (numbered a i ∷ [])) (i + 1) addresses d (λ b k. ground (
        arith,
        f b,
        map-append servers (numbered a i ∷ []),
        has_node-append (map address servers) (a ∷ []) b,
        same_address_iff a b,
      ))
      ∙ append_assoc servers (numbered a i ∷ []) (number_all (i + 1) addresses))

unfoldable pub owners_bytes : List (List ℕ) → List ℕ
owners_bytes [] = []
owners_bytes (owners ∷ segments) = length owners ∷ (owners ++ owners_bytes segments)

Takes-parse_owners :
    (segments before : List (List ℕ))
    → Takes (parse_owners (length segments) before) (owners_bytes segments) (before ++ segments)
unfolding parse_owners owners_bytes
Takes-parse_owners [] before =
    subst (Takes (parse_owners 0 before) []) (sym (append-nil before)) (Takes-return before)
Takes-parse_owners (owners ∷ segments) before =
    subst
      (Takes (parse_owners (length (owners ∷ segments)) before) (owners_bytes (owners ∷ segments)))
      (append_assoc before (owners ∷ []) segments)
      (Takes-bind _ (Takes-next_byte closed (length owners)) (
        Takes-bind _ (Takes-receive owners)
          (Takes-parse_owners segments (before ++ (owners ∷ [])))))

-- The bytes that the protocol prescribes for a topology with the hash distribution.
unfoldable pub hash_bytes : ℕ → List (List ℕ) → List ℕ
hash_bytes version segments = version ∷ (septets 4 (length segments) ++ owners_bytes segments)

unfoldable pub topology_bytes : ℕ → List ServerAddress → ℕ → List (List ℕ) → List ℕ
topology_bytes topology_id addresses version segments =
    septets 4 topology_id
    ++ (septets 4 (length addresses) ++ (servers_bytes addresses ++ hash_bytes version segments))

-- The topology of a message: all servers, each with its place as hash id, and the segments' owners.
abbrev pub announced : ℕ → List ServerAddress → ℕ → List (List ℕ) → TopologyInfo
announced topology_id addresses version segments = record {
  topology_id = topology_id;
  servers = number_all 0 addresses;
  round_robin_index = 0;
  hash_function_version = version;
  num_segments = length segments;
  segment_owners = segments;
}

module _ (t : TopologyInfo) (topology_id : ℕ) (addresses : List ServerAddress) (version : ℕ)
    (segments : List (List ℕ)) where
  Takes-parse_hash :
      (servers : List ServerInfo)
      → length segments < 2 ^ 32
      → Takes
          (parse_hash ClientIntelligence.hash_distribution_aware topology_id servers t)
          (hash_bytes version segments)
          (record {
            topology_id = topology_id;
            servers = servers;
            round_robin_index = 0;
            hash_function_version = version;
            num_segments = length segments;
            segment_owners = segments;
          })
  unfolding parse_hash hash_bytes
  Takes-parse_hash servers h = Takes-bind _ (Takes-next_byte closed version) (
      Takes-bind _ (Takes-parse_vint (length segments) h)
        (Takes-map _ (Takes-parse_owners segments [])))

  pub Takes-parse_topology_info :
      topology_id < 2 ^ 32
      → length addresses < 2 ^ 32
      → length segments < 2 ^ 32
      → All IsSendableServer addresses
      → IsDistinct addresses
      → Takes
          (parse_topology_info t ClientIntelligence.hash_distribution_aware)
          (topology_bytes topology_id addresses version segments)
          (announced topology_id addresses version segments)
  unfolding parse_topology_info topology_bytes has_node
  Takes-parse_topology_info h k l hs d =
      let all_kept : push_numbered [] 0 addresses ≡ number_all 0 addresses =
        push_numbered-number_all [] 0 addresses d (λ a m. refl) in
      Takes-bind _ (Takes-parse_vint topology_id h) (
        Takes-bind _ (Takes-parse_vint (length addresses) k) (
          Takes-bind _
            (subst (Takes (parse_servers (length addresses) 0 []) (servers_bytes addresses))
              all_kept (Takes-parse_servers addresses 0 [] hs (omega arith)))
            (Takes-parse_hash (number_all 0 addresses) l)))

  -- For a client that is aware of the hash distribution, `parseTopologyInfo` reads every topology of
  -- different servers back from the bytes that the protocol prescribes, wherever in the stream they
  -- stand, and stops behind them; each server's hash id is its place in the message, whatever the
  -- topology held before. The counts and the topology id fit 32 bits, and so do the lengths of the
  -- host names; the ports fit 16 bits.
  pub parse_topology_info_complete :
      (front rest : List ℕ)
      → topology_id < 2 ^ 32
      → length addresses < 2 ^ 32
      → length segments < 2 ^ 32
      → All IsSendableServer addresses
      → IsDistinct addresses
      → parse_topology_info t ClientIntelligence.hash_distribution_aware
          (front ++ (topology_bytes topology_id addresses version segments ++ rest))
          (length front)
        ≡ ok (
          announced topology_id addresses version segments,
          length (front ++ topology_bytes topology_id addresses version segments),
        )
  parse_topology_info_complete front rest h k l hs d =
      (Takes-parse_topology_info h k l hs d).apply front rest

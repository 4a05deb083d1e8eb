-- ===== src/Routing/Owners.antt =====
-- The owners that src/hash/ConsistentHash.cpp finds after an update from a topology message.
use cpp17_client.Base.{
  ℕ, zero, suc, ◌+◌, ◌^◌, ◌≤◌, ◌<◌, ◌≡◌, refl, subst, ap, ◌∙◌, arith, List, [], ◌∷◌, length, All,
  Option, none, some, ok, false, get_elem?, get_elem?-total, get_elem?-none, Option-cases, inl, inr,
  ◌==◌,
}
use cpp17_client.Failure.{ServerAddress}
use cpp17_client.Topology.{ServerInfo, TopologyInfo}
use cpp17_client.Announcement.Complete.{numbered, number_all, announced}
use cpp17_client.Routing.{
  ConsistentHash, cleared, find_server_by_hash_id, convert_indices, convert_segments, converted,
  cons_id, cons_segment, first_size, update_from_topology, get_segment, get_owners,
  get_primary_owner, collect_owners, owners_of, primary_of, push_found,
}
use cpp17_client.Murmur.Bounds.{IsHashable}
use cpp17_client.Routing.Segments.{get_segment_part}

length-number_all :
    (addresses : List ServerAddress) (i : ℕ) → length (number_all i addresses) ≡ length addresses
unfolding number_all
length-number_all [] i = refl
length-number_all (a ∷ addresses) i = ap suc (length-number_all addresses (i + 1))

get_elem?-number_all :
    (addresses : List ServerAddress) (i j : ℕ) (a : ServerAddress)
    → get_elem? addresses j ≡ some a
    → get_elem? (number_all i addresses) j ≡ some (numbered a (i + j))
unfolding number_all
get_elem?-number_all [] i j a h = cc
get_elem?-number_all (b ∷ addresses) i zero a h = ground arith
get_elem?-number_all (b ∷ addresses) i (suc j) a h =
    let sum : i + 1 + j ≡ i + suc j = omega arith in
    get_elem?-number_all addresses (i + 1) j a h ∙ ap (λ n. some (numbered a n)) sum

find-number_all :
    (addresses : List ServerAddress) (i j : ℕ) (a : ServerAddress)
    → get_elem? addresses j ≡ some a
    → find_server_by_hash_id (i + j) (number_all i addresses) ≡ some (numbered a (i + j))
unfolding number_all find_server_by_hash_id
find-number_all [] i j a h = cc
find-number_all (b ∷ addresses) i zero a h = ground arith
find-number_all (b ∷ addresses) i (suc j) a h =
    let sum : i + 1 + j ≡ i + suc j = omega arith in
    let differs : (i == i + suc j) ≡ false = ground arith in
    rw differs (simp sum at (find-number_all addresses (i + 1) j a h))

-- The servers at the indices of a segment, each with its index as hash id.
unfoldable pub servers_at : List ServerAddress → List ℕ → List ServerInfo
unfolding push_found
servers_at addresses [] = []
servers_at addresses (j ∷ indices) =
    push_found (get_elem? (number_all 0 addresses) j) (servers_at addresses indices)

unfoldable pub first_server : List ServerInfo → Option ServerInfo
first_server [] = none
first_server (server ∷ servers) = some server

-- Every index is that of a server.
abbrev pub IsKnown : List ServerAddress → ℕ → Type 0
IsKnown addresses j = j < length addresses

module _ (addresses : List ServerAddress) where
  known_server :
      (j : ℕ)
      → IsKnown addresses j
      → (a : ServerAddress) × (get_elem? (number_all 0 addresses) j ≡ some (numbered a j))
        × (find_server_by_hash_id j (number_all 0 addresses) ≡ some (numbered a j))
  known_server j h =
      let (a, e) = get_elem?-total addresses j h in
      let same : 0 + j ≡ j = omega arith in
      (
        a,
        get_elem?-number_all addresses 0 j a e ∙ ap (λ n. some (numbered a n)) same,
        simp same at (find-number_all addresses 0 j a e),
      )

  convert_indices-known :
      (indices : List ℕ)
      → All (IsKnown addresses) indices
      → convert_indices (number_all 0 addresses) indices ≡ some indices
  unfolding convert_indices cons_id
  convert_indices-known [] h = refl
  convert_indices-known (j ∷ indices) (h, hs) =
      let (a, e, f) = known_server j h in rw (e, convert_indices-known indices hs) refl

  convert_segments-known :
      (segments : List (List ℕ))
      → All (All (IsKnown addresses)) segments
      → convert_segments (number_all 0 addresses) segments ≡ some segments
  unfolding convert_segments cons_segment
  convert_segments-known [] h = refl
  convert_segments-known (indices ∷ segments) (h, hs) =
      rw (convert_indices-known indices h, convert_segments-known segments hs) refl

  collect_owners-known :
      (indices : List ℕ)
      → All (IsKnown addresses) indices
      → collect_owners indices (number_all 0 addresses) ≡ servers_at addresses indices
  unfolding collect_owners servers_at
  collect_owners-known [] h = refl
  collect_owners-known (j ∷ indices) (h, hs) =
      let (a, e, f) = known_server j h in rw (e, f, collect_owners-known indices hs) refl

  primary-known :
      (indices : List ℕ)
      → All (IsKnown addresses) indices
      → primary_of (some indices) (number_all 0 addresses)
        ≡ first_server (servers_at addresses indices)
  unfolding primary_of servers_at first_server push_found
  primary-known [] h = refl
  primary-known (j ∷ indices) (h, hs) = let (a, e, f) = known_server j h in rw (e, f) refl

  -- The table after an update from a message in which every index is that of a server.
  abbrev pub table : List (List ℕ) → ConsistentHash
  table segments = record {
    num_segments = length segments;
    num_owners = first_size segments;
    segment_owners = segments;
  }

  pub update_from_topology-announced :
      (topology_id version : ℕ) (segments : List (List ℕ))
      → 0 < length segments
      → length segments < 2 ^ 31
      → All (All (IsKnown addresses)) segments
      → update_from_topology (announced topology_id addresses version segments) ≡ table segments
  unfolding update_from_topology converted
  update_from_topology-announced topology_id version segments h k l =
      ground (arith, convert_segments-known segments l)

  indices_of_segment :
      (segments : List (List ℕ)) (i : ℕ) (indices : List ℕ)
      → All (All (IsKnown addresses)) segments
      → get_elem? segments i ≡ some indices
      → All (IsKnown addresses) indices
  indices_of_segment [] i indices h e = cc
  indices_of_segment (s ∷ segments) zero indices (h, hs) e =
      let same : s ≡ indices = cc in subst (All (IsKnown addresses)) same h
  indices_of_segment (s ∷ segments) (suc i) indices (h, hs) e =
      indices_of_segment segments i indices hs e

  -- After an update from a topology message in which every index is that of a server, with at least one
  -- and fewer than 2^31 segments, the owners of a key, no byte of whose tail from 128 on is shifted, are
  -- the servers at the indices of the key's segment, in the message's order, and the primary owner is the
  -- first of them.
  pub get_owners-update_from_topology :
      (topology_id version : ℕ) (segments : List (List ℕ)) (key : List ℕ)
      → 0 < length segments
      → length segments < 2 ^ 31
      → All (All (IsKnown addresses)) segments
      → IsHashable key
      → (segment : ℕ) × (indices : List ℕ) × (get_segment
            (update_from_topology (announced topology_id addresses version segments))
            key
          ≡ ok segment)
        × (get_elem? segments segment ≡ some indices)
        × (get_owners
              (update_from_topology (announced topology_id addresses version segments))
              key
              (announced topology_id addresses version segments)
            ≡ ok (servers_at addresses indices))
        × (get_primary_owner
              (update_from_topology (announced topology_id addresses version segments))
              key
              (announced topology_id addresses version segments)
            ≡ ok (first_server (servers_at addresses indices)))
  unfolding get_owners get_primary_owner owners_of
  get_owners-update_from_topology topology_id version segments key h k l plain =
      let (hash, segment, e, found, inside, low, high) =
        get_segment_part (table segments) key (refl, h, k) plain in
      let (indices, there) = get_elem?-total segments segment inside in
      let known : All (IsKnown addresses) indices =
        indices_of_segment segments segment indices l there in
      rw (update_from_topology-announced topology_id version segments h k l) (
        segment,
        indices,
        found,
        there,
        ground (arith, found, there, collect_owners-known indices known),
        ground (arith, found, there, primary-known indices known),
      )

convert_indices-unknown :
    (servers : List ServerInfo) (indices : List ℕ) (j k : ℕ)
    → get_elem? indices j ≡ some k
    → length servers ≤ k
    → convert_indices servers indices ≡ none
unfolding convert_indices cons_id
convert_indices-unknown servers [] j k h l = cc
convert_indices-unknown servers (i ∷ indices) zero k h l =
    let same : i ≡ k = cc in rw (same, get_elem?-none servers k l) refl
convert_indices-unknown servers (i ∷ indices) (suc j) k h l =
    elim (Option-cases (get_elem? servers i)) [
      | inl e ↦ rw e refl
      | inr (s, e) ↦ rw (e, convert_indices-unknown servers indices j k h l) refl
    ]

convert_segments-unknown :
    (servers : List ServerInfo) (segments : List (List ℕ)) (i j k : ℕ) (indices : List ℕ)
    → get_elem? segments i ≡ some indices
    → get_elem? indices j ≡ some k
    → length servers ≤ k
    → convert_segments servers segments ≡ none
unfolding convert_segments cons_segment
convert_segments-unknown servers [] i j k indices g h l = cc
convert_segments-unknown servers (s ∷ segments) zero j k indices g h l =
    let same : s ≡ indices = cc in rw (same, convert_indices-unknown servers indices j k h l) refl
convert_segments-unknown servers (s ∷ segments) (suc i) j k indices g h l =
    elim (Option-cases (convert_indices servers s)) [
      | inl e ↦ rw e refl
      | inr (ids, e) ↦ rw (e, convert_segments-unknown servers segments i j k indices g h l) refl
    ]

-- One index that no server has, in any segment, clears the whole table.
pub update_from_topology-unknown :
    (t : TopologyInfo) (i j k : ℕ) (indices : List ℕ)
    → get_elem? t.segment_owners i ≡ some indices
    → get_elem? indices j ≡ some k
    → length t.servers ≤ k
    → update_from_topology t ≡ cleared
unfolding update_from_topology converted
update_from_topology-unknown t i j k indices g h l =
    ground (arith, convert_segments-unknown t.servers t.segment_owners i j k indices g h l)

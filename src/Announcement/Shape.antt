-- ===== src/Announcement/Shape.antt =====
-- What every topology is like that `TopologyInfo::parseTopologyInfo` reads, whatever the peer sends.
use cpp17_client.Base.{
  ℕ, zero, suc, ◌+◌, ◌≡◌, refl, arith, List, [], ◌∷◌, ◌++◌, length, ok, length-append, bind_ok,
  subst,
}
use cpp17_client.Base.Readers.{Reader, ◌>>=◌, return, next_byte}
use cpp17_client.Header.{ClientIntelligence}
use cpp17_client.Stream.{closed, receive}
use cpp17_client.Topology.{ServerInfo, TopologyInfo}
use cpp17_client.Topology.WellFormed.{IsApart, push_server-IsApart}
use cpp17_client.Announcement.{
  parse_vint, parse_server, parse_servers, parse_owners, parse_hash, parse_topology_info,
}

-- Every value that the reader returns satisfies `P`.
abbrev Only {ℓ} : {A : Type ℓ} → Reader A → (A → Type 0) → Type ℓ
Only {A} r P =
    (buffer : List ℕ) (offset : ℕ) (a : A) (offset' : ℕ) → r buffer offset ≡ ok (a, offset') → P a

Only-return {ℓ} : {A : Type ℓ} (a : A) (P : A → Type 0) → P a → Only (return a) P
unfolding return
Only-return a P h buffer offset b offset' e = let same : a ≡ b = cc in subst P same h

Only-bind {ℓ κ} :
    {A : Type ℓ} {B : Type κ} {r : Reader A} {Q : A → Type 0} (f : A → Reader B) {P : B → Type 0}
    → Only r Q
    → ((a : A) → Q a → Only (f a) P)
    → Only (r >>= f) P
unfolding ◌>>=◌
Only-bind {r} f g h buffer offset b offset' e =
    let (p, first, second) = bind_ok (r buffer offset) (λ p. f p.0 buffer p.1) e in
    h p.0 (g buffer offset p.0 p.1 first) buffer p.1 b offset' second

Only-any {ℓ} : {A : Type ℓ} (r : Reader A) → Only r (λ _. Unit {0})
Only-any r buffer offset a offset' e = tt

Only-parse_servers :
    (count i : ℕ) (servers : List ServerInfo)
    → IsApart servers
    → Only (parse_servers count i servers) IsApart
unfolding parse_servers
Only-parse_servers zero i servers d = Only-return servers IsApart d
Only-parse_servers (suc count) i servers d =
    Only-bind _ (Only-any (parse_server i))
      λ s _. Only-parse_servers count (i + 1) _ (push_server-IsApart servers s d)

Only-parse_owners :
    (count : ℕ) (before : List (List ℕ))
    → Only (parse_owners count before) (λ segments. length segments ≡ count + length before)
unfolding parse_owners
Only-parse_owners zero before = Only-return before _ (omega arith)
Only-parse_owners (suc count) before = Only-bind _ (Only-any (next_byte closed)) λ n _.
    Only-bind _ (Only-any (receive n)) λ owners _ buffer offset segments offset' e.
      let rest =
        Only-parse_owners count (before ++ (owners ∷ [])) buffer offset segments offset' e in
      omega (arith, rest, length-append before (owners ∷ []))

-- Servers apart from each other, the index at the start, and the owners of every segment.
abbrev pub IsSound : TopologyInfo → Type 0
IsSound t =
    IsApart t.servers × (t.round_robin_index ≡ 0) × (length t.segment_owners ≡ t.num_segments)

Only-parse_hash :
    (t : TopologyInfo) (intelligence : ClientIntelligence) (topology_id : ℕ)
    (servers : List ServerInfo)
    → length t.segment_owners ≡ t.num_segments
    → IsApart servers
    → Only (parse_hash intelligence topology_id servers t) IsSound
unfolding parse_hash
Only-parse_hash t ClientIntelligence.basic topology_id servers h d =
    Only-return _ IsSound (d, refl, h)
Only-parse_hash t ClientIntelligence.topology_aware topology_id servers h d =
    Only-return _ IsSound (d, refl, h)
Only-parse_hash t ClientIntelligence.hash_distribution_aware topology_id servers h d =
    Only-bind _ (Only-any (next_byte closed)) λ version _. Only-bind _ (Only-any parse_vint) λ n _.
      Only-bind _ (Only-parse_owners n [])
        λ segments e. Only-return _ IsSound (d, refl, omega (arith, e))

-- Whatever the peer sends, a topology that `parseTopologyInfo` reads has no two servers with the same
-- host and port, the round-robin index at the start, and an entry for each of its segments, if the
-- topology before had an entry for each of its segments.
pub parse_topology_info-IsSound :
    (t : TopologyInfo) (intelligence : ClientIntelligence) (buffer : List ℕ) (offset : ℕ)
    (t' : TopologyInfo) (offset' : ℕ)
    → length t.segment_owners ≡ t.num_segments
    → parse_topology_info t intelligence buffer offset ≡ ok (t', offset')
    → IsSound t'
unfolding parse_topology_info
parse_topology_info-IsSound t intelligence buffer offset t' offset' h =
    only buffer offset t' offset'
  where
    only : Only (parse_topology_info t intelligence) IsSound
    only = Only-bind _ (Only-any parse_vint) λ topology_id _.
        Only-bind _ (Only-any parse_vint) λ n _.
          Only-bind _ (Only-parse_servers n 0 [] tt)
            λ servers d. Only-parse_hash t intelligence topology_id servers h d

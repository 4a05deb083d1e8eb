-- ===== src/Announcement/Progress.antt =====
-- `TopologyInfo::parseTopologyInfo` moves the stream on.
use cpp17_client.Base.{
  ℕ, zero, suc, ◌+◌, ◌≤◌, ◌≡◌, arith, List, [], ◌∷◌, ◌++◌, length, drop, length-drop, ok, bind_ok,
  ◌==◌,
}
use cpp17_client.Base.Progress.{
  Advances, Advances-return, Advances-bind, Advances-if, Advances-byte,
}
use cpp17_client.Header.{ClientIntelligence}
use cpp17_client.Stream.{closed}
use cpp17_client.Stream.Progress.{Advances-receive}
use cpp17_client.Codec.{read_vint}
use cpp17_client.Topology.{ServerInfo, TopologyInfo}
use cpp17_client.Announcement.{
  collect_vint, decode_vint, parse_vint, parse_string, parse_server, parse_servers, parse_owners,
  parse_hash, parse_topology_info,
}

collect_vint_moves :
    (xs vint_bytes : List ℕ) (offset : ℕ) (out : List ℕ) (offset' : ℕ)
    → collect_vint xs vint_bytes offset ≡ ok (out, offset')
    → (offset ≤ offset') × (offset' ≤ offset + length xs)
unfolding collect_vint
collect_vint_moves [] vint_bytes offset out offset' h = cc
collect_vint_moves (b ∷ rest) vint_bytes offset out offset' h =
    ground (arith, collect_vint_moves rest (vint_bytes ++ (b ∷ [])) (offset + 1) out offset')

Advances-collect : Advances (λ buffer offset. collect_vint (drop offset buffer) [] offset) 0
Advances-collect = record {
  apply = λ buffer offset out offset' l e.
      let (after, near) = collect_vint_moves (drop offset buffer) [] offset out offset' e in
      omega (arith, length-drop offset buffer);
}

Advances-decode_vint : (vint_bytes : List ℕ) → Advances (decode_vint vint_bytes) 0
unfolding decode_vint
Advances-decode_vint vint_bytes = record {
  apply = λ buffer offset v offset' l e.
      let (p, first, second) = bind_ok (read_vint vint_bytes 0) (λ value. ok (value.0, offset)) e in
      let there : offset ≡ offset' = cc in (omega arith, omega arith);
}

Advances-parse_vint : Advances parse_vint 0
unfolding parse_vint
Advances-parse_vint = Advances-bind _ Advances-collect Advances-decode_vint

Advances-parse_string : Advances parse_string 0
unfolding parse_string
Advances-parse_string =
    Advances-bind _ Advances-parse_vint
      λ count. Advances-if (count == 0) (Advances-return _) (Advances-receive count)

Advances-parse_server : (i : ℕ) → Advances (parse_server i) 0
unfolding parse_server
Advances-parse_server i = Advances-bind _ Advances-parse_string λ host.
    Advances-bind _ (Advances-byte closed)
      λ high. Advances-bind _ (Advances-byte closed) λ low. Advances-return _

Advances-parse_servers :
    (count i : ℕ) (servers : List ServerInfo) → Advances (parse_servers count i servers) 0
unfolding parse_servers
Advances-parse_servers zero i servers = Advances-return servers
Advances-parse_servers (suc count) i servers =
    Advances-bind _ (Advances-parse_server i) λ s. Advances-parse_servers count (i + 1) _

Advances-parse_owners :
    (count : ℕ) (before : List (List ℕ)) → Advances (parse_owners count before) 0
unfolding parse_owners
Advances-parse_owners zero before = Advances-return before
Advances-parse_owners (suc count) before =
    Advances-bind _ (Advances-byte closed)
      λ n. Advances-bind _ (Advances-receive n) λ owners. Advances-parse_owners count _

Advances-parse_hash :
    (t : TopologyInfo) (intelligence : ClientIntelligence) (topology_id : ℕ)
    (servers : List ServerInfo)
    → Advances (parse_hash intelligence topology_id servers t) 0
unfolding parse_hash
Advances-parse_hash t ClientIntelligence.basic topology_id servers = Advances-return _
Advances-parse_hash t ClientIntelligence.topology_aware topology_id servers = Advances-return _
Advances-parse_hash t ClientIntelligence.hash_distribution_aware topology_id servers =
    Advances-bind _ (Advances-byte closed) λ version.
      Advances-bind _ Advances-parse_vint
        λ n. Advances-bind _ (Advances-parse_owners n []) λ segments. Advances-return _

pub Advances-parse_topology_info :
    (t : TopologyInfo) (intelligence : ClientIntelligence)
    → Advances (parse_topology_info t intelligence) 0
unfolding parse_topology_info
Advances-parse_topology_info t intelligence = Advances-bind _ Advances-parse_vint λ topology_id.
    Advances-bind _ Advances-parse_vint λ n.
      Advances-bind _ (Advances-parse_servers n 0 [])
        λ servers. Advances-parse_hash t intelligence topology_id servers

-- ===== src/Retry/Choosing.antt =====
-- The choice of a connection in src/operations/RemoteCache.cpp, for a caller that carries the nodes of one
-- failure on to the next call.
use cpp17_client.Base.{
  ℕ, ◌≡◌, refl, arith, List, [], ◌∷◌, ◌++◌, map, Bool, true, false, ◌&&◌, Option, none, some,
  Outcome, ok, err, undefined, ◌>>=◌, Bool-cases, inl, inr,
}
use cpp17_client.Failure.{ServerAddress, HotRodClientException}
use cpp17_client.Failure.Axes.{same_address_iff}
use cpp17_client.Selection.{has_node, order_key_candidates}
use cpp17_client.Selection.Candidates.{has_node-order_key_candidates, has_node-union_nodes}
use cpp17_client.Topology.{ServerInfo, address}
use cpp17_client.Routing.{get_owners, has_hash_topology}
use cpp17_client.Operations.{Operation}
use cpp17_client.Cache.{
  Network, RemoteCache, Choice, pooled, seed, refused, choice_of, no_servers, try_candidates,
  get_connection_for_server, choose_among, choose_any, choose_owner, select_server_for_key,
  select_any_server, is_hash_aware,
}
use cpp17_client.Cache.Candidates.{try_candidates_found}
use cpp17_client.Calls.{RetryContext, choose_connection}

-- A choice keeps to the excluded nodes: a pooled connection goes to none of them, and its node is among
-- those tried; an exception names all of them.
pub data Keeps (exclude : List ServerAddress) : Choice → Type 0 where
  pooled_kept :
      {a : ServerAddress} {tried : List ServerAddress}
      → has_node exclude a ≡ false
      → has_node tried a ≡ true
      → Keeps exclude (pooled a tried)
  seed_kept : Keeps exclude seed
  refused_kept :
      {e : HotRodClientException}
      → ((n : ServerAddress) → has_node exclude n ≡ true → has_node e.tried_nodes n ≡ true)
      → Keeps exclude (refused e)

-- If the choice returns.
abbrev pub KeepsIfOk : List ServerAddress → Outcome (Choice × RemoteCache) → Type 0
KeepsIfOk exclude (ok (choice, c')) = Keeps exclude choice
KeepsIfOk exclude (err e) = Unit
KeepsIfOk exclude undefined = Unit

has_node_last :
    (nodes : List ServerAddress) (a : ServerAddress) → has_node (nodes ++ (a ∷ [])) a ≡ true
unfolding has_node
has_node_last [] a = ground (arith, same_address_iff a a)
has_node_last (n ∷ nodes) a = ground (arith, has_node_last nodes a)

-- The node that the loop over the candidates returns is among those that it tried.
found_tried :
    (net : Network) (pool tried candidates : List ServerAddress) (a : ServerAddress)
    → (try_candidates net pool tried candidates).found ≡ some a
    → has_node (try_candidates net pool tried candidates).tried a ≡ true
unfolding try_candidates
found_tried net pool tried [] a h = cc
found_tried net pool tried (cand ∷ candidates) a h =
    elim (Bool-cases (get_connection_for_server net pool cand).0) [
      | inl e ↦ let here : cand ≡ a = ground arith in rw (e, here) (has_node_last tried a)
      | inr e ↦ rw e (
          found_tried net (get_connection_for_server net pool cand).1 (tried ++ (cand ∷ []))
            candidates a (ground arith))
    ]

module _ (net : Network) (c : RemoteCache) (exclude : List ServerAddress) where
  choice_of-Keeps :
      (found : Option ServerAddress) (tried : List ServerAddress) (exhausted : Bool)
      → ((a : ServerAddress)
          → found ≡ some a
          → (has_node exclude a ≡ false) × (has_node tried a ≡ true))
      → Keeps exclude (choice_of found tried (no_servers exclude tried exhausted))
  unfolding choice_of no_servers
  choice_of-Keeps none tried exhausted h =
      Keeps.refused_kept (λ n k. ground (arith, has_node-union_nodes exclude tried n))
  choice_of-Keeps (some a) tried exhausted h = Keeps.pooled_kept (h a refl).0 (h a refl).1

  -- Over the candidates of any owners and servers.
  candidates-Keeps :
      (owners servers : List ServerAddress) (proxy exhausted : Bool)
      → let attempt =
          try_candidates net c.connection_pool []
            (order_key_candidates owners servers exclude proxy) in
        Keeps exclude
          (choice_of attempt.found attempt.tried (no_servers exclude attempt.tried exhausted))
  candidates-Keeps owners servers proxy exhausted = choice_of-Keeps _ _ exhausted (λ a reached. (
    ground (
      arith,
      (try_candidates_found net c.connection_pool []
          (order_key_candidates owners servers exclude proxy) a reached).1,
      has_node-order_key_candidates owners servers exclude proxy a,
    ),
    found_tried net c.connection_pool [] (order_key_candidates owners servers exclude proxy) a
        reached,
  ))

  choose_owner-Keeps :
      (owners : List ServerInfo) → Keeps exclude (choose_owner net c exclude owners).0
  unfolding choose_owner choose_among
  choose_owner-Keeps [] = Keeps.seed_kept
  choose_owner-Keeps (o ∷ owners) =
      candidates-Keeps (map address (o ∷ owners)) (map address c.topology.servers)
        c.proxy_to_non_owner _

  choose_any-Keeps :
      (servers : List ServerAddress) → Keeps exclude (choose_any net c exclude servers).0
  unfolding choose_any
  choose_any-Keeps [] = Keeps.seed_kept
  choose_any-Keeps (a ∷ servers) = candidates-Keeps [] (a ∷ servers) true false

  owners-KeepsIfOk :
      (known : Outcome (List ServerInfo))
      → KeepsIfOk exclude (known >>= λ owners. ok (choose_owner net c exclude owners))
  owners-KeepsIfOk (ok owners) = choose_owner-Keeps owners
  owners-KeepsIfOk (err e) = tt
  owners-KeepsIfOk undefined = tt

  select_server_for_key-KeepsIfOk :
      (key : List ℕ) → KeepsIfOk exclude (select_server_for_key net c key exclude)
  unfolding select_server_for_key
  select_server_for_key-KeepsIfOk key =
      elim (Bool-cases
        (is_hash_aware c.client_intelligence && has_hash_topology c.consistent_hash)) [
          | inl e ↦ rw e (owners-KeepsIfOk (get_owners c.consistent_hash key c.topology))
          | inr e ↦ rw e Keeps.seed_kept
        ]

-- For every operation, `ping` among them.
pub choose_connection-KeepsIfOk :
    (net : Network) (c : RemoteCache) (op : Operation) (ctx : RetryContext)
    → KeepsIfOk ctx.exclude_nodes (choose_connection net c op ctx)
unfolding choose_connection select_any_server
choose_connection-KeepsIfOk net c Operation.ping ctx =
    choose_any-Keeps net c ctx.exclude_nodes (map address c.topology.servers)
choose_connection-KeepsIfOk net c (Operation.get key) ctx =
    select_server_for_key-KeepsIfOk net c ctx.exclude_nodes key
choose_connection-KeepsIfOk net c (Operation.get_with_metadata key) ctx =
    select_server_for_key-KeepsIfOk net c ctx.exclude_nodes key
choose_connection-KeepsIfOk net c (Operation.contains_key key) ctx =
    select_server_for_key-KeepsIfOk net c ctx.exclude_nodes key
choose_connection-KeepsIfOk net c (Operation.put key _ _ _ _) ctx =
    select_server_for_key-KeepsIfOk net c ctx.exclude_nodes key
choose_connection-KeepsIfOk net c (Operation.put_if_absent key _ _ _ _) ctx =
    select_server_for_key-KeepsIfOk net c ctx.exclude_nodes key
choose_connection-KeepsIfOk net c (Operation.replace key _ _ _ _) ctx =
    select_server_for_key-KeepsIfOk net c ctx.exclude_nodes key
choose_connection-KeepsIfOk net c (Operation.remove key _) ctx =
    select_server_for_key-KeepsIfOk net c ctx.exclude_nodes key
choose_connection-KeepsIfOk net c (Operation.remove_with_version key _) ctx =
    select_server_for_key-KeepsIfOk net c ctx.exclude_nodes key
choose_connection-KeepsIfOk net c (Operation.replace_with_version key _ _ _ _) ctx =
    select_server_for_key-KeepsIfOk net c ctx.exclude_nodes key

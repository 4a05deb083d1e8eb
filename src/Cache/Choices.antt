-- ===== src/Cache/Choices.antt =====
-- What the choice of a connection in src/operations/RemoteCache.cpp promises to a caller that retries.
use cpp17_client.Base.{
  ◌≡◌, refl, sym, ap, ◌∙◌, arith, List, [], ◌∷◌, ◌++◌, map, true, false, ◌&&◌, ◌||◌, Option, none,
  some, Bool-cases, inl, inr, ◌⊎◌, ℕ, subst, ok,
}
use cpp17_client.Failure.{ServerAddress, HotRodClientException}
use cpp17_client.Selection.{has_node, order_key_candidates, union_nodes}
use cpp17_client.Selection.Candidates.{has_node-order_key_candidates, has_node-union_nodes}
use cpp17_client.Topology.{address, ServerInfo}
use cpp17_client.Routing.{get_owners, has_hash_topology}
use cpp17_client.Cache.{
  Network, RemoteCache, Attempt, Choice, pooled, seed, refused, try_candidates, all_attempted,
  no_servers, choice_of, choose_among, choose_owner, select_server_for_key, is_hash_aware,
}
use cpp17_client.Cache.Candidates.{tried_all, attempted_owners, try_candidates_found}

choice_refused :
    (found : Option ServerAddress) (tried : List ServerAddress) (e e' : HotRodClientException)
    → choice_of found tried e ≡ refused e'
    → (found ≡ none) × (e ≡ e')
unfolding choice_of
choice_refused none tried e e' h = (refl, cc)
choice_refused (some a) tried e e' h = cc

choose_among_refused :
    (net : Network) (c : RemoteCache) (exclude_nodes owners : List ServerAddress)
    (e : HotRodClientException)
    → (choose_among net c exclude_nodes owners).0 ≡ refused e
    → (e.owners_exhausted ≡ true)
      × ((a : ServerAddress)
          → has_node e.tried_nodes a ≡ (
              has_node exclude_nodes a
              || has_node owners a
              || c.proxy_to_non_owner && has_node (map address c.topology.servers) a))
unfolding choose_among no_servers
choose_among_refused net c exclude_nodes owners e h =
    let servers : List ServerAddress = map address c.topology.servers in
    let candidates : List ServerAddress =
      order_key_candidates owners servers exclude_nodes c.proxy_to_non_owner in
    let attempt : Attempt = try_candidates net c.connection_pool [] candidates in
    let (unreached, same) =
      choice_refused attempt.found attempt.tried
        (no_servers exclude_nodes attempt.tried (all_attempted attempt.tried exclude_nodes owners))
        e h in
    let all : attempt.tried ≡ candidates =
      tried_all net c.connection_pool [] candidates unreached in
    let exhausted : all_attempted attempt.tried exclude_nodes owners ≡ e.owners_exhausted =
      ap (λ x. x.owners_exhausted) same in
    let nodes : union_nodes exclude_nodes attempt.tried ≡ e.tried_nodes =
      ap (λ x. x.tried_nodes) same in
    (
      sym exhausted
          ∙ attempted_owners attempt.tried exclude_nodes owners (λ o k. ground (
            arith,
            ap (λ xs. has_node xs o) all,
            has_node-order_key_candidates owners servers exclude_nodes c.proxy_to_non_owner o,
          )),
      λ a. ground (
        arith,
        ap (λ xs. has_node xs a) nodes,
        ap (λ xs. has_node xs a) all,
        has_node-union_nodes exclude_nodes attempt.tried a,
        has_node-order_key_candidates owners servers exclude_nodes c.proxy_to_non_owner a,
      ),
    )

pub choice_pooled :
    (found : Option ServerAddress) (tried : List ServerAddress) (e : HotRodClientException)
    (a : ServerAddress) (tried' : List ServerAddress)
    → choice_of found tried e ≡ pooled a tried'
    → (found ≡ some a) × (tried ≡ tried')
unfolding choice_of
choice_pooled none tried e a tried' h = cc
choice_pooled (some b) tried e a tried' h = (cc, cc)

choose_among_pooled :
    (net : Network) (c c' : RemoteCache) (exclude_nodes owners : List ServerAddress)
    (a : ServerAddress) (tried : List ServerAddress)
    → choose_among net c exclude_nodes owners ≡ (pooled a tried, c')
    → (has_node exclude_nodes a ≡ false)
      × (has_node c'.connection_pool a ≡ true)
      × ((rest : List ServerAddress) × (tried ++ rest
            ≡ order_key_candidates owners
                (map address c.topology.servers)
                exclude_nodes
                c.proxy_to_non_owner))
unfolding choose_among
choose_among_pooled net c c' exclude_nodes owners a tried h =
    let servers : List ServerAddress = map address c.topology.servers in
    let candidates : List ServerAddress =
      order_key_candidates owners servers exclude_nodes c.proxy_to_non_owner in
    let attempt : Attempt = try_candidates net c.connection_pool [] candidates in
    let (reached, same) =
      choice_pooled attempt.found attempt.tried
        (no_servers exclude_nodes attempt.tried (all_attempted attempt.tried exclude_nodes owners))
        a tried (ap (λ p. p.0) h) in
    let ((rest, split), member, kept) =
      try_candidates_found net c.connection_pool [] candidates a reached in
    let pool : attempt.pool ≡ c'.connection_pool = ap (λ p. p.1.connection_pool) h in
    (
      ground (
        arith,
        member,
        has_node-order_key_candidates owners servers exclude_nodes c.proxy_to_non_owner a,
      ),
      subst (λ x. has_node x a ≡ true) pool kept,
      (rest, ap (λ x. x ++ rest) (sym same) ∙ split),
    )

choose_owner_cases :
    (net : Network) (c c' : RemoteCache) (exclude_nodes : List ServerAddress)
    (owners : List ServerInfo) (choice : Choice)
    → choose_owner net c exclude_nodes owners ≡ (choice, c')
    → (choice ≡ seed) ⊎ (choose_among net c exclude_nodes (map address owners) ≡ (choice, c'))
unfolding choose_owner
choose_owner_cases net c c' exclude_nodes [] choice h = inl (sym (ap (λ p. p.0) h))
choose_owner_cases net c c' exclude_nodes (o ∷ owners) choice h = inr h

ok_same : {A : Type 0} (a b : A) → ok a ≡ ok b → a ≡ b
ok_same a b h = cc

module _ (net : Network) (c c' : RemoteCache) (key : List ℕ) (exclude_nodes : List ServerAddress)
    (owners : List ServerInfo) where
  -- A choice that is not the connection of the constructor is made among the owners.
  among_owners :
      (choice : Choice)
      → get_owners c.consistent_hash key c.topology ≡ ok owners
      → select_server_for_key net c key exclude_nodes ≡ ok (choice, c')
      → (choice ≡ seed) ⊎ (choose_among net c exclude_nodes (map address owners) ≡ (choice, c'))
  unfolding select_server_for_key
  among_owners choice g h =
      elim (Bool-cases
        (is_hash_aware c.client_intelligence && has_hash_topology c.consistent_hash)) [
          | inl e ↦
              choose_owner_cases net c c' exclude_nodes owners choice
                (ok_same _ _ (simp (e, g) at h))
          | inr e ↦
              let same : (seed, c) ≡ (choice, c') = ok_same _ _ (simp e at h) in
              inl (sym (ap (λ p. p.0) same))
        ]

  -- When `selectServerForKey` refuses and the key has the given owners, every owner was tried or
  -- excluded, and the nodes that the exception names are the excluded ones, the owners and, where
  -- proxying is allowed, the servers, and no others.
  pub select_server_for_key_refused :
      (e : HotRodClientException)
      → get_owners c.consistent_hash key c.topology ≡ ok owners
      → select_server_for_key net c key exclude_nodes ≡ ok (refused e, c')
      → (e.owners_exhausted ≡ true)
        × ((a : ServerAddress)
            → has_node e.tried_nodes a ≡ (
                has_node exclude_nodes a
                || has_node (map address owners) a
                || c.proxy_to_non_owner && has_node (map address c.topology.servers) a))
  select_server_for_key_refused e g h = elim (among_owners (refused e) g h) [
    | inl s ↦ cc
    | inr s ↦ choose_among_refused net c exclude_nodes (map address owners) e (ap (λ p. p.0) s)
  ]

  -- When `selectServerForKey` returns a pooled connection and the key has the given owners, the
  -- connection goes to a server that is not excluded, the pool holds it afterwards, and the nodes
  -- tried begin the list of the candidates.
  pub select_server_for_key_pooled :
      (a : ServerAddress) (tried : List ServerAddress)
      → get_owners c.consistent_hash key c.topology ≡ ok owners
      → select_server_for_key net c key exclude_nodes ≡ ok (pooled a tried, c')
      → (has_node exclude_nodes a ≡ false)
        × (has_node c'.connection_pool a ≡ true)
        × ((rest : List ServerAddress) × (tried ++ rest
              ≡ order_key_candidates
                  (map address owners)
                  (map address c.topology.servers)
                  exclude_nodes
                  c.proxy_to_non_owner))
  select_server_for_key_pooled a tried g h = elim (among_owners (pooled a tried) g h) [
    | inl s ↦ cc
    | inr s ↦ choose_among_pooled net c c' exclude_nodes (map address owners) a tried s
  ]

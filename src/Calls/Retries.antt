-- ===== src/Calls/Retries.antt =====
-- A retry through include/hotrod/RetryView.h after a failure of src/operations/RemoteCache.cpp.
use cpp17_client.Base.{
  ℕ, ◌≡◌, ◌≢◌, refl, sym, ap, arith, List, [], ◌∷◌, map, true, false, ◌&&◌, ◌||◌, Option, none,
  some, ok, Outcome, bind_ok, Bool, Bool-cases, inl, inr,
}
use cpp17_client.Failure.{ServerAddress, FailurePhase, HotRodClientException, Thrown, typed, plain}
use cpp17_client.Selection.{has_node, order_key_candidates, union_nodes}
use cpp17_client.Selection.Candidates.{has_node-order_key_candidates, has_node-union_nodes}
use cpp17_client.Topology.{ServerInfo, address}
use cpp17_client.Routing.{get_owners, has_hash_topology}
use cpp17_client.Operations.{Operation, Body, request_body, request_opcode}
use cpp17_client.Operations.Results.{Result, result_of}
use cpp17_client.Multiplex.{
  Multiplexer, PendingRequest, Response, execute, exception, register, build_request,
}
use cpp17_client.Cache.{
  Network, RemoteCache, Choice, Attempt, pooled, seed, refused, choice_of, choose_among,
  select_server_for_key, select_any_server, choose_any, choose_owner, is_hash_aware, try_candidates,
  no_servers,
}
use cpp17_client.Cache.Candidates.{try_candidates_found}
use cpp17_client.Cache.Choices.{choice_pooled, select_server_for_key_pooled}
use cpp17_client.Calls.{
  RetryContext, excluding, rethrow_with_tried_nodes, choose_connection, pending_of, Future, Call,
  failed, future, Connections, call_of, call_over, Delivery, throws, delivered, get_from,
  future_get,
}

same_choice : {A : Type 0} {a b : A} → ◌≡◌ {A = Outcome A} (ok a) (ok b) → a ≡ b
same_choice h = cc

not_seed :
    (found : Option ServerAddress) (tried : List ServerAddress) (e : HotRodClientException)
    → choice_of found tried e ≢ seed
unfolding choice_of
not_seed none tried e h = cc
not_seed (some a) tried e h = cc

-- A server that is chosen is none of the excluded ones.
pooled-excluded :
    (net : Network) (c c' : RemoteCache) (key : List ℕ) (exclude_nodes : List ServerAddress)
    (a : ServerAddress) (tried : List ServerAddress)
    → select_server_for_key net c key exclude_nodes ≡ ok (pooled a tried, c')
    → has_node exclude_nodes a ≡ false
unfolding select_server_for_key
pooled-excluded net c c' key exclude_nodes a tried h =
    elim (Bool-cases (is_hash_aware c.client_intelligence && has_hash_topology c.consistent_hash)) [
      | inl e ↦
          let (owners, known, rest) =
            bind_ok (get_owners c.consistent_hash key c.topology)
              (λ owners. ok (choose_owner net c exclude_nodes owners)) (simp e at h) in
          (select_server_for_key_pooled net c c' key exclude_nodes owners a tried known h).0
      | inr e ↦
          let same : ◌≡◌ {A = Choice × RemoteCache} (seed, c) (pooled a tried, c') =
            same_choice (simp e at h) in
          let no : seed ≡ pooled a tried = ap (λ p. p.0) same in cc
    ]

any_pooled-excluded :
    (net : Network) (c c' : RemoteCache) (exclude_nodes all : List ServerAddress)
    (a : ServerAddress) (tried : List ServerAddress)
    → choose_any net c exclude_nodes all ≡ (pooled a tried, c')
    → has_node exclude_nodes a ≡ false
unfolding choose_any
any_pooled-excluded net c c' exclude_nodes [] a tried h =
    let no : seed ≡ pooled a tried = ap (λ p. p.0) h in cc
any_pooled-excluded net c c' exclude_nodes (b ∷ all) a tried h =
    let candidates : List ServerAddress = order_key_candidates [] (b ∷ all) exclude_nodes true in
    let attempt : Attempt = try_candidates net c.connection_pool [] candidates in
    let (reached, same) =
      choice_pooled attempt.found attempt.tried (no_servers exclude_nodes attempt.tried false) a
        tried (ap (λ p. p.0) h) in
    let (split, member, kept) =
      try_candidates_found net c.connection_pool [] candidates a reached in
    ground (arith, member, has_node-order_key_candidates [] (b ∷ all) exclude_nodes true a)

-- For every operation, `ping` among them.
choose_connection-excluded :
    (net : Network) (c c' : RemoteCache) (op : Operation) (ctx : RetryContext) (a : ServerAddress)
    (tried : List ServerAddress)
    → choose_connection net c op ctx ≡ ok (pooled a tried, c')
    → has_node ctx.exclude_nodes a ≡ false
unfolding choose_connection select_any_server
choose_connection-excluded net c c' Operation.ping ctx a tried h =
    any_pooled-excluded net c c' ctx.exclude_nodes (map address c.topology.servers) a tried
      (same_choice h)
choose_connection-excluded net c c' (Operation.get key) ctx a tried h =
    pooled-excluded net c c' key ctx.exclude_nodes a tried h
choose_connection-excluded net c c' (Operation.get_with_metadata key) ctx a tried h =
    pooled-excluded net c c' key ctx.exclude_nodes a tried h
choose_connection-excluded net c c' (Operation.contains_key key) ctx a tried h =
    pooled-excluded net c c' key ctx.exclude_nodes a tried h
choose_connection-excluded net c c' (Operation.put key _ _ _ _) ctx a tried h =
    pooled-excluded net c c' key ctx.exclude_nodes a tried h
choose_connection-excluded net c c' (Operation.put_if_absent key _ _ _ _) ctx a tried h =
    pooled-excluded net c c' key ctx.exclude_nodes a tried h
choose_connection-excluded net c c' (Operation.replace key _ _ _ _) ctx a tried h =
    pooled-excluded net c c' key ctx.exclude_nodes a tried h
choose_connection-excluded net c c' (Operation.remove key _) ctx a tried h =
    pooled-excluded net c c' key ctx.exclude_nodes a tried h
choose_connection-excluded net c c' (Operation.remove_with_version key _) ctx a tried h =
    pooled-excluded net c c' key ctx.exclude_nodes a tried h
choose_connection-excluded net c c' (Operation.replace_with_version key _ _ _ _) ctx a tried h =
    pooled-excluded net c c' key ctx.exclude_nodes a tried h

nodes_of :
    {x e : HotRodClientException}
    → ◌≡◌ {A = Outcome Delivery} (ok (throws (typed x))) (ok (throws (typed e)))
    → x.tried_nodes ≡ e.tried_nodes
nodes_of {x} {e} h = let same : x ≡ e = cc in ap (λ x. x.tried_nodes) same

refused_nodes :
    (f : Future) (r : Result) (e : HotRodClientException)
    → ok (delivered f r) ≡ ok (throws (typed e))
    → (n : ServerAddress) → (has_node f.excluded n || has_node f.tried n) ≡ true
    → has_node e.tried_nodes n ≡ true
unfolding delivered
refused_nodes f (Result.refused status) e h n k =
    grind (arith, ap (λ xs. has_node xs n) (nodes_of h), has_node-union_nodes f.excluded f.tried n)
refused_nodes f Result.done e h n k = cc
refused_nodes f Result.absent e h n k = cc
refused_nodes f (Result.found b) e h n k = cc
refused_nodes f (Result.answer b) e h n k = cc

-- The nodes that an exception of a future names.
pub thrown_nodes :
    (f : Future) (error : Option Thrown) (status : Option ℕ) (body : Body)
    (e : HotRodClientException)
    → get_from f error status body ≡ ok (throws (typed e))
    → (n : ServerAddress) → (has_node f.excluded n || has_node f.tried n) ≡ true
    → has_node e.tried_nodes n ≡ true
unfolding get_from rethrow_with_tried_nodes
thrown_nodes f (some (typed x)) status body e h n k =
    let union : List ServerAddress = union_nodes f.excluded f.tried in
    let same : union_nodes union x.tried_nodes ≡ e.tried_nodes = nodes_of h in
    grind (
      arith,
      ap (λ xs. has_node xs n) same,
      has_node-union_nodes union x.tried_nodes n,
      has_node-union_nodes f.excluded f.tried n,
    )
thrown_nodes f (some (plain x)) status body e h n k = cc
thrown_nodes f none none body e h n k = cc
thrown_nodes f none (some status) body e h n k =
    refused_nodes f (result_of f.operation status body) e h n k

-- The fallback to the connection of the constructor, among all servers.
any_seed :
    (net : Network) (c c' : RemoteCache) (exclude_nodes exclude_nodes' all : List ServerAddress)
    → choose_any net c exclude_nodes all ≡ (seed, c')
    → choose_any net c exclude_nodes' all ≡ (seed, c)
unfolding choose_any
any_seed net c c' exclude_nodes exclude_nodes' [] h = refl
any_seed net c c' exclude_nodes exclude_nodes' (b ∷ all) h =
    absurd (not_seed _ _ _ (ap (λ p. p.0) h))

owner_seed :
    (net : Network) (c c' : RemoteCache) (exclude_nodes exclude_nodes' : List ServerAddress)
    (owners : List ServerInfo)
    → choose_owner net c exclude_nodes owners ≡ (seed, c')
    → choose_owner net c exclude_nodes' owners ≡ (seed, c)
unfolding choose_owner choose_among
owner_seed net c c' exclude_nodes exclude_nodes' [] h = refl
owner_seed net c c' exclude_nodes exclude_nodes' (o ∷ owners) h =
    absurd (not_seed _ _ _ (ap (λ p. p.0) h))

key_seed :
    (net : Network) (c c' : RemoteCache) (key : List ℕ)
    (exclude_nodes exclude_nodes' : List ServerAddress)
    → select_server_for_key net c key exclude_nodes ≡ ok (seed, c')
    → select_server_for_key net c key exclude_nodes' ≡ ok (seed, c)
unfolding select_server_for_key
key_seed net c c' key exclude_nodes exclude_nodes' h =
    elim (Bool-cases (is_hash_aware c.client_intelligence && has_hash_topology c.consistent_hash)) [
      | inl e ↦
          let (owners, known, rest) =
            bind_ok (get_owners c.consistent_hash key c.topology)
              (λ owners. ok (choose_owner net c exclude_nodes owners)) (simp e at h) in
          rw (e, known)
            (ap ok (owner_seed net c c' exclude_nodes exclude_nodes' owners (same_choice rest)))
      | inr e ↦ rw e refl
    ]

-- The fallback is taken whatever is excluded.
choose_connection-seed :
    (net : Network) (c c' : RemoteCache) (op : Operation) (ctx : RetryContext)
    → choose_connection net c op ctx ≡ ok (seed, c')
    → (ctx' : RetryContext) → choose_connection net c op ctx' ≡ ok (seed, c)
unfolding choose_connection select_any_server
choose_connection-seed net c c' Operation.ping ctx h ctx' =
    ap ok (any_seed net c c' ctx.exclude_nodes ctx'.exclude_nodes _ (same_choice h))
choose_connection-seed net c c' (Operation.get key) ctx h ctx' =
    key_seed net c c' key ctx.exclude_nodes ctx'.exclude_nodes h
choose_connection-seed net c c' (Operation.get_with_metadata key) ctx h ctx' =
    key_seed net c c' key ctx.exclude_nodes ctx'.exclude_nodes h
choose_connection-seed net c c' (Operation.contains_key key) ctx h ctx' =
    key_seed net c c' key ctx.exclude_nodes ctx'.exclude_nodes h
choose_connection-seed net c c' (Operation.put key _ _ _ _) ctx h ctx' =
    key_seed net c c' key ctx.exclude_nodes ctx'.exclude_nodes h
choose_connection-seed net c c' (Operation.put_if_absent key _ _ _ _) ctx h ctx' =
    key_seed net c c' key ctx.exclude_nodes ctx'.exclude_nodes h
choose_connection-seed net c c' (Operation.replace key _ _ _ _) ctx h ctx' =
    key_seed net c c' key ctx.exclude_nodes ctx'.exclude_nodes h
choose_connection-seed net c c' (Operation.remove key _) ctx h ctx' =
    key_seed net c c' key ctx.exclude_nodes ctx'.exclude_nodes h
choose_connection-seed net c c' (Operation.remove_with_version key _) ctx h ctx' =
    key_seed net c c' key ctx.exclude_nodes ctx'.exclude_nodes h
choose_connection-seed net c c' (Operation.replace_with_version key _ _ _ _) ctx h ctx' =
    key_seed net c c' key ctx.exclude_nodes ctx'.exclude_nodes h

-- Where a call goes that is to avoid the nodes of a future's exception: over a pooled connection, to none of
-- them; over the connection of the constructor, which it would go over with any other nodes excluded too.
abbrev pub KeepsClear : Future → Network → RemoteCache → Operation → Choice → Type 0
KeepsClear f net c op (pooled a tried) = (has_node f.excluded a || has_node f.tried a) ≡ false
KeepsClear f net c op seed = (ctx : RetryContext) → choose_connection net c op ctx ≡ ok (seed, c)
KeepsClear f net c op (refused e) = Unit

-- A call that follows an exception of an earlier call's future, through the view that `excluding` makes
-- of the exception, and that is dispatched over a pooled connection, does not go to a node that the earlier
-- call had tried or been told to avoid. A call that falls back to the connection of the constructor would do so
-- whatever nodes were excluded, so it may go to such a node. The two calls may be of different operations, and
-- the cache's state may have changed in between.
pub retry_avoids_nodes :
    (f : Future) (r : Response) (e : HotRodClientException) (net : Network) (c c' : RemoteCache)
    (op : Operation) (choice : Choice)
    → future_get f r ≡ ok (throws (typed e))
    → choose_connection net c op (excluding e) ≡ ok (choice, c')
    → KeepsClear f net c op choice
unfolding future_get excluding
retry_avoids_nodes f r e net c c' op (pooled a tried) h k =
    elim (Bool-cases (has_node f.excluded a || has_node f.tried a)) [
      | inr apart ↦ apart
      | inl known ↦
          let inside = thrown_nodes f r.error r.status r.body e h a known in
          let outside = choose_connection-excluded net c c' op (excluding e) a tried k in cc
    ]
retry_avoids_nodes f r e net c c' op seed h k = choose_connection-seed net c c' op (excluding e) k
retry_avoids_nodes f r e net c c' op (refused x) h k = tt

failed_same : {x e : HotRodClientException} → ◌≡◌ {A = Call} (failed x) (failed e) → x ≡ e
failed_same h = cc

future_failed :
    {f : Future} {e : HotRodClientException} {n : List ServerAddress}
    → ◌≡◌ {A = Call} (future f) (failed e)
    → e.tried_nodes ≡ n
future_failed h = cc

call_of_nodes :
    (op : Operation) (tried : List ServerAddress) (ctx : RetryContext) (sends : List ℕ → Bool)
    (m : Multiplexer) (p : PendingRequest) (e : HotRodClientException)
    → call_of op tried ctx (execute sends m (request_body op) (request_opcode op) p).0 ≡ failed e
    → e.tried_nodes ≡ m.node ∷ []
unfolding execute call_of
call_of_nodes op tried ctx sends m p e h = elim (Bool-cases m.connected) [
  | inr off ↦
      ap (λ x. x.tried_nodes)
        (sym (failed_same {x = exception m FailurePhase.before_send none} (simp off at h)))
  | inl on ↦
      elim (Bool-cases (
        sends (
          build_request (register m p).1 (register m p).0 (request_opcode op) (request_body op)
            p.cache_name p.flags))) [
              | inl out ↦ future_failed (simp (on, out) at h)
              | inr stuck ↦
                  ap (λ x. x.tried_nodes)
                    (sym (
                      failed_same {x = exception m FailurePhase.after_send none}
                        (simp (on, stuck) at h)))
            ]
]

-- When `execute` of the pooled connection throws, the exception of the call names that connection's
-- node alone, whatever nodes were excluded or tried before it.
pub call_over_failed_nodes :
    (net : Connections) (op : Operation) (cache_name : List ℕ) (ctx : RetryContext)
    (a : ServerAddress) (tried : List ServerAddress) (e : HotRodClientException)
    (m : Option Multiplexer)
    → call_over net op cache_name ctx (pooled a tried) ≡ (failed e, m)
    → e.tried_nodes ≡ (net.connection_to a).node ∷ []
unfolding call_over
call_over_failed_nodes net op cache_name ctx a tried e m h =
    call_of_nodes op tried ctx net.sends (net.connection_to a) (pending_of op cache_name) e
      (ap (λ p. p.0) h)

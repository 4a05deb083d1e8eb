-- ===== src/Retry/Live.antt =====
-- An attempt of `pingWithRetry` of src/examples/quickstart/retry.cpp on a cluster of which one server answers.
use cpp17_client.Base.{
  ℕ, ◌≡◌, refl, sym, ap, ◌∙◌, arith, List, [], ◌∷◌, map, Bool-cases, true, false, ◌&&◌, none, some,
  inl, inr, subst, ok, ◌>>=◌,
}
use cpp17_client.Failure.{ServerAddress, HotRodClientException, typed, is_transient, same_address}
use cpp17_client.Failure.Axes.{same_address_iff}
use cpp17_client.Selection.{has_node, order_key_candidates, union_nodes}
use cpp17_client.Selection.Candidates.{has_node-order_key_candidates, has_node-union_nodes}
use cpp17_client.Topology.{address}
use cpp17_client.Operations.{Operation, request_body, request_opcode}
use cpp17_client.Operations.Results.{Result, result_of}
use cpp17_client.Cache.{
  Network, RemoteCache, pooled, try_candidates, get_connection_for_server, choice_of, choose_any,
  select_any_server, with_pool,
}
use cpp17_client.Calls.{
  RetryContext, excluding_nodes, Future, choose_connection, call, call_over, future_get, get_from,
  delivered, rethrow_with_tried_nodes, pending_of, call_of,
}
use cpp17_client.Retry.{
  World, Attempted, answered, caught, passed, broken, awaited, settled, called, attempt,
}
use cpp17_client.Retry.Attempts.{IsWorking, sent_future}
use cpp17_client.Multiplex.{execute, register}
use cpp17_client.Retry.Counting.{Adds}

-- The cluster in which an attempt takes place: connections can be opened and are up; the one server answers
-- pings, and a request to another one fails in a way that names that server and passes.
pub record IsServing (servers : List ServerAddress) (live : ServerAddress) (w : World)
    : Type 0 where
  pub same_servers : map address w.cache.topology.servers ≡ servers
  pub connects : (a : ServerAddress) → w.net.connects a ≡ true
  pub working : IsWorking w.over
  pub answers :
      (f : Future)
      → f.tried ≡ live ∷ []
      → ((w.response f).error ≡ none) × ((w.response f).status ≡ some 0)
  pub fails :
      (f : Future) (a : ServerAddress)
      → f.tried ≡ a ∷ []
      → same_address a live ≡ false
      → (x : HotRodClientException) × ((w.response f).error ≡ some (typed x))
        × (is_transient x ≡ true)
        × (x.tried_nodes ≡ a ∷ [])

-- The first candidate is reached.
first_reached :
    (net : Network) (pool candidates : List ServerAddress) (live : ServerAddress)
    → ((a : ServerAddress) → net.connects a ≡ true)
    → has_node candidates live ≡ true
    → (b : ServerAddress) × ((try_candidates net pool [] candidates).found ≡ some b)
      × ((try_candidates net pool [] candidates).tried ≡ b ∷ [])
      × (has_node candidates b ≡ true)
unfolding try_candidates get_connection_for_server has_node
first_reached net pool [] live h k = cc
first_reached net pool (b ∷ candidates) live h k =
    let own : same_address b b ≡ true = (same_address_iff b b).1 refl in
    elim (Bool-cases (has_node pool b && net.is_connected b)) [
      | inl old ↦ (b, rw old refl, rw old refl, rw own refl)
      | inr new ↦ (b, rw (new, h b) refl, rw (new, h b) refl, rw own refl)
    ]

pub nothing_listed : (a : ServerAddress) → has_node [] a ≡ false
unfolding has_node
nothing_listed a = refl

single : (a n : ServerAddress) → has_node (a ∷ []) n ≡ same_address a n
unfolding has_node
single a n = ground arith

choose_any_live :
    (net : Network) (c : RemoteCache) (exclude servers : List ServerAddress) (live : ServerAddress)
    → ((a : ServerAddress) → net.connects a ≡ true)
    → has_node servers live ≡ true
    → has_node exclude live ≡ false
    → (b : ServerAddress) × (c' : RemoteCache) × (choose_any net c exclude servers
        ≡ (pooled b (b ∷ []), c'))
      × (has_node servers b ≡ true)
      × (has_node exclude b ≡ false)
unfolding choose_any choice_of
choose_any_live net c exclude [] live h m k =
    let none_listed : has_node [] live ≡ false = nothing_listed live in cc
choose_any_live net c exclude (s ∷ servers) live h m k =
    let candidates : List ServerAddress = order_key_candidates [] (s ∷ servers) exclude true in
    let listed : has_node candidates live ≡ true =
      ground (arith, m, k, has_node-order_key_candidates [] (s ∷ servers) exclude true live) in
    let (b, found, tried, member) = first_reached net c.connection_pool candidates live h listed in
    let split = has_node-order_key_candidates [] (s ∷ servers) exclude true b in
    let empty = nothing_listed b in
    (
      b,
      with_pool c (try_candidates net c.connection_pool [] candidates).pool,
      rw (found, tried) refl,
      ground (arith, member, split, empty),
      ground (arith, member, split, empty),
    )

module _ (servers : List ServerAddress) (live : ServerAddress) (w : World)
    (h : IsServing servers live w) (cache_name : List ℕ) where
  -- What an attempt comes to: an answer, or an exception after which one more server is avoided.
  abbrev pub Progresses : List ServerAddress → Attempted → Type 0
  Progresses excluded (answered r) = r ≡ Result.done
  Progresses excluded (caught e) =
      (a : ServerAddress) × (is_transient e ≡ true)
      × (has_node servers a ≡ true)
      × (has_node excluded a ≡ false)
      × (same_address a live ≡ false)
      × Adds excluded a e.tried_nodes
  Progresses excluded (passed e) = ⊥
  Progresses excluded broken = ⊥

  future_live :
      (f : Future) (b : ServerAddress)
      → f.operation ≡ Operation.ping
      → f.tried ≡ b ∷ []
      → has_node servers b ≡ true
      → has_node f.excluded b ≡ false
      → Progresses f.excluded (awaited (future_get f (w.response f)))
  unfolding awaited future_get get_from delivered result_of rethrow_with_tried_nodes is_transient
      Adds
  future_live f b ping tried member apart = elim (Bool-cases (same_address b live)) [
    | inl same ↦
        let e : b ≡ live = (same_address_iff b live).0 same in
        let (good, zero_status) = h.answers f (tried ∙ ap (λ x. x ∷ []) e) in
        rw (good, zero_status, ping) refl
    | inr other ↦
        let (x, bad, passing, nodes) = h.fails f b tried other in
        rw (bad) (
          b,
          passing,
          member,
          apart,
          other,
          λ n. ground (
            arith,
            has_node-union_nodes (union_nodes f.excluded f.tried) x.tried_nodes n,
            has_node-union_nodes f.excluded f.tried n,
            ap (λ xs. has_node xs n) tried,
            ap (λ xs. has_node xs n) nodes,
            single b n,
          ),
        )
  ]

  choice_live :
      (excluded : List ServerAddress)
      → has_node servers live ≡ true
      → has_node excluded live ≡ false
      → (b : ServerAddress) × (c' : RemoteCache) × (choose_connection w.net w.cache Operation.ping
            (excluding_nodes excluded)
          ≡ ok (pooled b (b ∷ []), c'))
        × (has_node servers b ≡ true)
        × (has_node excluded b ≡ false)
  unfolding choose_connection select_any_server excluding_nodes
  choice_live excluded m k =
      let (b, c', chosen, member, apart) =
        choose_any_live w.net w.cache excluded servers live h.connects m k in
      (
        b,
        c',
        ap (λ all. ok (choose_any w.net w.cache excluded all)) h.same_servers ∙ ap ok chosen,
        member,
        apart,
      )

  called_live :
      (excluded : List ServerAddress)
      → has_node servers live ≡ true
      → has_node excluded live ≡ false
      → Progresses excluded (
          called w (call w.net w.over w.cache Operation.ping cache_name (excluding_nodes excluded)))
  unfolding call called settled call_over excluding_nodes
  called_live excluded m k =
      let (b, c', chosen, member, apart) = choice_live excluded m k in
      let ctx : RetryContext = excluding_nodes excluded in
      let m' = w.over.connection_to b in
      let p = pending_of Operation.ping cache_name in
      let f : Future = record {
        operation = Operation.ping;
        message_id = (register m' p).0;
        tried = b ∷ [];
        excluded = excluded;
      } in
      let out : Progresses excluded (
          settled w (
            call_of Operation.ping (b ∷ []) ctx
              (execute w.over.sends m' (request_body Operation.ping) (request_opcode Operation.ping)
                p).0)) =
        subst (λ x. Progresses excluded (settled w x))
          (sym (
            sent_future Operation.ping (b ∷ []) ctx w.over.sends m' p (h.working.up b)
              h.working.sends))
          (future_live f b refl refl member apart) in
      subst
        (λ o. Progresses excluded (
          called w (
            o >>= λ chosen.
            ok (call_over w.over Operation.ping cache_name ctx chosen.0, chosen.1))))
        (sym chosen) out

  pub attempt_live :
      (excluded : List ServerAddress)
      → has_node servers live ≡ true
      → has_node excluded live ≡ false
      → Progresses excluded (attempt w Operation.ping cache_name excluded)
  unfolding attempt excluding_nodes
  attempt_live [] m k = called_live [] m k
  attempt_live (a ∷ excluded) m k = called_live (a ∷ excluded) m k

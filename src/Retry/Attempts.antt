-- ===== src/Retry/Attempts.antt =====
-- One attempt of the loops of src/examples/quickstart/retry.cpp: the nodes that its exception names.
use cpp17_client.Base.{
  ℕ, ◌≡◌, refl, sym, ap, ◌∙◌, arith, ◌⊎◌, List, [], ◌∷◌, Bool, true, false, ◌||◌, Outcome, ok, err,
  undefined, ◌>>=◌, inl, inr,
}
use cpp17_client.Failure.{ServerAddress, HotRodClientException, typed, plain}
use cpp17_client.Selection.{has_node}
use cpp17_client.Operations.{Operation, request_body, request_opcode}
use cpp17_client.Multiplex.{Multiplexer, PendingRequest, execute, register}
use cpp17_client.Cache.{RemoteCache, Choice, pooled, seed, refused}
use cpp17_client.Calls.{
  RetryContext, no_context, excluding_nodes, Future, future, Connections, pending_of, call_of,
  call_over, call, Delivery, value, throws, future_get,
}
use cpp17_client.Calls.Retries.{thrown_nodes}
use cpp17_client.Retry.{
  World, caught, awaited, settled, called, attempt, to_node, node_of, dispatched,
}
use cpp17_client.Retry.Choosing.{Keeps, KeepsIfOk, choose_connection-KeepsIfOk}

-- Connections that are up, and sockets on which every `send` returns.
pub record IsWorking (over : Connections) : Type 0 where
  pub seed_up : over.seed_connection.connected ≡ true
  pub up : (a : ServerAddress) → (over.connection_to a).connected ≡ true
  pub sends : (bytes : List ℕ) → over.sends bytes ≡ true

pub sent_future :
    (op : Operation) (tried : List ServerAddress) (ctx : RetryContext) (sends : List ℕ → Bool)
    (m : Multiplexer) (p : PendingRequest)
    → m.connected ≡ true
    → ((bytes : List ℕ) → sends bytes ≡ true)
    → call_of op tried ctx (execute sends m (request_body op) (request_opcode op) p).0
      ≡ future (record {
        operation = op;
        message_id = (register m p).0;
        tried = tried;
        excluded = ctx.exclude_nodes;
      })
unfolding call_of execute
sent_future op tried ctx sends m p up h = simp (up, h) refl

awaited_caught :
    (o : Outcome Delivery) (e : HotRodClientException)
    → awaited o ≡ caught e
    → o ≡ ok (throws (typed e))
unfolding awaited
awaited_caught (ok (value r)) e h = cc
awaited_caught (ok (throws (typed x))) e h =
    let same : x ≡ e = cc in ap (λ y. ok (throws (typed y))) same
awaited_caught (ok (throws (plain x))) e h = cc
awaited_caught (err x) e h = cc
awaited_caught undefined e h = cc

module _ (w : World) (working : IsWorking w.over) (op : Operation) (cache_name : List ℕ)
    (ctx : RetryContext) where
  -- The future of a request that went out.
  future_nodes :
      (tried : List ServerAddress) (m : Multiplexer) (e : HotRodClientException)
      → m.connected ≡ true
      → settled w (
          call_of op tried ctx
            (execute w.over.sends m
              (request_body op)
              (request_opcode op)
              (pending_of op cache_name)).0)
        ≡ caught e
      → (n : ServerAddress) → (has_node ctx.exclude_nodes n || has_node tried n) ≡ true
      → has_node e.tried_nodes n ≡ true
  unfolding settled future_get
  future_nodes tried m e up h n k =
      let f : Future = record {
        operation = op;
        message_id = (register m (pending_of op cache_name)).0;
        tried = tried;
        excluded = ctx.exclude_nodes;
      } in
      let same : settled w (future f) ≡ caught e =
        sym (
          ap (settled w)
            (sent_future op tried ctx w.over.sends m (pending_of op cache_name) up working.sends))
        ∙ h in
      let r = w.response f in
      thrown_nodes f r.error r.status r.body e (awaited_caught (future_get f r) e same) n k

  chosen_nodes :
      (choice : Outcome (Choice × RemoteCache)) (e : HotRodClientException)
      → KeepsIfOk ctx.exclude_nodes choice
      → called w (choice >>= λ chosen. ok (call_over w.over op cache_name ctx chosen.0, chosen.1))
        ≡ caught e
      → (n : ServerAddress) → (has_node ctx.exclude_nodes n ≡ true) ⊎ (node_of choice ≡ to_node n)
      → has_node e.tried_nodes n ≡ true
  unfolding called settled call_over
  chosen_nodes (ok (pooled a tried, c)) e (Keeps.pooled_kept apart inside) h n (inl k) =
      future_nodes tried (w.over.connection_to a) e (working.up a) h n (ground arith)
  chosen_nodes (ok (pooled a tried, c)) e (Keeps.pooled_kept apart inside) h n (inr k) =
      let same : a ≡ n = cc in
      future_nodes tried (w.over.connection_to a) e (working.up a) h n
        (rw (← same, inside) (ground arith))
  chosen_nodes (ok (seed, c)) e Keeps.seed_kept h n (inl k) =
      future_nodes [] w.over.seed_connection e working.seed_up h n (ground arith)
  chosen_nodes (ok (seed, c)) e Keeps.seed_kept h n (inr k) = cc
  chosen_nodes (ok (refused x, c)) e (Keeps.refused_kept kept) h n (inl k) =
      let same : x ≡ e = cc in rw (← same) (kept n k)
  chosen_nodes (ok (refused x, c)) e (Keeps.refused_kept kept) h n (inr k) = cc
  chosen_nodes (err x) e kept h n k = cc
  chosen_nodes undefined e kept h n k = cc

chosen-excluded :
    (exclude : List ServerAddress) (choice : Outcome (Choice × RemoteCache)) (a : ServerAddress)
    → KeepsIfOk exclude choice
    → node_of choice ≡ to_node a
    → has_node exclude a ≡ false
chosen-excluded exclude (ok (pooled b tried, c)) a (Keeps.pooled_kept apart inside) h =
    let same : b ≡ a = cc in rw (← same) apart
chosen-excluded exclude (ok (seed, c)) a kept h = cc
chosen-excluded exclude (ok (refused x, c)) a kept h = cc
chosen-excluded exclude (err x) a kept h = cc
chosen-excluded exclude undefined a kept h = cc

-- An attempt is dispatched to no excluded node.
pub dispatched-excluded :
    (w : World) (op : Operation) (excluded : List ServerAddress) (a : ServerAddress)
    → dispatched w op excluded ≡ to_node a
    → has_node excluded a ≡ false
unfolding excluding_nodes
dispatched-excluded w op excluded a h =
    chosen-excluded excluded _ a
      (choose_connection-KeepsIfOk w.net w.cache op (excluding_nodes excluded)) h

-- The exception of an attempt names the excluded nodes and the one that it was dispatched to.
pub attempt_nodes :
    (w : World) (op : Operation) (cache_name : List ℕ) (excluded : List ServerAddress)
    (e : HotRodClientException)
    → IsWorking w.over
    → attempt w op cache_name excluded ≡ caught e
    → (n : ServerAddress) → (has_node excluded n ≡ true) ⊎ (dispatched w op excluded ≡ to_node n)
    → has_node e.tried_nodes n ≡ true
unfolding attempt call excluding_nodes
attempt_nodes w op cache_name [] e working h n k =
    chosen_nodes w working op cache_name no_context _ e
      (choose_connection-KeepsIfOk w.net w.cache op no_context) h n k
attempt_nodes w op cache_name (a ∷ excluded) e working h n k =
    chosen_nodes w working op cache_name (excluding_nodes (a ∷ excluded)) _ e
      (choose_connection-KeepsIfOk w.net w.cache op (excluding_nodes (a ∷ excluded))) h n k

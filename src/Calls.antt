-- ===== src/Calls.antt =====
-- A whole call of an operation in src/operations/RemoteCache.cpp: the choice of the connection, the
-- request that goes out over it, the future, and what it delivers; and include/hotrod/RetryView.h, which
-- gives a call the nodes that it is to avoid.
pub mod Api
pub mod View
pub mod Retries
pub mod Deliveries
mod Runs
use cpp17_client.Base.{
  ℕ, List, [], ◌∷◌, Bool, false, Option, none, some, Outcome, ok, undefined, ◌>>=◌,
}
use cpp17_client.Failure.{ServerAddress, FailurePhase, HotRodClientException, Thrown, typed, plain}
use cpp17_client.Selection.{union_nodes}
use cpp17_client.Operations.{
  Operation, Body, request_body, request_opcode, response_opcode, request_flags, parse_body,
}
use cpp17_client.Operations.Results.{Result, refused, result_of}
use cpp17_client.Multiplex.{Response, PendingRequest, Multiplexer, Execution, thrown, sent, execute}
use cpp17_client.Cache.{
  Network, RemoteCache, Choice, pooled, seed, select_server_for_key, select_any_server,
}

pub record RetryContext : Type 0 where
  pub exclude_nodes : List ServerAddress

-- `RetryContext{}`, the context of the operations of `RemoteCache` itself.
abbrev pub no_context : RetryContext
no_context = record { exclude_nodes = [] }

-- `RemoteCache::excluding`, of nodes and of an exception; a `RetryView` holds the context, and each of its
-- operations passes it on.
unfoldable pub excluding_nodes : List ServerAddress → RetryContext
excluding_nodes exclude_nodes = record { exclude_nodes = exclude_nodes }

unfoldable pub excluding : HotRodClientException → RetryContext
excluding e = record { exclude_nodes = e.tried_nodes }

abbrev pub with_tried : HotRodClientException → List ServerAddress → HotRodClientException
with_tried e tried_nodes = record {
  phase = e.phase;
  server_status = e.server_status;
  tried_nodes = tried_nodes;
  owners_exhausted = e.owners_exhausted;
}

unfoldable pub rethrow_with_tried_nodes : Thrown → List ServerAddress → List ServerAddress → Thrown
rethrow_with_tried_nodes (typed e) tried excluded =
    typed (with_tried e (union_nodes (union_nodes excluded tried) e.tried_nodes))
rethrow_with_tried_nodes (plain e) tried excluded = plain e

-- The choice of the connection: `ping` has no key.
unfoldable pub choose_connection :
    Network → RemoteCache → Operation → RetryContext → Outcome (Choice × RemoteCache)
choose_connection net c Operation.ping ctx = ok (select_any_server net c ctx.exclude_nodes)
choose_connection net c (Operation.get key) ctx = select_server_for_key net c key ctx.exclude_nodes
choose_connection net c (Operation.get_with_metadata key) ctx =
    select_server_for_key net c key ctx.exclude_nodes
choose_connection net c (Operation.contains_key key) ctx =
    select_server_for_key net c key ctx.exclude_nodes
choose_connection net c (Operation.put key _ _ _ _) ctx =
    select_server_for_key net c key ctx.exclude_nodes
choose_connection net c (Operation.put_if_absent key _ _ _ _) ctx =
    select_server_for_key net c key ctx.exclude_nodes
choose_connection net c (Operation.replace key _ _ _ _) ctx =
    select_server_for_key net c key ctx.exclude_nodes
choose_connection net c (Operation.remove key _) ctx =
    select_server_for_key net c key ctx.exclude_nodes
choose_connection net c (Operation.remove_with_version key _) ctx =
    select_server_for_key net c key ctx.exclude_nodes
choose_connection net c (Operation.replace_with_version key _ _ _ _) ctx =
    select_server_for_key net c key ctx.exclude_nodes

-- What `execute` is given for the response.
abbrev pub pending_of : Operation → List ℕ → PendingRequest
pending_of op cache_name = record {
  body_parser = λ status version flags. parse_body op status version;
  expected_opcode = response_opcode op;
  cache_name = cache_name;
  flags = request_flags op;
}

-- What the lambda of the future holds.
pub record Future : Type 0 where
  pub operation : Operation
  pub message_id : ℕ
  pub tried : List ServerAddress
  pub excluded : List ServerAddress

-- A call throws, or returns a future.
pub data Call : Type 0 where
  failed : HotRodClientException → Call
  future : Future → Call

-- The connection of the constructor, or the pooled one to a server, and what the sockets do.
pub record Connections : Type 0 where
  pub seed_connection : Multiplexer
  pub connection_to : ServerAddress → Multiplexer
  pub sends : List ℕ → Bool

unfoldable pub call_of : Operation → List ServerAddress → RetryContext → Execution → Call
call_of op tried ctx (thrown e) = failed e
call_of op tried ctx (sent id bytes) =
    future (record { operation = op; message_id = id; tried = tried; excluded = ctx.exclude_nodes })

-- With the connection that was chosen; the new state of the connection comes with it.
unfoldable pub call_over :
    Connections → Operation → List ℕ → RetryContext → Choice → Call × Option Multiplexer
unfolding call_of execute
call_over net op cache_name ctx (pooled a tried) =
    let done =
      execute net.sends (net.connection_to a) (request_body op) (request_opcode op)
        (pending_of op cache_name) in
    (call_of op tried ctx done.0, some done.1)
call_over net op cache_name ctx seed =
    let done =
      execute net.sends net.seed_connection (request_body op) (request_opcode op)
        (pending_of op cache_name) in
    (call_of op [] ctx done.0, some done.1)
call_over net op cache_name ctx (Choice.refused e) = (failed e, none)

-- The operation up to its `return`.
unfoldable pub call :
    Network
    → Connections
    → RemoteCache
    → Operation
    → List ℕ
    → RetryContext
    → Outcome ((Call × Option Multiplexer) × RemoteCache)
unfolding choose_connection call_over
call net over c op cache_name ctx = choose_connection net c op ctx >>= λ choice.
    ok (call_over over op cache_name ctx choice.0, choice.1)

-- What the future's `get` comes to.
pub data Delivery : Type 0 where
  value : Result → Delivery
  throws : Thrown → Delivery

-- `put` throws for a status that it does not know.
unfoldable pub delivered : Future → Result → Delivery
delivered f (refused status) = throws (
    typed (record {
      phase = FailurePhase.server_error;
      server_status = some status;
      tried_nodes = union_nodes f.excluded f.tried;
      owners_exhausted = false;
    }))
delivered f r = value r

-- The lambda of the future; a response without an error has its status set.
unfoldable pub get_from : Future → Option Thrown → Option ℕ → Body → Outcome Delivery
unfolding rethrow_with_tried_nodes delivered
get_from f (some e) status body = ok (throws (rethrow_with_tried_nodes e f.tried f.excluded))
get_from f none none body = undefined
get_from f none (some status) body = ok (delivered f (result_of f.operation status body))

unfoldable pub future_get : Future → Response → Outcome Delivery
unfolding get_from
future_get f r = get_from f r.error r.status r.body

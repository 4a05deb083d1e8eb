-- ===== src/Retry.antt =====
-- src/examples/quickstart/retry.cpp: the loops that retry an operation, each attempt through the view that
-- avoids the nodes that the last exception names. Between two attempts the network, the cache's state and the
-- connections may change in any way. A bound below one is 0.
pub mod Choosing
pub mod Attempts
pub mod Bounded
pub mod Distinct
pub mod Counting
pub mod Live
pub mod Success
mod Runs
use cpp17_client.Base.{
  ℕ, zero, suc, ◌+◌, List, [], ◌∷◌, Bool, true, false, not, leb, if◌then◌else◌, Option, none, some,
}
use cpp17_client.Base.{Outcome, ok, err, undefined, Error}
use cpp17_client.Failure.{ServerAddress, HotRodClientException, Thrown, typed, plain, is_transient}
use cpp17_client.Operations.{Operation}
use cpp17_client.Operations.Results.{Result}
use cpp17_client.Multiplex.{Multiplexer, Response}
use cpp17_client.Cache.{Network, RemoteCache, Choice, pooled, seed, refused}
use cpp17_client.Calls.{
  RetryContext, no_context, excluding_nodes, Future, Call, Connections, Delivery, value, throws,
  choose_connection, call, future_get,
}

-- What an attempt meets; `response` is what the promise of a future is set to.
pub record World : Type 0 where
  pub net : Network
  pub over : Connections
  pub cache : RemoteCache
  pub response : Future → Response

-- What an attempt comes to: a result, a `HotRodClientException`, which is caught, or what passes the
-- handler by.
pub data Attempted : Type 0 where
  answered : Result → Attempted
  caught : HotRodClientException → Attempted
  passed : Error → Attempted
  broken : Attempted

-- The future's `get`.
unfoldable pub awaited : Outcome Delivery → Attempted
awaited (ok (value r)) = answered r
awaited (ok (throws (typed e))) = caught e
awaited (ok (throws (plain e))) = passed e
awaited (err e) = passed e
awaited undefined = broken

unfoldable pub settled : World → Call → Attempted
unfolding awaited
settled w (Call.failed e) = caught e
settled w (Call.future f) = awaited (future_get f (w.response f))

unfoldable pub called : World → Outcome ((Call × Option Multiplexer) × RemoteCache) → Attempted
unfolding settled
called w (ok ((c, m), cache)) = settled w c
called w (err e) = passed e
called w undefined = broken

-- The first attempt is a plain call.
unfoldable pub attempt : World → Operation → List ℕ → List ServerAddress → Attempted
unfolding called
attempt w op cache_name [] = called w (call w.net w.over w.cache op cache_name no_context)
attempt w op cache_name (a ∷ excluded) =
    called w (call w.net w.over w.cache op cache_name (excluding_nodes (a ∷ excluded)))

-- Where an attempt is dispatched to: over the pooled connection to a server, over the connection of the
-- constructor, which is chosen whatever is excluded, or nowhere, as the choice throws.
pub data Target : Type 0 where
  to_node : ServerAddress → Target
  to_seed : Target
  nowhere : Target

abbrev pub node_of : Outcome (Choice × RemoteCache) → Target
node_of (ok (pooled a tried, c)) = to_node a
node_of (ok (seed, c)) = to_seed
node_of (ok (refused e, c)) = nowhere
node_of (err e) = nowhere
node_of undefined = nowhere

abbrev pub dispatched : World → Operation → List ServerAddress → Target
dispatched w op excluded = node_of (choose_connection w.net w.cache op (excluding_nodes excluded))

pub data Ending : Type 0 where
  returned : Result → Ending
  threw : Thrown → Ending
  undefined_behaviour : Ending

-- How a loop ends, and where its attempts were dispatched to.
pub record Run : Type 0 where
  pub ending : Ending
  pub nodes : List Target

abbrev pub behind : Target → Option Run → Option Run
behind target none = none
behind target (some run) = some (record { ending = run.ending; nodes = target ∷ run.nodes })

abbrev pub at_once : Target → Ending → Option Run
at_once node ending = some (record { ending = ending; nodes = node ∷ [] })

-- The body of the loop behind its `try`, for the attempt of this number.
unfoldable pub after_attempt :
    (List ServerAddress → Option Run) → ℕ → ℕ → Target → Attempted → Option Run
after_attempt next max_attempts number node (answered r) = at_once node (returned r)
after_attempt next max_attempts number node (caught e) =
    if not (is_transient e)
    then at_once node (threw (typed e))
    else if leb max_attempts number
    then at_once node (threw (typed e))
    else behind node (next e.tried_nodes)
after_attempt next max_attempts number node (passed e) = at_once node (threw (plain e))
after_attempt next max_attempts number node broken = at_once node undefined_behaviour

-- `none` where the fuel ran out.
unfoldable pub retry_loop :
    (ℕ → World) → Operation → List ℕ → ℕ → ℕ → ℕ → List ServerAddress → Option Run
unfolding after_attempt attempt
retry_loop worlds op cache_name max_attempts zero number excluded = none
retry_loop worlds op cache_name max_attempts (suc fuel) number excluded =
    after_attempt (λ nodes. retry_loop worlds op cache_name max_attempts fuel (number + 1) nodes)
      max_attempts number (dispatched (worlds number) op excluded)
      (attempt (worlds number) op cache_name excluded)

unfoldable pub with_retry : (ℕ → World) → Operation → List ℕ → ℕ → Option Run
unfolding retry_loop
with_retry worlds op cache_name max_attempts =
    retry_loop worlds op cache_name max_attempts (max_attempts + 1) 1 []

unfoldable pub get_with_retry : (ℕ → World) → List ℕ → List ℕ → ℕ → Option Run
unfolding with_retry
get_with_retry worlds cache_name key max_attempts =
    with_retry worlds (Operation.get key) cache_name max_attempts

unfoldable pub ping_with_retry : (ℕ → World) → List ℕ → ℕ → Option Run
unfolding with_retry
ping_with_retry worlds cache_name max_attempts =
    with_retry worlds Operation.ping cache_name max_attempts

-- An uncertain outcome is only reported.
unfoldable pub put_with_retry : (ℕ → World) → List ℕ → List ℕ → List ℕ → ℕ → Option Run
unfolding with_retry
put_with_retry worlds cache_name key content max_attempts =
    with_retry worlds (Operation.put key content 0 0 false) cache_name max_attempts

-- ===== src/Retry/Success.antt =====
-- `pingWithRetry` of src/examples/quickstart/retry.cpp on a cluster of which one server answers.
use cpp17_client.Base.{
  ℕ, zero, suc, ◌+◌, ◌≤◌, ◌<◌, ◌≡◌, refl, ap, arith, List, [], ◌∷◌, length, true, false, leb,
  Option, some,
}
use cpp17_client.Failure.{ServerAddress}
use cpp17_client.Selection.{has_node}
use cpp17_client.Operations.{Operation}
use cpp17_client.Operations.Results.{Result}
use cpp17_client.Retry.{
  World, Attempted, Target, answered, caught, passed, broken, attempt, dispatched, returned, Run,
  behind, after_attempt, retry_loop, with_retry, ping_with_retry,
}
use cpp17_client.Retry.Counting.{left, left_none, left_some, left_fewer, not_other_live}
use cpp17_client.Retry.Live.{IsServing, Progresses, attempt_live, nothing_listed}

-- A loop that returns what a ping returns, after this many attempts at most.
abbrev Succeeds : ℕ → Option Run → Type 0
Succeeds most o =
    (run : Run) × (o ≡ some run) × (run.ending ≡ returned Result.done) × (length run.nodes ≤ most)

behind-Succeeds :
    (most : ℕ) (target : Target) (o : Option Run)
    → Succeeds most o
    → Succeeds (most + 1) (behind target o)
behind-Succeeds most target o (run, same, done, few) = (
  record { ending = run.ending; nodes = target ∷ run.nodes },
  ap (behind target) same,
  done,
  omega arith,
)

weaker : (n m : ℕ) (o : Option Run) → n ≤ m → Succeeds n o → Succeeds m o
weaker n m o l (run, same, done, few) = (run, same, done, omega arith)

module _ (servers : List ServerAddress) (live : ServerAddress) (worlds : ℕ → World)
    (h : (number : ℕ) → IsServing servers live (worlds number)) (cache_name : List ℕ)
    (max_attempts : ℕ) (listed : has_node servers live ≡ true) where
  after_live :
      (next : List ServerAddress → Option Run) (number : ℕ) (excluded : List ServerAddress)
      (target : Target) (a : Attempted)
      → Progresses servers live (worlds number) (h number) cache_name excluded a
      → has_node excluded live ≡ false
      → left servers excluded + number ≤ max_attempts + 1
      → ((nodes : List ServerAddress)
          → has_node nodes live ≡ false
          → left servers nodes < left servers excluded
          → Succeeds (left servers nodes) (next nodes))
      → Succeeds (left servers excluded) (after_attempt next max_attempts number target a)
  unfolding after_attempt
  after_live next number excluded target (answered r) same k l onward =
      (_, refl, ap returned same, left_some servers excluded live listed k)
  after_live next number excluded target (caught e) (a, transient, member, apart, other, adds) k l
        onward =
      let kept : has_node e.tried_nodes live ≡ false =
        not_other_live excluded e.tried_nodes a live adds other k in
      let fewer : left servers e.tried_nodes < left servers excluded =
        left_fewer servers excluded e.tried_nodes a adds member apart in
      let some_left : 1 ≤ left servers e.tried_nodes =
        left_some servers e.tried_nodes live listed kept in
      let more : leb max_attempts number ≡ false = ground arith in
      simp (transient, more)
        (weaker (left servers e.tried_nodes + 1) (left servers excluded) _ (omega arith) (
          behind-Succeeds (left servers e.tried_nodes) target (next e.tried_nodes)
            (onward e.tried_nodes kept fewer)))
  after_live next number excluded target (passed e) never k l onward = absurd never
  after_live next number excluded target broken never k l onward = absurd never

  retry_loop_live :
      (fuel number : ℕ) (excluded : List ServerAddress)
      → has_node excluded live ≡ false
      → left servers excluded ≤ fuel
      → left servers excluded + number ≤ max_attempts + 1
      → Succeeds
          (left servers excluded)
          (retry_loop worlds Operation.ping cache_name max_attempts fuel number excluded)
  unfolding retry_loop
  retry_loop_live zero number excluded k f l =
      let one = left_some servers excluded live listed k in absurd (omega arith)
  retry_loop_live (suc fuel) number excluded k f l =
      after_live
        (λ nodes. retry_loop worlds Operation.ping cache_name max_attempts fuel (number + 1) nodes)
        number excluded (dispatched (worlds number) Operation.ping excluded)
        (attempt (worlds number) Operation.ping cache_name excluded)
        (attempt_live servers live (worlds number) (h number) cache_name excluded listed k) k l
        (λ nodes kept fewer.
          retry_loop_live fuel (number + 1) nodes kept (omega arith) (omega arith))

  -- Where the servers stay the same, connections to them can be opened, are up and send, one of
  -- the servers answers, and a request to any other one fails in a way that names that server and
  -- passes, `pingWithRetry` with as many attempts as there are servers at least reaches the one
  -- that answers: it returns, after no more attempts than there are servers, however the pool
  -- changes in between.
  pub ping_with_retry-IsServing :
      length servers ≤ max_attempts
      → (run : Run) × (ping_with_retry worlds cache_name max_attempts ≡ some run)
        × (run.ending ≡ returned Result.done)
        × (length run.nodes ≤ length servers)
  unfolding ping_with_retry with_retry
  ping_with_retry-IsServing few =
      let all : left servers [] ≡ length servers = left_none servers in
      let (run, same, done, short) =
        retry_loop_live (max_attempts + 1) 1 [] (nothing_listed live) (omega arith) (omega arith) in
      (run, same, done, omega arith)

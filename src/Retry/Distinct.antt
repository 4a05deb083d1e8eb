-- ===== src/Retry/Distinct.antt =====
-- The nodes that the loops of src/examples/quickstart/retry.cpp are dispatched to.
use cpp17_client.Base.{
  ℕ, zero, suc, ◌+◌, ◌≡◌, refl, ap, arith, List, [], ◌∷◌, Bool-cases, true, false, leb, Option,
  none, some, inl, inr, subst,
}
use cpp17_client.Failure.{
  ServerAddress, HotRodClientException, typed, plain, is_transient, same_address,
}
use cpp17_client.Failure.Axes.{same_address_iff}
use cpp17_client.Selection.{has_node}
use cpp17_client.Operations.{Operation}
use cpp17_client.Retry.{
  World, Attempted, Target, to_node, to_seed, nowhere, answered, caught, passed, broken, attempt,
  dispatched, Ending, returned, threw, undefined_behaviour, Run, behind, at_once, after_attempt,
  retry_loop, with_retry,
}
use cpp17_client.Retry.Attempts.{IsWorking, dispatched-excluded, attempt_nodes}
use cpp17_client.Retry.Bounded.{with_retry-IsOver}

-- Each attempt over a pooled connection goes to none of the nodes of those before it. Nothing is said of the
-- node that the connection of the constructor goes to.
abbrev pub AreFresh : List ServerAddress → List Target → Type 0
AreFresh before [] = Unit
AreFresh before (to_seed ∷ nodes) = AreFresh before nodes
AreFresh before (nowhere ∷ nodes) = AreFresh before nodes
AreFresh before (to_node a ∷ nodes) = (has_node before a ≡ false) × AreFresh (a ∷ before) nodes

-- The nodes before are all excluded.
abbrev IsWithin : List ServerAddress → List ServerAddress → Type 0
IsWithin before excluded =
    (n : ServerAddress) → has_node before n ≡ true → has_node excluded n ≡ true

abbrev EndsFresh : List ServerAddress → Option Run → Type 0
EndsFresh before none = Unit
EndsFresh before (some run) = AreFresh before run.nodes

-- An attempt at a node that is none of those before.
abbrev IsFresh : List ServerAddress → Target → Type 0
IsFresh before target = (a : ServerAddress) → target ≡ to_node a → has_node before a ≡ false

at_once-EndsFresh :
    (before : List ServerAddress) (target : Target) (ending : Ending)
    → IsFresh before target
    → EndsFresh before (at_once target ending)
at_once-EndsFresh before to_seed ending h = tt
at_once-EndsFresh before nowhere ending h = tt
at_once-EndsFresh before (to_node a) ending h = (h a refl, tt)

-- With the node of the attempt.
abbrev joined : Target → List ServerAddress → List ServerAddress
joined to_seed before = before
joined nowhere before = before
joined (to_node a) before = a ∷ before

behind-EndsFresh :
    (before : List ServerAddress) (target : Target) (o : Option Run)
    → IsFresh before target
    → EndsFresh (joined target before) o
    → EndsFresh before (behind target o)
behind-EndsFresh before target none h rest = tt
behind-EndsFresh before to_seed (some run) h rest = rest
behind-EndsFresh before nowhere (some run) h rest = rest
behind-EndsFresh before (to_node a) (some run) h rest = (h a refl, rest)

joined-IsWithin :
    (before : List ServerAddress) (target : Target) (nodes : List ServerAddress)
    → IsWithin before nodes
    → ((a : ServerAddress) → target ≡ to_node a → has_node nodes a ≡ true)
    → IsWithin (joined target before) nodes
unfolding has_node
joined-IsWithin before to_seed nodes within h n k = within n k
joined-IsWithin before nowhere nodes within h n k = within n k
joined-IsWithin before (to_node a) nodes within h n k = elim (Bool-cases (same_address a n)) [
  | inl same ↦ let e : a ≡ n = (same_address_iff a n).0 same in h n (ap to_node e)
  | inr other ↦ within n (ground arith)
]

module _ (worlds : ℕ → World) (op : Operation) (cache_name : List ℕ) (max_attempts : ℕ)
    (working : (number : ℕ) → IsWorking (worlds number).over) where
  after_attempt-EndsFresh :
      (next : List ServerAddress → Option Run) (number : ℕ) (before : List ServerAddress)
      (target : Target) (a : Attempted)
      → IsFresh before target
      → ((e : HotRodClientException)
          → a ≡ caught e
          → EndsFresh (joined target before) (next e.tried_nodes))
      → EndsFresh before (after_attempt next max_attempts number target a)
  unfolding after_attempt
  after_attempt-EndsFresh next number before target (answered r) fresh onward =
      at_once-EndsFresh before target (returned r) fresh
  after_attempt-EndsFresh next number before target (caught e) fresh onward =
      elim (Bool-cases (is_transient e)) [
        | inr permanent ↦ simp permanent (at_once-EndsFresh before target (threw (typed e)) fresh)
        | inl transient ↦ elim (Bool-cases (leb max_attempts number)) [
          | inl last ↦
              simp (transient, last) (at_once-EndsFresh before target (threw (typed e)) fresh)
          | inr more ↦
              simp (transient, more)
                (behind-EndsFresh before target (next e.tried_nodes) fresh (onward e refl))
        ]
      ]
  after_attempt-EndsFresh next number before target (passed e) fresh onward =
      at_once-EndsFresh before target (threw (plain e)) fresh
  after_attempt-EndsFresh next number before target broken fresh onward =
      at_once-EndsFresh before target undefined_behaviour fresh

  retry_loop-EndsFresh :
      (fuel number : ℕ) (excluded before : List ServerAddress)
      → IsWithin before excluded
      → EndsFresh before (retry_loop worlds op cache_name max_attempts fuel number excluded)
  unfolding retry_loop
  retry_loop-EndsFresh zero number excluded before within = tt
  retry_loop-EndsFresh (suc fuel) number excluded before within =
      let w = worlds number in
      after_attempt-EndsFresh
        (λ nodes. retry_loop worlds op cache_name max_attempts fuel (number + 1) nodes) number
        before (dispatched w op excluded) (attempt w op cache_name excluded)
        (λ a h. elim (Bool-cases (has_node before a)) [
          | inr apart ↦ apart
          | inl known ↦
              let inside = within a known in
              let outside = dispatched-excluded w op excluded a h in cc
        ])
        (λ e h.
          retry_loop-EndsFresh fuel (number + 1) e.tried_nodes
            (joined (dispatched w op excluded) before)
            (joined-IsWithin before (dispatched w op excluded) e.tried_nodes
              (λ n k.
                attempt_nodes w op cache_name excluded e (working number) h n (inl (within n k)))
              (λ a k. attempt_nodes w op cache_name excluded e (working number) h a (inr k))))

  -- When the connections of every attempt are up and their sends return, no two attempts of the loop that are
  -- dispatched over pooled connections go to the same node, whatever the topology, the pool and the servers'
  -- answers are in between. The attempts that fall back to the connection of the constructor are marked apart:
  -- they disregard the excluded nodes, and may go to the same node again.
  pub with_retry-AreFresh :
      (run : Run) × (with_retry worlds op cache_name max_attempts ≡ some run)
      × AreFresh [] run.nodes
  unfolding with_retry
  with_retry-AreFresh =
      let (run, same, over) = with_retry-IsOver worlds op cache_name max_attempts in
      let fresh : EndsFresh [] (with_retry worlds op cache_name max_attempts) =
        retry_loop-EndsFresh (max_attempts + 1) 1 [] [] (λ n k. k) in
      (run, same, subst (EndsFresh []) same fresh)

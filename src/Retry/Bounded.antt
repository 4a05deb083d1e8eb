-- ===== src/Retry/Bounded.antt =====
-- The loops of src/examples/quickstart/retry.cpp: how often they try, where, and when they give up.
use cpp17_client.Base.{
  ℕ, zero, suc, ◌+◌, ◌≤◌, ◌<◌, ◌≡◌, refl, ap, arith, ◌⊎◌, List, [], ◌∷◌, length, Bool-cases, false,
  leb, Option, some, inl, inr, subst,
}
use cpp17_client.Failure.{ServerAddress, HotRodClientException, typed, plain, is_transient}
use cpp17_client.Operations.{Operation}
use cpp17_client.Retry.{
  World, Attempted, Target, answered, caught, passed, broken, Ending, returned, threw,
  undefined_behaviour, Run, behind, at_once, after_attempt, retry_loop, with_retry,
}

-- A loop whose first attempt has this number is over: it has made an attempt, none above the bound but the
-- first one, and it gives up a failure only where that is permanent or the bound is reached.
pub record IsOver (max_attempts number : ℕ) (run : Run) : Type 0 where
  pub tried_once : 1 ≤ length run.nodes
  pub bounded : (number + length run.nodes ≤ max_attempts + 1) ⊎ (length run.nodes ≡ 1)
  pub gives_up :
      (e : HotRodClientException)
      → run.ending ≡ threw (typed e)
      → (is_transient e ≡ false) ⊎ (max_attempts < number + length run.nodes)

abbrev EndsOver : ℕ → ℕ → Option Run → Type 0
EndsOver max_attempts number o = (run : Run) × (o ≡ some run) × IsOver max_attempts number run

at_once-EndsOver :
    (max_attempts number : ℕ) (target : Target) (ending : Ending)
    → ((e : HotRodClientException)
        → ending ≡ threw (typed e)
        → (is_transient e ≡ false) ⊎ (max_attempts < number + 1))
    → EndsOver max_attempts number (at_once target ending)
at_once-EndsOver max_attempts number target ending h =
    (_, refl, record { tried_once = omega arith; bounded = inr refl; gives_up = h })

behind-EndsOver :
    (max_attempts number : ℕ) (target : Target) (o : Option Run)
    → number < max_attempts
    → EndsOver max_attempts (number + 1) o
    → EndsOver max_attempts number (behind target o)
behind-EndsOver max_attempts number target o l (run, same, over) = (
  record { ending = run.ending; nodes = target ∷ run.nodes },
  ap (behind target) same,
  record {
    tried_once = omega arith;
    bounded = elim over.bounded [ inl few ↦ inl (omega arith) | inr one ↦ inl (omega arith) ];
    gives_up = λ e h. elim (over.gives_up e h) [
      | inl permanent ↦ inl permanent
      | inr reached ↦ inr (omega arith)
    ];
  },
)

thrown_same : {x e : HotRodClientException} → threw (typed x) ≡ threw (typed e) → x ≡ e
thrown_same h = cc

after_attempt-EndsOver :
    (next : List ServerAddress → Option Run) (max_attempts number : ℕ) (target : Target)
    (a : Attempted)
    → (number < max_attempts
        → (nodes : List ServerAddress) → EndsOver max_attempts (number + 1) (next nodes))
    → EndsOver max_attempts number (after_attempt next max_attempts number target a)
unfolding after_attempt
after_attempt-EndsOver next max_attempts number target (answered r) onward =
    at_once-EndsOver max_attempts number target (returned r) (λ e h. let no = h in cc)
after_attempt-EndsOver next max_attempts number target (caught x) onward =
    elim (Bool-cases (is_transient x)) [
      | inr permanent ↦ simp permanent (
          at_once-EndsOver max_attempts number target (threw (typed x))
            (λ e h. inl (rw (← thrown_same h) permanent)))
      | inl transient ↦ elim (Bool-cases (leb max_attempts number)) [
        | inl last ↦
            simp (transient, last)
              (at_once-EndsOver max_attempts number target (threw (typed x))
                (λ e h. inr (ground arith)))
        | inr more ↦
            let l : number < max_attempts = ground arith in
            simp (transient, more)
              (behind-EndsOver max_attempts number target (next x.tried_nodes) l
                (onward l x.tried_nodes))
      ]
    ]
after_attempt-EndsOver next max_attempts number target (passed x) onward =
    at_once-EndsOver max_attempts number target (threw (plain x)) (λ e h. let no = h in cc)
after_attempt-EndsOver next max_attempts number target broken onward =
    at_once-EndsOver max_attempts number target undefined_behaviour (λ e h. let no = h in cc)

module _ (worlds : ℕ → World) (op : Operation) (cache_name : List ℕ) (max_attempts : ℕ) where
  retry_loop-EndsOver :
      (fuel number : ℕ) (excluded : List ServerAddress)
      → max_attempts < suc fuel + number
      → EndsOver max_attempts number
          (retry_loop worlds op cache_name max_attempts (suc fuel) number excluded)
  unfolding retry_loop
  retry_loop-EndsOver zero number excluded enough =
      after_attempt-EndsOver
        (λ nodes. retry_loop worlds op cache_name max_attempts zero (number + 1) nodes) max_attempts
        number _ _ (λ l nodes. absurd (omega arith))
  retry_loop-EndsOver (suc fuel) number excluded enough =
      after_attempt-EndsOver
        (λ nodes. retry_loop worlds op cache_name max_attempts (suc fuel) (number + 1) nodes)
        max_attempts number _ _
        (λ l nodes. retry_loop-EndsOver fuel (number + 1) nodes (omega arith))

  -- The loop ends. It has made at least one attempt and, unless that was the only one, no more than the
  -- given number; and when it throws a `HotRodClientException`, that failure is permanent, or the number of
  -- attempts is reached.
  pub with_retry-IsOver :
      (run : Run) × (with_retry worlds op cache_name max_attempts ≡ some run)
      × IsOver max_attempts 1 run
  unfolding with_retry
  with_retry-IsOver =
      let same : suc max_attempts ≡ max_attempts + 1 = omega arith in
      subst
        (λ fuel. EndsOver max_attempts 1 (retry_loop worlds op cache_name max_attempts fuel 1 []))
        same (retry_loop-EndsOver max_attempts 1 [] (omega arith))

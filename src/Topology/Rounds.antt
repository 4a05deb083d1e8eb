-- ===== src/Topology/Rounds.antt =====
-- The round-robin choice of `TopologyInfo::selectServer` over whole rounds.
use cpp17_client.Base.{
  ℕ, zero, suc, ◌+◌, ◌%◌, ◌<◌, ◌≡◌, refl, sym, subst, append_assoc, arith, List, [], ◌∷◌, ◌++◌,
}
use cpp17_client.Base.{length, take, drop, Option, some, Outcome, ok, element, ◌>>=◌}
use cpp17_client.Base.{ap, ◌∙◌, append-nil, length-append, length-take, length-drop, bind_ok}
use cpp17_client.Topology.{ServerInfo, TopologyInfo, with_servers, select_server, pick}
use native.Mathlib.Nat.{mod-eq_of_lt, mod_self}

-- `count` calls of `selectServer`, with the servers that they return.
unfoldable pub select_times : ℕ → TopologyInfo → Outcome (List (Option ServerInfo) × TopologyInfo)
select_times zero t = ok ([], t)
select_times (suc count) t = do
  (server, t1) ← select_server t
  (servers, t2) ← select_times count t1
  ok (server ∷ servers, t2)

unfoldable pub chosen : List ServerInfo → List (Option ServerInfo)
chosen [] = []
chosen (s ∷ servers) = some s ∷ chosen servers

chosen-append : (xs ys : List ServerInfo) → chosen (xs ++ ys) ≡ chosen xs ++ chosen ys
unfolding chosen
chosen-append [] ys = refl
chosen-append (x ∷ xs) ys = ap (◌∷◌ (some x)) (chosen-append xs ys)

element-front :
    (front : List ServerInfo) (s : ServerInfo) (rest : List ServerInfo)
    → element (front ++ (s ∷ rest)) (length front) ≡ ok s
element-front [] s rest = refl
element-front (x ∷ front) s rest = element-front front s rest

pick-front :
    (t : TopologyInfo) (front : List ServerInfo) (s : ServerInfo) (rest : List ServerInfo)
    → t.round_robin_index ≡ length front
    → pick t (front ++ (s ∷ rest))
      ≡ ok (
        some s,
        with_servers t (front ++ (s ∷ rest)) ((length front + 1) % length (front ++ (s ∷ rest))),
      )
unfolding pick
pick-front t [] s rest k = simp k refl
pick-front t (x ∷ front) s rest k = simp (k, element-front front s rest) refl

-- Where the index stands before `s`, that server is chosen.
select_server-front :
    (t : TopologyInfo) (all front : List ServerInfo) (s : ServerInfo) (rest : List ServerInfo)
    → all ≡ front ++ (s ∷ rest)
    → select_server (with_servers t all (length front))
      ≡ ok (some s, with_servers t all ((length front + 1) % length all))
unfolding select_server
select_server-front t all front s rest h =
    subst
      (λ servers.
        select_server (with_servers t servers (length front))
        ≡ ok (some s, with_servers t servers ((length front + 1) % length servers)))
      (sym h) (pick-front (with_servers t (front ++ (s ∷ rest)) (length front)) front s rest refl)

-- From the index before `middle` on, the servers of `middle` are chosen in order.
select_times-middle :
    (t : TopologyInfo) (all front middle rest : List ServerInfo)
    → all ≡ front ++ (middle ++ rest)
    → length front < length all
    → select_times (length middle) (with_servers t all (length front))
      ≡ ok (chosen middle, with_servers t all ((length front + length middle) % length all))
unfolding select_times chosen
select_times-middle t all front [] rest h l =
    let same : length front + 0 ≡ length front = omega arith in
    rw (same, mod-eq_of_lt {n = length front} {m = length all} l) refl
select_times-middle t all front (s ∷ []) rest h l =
    rw (select_server-front t all front s rest h) refl
select_times-middle t all front (s ∷ m ∷ middle) rest h l =
    let next : all ≡ (front ++ (s ∷ [])) ++ (m ∷ middle ++ rest) =
      h ∙ sym (append_assoc front (s ∷ []) (m ∷ middle ++ rest)) in
    let there : length (front ++ (s ∷ [])) ≡ length front + 1 = length-append front (s ∷ []) in
    let bound : length front + 1 < length all =
      omega (arith, ap length h, length-append front (s ∷ m ∷ middle ++ rest)) in
    let moved : (length front + 1) % length all ≡ length (front ++ (s ∷ [])) =
      mod-eq_of_lt {n = length front + 1} {m = length all} bound ∙ sym there in
    let sum : length (front ++ (s ∷ [])) + suc (length middle)
        ≡ length front + suc (suc (length middle)) =
      omega arith in
    rw
      (
        select_server-front t all front s (m ∷ middle ++ rest) h,
        moved,
        select_times-middle t all (front ++ (s ∷ [])) (m ∷ middle) rest next (omega arith),
        sum,
      )
      refl

select_times-span :
    (t : TopologyInfo) (all front middle rest : List ServerInfo) (start stop : ℕ)
    → all ≡ front ++ (middle ++ rest)
    → start < length all
    → length front ≡ start
    → (start + length middle) % length all ≡ stop
    → select_times (length middle) (with_servers t all start)
      ≡ ok (chosen middle, with_servers t all stop)
select_times-span t all front middle rest start stop h l e f =
    rw (← f, ← e) (select_times-middle t all front middle rest h (omega arith))

select_times_then :
    (a b : ℕ) (t t1 t2 : TopologyInfo) (xs ys : List (Option ServerInfo))
    → select_times a t ≡ ok (xs, t1)
    → select_times b t1 ≡ ok (ys, t2)
    → select_times (a + b) t ≡ ok (xs ++ ys, t2)
unfolding select_times
select_times_then zero b t t1 t2 xs ys h k =
    let start : t ≡ t1 = cc in
    let none_yet : [] ≡ xs = cc in
    let same : 0 + b ≡ b = omega arith in
    rw (same, start, k) (ap (λ zs. ok (zs ++ ys, t2)) none_yet)
select_times_then (suc a) b t t1 t2 xs ys h k =
    let same : suc a + b ≡ suc (a + b) = omega arith in
    let (p, first, rest) =
      bind_ok (select_server t) (λ p. select_times a p.1 >>= λ q. ok (p.0 ∷ q.0, q.1)) h in
    let (q, more, last) = bind_ok (select_times a p.1) (λ q. ok (p.0 ∷ q.0, q.1)) rest in
    let servers : p.0 ∷ q.0 ≡ xs = cc in
    let end : q.1 ≡ t1 = cc in
    let onward : select_times b q.1 ≡ ok (ys, t2) = rw end k in
    rw (same, first, select_times_then a b p.1 q.1 t2 q.0 ys more onward)
      (ap (λ zs. ok (zs ++ ys, t2)) servers)

take-drop : (i : ℕ) (xs : List ServerInfo) → take i xs ++ drop i xs ≡ xs
take-drop zero xs = refl
take-drop (suc i) [] = refl
take-drop (suc i) (x ∷ xs) = ap (◌∷◌ x) (take-drop i xs)

module _ (t : TopologyInfo) (all : List ServerInfo) (i : ℕ) (h : i < length all) where
  front_size : length (take i all) ≡ i
  front_size = omega (arith, length-take i all)

  to_the_end :
      select_times (length (drop i all)) (with_servers t all i)
      ≡ ok (chosen (drop i all), with_servers t all 0)
  to_the_end =
      let sum : i + length (drop i all) ≡ length all = omega (arith, length-drop i all) in
      let whole : all ≡ take i all ++ (drop i all ++ []) =
        sym (ap (λ ys. take i all ++ ys) (append-nil (drop i all)) ∙ take-drop i all) in
      select_times-span t all (take i all) (drop i all) [] i 0 whole h front_size
        (ap (λ n. n % length all) sum ∙ mod_self (length all))

  from_the_start :
      select_times (length (take i all)) (with_servers t all 0)
      ≡ ok (chosen (take i all), with_servers t all i)
  from_the_start =
      select_times-span t all [] (take i all) (drop i all) 0 i (sym (take-drop i all)) (omega arith)
        refl
        (ap (λ n. n % length all) (omega (arith, front_size))
          ∙ mod-eq_of_lt {n = i} {m = length all} h)

-- Whatever server the index stands at, one round of `selectServer`, as many calls as there are
-- servers, returns every server once, from that one on and around, and leaves the topology as it was.
pub select_times_round :
    (t : TopologyInfo)
    → t.round_robin_index < length t.servers
    → select_times (length t.servers) t
      ≡ ok (chosen (drop t.round_robin_index t.servers ++ take t.round_robin_index t.servers), t)
select_times_round t h =
    let i : ℕ = t.round_robin_index in
    let sum : length (drop i t.servers) + length (take i t.servers) ≡ length t.servers =
      omega (arith, length-drop i t.servers, length-take i t.servers) in
    rw (← sum, chosen-append)
      (select_times_then (length (drop i t.servers)) (length (take i t.servers)) t
        (with_servers t t.servers 0) t (chosen (drop i t.servers)) (chosen (take i t.servers))
        (to_the_end t t.servers i h) (from_the_start t t.servers i h))

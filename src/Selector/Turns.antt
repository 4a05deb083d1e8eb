-- ===== src/Selector/Turns.antt =====
-- What the strategies of src/selector/ServerSelector.cpp promise.
use cpp17_client.Base.{
  ℕ, zero, suc, ◌+◌, ◌%◌, ◌≤◌, ◌<◌, ◌≡◌, ◌≢◌, ◌↔◌, refl, sym, ap, ◌∙◌, arith, List, [], ◌∷◌, length,
  true, false, Option, none, some, ok, undefined, element, element_total, element_past,
  Option-cases, Bool-cases, inl, inr, if◌then◌else◌, ◌>>=◌, ◌&&◌, ltb,
}
use cpp17_client.Failure.{ServerAddress, same_address}
use cpp17_client.Failure.Axes.{same_address_iff}
use cpp17_client.Selection.{has_node}
use cpp17_client.Selection.Nodes.{IsDistinct}
use cpp17_client.Selector.{
  find_server, find_current, round_robin_from, round_robin_select, is_current, random_select,
}
use native.Mathlib.Nat.{mod-lt, mod-eq_of_lt, mod_self}
use native.Mathlib.Decide.{dec_lt}

element-has_node :
    (servers : List ServerAddress) (i : ℕ) (s : ServerAddress)
    → element servers i ≡ ok s
    → (has_node servers s ≡ true) × (i < length servers)
unfolding has_node
element-has_node [] i s h = cc
element-has_node (x ∷ servers) zero s h = ground (arith, same_address_iff x s)
element-has_node (x ∷ servers) (suc i) s h = ground (arith, element-has_node servers i s h)

-- In a list without repetitions, different places hold different servers.
element-IsDistinct :
    (servers : List ServerAddress) (i j : ℕ) (s : ServerAddress)
    → IsDistinct servers
    → element servers i ≡ ok s
    → element servers j ≡ ok s
    → i ≡ j
element-IsDistinct [] i j s d h k = cc
element-IsDistinct (x ∷ servers) zero zero s d h k = refl
element-IsDistinct (x ∷ servers) zero (suc j) s (f, d) h k =
    absurd (ground (arith, element-has_node servers j s k))
element-IsDistinct (x ∷ servers) (suc i) zero s (f, d) h k =
    absurd (ground (arith, element-has_node servers i s h))
element-IsDistinct (x ∷ servers) (suc i) (suc j) s (f, d) h k =
    ground (arith, element-IsDistinct servers i j s d h k)

find_server-element :
    (servers : List ServerAddress) (current : ServerAddress) (k i : ℕ)
    → find_server servers current k ≡ some i
    → (j : ℕ) × (i ≡ k + j) × (element servers j ≡ ok current)
unfolding find_server
find_server-element [] current k i h = cc
find_server-element (s ∷ servers) current k i h = elim (Bool-cases (same_address s current)) [
  | inl e ↦
      let here : some k ≡ some i = simp e at h in
      let same : s ≡ current = (same_address_iff s current).0 e in (zero, ground arith, ap ok same)
  | inr e ↦
      let later : find_server servers current (k + 1) ≡ some i = simp e at h in
      let (j, sum, found) = find_server-element servers current (k + 1) i later in
      (suc j, omega arith, found)
]

unlisted_server :
    (servers : List ServerAddress) (current : ServerAddress) (k : ℕ)
    → (find_server servers current k ≡ none) ↔ (has_node servers current ≡ false)
unfolding find_server has_node
unlisted_server [] current k = (λ h. refl, λ h. refl)
unlisted_server (s ∷ servers) current k = (
  λ h. ground (arith, unlisted_server servers current (k + 1)),
  λ h. ground (arith, unlisted_server servers current (k + 1)),
)

step_moves : (n i : ℕ) → 2 ≤ n → i < n → (i + 1) % n ≢ i
step_moves n i h l = elim (dec_lt (i + 1) n) [
  | yes p ↦ λ e. absurd (omega (arith, mod-eq_of_lt {n = i + 1} {m = n} p))
  | no p ↦
      let last : i + 1 ≡ n = omega arith in
      λ e. absurd (omega (arith, ap (λ k. k % n) last, mod_self n))
]

-- The general case of the random strategy.
random_steps :
    (random : ℕ) (servers : List ServerAddress) (current : Option ServerAddress)
    → 2 ≤ length servers
    → random_select random servers current ≡ (
        element servers (random % length servers) >>= λ first.
        element servers (
          if is_current current first && ltb 1 (length servers)
          then (random % length servers + 1) % length servers
          else random % length servers)
        >>= λ second. ok (some second))
unfolding random_select
random_steps random [] current h = absurd (omega arith)
random_steps random (s ∷ []) current h = absurd (omega arith)
random_steps random (s ∷ t ∷ servers) current h = refl

module _ (servers : List ServerAddress) (d : IsDistinct servers)
    (several : 2 ≤ length servers) where
  -- The neighbour of a server is there, and is another one.
  neighbour :
      (i : ℕ) (current : ServerAddress)
      → element servers i ≡ ok current
      → (next : ServerAddress) × (element servers ((i + 1) % length servers) ≡ ok next)
        × (has_node servers next ≡ true)
        × (next ≢ current)
  neighbour i current h =
      let (member, inside) = element-has_node servers i current h in
      let (next, there) =
        element_total servers ((i + 1) % length servers) (mod-lt (i + 1) (omega arith)) in
      (
        next,
        there,
        (element-has_node servers ((i + 1) % length servers) next there).0,
        λ e. step_moves (length servers) i several inside (
            element-IsDistinct servers ((i + 1) % length servers) i next d there
              (h ∙ ap ok (sym e))),
      )

  -- With two or more servers and the current one among them, the round-robin strategy returns the
  -- server behind it, around the end, which is another server, whatever the stored index; the stored
  -- index becomes that server's.
  pub round_robin_select_next :
      (index : ℕ) (current : ServerAddress)
      → has_node servers current ≡ true
      → (i : ℕ) × (next : ServerAddress) × (element servers i ≡ ok current)
        × (element servers ((i + 1) % length servers) ≡ ok next)
        × (round_robin_select index servers (some current)
            ≡ ok (some next, (i + 1) % length servers))
        × (has_node servers next ≡ true)
        × (next ≢ current)
  unfolding round_robin_select round_robin_from find_current
  round_robin_select_next index current h = elim (Option-cases (find_server servers current 0)) [
    | inl e ↦ absurd (ground (arith, unlisted_server servers current 0))
    | inr (i, e) ↦
        let (j, sum, here) = find_server-element servers current 0 i e in
        let same : i ≡ j = omega (arith, sum) in
        let there : element servers i ≡ ok current = ap (element servers) same ∙ here in
        let (next, read, member, other) = neighbour i current there in
        (i, next, there, read, ground (arith, e, read), member, other)
  ]

  -- With two or more servers the random strategy returns a server that is not the current one,
  -- whatever number is drawn.
  pub random_select_moves :
      (random : ℕ) (current : ServerAddress)
      → (next : ServerAddress) × (random_select random servers (some current) ≡ ok (some next))
        × (has_node servers next ≡ true)
        × (next ≢ current)
  unfolding is_current
  random_select_moves random current =
      let index : ℕ = random % length servers in
      let (first, read) = element_total servers index (mod-lt random (omega arith)) in
      elim (Bool-cases (same_address first current)) [
        | inl e ↦
            let here : first ≡ current = (same_address_iff first current).0 e in
            let (next, there, member, other) = neighbour index current (read ∙ ap ok here) in
            (
              next,
              random_steps random servers (some current) several ∙ ground (arith, read, there),
              member,
              other,
            )
        | inr e ↦ (
          first,
          random_steps random servers (some current) several ∙ ground (arith, read),
          (element-has_node servers index first read).0,
          ground (arith, same_address_iff first current),
        )
      ]

-- The stored index is not checked against the vector: when the servers are no more than the index,
-- at least one, and the current server is not among them, the round-robin strategy reads past the end.
pub round_robin_select_undefined :
    (index : ℕ) (servers : List ServerAddress) (current : Option ServerAddress)
    → 1 ≤ length servers
    → length servers ≤ index
    → ((c : ServerAddress) → current ≡ some c → has_node servers c ≡ false)
    → round_robin_select index servers current ≡ undefined
unfolding round_robin_select round_robin_from find_current
round_robin_select_undefined index servers none h l k = ground (arith, element_past servers index l)
round_robin_select_undefined index servers (some current) h l k =
    ground
      (arith, element_past servers index l, (unlisted_server servers current 0).1 (k current refl))

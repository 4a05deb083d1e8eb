-- ===== src/Retry/Counting.antt =====
-- How many servers a loop of src/examples/quickstart/retry.cpp has left to try.
use cpp17_client.Base.{
  ℕ, ◌+◌, ◌≤◌, ◌<◌, ◌≡◌, refl, arith, List, [], ◌∷◌, length, Bool-cases, true, false, ◌||◌,
  if◌then◌else◌, inl, inr,
}
use cpp17_client.Failure.{ServerAddress, same_address}
use cpp17_client.Failure.Axes.{same_address_iff}
use cpp17_client.Selection.{has_node}

-- The servers that are not excluded.
abbrev pub left : List ServerAddress → List ServerAddress → ℕ
left [] excluded = 0
left (s ∷ servers) excluded =
    let rest = left servers excluded in if has_node excluded s then rest else rest + 1

pub left_none : (servers : List ServerAddress) → left servers [] ≡ length servers
unfolding has_node
left_none [] = refl
left_none (s ∷ servers) = ground (arith, left_none servers)

pub left_some :
    (servers excluded : List ServerAddress) (a : ServerAddress)
    → has_node servers a ≡ true
    → has_node excluded a ≡ false
    → 1 ≤ left servers excluded
unfolding has_node
left_some [] excluded a h k = cc
left_some (s ∷ servers) excluded a h k = elim (Bool-cases (same_address s a)) [
  | inl same ↦ let e : s ≡ a = (same_address_iff s a).0 same in ground (arith, e)
  | inr other ↦ ground (arith, left_some servers excluded a)
]

-- With one more node.
unfoldable pub Adds : List ServerAddress → ServerAddress → List ServerAddress → Type 0
Adds excluded a excluded' =
    (n : ServerAddress) → has_node excluded' n ≡ (has_node excluded n || same_address a n)

left_less :
    (servers excluded excluded' : List ServerAddress) (a : ServerAddress)
    → Adds excluded a excluded'
    → left servers excluded' ≤ left servers excluded
unfolding Adds
left_less [] excluded excluded' a h = omega arith
left_less (s ∷ servers) excluded excluded' a h =
    ground (arith, h s, left_less servers excluded excluded' a h)

pub left_fewer :
    (servers excluded excluded' : List ServerAddress) (a : ServerAddress)
    → Adds excluded a excluded'
    → has_node servers a ≡ true
    → has_node excluded a ≡ false
    → left servers excluded' < left servers excluded
unfolding Adds has_node
left_fewer [] excluded excluded' a h m k = cc
left_fewer (s ∷ servers) excluded excluded' a h m k = elim (Bool-cases (same_address s a)) [
  | inl same ↦
      let e : s ≡ a = (same_address_iff s a).0 same in
      let own : same_address a a ≡ true = (same_address_iff a a).1 refl in
      ground (arith, e, h a, own, left_less servers excluded excluded' a h)
  | inr other ↦ ground (arith, h s, left_fewer servers excluded excluded' a h)
]

pub not_other_live :
    (excluded excluded' : List ServerAddress) (a live : ServerAddress)
    → Adds excluded a excluded'
    → same_address a live ≡ false
    → has_node excluded live ≡ false
    → has_node excluded' live ≡ false
unfolding Adds
not_other_live excluded excluded' a live h other k = ground (arith, h live)

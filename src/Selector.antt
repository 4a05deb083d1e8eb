-- ===== src/Selector.antt =====
-- src/selector/ServerSelector.cpp: the strategies that choose the server for a call.
pub mod Turns
mod Runs
use cpp17_client.Base.{ℕ, suc, ◌+◌, ◌%◌, List, [], ◌∷◌, length, Bool, true, false, ◌&&◌}
use cpp17_client.Base.{◌==◌, ltb, Option, none, some, if◌then◌else◌, Outcome, ok, element, ◌>>=◌}
use cpp17_client.Failure.{ServerAddress, same_address}

-- The index of the first server that equals `current`, counted from `i`.
unfoldable pub find_server : List ServerAddress → ServerAddress → ℕ → Option ℕ
find_server [] current i = none
find_server (s ∷ servers) current i =
    let rest = find_server servers current (i + 1) in
    if same_address s current then some i else rest

-- `if (currentServer)` and the loop behind it.
unfoldable pub find_current : List ServerAddress → Option ServerAddress → Option ℕ
unfolding find_server
find_current servers none = none
find_current servers (some current) = find_server servers current 0

-- The state is `currentIndex_`.
round_robin_from : ℕ → List ServerAddress → Option ℕ → Outcome (Option ServerAddress × ℕ)
round_robin_from index servers (some i) = do
  selected ← element servers ((i + 1) % length servers)
  ok (some selected, (i + 1) % length servers)
round_robin_from index servers none = do
  selected ← element servers index
  ok (some selected, (index + 1) % length servers)

unfoldable pub round_robin_select :
    ℕ → List ServerAddress → Option ServerAddress → Outcome (Option ServerAddress × ℕ)
unfolding round_robin_from find_current
round_robin_select index servers current =
    if length servers == 0
    then ok (none, index)
    else round_robin_from index servers (find_current servers current)

-- `RoundRobinSelector::reset`, which the constructor's index is, too.
abbrev pub reset : ℕ → ℕ
reset index = 0

-- `currentServer && s == *currentServer`.
unfoldable pub is_current : Option ServerAddress → ServerAddress → Bool
is_current none s = false
is_current (some current) s = same_address s current

-- `random` is what `std::rand()` returns.
unfoldable pub random_select :
    ℕ → List ServerAddress → Option ServerAddress → Outcome (Option ServerAddress)
unfolding is_current
random_select random [] current = ok none
random_select random (s ∷ []) current = ok (some s)
random_select random (s ∷ t ∷ servers) current =
    let all = s ∷ t ∷ servers in
    let index = random % length all in
    do
      first ← element all index
      second ← element all (
          if is_current current first && ltb 1 (length all)
          then (index + 1) % length all
          else index)
      ok (some second)

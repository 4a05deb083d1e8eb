-- ===== src/Calls/Api.antt =====
-- The operations of `RemoteCache` in src/operations/RemoteCache.cpp, and those of the view in
-- include/hotrod/RetryView.h. The durations and the flag that the header gives defaults are arguments.
use cpp17_client.Base.{ℕ, List, Bool, Option, Outcome}
use cpp17_client.Operations.{Operation}
use cpp17_client.Multiplex.{Multiplexer}
use cpp17_client.Cache.{Network, RemoteCache}
use cpp17_client.Calls.{RetryContext, no_context, Call, Connections, call}

-- What an operation leaves: the future or the exception, the connection's new state, and the cache's.
abbrev pub Answer : Type 0
Answer = Outcome ((Call × Option Multiplexer) × RemoteCache)

-- A cache at the time of a call, with its name.
pub record At : Type 0 where
  pub net : Network
  pub over : Connections
  pub cache : RemoteCache
  pub cache_name : List ℕ

unfoldable pub ping_impl : At → RetryContext → Answer
unfolding call
ping_impl at ctx = call at.net at.over at.cache (Operation.ping) at.cache_name ctx

unfoldable pub get_impl : At → List ℕ → RetryContext → Answer
unfolding call
get_impl at key ctx = call at.net at.over at.cache (Operation.get key) at.cache_name ctx

unfoldable pub get_with_metadata_impl : At → List ℕ → RetryContext → Answer
unfolding call
get_with_metadata_impl at key ctx =
    call at.net at.over at.cache (Operation.get_with_metadata key) at.cache_name ctx

unfoldable pub put_impl : At → List ℕ → List ℕ → ℕ → ℕ → Bool → RetryContext → Answer
unfolding call
put_impl at key content lifespan max_idle previous_value ctx =
    call at.net at.over at.cache (Operation.put key content lifespan max_idle previous_value)
      at.cache_name ctx

unfoldable pub put_if_absent_impl : At → List ℕ → List ℕ → ℕ → ℕ → Bool → RetryContext → Answer
unfolding call
put_if_absent_impl at key content lifespan max_idle previous_value ctx =
    call at.net at.over at.cache
      (Operation.put_if_absent key content lifespan max_idle previous_value) at.cache_name ctx

unfoldable pub replace_impl : At → List ℕ → List ℕ → ℕ → ℕ → Bool → RetryContext → Answer
unfolding call
replace_impl at key content lifespan max_idle previous_value ctx =
    call at.net at.over at.cache (Operation.replace key content lifespan max_idle previous_value)
      at.cache_name ctx

unfoldable pub contains_key_impl : At → List ℕ → RetryContext → Answer
unfolding call
contains_key_impl at key ctx =
    call at.net at.over at.cache (Operation.contains_key key) at.cache_name ctx

unfoldable pub remove_impl : At → List ℕ → Bool → RetryContext → Answer
unfolding call
remove_impl at key previous_value ctx =
    call at.net at.over at.cache (Operation.remove key previous_value) at.cache_name ctx

unfoldable pub remove_with_version_impl : At → List ℕ → ℕ → RetryContext → Answer
unfolding call
remove_with_version_impl at key version ctx =
    call at.net at.over at.cache (Operation.remove_with_version key version) at.cache_name ctx

unfoldable pub replace_with_version_impl : At → List ℕ → List ℕ → ℕ → ℕ → ℕ → RetryContext → Answer
unfolding call
replace_with_version_impl at key content version lifespan max_idle ctx =
    call at.net at.over at.cache
      (Operation.replace_with_version key content version lifespan max_idle) at.cache_name ctx

-- The operations of `RemoteCache` itself.
unfoldable pub ping : At → Answer
unfolding ping_impl
ping at = ping_impl at no_context

unfoldable pub get : At → List ℕ → Answer
unfolding get_impl
get at key = get_impl at key no_context

unfoldable pub get_with_metadata : At → List ℕ → Answer
unfolding get_with_metadata_impl
get_with_metadata at key = get_with_metadata_impl at key no_context

unfoldable pub put : At → List ℕ → List ℕ → ℕ → ℕ → Bool → Answer
unfolding put_impl
put at key content lifespan max_idle previous_value =
    put_impl at key content lifespan max_idle previous_value no_context

unfoldable pub put_if_absent : At → List ℕ → List ℕ → ℕ → ℕ → Bool → Answer
unfolding put_if_absent_impl
put_if_absent at key content lifespan max_idle previous_value =
    put_if_absent_impl at key content lifespan max_idle previous_value no_context

unfoldable pub replace : At → List ℕ → List ℕ → ℕ → ℕ → Bool → Answer
unfolding replace_impl
replace at key content lifespan max_idle previous_value =
    replace_impl at key content lifespan max_idle previous_value no_context

unfoldable pub contains_key : At → List ℕ → Answer
unfolding contains_key_impl
contains_key at key = contains_key_impl at key no_context

unfoldable pub remove : At → List ℕ → Bool → Answer
unfolding remove_impl
remove at key previous_value = remove_impl at key previous_value no_context

unfoldable pub remove_with_version : At → List ℕ → ℕ → Answer
unfolding remove_with_version_impl
remove_with_version at key version = remove_with_version_impl at key version no_context

unfoldable pub replace_with_version : At → List ℕ → List ℕ → ℕ → ℕ → ℕ → Answer
unfolding replace_with_version_impl
replace_with_version at key content version lifespan max_idle =
    replace_with_version_impl at key content version lifespan max_idle no_context

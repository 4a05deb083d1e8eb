-- ===== src/Calls/View.antt =====
-- include/hotrod/RetryView.h: the operations of a view, each with the view's context. What the view points to
-- is an argument: the cache at the time of the call.
use cpp17_client.Base.{ℕ, List, Bool}
use cpp17_client.Calls.{RetryContext}
use cpp17_client.Calls.Api.{
  At, Answer, ping_impl, get_impl, get_with_metadata_impl, put_impl, put_if_absent_impl,
  replace_impl, contains_key_impl, remove_impl, remove_with_version_impl, replace_with_version_impl,
}

pub record RetryView : Type 0 where
  pub ctx : RetryContext

unfoldable pub ping : RetryView → At → Answer
unfolding ping_impl
ping view at = ping_impl at view.ctx

unfoldable pub get : RetryView → At → List ℕ → Answer
unfolding get_impl
get view at key = get_impl at key view.ctx

unfoldable pub get_with_metadata : RetryView → At → List ℕ → Answer
unfolding get_with_metadata_impl
get_with_metadata view at key = get_with_metadata_impl at key view.ctx

unfoldable pub put : RetryView → At → List ℕ → List ℕ → ℕ → ℕ → Bool → Answer
unfolding put_impl
put view at key content lifespan max_idle previous_value =
    put_impl at key content lifespan max_idle previous_value view.ctx

unfoldable pub put_if_absent : RetryView → At → List ℕ → List ℕ → ℕ → ℕ → Bool → Answer
unfolding put_if_absent_impl
put_if_absent view at key content lifespan max_idle previous_value =
    put_if_absent_impl at key content lifespan max_idle previous_value view.ctx

unfoldable pub replace : RetryView → At → List ℕ → List ℕ → ℕ → ℕ → Bool → Answer
unfolding replace_impl
replace view at key content lifespan max_idle previous_value =
    replace_impl at key content lifespan max_idle previous_value view.ctx

unfoldable pub contains_key : RetryView → At → List ℕ → Answer
unfolding contains_key_impl
contains_key view at key = contains_key_impl at key view.ctx

unfoldable pub remove : RetryView → At → List ℕ → Bool → Answer
unfolding remove_impl
remove view at key previous_value = remove_impl at key previous_value view.ctx

unfoldable pub remove_with_version : RetryView → At → List ℕ → ℕ → Answer
unfolding remove_with_version_impl
remove_with_version view at key version = remove_with_version_impl at key version view.ctx

unfoldable pub replace_with_version : RetryView → At → List ℕ → List ℕ → ℕ → ℕ → ℕ → Answer
unfolding replace_with_version_impl
replace_with_version view at key content version lifespan max_idle =
    replace_with_version_impl at key content version lifespan max_idle view.ctx

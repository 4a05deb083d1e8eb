-- ===== src/Cache/Candidates.antt =====
-- The loop over the candidates of `selectServerForKey` in src/operations/RemoteCache.cpp.
use cpp17_client.Base.{
  ◌≡◌, refl, sym, ◌∙◌, arith, List, [], ◌∷◌, ◌++◌, true, ◌||◌, none, some, append_assoc, append-nil,
  Bool-cases, inl, inr, subst,
}
use cpp17_client.Failure.{ServerAddress}
use cpp17_client.Failure.Axes.{same_address_iff}
use cpp17_client.Selection.{has_node}
use cpp17_client.Cache.{Network, get_connection_for_server, try_candidates, all_attempted}

-- When no candidate is reached, all of them were tried.
pub tried_all :
    (net : Network) (pool tried candidates : List ServerAddress)
    → (try_candidates net pool tried candidates).found ≡ none
    → (try_candidates net pool tried candidates).tried ≡ tried ++ candidates
unfolding try_candidates
tried_all net pool tried [] h = sym (append-nil tried)
tried_all net pool tried (cand ∷ candidates) h = ground (
  arith,
  tried_all net (get_connection_for_server net pool cand).1 (tried ++ (cand ∷ [])) candidates,
  append_assoc tried (cand ∷ []) candidates,
)

pub attempted_owners :
    (tried exclude owners : List ServerAddress)
    → ((o : ServerAddress)
        → has_node owners o ≡ true
        → (has_node tried o || has_node exclude o) ≡ true)
    → all_attempted tried exclude owners ≡ true
unfolding all_attempted has_node
attempted_owners tried exclude [] h = refl
attempted_owners tried exclude (o ∷ owners) h = ground (
  arith,
  h o (ground (arith, same_address_iff o o)),
  attempted_owners tried exclude owners (λ p k. h p (ground arith)),
)

pooled_connection :
    (net : Network) (pool : List ServerAddress) (a : ServerAddress)
    → (get_connection_for_server net pool a).0 ≡ true
    → has_node (get_connection_for_server net pool a).1 a ≡ true
unfolding get_connection_for_server has_node
pooled_connection net pool a h = ground (arith, same_address_iff a a)

-- The loop over the candidates returns a candidate that is in the pool then, and the nodes tried are
-- the candidates up to it.
pub try_candidates_found :
    (net : Network) (pool tried candidates : List ServerAddress) (a : ServerAddress)
    → (try_candidates net pool tried candidates).found ≡ some a
    → ((rest : List ServerAddress) × ((try_candidates net pool tried candidates).tried ++ rest
          ≡ tried ++ candidates))
      × (has_node candidates a ≡ true)
      × (has_node (try_candidates net pool tried candidates).pool a ≡ true)
unfolding try_candidates has_node
try_candidates_found net pool tried [] a h = cc
try_candidates_found net pool tried (cand ∷ candidates) a h =
    elim (Bool-cases (get_connection_for_server net pool cand).0) [
      | inl e ↦
          let here : cand ≡ a = ground arith in
          rw e (
            (candidates, append_assoc tried (cand ∷ []) candidates),
            ground (arith, same_address_iff cand a),
            subst (λ x. has_node (get_connection_for_server net pool cand).1 x ≡ true) here
                (pooled_connection net pool cand e),
          )
      | inr e ↦
          let later : (try_candidates net (get_connection_for_server net pool cand).1
                (tried ++ (cand ∷ [])) candidates).found
              ≡ some a =
            ground arith in
          let ((rest, split), member, kept) =
            try_candidates_found net (get_connection_for_server net pool cand).1
              (tried ++ (cand ∷ [])) candidates a later in
          rw e (
            (rest, split ∙ append_assoc tried (cand ∷ []) candidates),
            ground (arith, member),
            kept,
          )
    ]

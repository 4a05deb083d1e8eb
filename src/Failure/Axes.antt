-- ===== src/Failure/Axes.antt =====
-- How `isTransient` and `outcomeUncertain` of include/hotrod/HotRodClientException.h relate, and
-- equality of addresses.
use cpp17_client.Base.{
  ℕ, ◌≡◌, ◌↔◌, ◌⊎◌, inl, refl, arith, List, [], ◌∷◌, true, false, some, none, Option,
}
use cpp17_client.Failure.{
  FailurePhase, before_send, after_send, server_error, HotRodClientException, ServerAddress,
  same_bytes, same_address,
}
use cpp17_client.Failure.{
  is_transient, outcome_uncertain, is_transient_status, phase_is_transient, phase_is_uncertain,
  has_status,
}

uncertain_phase :
    (p : FailurePhase) (s : Option ℕ)
    → phase_is_uncertain p s ≡ true
    → phase_is_transient p s ≡ true
unfolding phase_is_uncertain phase_is_transient has_status is_transient_status
uncertain_phase before_send s h = cc
uncertain_phase after_send s h = refl
uncertain_phase server_error none h = cc
uncertain_phase server_error (some s) h = ground arith

-- A failure after which the operation may have been applied is always worth a retry.
pub outcome_uncertain-is_transient :
    (e : HotRodClientException) → outcome_uncertain e ≡ true → is_transient e ≡ true
unfolding outcome_uncertain is_transient
outcome_uncertain-is_transient e h = uncertain_phase e.phase e.server_status h

certain_phase :
    (p : FailurePhase) (s : Option ℕ)
    → phase_is_transient p s ≡ true
    → phase_is_uncertain p s ≡ false
    → (p ≡ before_send) ⊎ ((p ≡ server_error) × ((s ≡ some 0x87) ⊎ (s ≡ some 0x88)))
unfolding phase_is_uncertain phase_is_transient has_status is_transient_status
certain_phase before_send s h k = inl refl
certain_phase after_send s h k = cc
certain_phase server_error none h k = cc
certain_phase server_error (some s) h k = ground arith

-- A failure that is worth a retry and whose outcome is certain happened before anything was sent, or
-- is the server's answer that a node is suspected (0x87) or starting or stopping (0x88).
pub is_transient_certain :
    (e : HotRodClientException)
    → is_transient e ≡ true
    → outcome_uncertain e ≡ false
    → (e.phase ≡ before_send)
      ⊎ ((e.phase ≡ server_error) × ((e.server_status ≡ some 0x87) ⊎ (e.server_status ≡ some 0x88)))
unfolding outcome_uncertain is_transient
is_transient_certain e h k = certain_phase e.phase e.server_status h k

pub same_bytes_iff : (xs ys : List ℕ) → (same_bytes xs ys ≡ true) ↔ (xs ≡ ys)
unfolding same_bytes
same_bytes_iff [] [] = (λ h. refl, λ h. refl)
same_bytes_iff [] (y ∷ ys) = (λ h. cc, λ h. cc)
same_bytes_iff (x ∷ xs) [] = (λ h. cc, λ h. cc)
same_bytes_iff (x ∷ xs) (y ∷ ys) =
    (λ h. ground (arith, same_bytes_iff xs ys), λ h. ground (arith, same_bytes_iff xs ys))

pub same_address_iff : (a b : ServerAddress) → (same_address a b ≡ true) ↔ (a ≡ b)
unfolding same_address
same_address_iff a b = (
  λ h. ground (arith, same_bytes_iff a.host b.host),
  λ h. ground (arith, same_bytes_iff a.host b.host),
)

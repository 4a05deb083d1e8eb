-- ===== src/Sasl/Calls.antt =====
-- The calls that src/auth/SaslAuthenticator.cpp is made of, which may throw: their chains and their effects on
-- a session.
use cpp17_client.Base.{ℕ, List, Bool, if◌then◌else◌}
use cpp17_client.Base.{Outcome, ok, err, undefined}
use cpp17_client.Base.Readers.{Reader}
use cpp17_client.Failure.{Thrown, plain}

pub record Session : Type 0 where
  pub offset : ℕ
  pub next_message_id : ℕ
  pub sent : List (List ℕ)

-- A call returns, or throws, when only what was sent is left of the session.
pub data Verdict {ℓ} (A : Type ℓ) : Type ℓ where
  returned : A → Session → Verdict A
  raised : Thrown → List (List ℕ) → Verdict A
  broken : Verdict A

abbrev pub Call {ℓ} : Type ℓ → Type ℓ
Call A = List ℕ → Session → Verdict A

abbrev pub carry_on {ℓ κ} :
    {A : Type ℓ} {B : Type κ} → Verdict A → (A → Session → Verdict B) → Verdict B
carry_on (returned a s) next = next a s
carry_on (raised e sent) next = raised e sent
carry_on broken next = broken

infixl 5 ◌>>=◌
unfoldable pub ◌>>=◌ {ℓ κ} : {A : Type ℓ} {B : Type κ} → Call A → (A → Call B) → Call B
(first >>= next) buffer s = carry_on (first buffer s) (λ a t. next a buffer t)

infixl 5 ◌>>◌
unfoldable pub ◌>>◌ {ℓ} : {B : Type ℓ} → Call (Unit {0}) → Call B → Call B
unfolding ◌>>=◌
first >> next = first >>= λ _. next

unfoldable pub done {ℓ} : {A : Type ℓ} → A → Call A
done a buffer s = returned a s

unfoldable pub raise {ℓ} : {A : Type ℓ} → Thrown → Call A
raise e buffer s = raised e s.sent

unfoldable pub raise_if : Bool → Thrown → Call (Unit {0})
unfolding raise done
raise_if c e = if c then raise e else done tt

abbrev pub moved {ℓ} : {A : Type ℓ} → Session → Outcome (A × ℕ) → Verdict A
moved s (ok (a, offset)) =
    returned a (record { offset = offset; next_message_id = s.next_message_id; sent = s.sent })
moved s (err e) = raised (plain e) s.sent
moved s undefined = broken

-- What the socket's readers throw goes through as it is.
unfoldable pub read {ℓ} : {A : Type ℓ} → Reader A → Call A
read r buffer s = moved s (r buffer s.offset)

-- A function that throws `std::runtime_error`, called outside a `try`.
unfoldable pub lift {ℓ} : {A : Type ℓ} → Outcome A → Call A
lift (ok a) buffer s = returned a s
lift (err e) buffer s = raised (plain e) s.sent
lift undefined buffer s = broken

-- The same call inside a `try` whose `catch` throws `e`.
unfoldable pub lift_or {ℓ} : {A : Type ℓ} → Thrown → Outcome A → Call A
lift_or e (ok a) buffer s = returned a s
lift_or e (err x) buffer s = raised e s.sent
lift_or e undefined buffer s = broken

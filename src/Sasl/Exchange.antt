-- ===== src/Sasl/Exchange.antt =====
-- The calls of src/auth/SaslAuthenticator.cpp one by one: what a call returns with when the peer sends
-- the bytes that it reads.
use cpp17_client.Base.{
  ℕ, ◌+◌, ◌%◌, ◌^◌, ◌≡◌, refl, List, [], ◌∷◌, ◌++◌, length, append_assoc, append-nil, Bool, true,
  false, Outcome, ok, err, undefined,
}
use cpp17_client.Base.Readers.{Reader, Takes}
use cpp17_client.Failure.{Thrown}
use cpp17_client.Sasl.{Authenticator, send_request, frame_of}
use cpp17_client.Sasl.Calls.{
  Session, Verdict, returned, raised, broken, Call, carry_on, ◌>>=◌, ◌>>◌, done, raise, raise_if,
  read, lift, lift_or,
}

-- The message id of the next request and the frames that were sent.
abbrev pub Sent : Type 0
Sent = ℕ × List (List ℕ)

abbrev pub session : ℕ → Sent → Session
session offset (id, sent) = record { offset = offset; next_message_id = id; sent = sent }

-- The call reads these bytes and no others, returns with `a`, and sends what `out` adds.
pub record Completes {ℓ} {A : Type ℓ} (c : Call A) (g : List ℕ) (a : A) (out : Sent → Sent)
    : Type ℓ where
  pub apply :
      (front rest : List ℕ) (x : Sent)
      → c (front ++ (g ++ rest)) (session (length front) x)
        ≡ returned a (session (length (front ++ g)) (out x))

abbrev pub silent : Sent → Sent
silent x = x

pub Completes-done {ℓ} : {A : Type ℓ} (a : A) → Completes (done a) [] a silent
unfolding done
Completes-done a = record { apply = λ front rest x. rw append-nil refl }

pub Completes-read {ℓ} :
    {A : Type ℓ} {r : Reader A} {g : List ℕ} {a : A} → Takes r g a → Completes (read r) g a silent
unfolding read
Completes-read t = record { apply = λ front rest x. rw (t.apply front rest) refl }

pub Completes-lift {ℓ} :
    {A : Type ℓ} {o : Outcome A} {a : A} → o ≡ ok a → Completes (lift o) [] a silent
unfolding lift
Completes-lift e = record { apply = λ front rest x. rw (e, append-nil) refl }

pub Completes-lift_or {ℓ} :
    {A : Type ℓ} {o : Outcome A} {a : A} (x : Thrown)
    → o ≡ ok a
    → Completes (lift_or x o) [] a silent
unfolding lift_or
Completes-lift_or x e = record { apply = λ front rest y. rw (e, append-nil) refl }

pub Completes-raise_if : {c : Bool} (e : Thrown) → c ≡ false → Completes (raise_if c e) [] tt silent
unfolding raise_if done
Completes-raise_if e h = record { apply = λ front rest x. rw (h, append-nil) refl }

pub Completes-bind {ℓ κ} :
    {A : Type ℓ} {B : Type κ} {c : Call A} {g g' : List ℕ} {a : A} {b : B} {out out' : Sent → Sent}
    (k : A → Call B)
    → Completes c g a out
    → Completes (k a) g' b out'
    → Completes (c >>= k) (g ++ g') b (λ x. out' (out x))
unfolding ◌>>=◌
Completes-bind {g} {g'} {out} k h h' = record {
  apply = λ front rest x.
      rw (append_assoc, h.apply front (g' ++ rest) x)
        (simp append_assoc at (h'.apply (front ++ g) rest (out x)));
}

pub Completes-then {κ} :
    {B : Type κ} {c : Call (Unit {0})} {k : Call B} {g g' : List ℕ} {b : B} {out out' : Sent → Sent}
    → Completes c g tt out
    → Completes k g' b out'
    → Completes (c >> k) (g ++ g') b (λ x. out' (out x))
unfolding ◌>>◌
Completes-then {k} h h' = Completes-bind (λ _. k) h h'

-- What sending a frame adds.
abbrev pub with_frame : Authenticator → ℕ → List ℕ → Sent → Sent
with_frame a opcode body (id, sent) = ((id + 1) % 2 ^ 64, sent ++ (frame_of a id opcode body ∷ []))

pub Completes-send_request :
    (a : Authenticator) (opcode : ℕ) (body : List ℕ)
    → ((frame : List ℕ) → a.sends frame ≡ true)
    → Completes (send_request a opcode body) [] tt (with_frame a opcode body)
unfolding send_request
Completes-send_request a opcode body h = record {
  apply = λ front rest x. rw (h (frame_of a x.0 opcode body), append-nil) refl;
}

-- A chain of calls that returned passed through a value of its first call.
pub carry_returned {ℓ κ} :
    {A : Type ℓ} {B : Type κ} (first : Verdict A) (next : A → Session → Verdict B) {b : B}
    {t : Session}
    → carry_on first next ≡ returned b t
    → (a : A) × (s : Session) × (first ≡ returned a s) × (next a s ≡ returned b t)
carry_returned (returned a s) next h = (a, s, refl, h)
carry_returned (raised e sent) next h = cc
carry_returned broken next h = cc

pub raise_if-returned :
    (c : Bool) (e : Thrown) (buffer : List ℕ) (s t : Session)
    → raise_if c e buffer s ≡ returned tt t
    → c ≡ false
unfolding raise_if raise done
raise_if-returned true e buffer s t h = cc
raise_if-returned false e buffer s t h = refl

pub lift-returned {ℓ} :
    {A : Type ℓ} (o : Outcome A) (buffer : List ℕ) (s t : Session) {a : A}
    → lift o buffer s ≡ returned a t
    → o ≡ ok a
unfolding lift
lift-returned (ok x) buffer s t h = cc
lift-returned (err e) buffer s t h = cc
lift-returned undefined buffer s t h = cc

pub lift_or-returned {ℓ} :
    {A : Type ℓ} (e : Thrown) (o : Outcome A) (buffer : List ℕ) (s t : Session) {a : A}
    → lift_or e o buffer s ≡ returned a t
    → o ≡ ok a
unfolding lift_or
lift_or-returned e (ok x) buffer s t h = cc
lift_or-returned e (err x) buffer s t h = cc
lift_or-returned e undefined buffer s t h = cc

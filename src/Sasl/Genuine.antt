-- ===== src/Sasl/Genuine.antt =====
-- `SaslAuthenticator::authenticate` against a server that follows the protocol and RFC 5802.
use cpp17_client.Base.{
  ℕ, ◌^◌, ◌<◌, ◌≡◌, refl, ap, subst, List, [], ◌∷◌, ◌++◌, length, All, Bool, true, false, not, ◌==◌,
  ◌||◌, none, some, append-nil,
}
use cpp17_client.Base.Readers.{Takes, Takes-return, Takes-next_byte}
use cpp17_client.Failure.{same_bytes, FailurePhase}
use cpp17_client.Header.{ClientIntelligence, response_magic}
use cpp17_client.Codec.Septets.{septets}
use cpp17_client.Codec.Framing.{counted}
use cpp17_client.Stream.{closed}
use cpp17_client.Stream.Receiving.{
  Takes-receive_vint, Takes-receive_vlong, Takes-receive_byte_array,
}
use cpp17_client.Multiplex.Reading.{error_response, receive_topology}
use cpp17_client.Auth.Bodies.{IsShort, name_bytes}
use cpp17_client.Scram.{without_proof, proof_mark}
use cpp17_client.Scram.Parsing.{IsPlain}
use cpp17_client.Sasl.{
  Authenticator, failure, refuse_error, read_response_header, read_offers, check_offered, read_auth,
  starts_with, before_proof, auth_mech_list_request, auth_mech_list_response, auth_response,
}
use cpp17_client.Sasl.Exchange.{
  Completes, silent, Completes-done, Completes-read, Completes-raise_if, Completes-bind,
  Completes-then, with_frame, Completes-send_request,
}

-- A response header without an error and without a topology.
abbrev pub header_bytes : ℕ → ℕ → List ℕ
header_bytes id opcode = response_magic ∷ septets 9 id ++ (opcode ∷ 0 ∷ 0 ∷ [])

-- The body of a mechanism list, and of a response to an authentication request.
abbrev pub list_bytes : List (List ℕ) → List ℕ
list_bytes names = septets 4 (length names) ++ name_bytes names

abbrev pub auth_bytes : ℕ → List ℕ → List ℕ
auth_bytes flag challenge = flag ∷ counted challenge

Takes-no_topology : (i : ClientIntelligence) → Takes (receive_topology i 0) [] none
unfolding receive_topology
Takes-no_topology i = Takes-return none

module _ (a : Authenticator) where
  Completes-refuse_error :
      (opcode status : ℕ)
      → (opcode == error_response) ≡ false
      → Completes (refuse_error a opcode status) [] tt silent
  unfolding refuse_error
  Completes-refuse_error opcode status h = rw h (Completes-done tt)

  pub Completes-read_response_header :
      (id opcode : ℕ)
      → id < 2 ^ 64
      → (opcode == error_response) ≡ false
      → Completes (read_response_header a) (header_bytes id opcode) opcode silent
  unfolding read_response_header
  Completes-read_response_header id opcode h k =
      Completes-bind _ (Completes-read (Takes-next_byte closed response_magic)) (
        Completes-then (Completes-raise_if (failure a FailurePhase.after_send none) refl) (
          Completes-bind _ (Completes-read (Takes-receive_vlong id h)) (
            Completes-bind _ (Completes-read (Takes-next_byte closed opcode)) (
              Completes-bind _ (Completes-read (Takes-next_byte closed 0)) (
                Completes-bind _ (Completes-read (Takes-next_byte closed 0)) (
                  Completes-bind _ (Completes-read (Takes-no_topology a.intelligence)) (
                    Completes-then (Completes-refuse_error opcode 0 k) (
                      Completes-then
                        (Completes-raise_if (failure a FailurePhase.server_error (some 0)) refl)
                        (Completes-done opcode)))))))))

  -- Whether the mechanism is among the names.
  abbrev pub is_listed : List (List ℕ) → Bool
  is_listed [] = false
  is_listed (name ∷ names) = same_bytes name a.mechanism || is_listed names

  or_assoc : (x y z : Bool) → ((x || y) || z) ≡ (x || (y || z))
  or_assoc true y z = refl
  or_assoc false y z = refl

  or_false : (x : Bool) → (x || false) ≡ x
  or_false true = refl
  or_false false = refl

  pub Completes-read_offers :
      (names : List (List ℕ)) (offered : Bool)
      → All IsShort names
      → Completes
          (read_offers a (length names) offered)
          (name_bytes names)
          (offered || is_listed names)
          silent
  unfolding read_offers name_bytes
  Completes-read_offers [] offered h = rw (or_false offered) (Completes-done offered)
  Completes-read_offers (name ∷ names) offered (h, hs) =
      subst
        (λ b.
          Completes (read_offers a (length (name ∷ names)) offered) (name_bytes (name ∷ names)) b
            silent)
        (or_assoc offered (same_bytes name a.mechanism) (is_listed names))
        (Completes-bind _ (Completes-read (Takes-receive_byte_array name h))
          (Completes-read_offers names (offered || same_bytes name a.mechanism) hs))

  pub Completes-check_offered :
      (id : ℕ) (names : List (List ℕ))
      → ((frame : List ℕ) → a.sends frame ≡ true)
      → id < 2 ^ 64
      → length names < 2 ^ 32
      → All IsShort names
      → is_listed names ≡ true
      → Completes
          (check_offered a)
          (header_bytes id auth_mech_list_response ++ list_bytes names)
          tt
          (with_frame a auth_mech_list_request [])
  unfolding check_offered
  Completes-check_offered id names sends h k l listed =
      subst
        (λ g.
          Completes (check_offered a) (header_bytes id auth_mech_list_response ++ g) tt
            (with_frame a auth_mech_list_request []))
        (ap (λ g. septets 4 (length names) ++ g) (append-nil (name_bytes names)))
        (Completes-then (Completes-send_request a auth_mech_list_request [] sends) (
          Completes-bind _ (Completes-read_response_header id auth_mech_list_response h refl) (
            Completes-then (Completes-raise_if (failure a FailurePhase.after_send none) refl) (
              Completes-bind _ (Completes-read (Takes-receive_vint (length names) k)) (
                Completes-bind _ (Completes-read_offers names false l) (
                  Completes-raise_if (failure a FailurePhase.after_send none)
                    (ap (λ b. not b) listed)))))))

  pub Completes-read_auth :
      (id flag : ℕ) (challenge : List ℕ)
      → id < 2 ^ 64
      → IsShort challenge
      → Completes
          (read_auth a)
          (header_bytes id auth_response ++ auth_bytes flag challenge)
          (not (flag == 0), challenge)
          silent
  unfolding read_auth
  Completes-read_auth id flag challenge h k =
      subst
        (λ g.
          Completes (read_auth a) (header_bytes id auth_response ++ (flag ∷ g))
            (not (flag == 0), challenge) silent)
        (append-nil (counted challenge))
        (Completes-bind _ (Completes-read_response_header id auth_response h refl) (
          Completes-then (Completes-raise_if (failure a FailurePhase.after_send none) refl) (
            Completes-bind _ (Completes-read (Takes-next_byte closed flag)) (
              Completes-bind _ (Completes-read (Takes-receive_byte_array challenge k))
                (Completes-done (not (flag == 0), challenge))))))

-- The text in front of the first ",p=".
before_proof_plain :
    (text proof : List ℕ) → IsPlain text → before_proof (text ++ (proof_mark ++ proof)) ≡ text
unfolding before_proof starts_with
before_proof_plain [] proof h = refl
before_proof_plain (c ∷ text) proof (h, hs) = rw (h, before_proof_plain text proof hs) refl

pub before_proof-without_proof :
    (nonce proof : List ℕ)
    → IsPlain nonce
    → before_proof (without_proof nonce ++ (proof_mark ++ proof)) ≡ without_proof nonce
unfolding before_proof starts_with
before_proof-without_proof nonce proof h = rw (before_proof_plain nonce proof h) refl

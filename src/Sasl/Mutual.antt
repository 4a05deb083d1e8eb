-- ===== src/Sasl/Mutual.antt =====
-- The whole of `SaslAuthenticator::authenticate` of src/auth/SaslAuthenticator.cpp against a server that
-- follows the protocol and RFC 5802.
use cpp17_client.Base.{
  ℕ, ◌^◌, ◌<◌, ◌≡◌, refl, ap, ◌∙◌, subst, List, [], ◌++◌, length, All, true, false, not, none, some,
  ok, append-nil,
}
use cpp17_client.Failure.{FailurePhase}
use cpp17_client.Auth.{encode_auth_request_body}
use cpp17_client.Auth.Bodies.{IsShort}
use cpp17_client.Scram.{
  Digest, ServerFirst, digest_for_mechanism, generate_nonce, nonce_length,
  create_client_first_message, parse_server_first_message, create_client_final_message,
  verify_server_final_message, without_proof, proof_mark, auth_message_of, is_empty,
  client_first_bare,
}
use cpp17_client.Scram.Parsing.{parse_server_first_message-IsPlain}
use cpp17_client.Scram.Proofs.{
  Keys, AreBytes, IsSigned, server_accepts, create_client_final_message-server_accepts,
  verify_server_final_message-IsSigned,
}
use cpp17_client.Sasl.{
  Authenticator, failure, send_auth, starts_with, before_proof, first_turn, second_turn, exchange,
  authenticate, auth_mech_list_request, auth_mech_list_response, auth_request, auth_response,
}
use cpp17_client.Sasl.Exchange.{
  Completes, Completes-done, Completes-lift, Completes-lift_or, Completes-raise_if, Completes-bind,
  Completes-then, with_frame, Completes-send_request, Sent,
}
use cpp17_client.Sasl.Genuine.{
  header_bytes, list_bytes, auth_bytes, is_listed, Completes-check_offered, Completes-read_auth,
  before_proof-without_proof,
}

abbrev pub nothing_parsed : ServerFirst
nothing_parsed = record { nonce = []; salt = []; iterations = 0 }

-- What sending a token adds.
abbrev pub with_token : Authenticator → List ℕ → Sent → Sent
with_token a token = with_frame a auth_request (encode_auth_request_body a.mechanism token)

-- A server's side of an exchange, and what the primitives return in it. `first` is what the client is to
-- take out of the server's first message.
pub record Server (a : Authenticator) : Type 0 where
  pub digest : Digest
  pub nonce : List ℕ
  pub names : List (List ℕ)
  pub list_id : ℕ
  pub first_id : ℕ
  pub final_id : ℕ
  pub final_flag : ℕ
  pub server_first : List ℕ
  pub server_final : List ℕ
  pub first : ServerFirst
  pub client_signature : List ℕ
  pub signature : List ℕ

-- The text that both sides sign.
abbrev pub signed_text : {a : Authenticator} → Server a → List ℕ
signed_text {a} v =
    auth_message_of (client_first_bare a.username v.nonce) v.server_first
      (without_proof v.first.nonce)

-- The server offers the mechanism, extends the client's nonce, knows the keys of the password, and signs.
pub record IsGenuine (a : Authenticator) (v : Server a) : Type 0 where
  pub supported : digest_for_mechanism a.mechanism ≡ ok v.digest
  pub drawn : generate_nonce a.crypto nonce_length ≡ ok v.nonce
  pub sends : (frame : List ℕ) → a.sends frame ≡ true
  pub ids : (v.list_id < 2 ^ 64) × (v.first_id < 2 ^ 64) × (v.final_id < 2 ^ 64)
  pub names_few : length v.names < 2 ^ 32
  pub names_short : All IsShort v.names
  pub listed : is_listed a v.names ≡ true
  pub first_short : IsShort v.server_first
  pub final_short : IsShort v.server_final
  pub parsed : parse_server_first_message v.server_first nothing_parsed ≡ ok v.first
  pub extends : starts_with v.first.nonce v.nonce ≡ true
  pub keys : Keys a.crypto a.password v.first.salt v.first.iterations v.digest
  pub client_signed :
      a.crypto.hmac_of v.digest keys.stored_key (signed_text v) ≡ some v.client_signature
  pub one_length : length keys.client_key ≡ length v.client_signature
  pub key_bytes : AreBytes keys.client_key
  pub signature_bytes : AreBytes v.client_signature
  pub server_signed : a.crypto.hmac_of v.digest keys.server_key (signed_text v) ≡ some v.signature
  pub final_signed : IsSigned a.crypto v.signature v.server_final

-- The bytes of the server's three responses.
abbrev pub first_bytes : {a : Authenticator} → Server a → List ℕ
first_bytes v = header_bytes v.first_id auth_response ++ auth_bytes 0 v.server_first

abbrev pub final_bytes : {a : Authenticator} → Server a → List ℕ
final_bytes v = header_bytes v.final_id auth_response ++ auth_bytes v.final_flag v.server_final

abbrev pub server_bytes : {a : Authenticator} → Server a → List ℕ
server_bytes v =
    (header_bytes v.list_id auth_mech_list_response ++ list_bytes v.names)
    ++ (first_bytes v ++ final_bytes v)

-- The client's three requests, the last one with its proof.
abbrev pub client_requests : (a : Authenticator) → Server a → List ℕ → Sent → Sent
client_requests a v proof x =
    with_token a (without_proof v.first.nonce ++ (proof_mark ++ a.crypto.encoded proof)) (
      with_token a (create_client_first_message a.username v.nonce)
        (with_frame a auth_mech_list_request [] x))

module _ {a : Authenticator} {v : Server a} (h : IsGenuine a v) where
  Completes-first_turn :
      Completes
        (first_turn a v.nonce (create_client_first_message a.username v.nonce))
        (first_bytes v)
        (v.server_first, v.first)
        (with_token a (create_client_first_message a.username v.nonce))
  unfolding first_turn send_auth
  Completes-first_turn =
      subst
        (λ g.
          Completes (first_turn a v.nonce (create_client_first_message a.username v.nonce)) g
            (v.server_first, v.first)
            (with_token a (create_client_first_message a.username v.nonce)))
        (append-nil (first_bytes v))
        (Completes-then (Completes-send_request a auth_request _ h.sends) (
          Completes-bind _ (Completes-read_auth a v.first_id 0 v.server_first h.ids.1 h.first_short)
            (Completes-then (Completes-raise_if (failure a FailurePhase.server_error none) refl) (
              Completes-bind _
                (Completes-lift_or (failure a FailurePhase.server_error none) h.parsed)
                (Completes-then
                  (Completes-raise_if (failure a FailurePhase.server_error none)
                    (ap (λ b. not b) h.extends))
                  (Completes-done (v.server_first, v.first)))))))

  final_not_empty : is_empty v.server_final ≡ false
  final_not_empty = let (text, e, d) = h.final_signed in ap (λ t. is_empty t) e

  verified :
      (proof : List ℕ)
      → verify_server_final_message a.crypto v.server_final a.password
          (auth_message_of
            (client_first_bare a.username v.nonce)
            v.server_first
            (before_proof (without_proof v.first.nonce ++ (proof_mark ++ proof))))
          v.first.salt
          v.first.iterations
          v.digest
        ≡ ok true
  verified proof =
      let plain =
        parse_server_first_message-IsPlain v.server_first nothing_parsed v.first tt h.parsed in
      ap
        (λ t.
          verify_server_final_message a.crypto v.server_final a.password
            (auth_message_of (client_first_bare a.username v.nonce) v.server_first t) v.first.salt
            v.first.iterations v.digest)
        (before_proof-without_proof v.first.nonce proof plain)
      ∙ (verify_server_final_message-IsSigned h.keys (signed_text v) v.signature v.server_final
            h.server_signed).1
          h.final_signed

  Completes-second_turn :
      (proof : List ℕ)
      → create_client_final_message a.crypto a.password
          (client_first_bare a.username v.nonce)
          v.server_first
          v.first
          v.digest
        ≡ ok (without_proof v.first.nonce ++ (proof_mark ++ a.crypto.encoded proof))
      → Completes
          (second_turn a v.digest (client_first_bare a.username v.nonce) v.server_first v.first)
          (final_bytes v)
          tt
          (with_token a (without_proof v.first.nonce ++ (proof_mark ++ a.crypto.encoded proof)))
  unfolding second_turn send_auth
  Completes-second_turn proof e =
      subst
        (λ g.
          Completes
            (second_turn a v.digest (client_first_bare a.username v.nonce) v.server_first v.first) g
            tt
            (with_token a (without_proof v.first.nonce ++ (proof_mark ++ a.crypto.encoded proof))))
        (append-nil (final_bytes v))
        (Completes-bind _ (Completes-lift e) (
          Completes-then (Completes-send_request a auth_request _ h.sends) (
            Completes-bind _
              (Completes-read_auth a v.final_id v.final_flag v.server_final h.ids.2 h.final_short)
              (Completes-then
                (Completes-raise_if (failure a FailurePhase.server_error none) final_not_empty)
                (Completes-bind _ (Completes-lift (verified (a.crypto.encoded proof)))
                  (Completes-raise_if (failure a FailurePhase.server_error none) refl))))))

-- Against a genuine server the handshake succeeds: `authenticate` reads the server's three responses to
-- their last byte, sends three requests, and returns; and the proof in the last request is one that the
-- server, which has the stored key, accepts.
pub authenticate-IsGenuine :
    {a : Authenticator} (v : Server a) (h : IsGenuine a v)
    → (proof : List ℕ) × Completes (authenticate a) (server_bytes v) tt (client_requests a v proof)
      × (server_accepts a.crypto h.keys.stored_key (signed_text v) proof v.digest ≡ ok true)
unfolding authenticate exchange create_client_first_message
authenticate-IsGenuine {a} v h =
    let (proof, created, accepted) =
      create_client_final_message-server_accepts v.first (client_first_bare a.username v.nonce)
        v.server_first v.client_signature h.keys h.client_signed h.one_length h.key_bytes
        h.signature_bytes in
    (
      proof,
      Completes-bind _ (Completes-lift_or (failure a FailurePhase.before_send none) h.supported) (
          Completes-then
            (Completes-check_offered a v.list_id v.names h.sends h.ids.0 h.names_few h.names_short
              h.listed)
            (Completes-bind _ (Completes-lift h.drawn)
              (Completes-bind _ (Completes-first_turn h) (Completes-second_turn h proof created)))),
      accepted,
    )

-- ===== src/Sasl/Outcomes.antt =====
-- How `SaslAuthenticator::authenticate` of src/auth/SaslAuthenticator.cpp ends.
use cpp17_client.Base.{
  ℕ, ◌≡◌, refl, sym, ap, ◌∙◌, subst, List, [], ◌∷◌, ◌++◌, drop_all, length, Bool, true, false, not,
  none, ok, err, Error,
}
use cpp17_client.Failure.{FailurePhase, plain}
use cpp17_client.Stream.{closed}
use cpp17_client.Base.Readers.{next_byte, byte_of}
use cpp17_client.Scram.{
  Digest, ServerFirst, digest_for_mechanism, generate_nonce, nonce_length,
  create_client_first_message, client_first_bare, parse_server_first_message,
  create_client_final_message, verify_server_final_message, without_proof, auth_message_of,
  is_empty,
}
use cpp17_client.Scram.Parsing.{parse_server_first_message-IsPlain}
use cpp17_client.Scram.Proofs.{create_client_final_message_form}
use cpp17_client.Sasl.{
  Authenticator, failure, frame_of, send_request, read_response_header, check_offered, read_auth,
  send_auth, starts_with, before_proof, first_turn, second_turn, exchange, authenticate,
  auth_mech_list_request,
}
use cpp17_client.Sasl.Calls.{
  Session, returned, raised, ◌>>=◌, ◌>>◌, done, raise_if, lift, lift_or, read,
}
use cpp17_client.Sasl.Exchange.{carry_returned, raise_if-returned, lift-returned, lift_or-returned}
use cpp17_client.Sasl.Genuine.{before_proof-without_proof}
use cpp17_client.Sasl.Mutual.{nothing_parsed}

-- What the client has checked when it has authenticated the server.
pub record IsVerified (a : Authenticator) (buffer : List ℕ) : Type 0 where
  pub digest : Digest
  pub nonce : List ℕ
  pub server_first : List ℕ
  pub first : ServerFirst
  pub server_final : List ℕ
  pub supported : digest_for_mechanism a.mechanism ≡ ok digest
  pub drawn : generate_nonce a.crypto nonce_length ≡ ok nonce
  pub parsed : parse_server_first_message server_first nothing_parsed ≡ ok first
  pub extends : starts_with first.nonce nonce ≡ true
  pub first_read :
      (s : Session) × (t : Session) × (read_auth a buffer s ≡ returned (false, server_first) t)
  pub final_read :
      (s : Session) × (t : Session) × (flag : Bool) × (read_auth a buffer s
        ≡ returned (flag, server_final) t)
  pub verified :
      verify_server_final_message a.crypto server_final a.password
        (auth_message_of
          (client_first_bare a.username nonce)
          server_first
          (without_proof first.nonce))
        first.salt
        first.iterations
        digest
      ≡ ok true

negated : (b : Bool) → not b ≡ false → b ≡ true
negated true h = refl
negated false h = cc

value_of {ℓ} : {A : Type ℓ} {x y : A} {s t : Session} → returned x s ≡ returned y t → x ≡ y
value_of h = cc

reply_of : (r : Bool × List ℕ) (text : List ℕ) → r.0 ≡ false → r.1 ≡ text → r ≡ (false, text)
reply_of (b, l) text h k = ap (λ c. (c, l)) h ∙ ap (λ m. (false, m)) k

module _ (a : Authenticator) (buffer : List ℕ) where
  first_turn-returned :
      (nonce client_first server_first : List ℕ) (first : ServerFirst) (s t : Session)
      → first_turn a nonce client_first buffer s ≡ returned (server_first, first) t
      → (parse_server_first_message server_first nothing_parsed ≡ ok first)
        × (starts_with first.nonce nonce ≡ true)
        × ((u : Session) × (w : Session) × (read_auth a buffer u
              ≡ returned (false, server_first) w))
  unfolding first_turn ◌>>=◌ ◌>>◌ done
  first_turn-returned nonce client_first server_first first s t e =
      let (_, s1, _, e1) = carry_returned (send_auth a client_first buffer s) _ e in
      let (reply, s2, received, e2) = carry_returned (read_auth a buffer s1) _ e1 in
      let (_, s3, held, e3) =
        carry_returned (raise_if reply.0 (failure a FailurePhase.server_error none) buffer s2) _
          e2 in
      let (sf, s4, taken, e4) =
        carry_returned
          (lift_or (failure a FailurePhase.server_error none)
            (parse_server_first_message reply.1 nothing_parsed) buffer s3)
          _ e3 in
      let (_, s5, matched, e5) =
        carry_returned
          (raise_if (not (starts_with sf.nonce nonce)) (failure a FailurePhase.server_error none)
            buffer s4)
          _ e4 in
      let unfinished : reply.0 ≡ false = raise_if-returned reply.0 _ buffer s2 s3 held in
      let parsed = lift_or-returned _ _ buffer s3 s4 taken in
      let extends =
        negated (starts_with sf.nonce nonce) (raise_if-returned _ _ buffer s4 s5 matched) in
      let same : ◌≡◌ {A = List ℕ × ServerFirst} (reply.1, sf) (server_first, first) = value_of e5 in
      let text : server_first ≡ reply.1 = ap (λ p. p.0) (sym same) in
      let reply_is : reply ≡ (false, server_first) =
        reply_of reply server_first unfinished (sym text) in
      (
        subst (λ p. parse_server_first_message p.0 nothing_parsed ≡ ok p.1) same parsed,
        subst (λ p. starts_with p.1.nonce nonce ≡ true) same extends,
        (s1, s2, subst (λ r. read_auth a buffer s1 ≡ returned r s2) reply_is received),
      )

  second_turn-returned :
      (digest : Digest) (first_bare server_first : List ℕ) (first : ServerFirst) (s t : Session)
      → second_turn a digest first_bare server_first first buffer s ≡ returned tt t
      → (client_final server_final : List ℕ) × (create_client_final_message a.crypto a.password
            first_bare server_first first digest
          ≡ ok client_final)
        × (verify_server_final_message a.crypto server_final a.password
              (auth_message_of first_bare server_first (before_proof client_final))
              first.salt
              first.iterations
              digest
            ≡ ok true)
        × ((u : Session) × (w : Session) × (flag : Bool) × (read_auth a buffer u
              ≡ returned (flag, server_final) w))
  unfolding second_turn ◌>>=◌ ◌>>◌
  second_turn-returned digest first_bare server_first first s t e =
      let (client_final, s1, created, e1) =
        carry_returned
          (lift
            (create_client_final_message a.crypto a.password first_bare server_first first digest)
            buffer s)
          _ e in
      let (_, s2, _, e2) = carry_returned (send_auth a client_final buffer s1) _ e1 in
      let (reply, s3, received, e3) = carry_returned (read_auth a buffer s2) _ e2 in
      let (_, s4, _, e4) =
        carry_returned
          (raise_if (is_empty reply.1) (failure a FailurePhase.server_error none) buffer s3) _ e3 in
      let (verified, s5, checked, e5) =
        carry_returned
          (lift
            (verify_server_final_message a.crypto reply.1 a.password
              (auth_message_of first_bare server_first (before_proof client_final)) first.salt
              first.iterations digest)
            buffer s4)
          _ e4 in
      let yes : verified ≡ true =
        negated verified
          (raise_if-returned _ (failure a FailurePhase.server_error none) buffer s5 t e5) in
      (
        client_final,
        reply.1,
        lift-returned _ buffer s s1 created,
        lift-returned _ buffer s4 s5 checked ∙ ap (λ b. ok b) yes,
        (s2, s3, reply.0, received),
      )

-- When `authenticate` returns, the server has been authenticated: the mechanism is one of the three, the
-- server's nonce, taken out of the first of its messages, extends the nonce that the client drew, and
-- the signature in the last one, over the same text as the client's proof, is verified.
pub authenticate-IsVerified :
    (a : Authenticator) (buffer : List ℕ) (s t : Session)
    → authenticate a buffer s ≡ returned tt t
    → IsVerified a buffer
unfolding authenticate exchange create_client_first_message ◌>>=◌ ◌>>◌
authenticate-IsVerified a buffer s t e =
    let (digest, s1, supported, e1) =
      carry_returned
        (lift_or (failure a FailurePhase.before_send none) (digest_for_mechanism a.mechanism) buffer
          s)
        _ e in
    let (_, s2, _, e2) = carry_returned (check_offered a buffer s1) _ e1 in
    let (nonce, s3, drawn, e3) =
      carry_returned (lift (generate_nonce a.crypto nonce_length) buffer s2) _ e2 in
    let (reply, s4, turned, e4) =
      carry_returned (first_turn a nonce (create_client_first_message a.username nonce) buffer s3) _
        e3 in
    let (parsed, extends, first_read) =
      first_turn-returned a buffer nonce (create_client_first_message a.username nonce) reply.0
        reply.1 s3 s4 turned in
    let (client_final, server_final, created, verified, final_read) =
      second_turn-returned a buffer digest (client_first_bare a.username nonce) reply.0 reply.1 s4 t
        e4 in
    let (proof, form) =
      create_client_final_message_form a.crypto a.password (client_first_bare a.username nonce)
        reply.0 reply.1 digest client_final created in
    let text : before_proof client_final ≡ without_proof reply.1.nonce =
      ap (λ m. before_proof m) form
      ∙ before_proof-without_proof reply.1.nonce proof
          (parse_server_first_message-IsPlain reply.0 nothing_parsed reply.1 tt parsed) in
    record {
      digest = digest;
      nonce = nonce;
      server_first = reply.0;
      first = reply.1;
      server_final = server_final;
      supported = lift_or-returned _ _ buffer s s1 supported;
      drawn = lift-returned _ buffer s2 s3 drawn;
      parsed = parsed;
      extends = extends;
      first_read = first_read;
      final_read = final_read;
      verified =
          subst
            (λ m.
              verify_server_final_message a.crypto server_final a.password
                (auth_message_of (client_first_bare a.username nonce) reply.0 m) reply.1.salt
                reply.1.iterations digest
              ≡ ok true)
            text verified;
    }

-- A mechanism that is not one of the three is refused with the phase before the sending, and nothing is
-- sent.
pub authenticate_unsupported :
    (a : Authenticator) (buffer : List ℕ) (s : Session) (e : Error)
    → digest_for_mechanism a.mechanism ≡ err e
    → authenticate a buffer s ≡ raised (failure a FailurePhase.before_send none) s.sent
unfolding authenticate ◌>>=◌ lift_or
authenticate_unsupported a buffer s e h = rw h refl

-- A server that closes the connection instead of answering: with a mechanism of the three, when the
-- first request goes out and there are no bytes left to read, `authenticate` throws the socket's
-- `std::runtime_error` as it is, and no `HotRodClientException`.
pub authenticate-closed :
    (a : Authenticator) (buffer : List ℕ) (s : Session) (digest : Digest)
    → digest_for_mechanism a.mechanism ≡ ok digest
    → a.sends (frame_of a s.next_message_id auth_mech_list_request []) ≡ true
    → s.offset ≡ length buffer
    → authenticate a buffer s
      ≡ raised
          (plain closed)
          (s.sent ++ (frame_of a s.next_message_id auth_mech_list_request [] ∷ []))
unfolding authenticate exchange check_offered send_request read_response_header read ◌>>=◌ ◌>>◌
    lift_or next_byte byte_of
authenticate-closed a buffer s digest h k l = rw (h, k, l, drop_all) refl

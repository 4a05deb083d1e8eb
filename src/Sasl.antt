-- ===== src/Sasl.antt =====
-- src/auth/SaslAuthenticator.cpp: the handshake over a socket. As in Stream.antt, the socket is the list
-- of the bytes that the peer sends; `sent` lists the frames that went out.
pub mod Calls
pub mod Exchange
pub mod Outcomes
pub mod Genuine
pub mod Mutual
pub mod Small
mod Runs
use cpp17_client.Base.{
  ℕ, suc, zero, ◌+◌, ◌%◌, ◌^◌, List, [], ◌∷◌, ◌++◌, drop, Bool, true, false, not, ◌&&◌, ◌||◌, ◌==◌,
  if◌then◌else◌, Option, none, some,
}
use cpp17_client.Base.{Outcome, ok, err, undefined, Error, runtime_error}
use cpp17_client.Base.Readers.{Reader, next_byte}
use cpp17_client.Failure.{
  ServerAddress, FailurePhase, HotRodClientException, Thrown, typed, plain, same_bytes,
}
use cpp17_client.Header.{ClientIntelligence, RequestHeader, request_magic, response_magic}
use cpp17_client.Header.{write_request_header}
use cpp17_client.Stream.{closed, receive_vint, receive_vlong, receive_byte_array}
use cpp17_client.Multiplex.Reading.{error_response, receive_topology}
use cpp17_client.Auth.{encode_auth_request_body, encode_auth_mech_list_request_body}
use cpp17_client.Scram.{
  Digest, Primitives, ServerFirst, digest_for_mechanism, generate_nonce, nonce_length,
  create_client_first_message, parse_server_first_message, create_client_final_message,
  verify_server_final_message, auth_message_of, is_empty,
}
use cpp17_client.Sasl.Calls.{
  Call, Session, Verdict, broken, carry_on, done, lift, lift_or, moved, raise, raise_if, raised,
  read, returned, ◌>>=◌, ◌>>◌,
}

-- `ConnectionSaslTransport` and `SaslAuthenticator` of one connection; `sends` says whether `send` of a
-- frame returns.
pub record Authenticator : Type 0 where
  pub crypto : Primitives
  pub sends : List ℕ → Bool
  pub node : ServerAddress
  pub protocol_version : ℕ
  pub intelligence : ClientIntelligence
  pub mechanism : List ℕ
  pub username : List ℕ
  pub password : List ℕ

abbrev pub auth_mech_list_request : ℕ
auth_mech_list_request = 0x21

abbrev pub auth_mech_list_response : ℕ
auth_mech_list_response = 0x22

abbrev pub auth_request : ℕ
auth_request = 0x23

abbrev pub auth_response : ℕ
auth_response = 0x24

-- `s.rfind(prefix, 0) == 0`.
unfoldable pub starts_with : List ℕ → List ℕ → Bool
starts_with text [] = true
starts_with [] (p ∷ prefix) = false
starts_with (c ∷ text) (p ∷ prefix) = c == p && starts_with text prefix

-- `s.substr(0, s.find(",p="))`.
unfoldable pub before_proof : List ℕ → List ℕ
unfolding starts_with
before_proof [] = []
before_proof (c ∷ text) =
    let rest = before_proof text in
    if starts_with (c ∷ text) (44 ∷ 112 ∷ 61 ∷ []) then [] else c ∷ rest

module _ (a : Authenticator) where
  abbrev pub failure : FailurePhase → Option ℕ → Thrown
  failure phase status = typed (record {
    phase = phase;
    server_status = status;
    tried_nodes = a.node ∷ [];
    owners_exhausted = false;
  })

  unfoldable pub frame_of : ℕ → ℕ → List ℕ → List ℕ
  frame_of message_id opcode body =
      write_request_header [] (record {
        magic = request_magic;
        message_id = message_id;
        version = a.protocol_version;
        opcode = opcode;
        cache_name = [];
        flags = 0;
        client_intelligence = a.intelligence;
        topology_id = 0;
        key_media_type = 0;
        value_media_type = 0;
        other_params = [];
      })
      ++ body

  unfoldable pub send_request : ℕ → List ℕ → Call (Unit {0})
  unfolding frame_of
  send_request opcode body buffer s =
      let frame = frame_of s.next_message_id opcode body in
      if a.sends frame
      then returned tt (record {
        offset = s.offset;
        next_message_id = (s.next_message_id + 1) % 2 ^ 64;
        sent = s.sent ++ (frame ∷ []);
      })
      else raised (failure FailurePhase.after_send none) s.sent

  unfoldable pub refuse_error : ℕ → ℕ → Call (Unit {0})
  unfolding raise done read ◌>>=◌
  refuse_error opcode status =
      if opcode == error_response
      then (read receive_byte_array >>= λ message.
          raise (failure FailurePhase.server_error (some status)))
      else done tt

  unfoldable pub read_response_header : Call ℕ
  unfolding ◌>>=◌ ◌>>◌ read raise_if refuse_error done
  read_response_header = do
    magic ← read (next_byte closed)
    raise_if (not (magic == response_magic)) (failure FailurePhase.after_send none)
    message_id ← read receive_vlong
    opcode ← read (next_byte closed)
    status ← read (next_byte closed)
    topology_marker ← read (next_byte closed)
    topology ← read (receive_topology a.intelligence topology_marker)
    refuse_error opcode status
    raise_if (not (status == 0)) (failure FailurePhase.server_error (some status))
    done opcode

  -- The names that follow, all read, whether or not the mechanism is among them.
  unfoldable pub read_offers : ℕ → Bool → Call Bool
  unfolding ◌>>=◌ read done same_bytes
  read_offers zero offered = done offered
  read_offers (suc n) offered = do
    name ← read receive_byte_array
    read_offers n (offered || same_bytes name a.mechanism)

  unfoldable pub check_offered : Call (Unit {0})
  unfolding ◌>>=◌ ◌>>◌ send_request read_response_header raise_if read read_offers
  check_offered = do
    send_request auth_mech_list_request encode_auth_mech_list_request_body
    opcode ← read_response_header
    raise_if (not (opcode == auth_mech_list_response)) (failure FailurePhase.after_send none)
    mech_count ← read receive_vint
    offered ← read_offers mech_count false
    raise_if (not offered) (failure FailurePhase.after_send none)

  -- The flag and the challenge.
  unfoldable pub read_auth : Call (Bool × List ℕ)
  unfolding ◌>>=◌ ◌>>◌ read_response_header raise_if read done
  read_auth = do
    opcode ← read_response_header
    raise_if (not (opcode == auth_response)) (failure FailurePhase.after_send none)
    flag ← read (next_byte closed)
    challenge ← read receive_byte_array
    done (not (flag == 0), challenge)

  unfoldable pub send_auth : List ℕ → Call (Unit {0})
  unfolding send_request encode_auth_request_body
  send_auth token = send_request auth_request (encode_auth_request_body a.mechanism token)

  -- The first turn: the challenge of the server, and what is in it.
  unfoldable pub first_turn : List ℕ → List ℕ → Call (List ℕ × ServerFirst)
  unfolding ◌>>=◌ ◌>>◌ send_auth read_auth raise_if lift_or done parse_server_first_message
      starts_with
  first_turn nonce client_first = do
    send_auth client_first
    (completed, server_first) ← read_auth
    raise_if completed (failure FailurePhase.server_error none)
    s ←
        lift_or (failure FailurePhase.server_error none) (
          parse_server_first_message server_first
            (record { nonce = []; salt = []; iterations = 0 }))
    raise_if (not (starts_with s.nonce nonce)) (failure FailurePhase.server_error none)
    done (server_first, s)

  unfoldable pub second_turn : Digest → List ℕ → List ℕ → ServerFirst → Call (Unit {0})
  unfolding ◌>>=◌ ◌>>◌ send_auth read_auth raise_if lift create_client_final_message
      verify_server_final_message before_proof
  second_turn digest client_first_bare server_first s = do
    client_final ←
        lift
          (create_client_final_message a.crypto a.password client_first_bare server_first s digest)
    send_auth client_final
    (completed, server_final) ← read_auth
    raise_if (is_empty server_final) (failure FailurePhase.server_error none)
    verified ← lift (
        verify_server_final_message a.crypto server_final a.password
          (auth_message_of client_first_bare server_first (before_proof client_final)) s.salt
          s.iterations digest)
    raise_if (not verified) (failure FailurePhase.server_error none)

  unfoldable pub exchange : Digest → Call (Unit {0})
  unfolding ◌>>=◌ ◌>>◌ lift check_offered first_turn second_turn generate_nonce
      create_client_first_message
  exchange digest = do
    check_offered
    nonce ← lift (generate_nonce a.crypto nonce_length)
    (server_first, s) ← first_turn nonce (create_client_first_message a.username nonce)
    second_turn digest (drop 3 (create_client_first_message a.username nonce)) server_first s

  unfoldable pub authenticate : Call (Unit {0})
  unfolding ◌>>=◌ lift_or exchange digest_for_mechanism
  authenticate = do
    digest ← lift_or (failure FailurePhase.before_send none) (digest_for_mechanism a.mechanism)
    exchange digest

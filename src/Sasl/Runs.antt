-- ===== src/Sasl/Runs.antt =====
-- Runs of the handshake with small numbers in place of the digests.
use cpp17_client.Base.{ℕ, ◌≡◌, refl, List, [], ◌∷◌, ◌++◌, true, none, ok, runtime_error, ◌↔◌}
use cpp17_client.Failure.{FailurePhase, same_bytes}
use cpp17_client.Header.{ClientIntelligence}
use cpp17_client.Scram.{Digest, digest_for_mechanism, verify_server_final_message}
use cpp17_client.Scram.Proofs.{server_accepts, IsSigned, verify_server_final_message-IsSigned}
use cpp17_client.Sasl.{Authenticator, authenticate, failure}
use cpp17_client.Sasl.Calls.{Session, raised}
use cpp17_client.Sasl.Small.{
  checksum, small, client, server_key, client_keys, server, server-IsGenuine,
}
use cpp17_client.Sasl.Exchange.{Completes}
use cpp17_client.Sasl.Outcomes.{IsVerified, authenticate-IsVerified, authenticate_unsupported}
use cpp17_client.Sasl.Mutual.{
  Server, signed_text, server_bytes, client_requests, authenticate-IsGenuine,
}

abbrev basic_client : Authenticator
basic_client = client ClientIntelligence.basic

abbrev basic_server : Server basic_client
basic_server = server ClientIntelligence.basic

authenticate-IsGenuine_example :
    (proof : List ℕ) × Completes
      (authenticate basic_client)
      (server_bytes basic_server)
      tt
      (client_requests basic_client basic_server proof)
    × (server_accepts small
          (server-IsGenuine ClientIntelligence.basic).keys.stored_key
          (signed_text basic_server)
          proof
          Digest.sha256
        ≡ ok true)
authenticate-IsGenuine_example =
    authenticate-IsGenuine basic_server (server-IsGenuine ClientIntelligence.basic)

verify_server_final_message-IsSigned_example :
    (verify_server_final_message small
        (118 ∷ 61 ∷ checksum server_key (1 ∷ []))
        (112 ∷ 119 ∷ [])
        (1 ∷ [])
        (83 ∷ [])
        1
        Digest.sha256
      ≡ ok true)
    ↔ IsSigned small (checksum server_key (1 ∷ [])) (118 ∷ 61 ∷ checksum server_key (1 ∷ []))
unfolding client_keys
verify_server_final_message-IsSigned_example =
    verify_server_final_message-IsSigned client_keys (1 ∷ []) (checksum server_key (1 ∷ []))
      (118 ∷ 61 ∷ checksum server_key (1 ∷ [])) refl

abbrev begun : Session
begun = record { offset = 0; next_message_id = 0; sent = [] }

authenticate-IsVerified_example : IsVerified basic_client (server_bytes basic_server ++ [])
authenticate-IsVerified_example =
    authenticate-IsVerified basic_client (server_bytes basic_server ++ []) begun _ (
      (authenticate-IsGenuine basic_server (server-IsGenuine ClientIntelligence.basic)).1.apply []
        [] (0, []))

-- "PLAIN" is none of the three.
abbrev plain_client : Authenticator
plain_client = record {
  crypto = small;
  sends = λ frame. true;
  node = basic_client.node;
  protocol_version = 41;
  intelligence = ClientIntelligence.basic;
  mechanism = 80 ∷ 76 ∷ 65 ∷ 73 ∷ 78 ∷ [];
  username = 117 ∷ [];
  password = 112 ∷ [];
}

plain_client_refused :
    authenticate plain_client [] begun
    ≡ raised (failure plain_client FailurePhase.before_send none) []
unfolding digest_for_mechanism same_bytes
plain_client_refused =
    authenticate_unsupported plain_client [] begun (runtime_error "Unsupported SASL mechanism: ")
      refl

-- ===== src/Sasl/Small.antt =====
-- A user and a server of the handshake in src/auth/SaslAuthenticator.cpp, with small numbers in place of the digests.
use cpp17_client.Base.{ℕ, ◌+◌, ◌%◌, ◌≡◌, refl, arith, List, [], ◌∷◌, ◌++◌, foldl, true, some, ok}
use cpp17_client.Failure.{same_bytes}
use cpp17_client.Header.{ClientIntelligence}
use cpp17_client.Scram.{
  Digest, Primitives, ServerFirst, mechanism_of, digest_for_mechanism, generate_nonce,
  parse_server_first_message, client_key_text, server_key_text,
}
use cpp17_client.Scram.Parsing.{server_first_message, parse_server_first_message_round_trip}
use cpp17_client.Scram.Proofs.{Keys}
use cpp17_client.Sasl.{Authenticator, starts_with}
use cpp17_client.Sasl.Mutual.{Server, IsGenuine, nothing_parsed, signed_text}

-- A byte of a key and a message.
abbrev pub checksum : List ℕ → List ℕ → List ℕ
checksum key message = foldl (λ sum c. (sum + c) % 256) 0 (key ++ message) ∷ []

abbrev pub small : Primitives
small = record {
  md_size = λ digest. 1;
  pkcs5_pbkdf2_hmac = λ digest password salt iterations size. some (checksum password salt);
  hmac_of = λ digest key message. some (checksum key message);
  evp_digest = λ digest bytes. some (checksum (7 ∷ []) bytes);
  rand_bytes = λ size. some (65 ∷ 66 ∷ []);
  encoded = λ bytes. bytes;
  decoded = λ text. some text;
}

abbrev pub first_message : List ℕ
first_message = server_first_message (65 ∷ 66 ∷ 67 ∷ []) (83 ∷ []) (49 ∷ [])

abbrev pub parsed_first : ServerFirst
parsed_first = record { nonce = 65 ∷ 66 ∷ 67 ∷ []; salt = 83 ∷ []; iterations = 1 }

pub first_parsed : parse_server_first_message first_message nothing_parsed ≡ ok parsed_first
first_parsed =
    parse_server_first_message_round_trip (65 ∷ 66 ∷ 67 ∷ []) (83 ∷ []) (49 ∷ []) nothing_parsed
      ((refl, (refl, (refl, tt))), refl) ((refl, tt), refl) ((refl, tt), refl) (omega arith) refl

abbrev pub client_key : List ℕ
client_key = checksum (checksum (112 ∷ 119 ∷ []) (83 ∷ [])) client_key_text

abbrev pub stored_key : List ℕ
stored_key = checksum (7 ∷ []) client_key

abbrev pub server_key : List ℕ
server_key = checksum (checksum (112 ∷ 119 ∷ []) (83 ∷ [])) server_key_text

unfoldable pub client_keys : Keys small (112 ∷ 119 ∷ []) (83 ∷ []) 1 Digest.sha256
client_keys = record {
  salt_bytes = 83 ∷ [];
  salted_password = checksum (112 ∷ 119 ∷ []) (83 ∷ []);
  client_key = client_key;
  stored_key = stored_key;
  server_key = server_key;
  salt_decoded = refl;
  salted = refl;
  client_keyed = refl;
  stored = refl;
  server_keyed = refl;
}

module _ (intelligence : ClientIntelligence) where
  abbrev pub client : Authenticator
  client = record {
    crypto = small;
    sends = λ frame. true;
    node = record { host = []; port = 11222 };
    protocol_version = 41;
    intelligence = intelligence;
    mechanism = mechanism_of Digest.sha256;
    username = 117 ∷ [];
    password = 112 ∷ 119 ∷ [];
  }

  abbrev pub unsigned : Server client
  unsigned = record {
    digest = Digest.sha256;
    nonce = 65 ∷ 66 ∷ [];
    names = (80 ∷ []) ∷ mechanism_of Digest.sha256 ∷ [];
    list_id = 0;
    first_id = 1;
    final_id = 2;
    final_flag = 0;
    server_first = first_message;
    server_final = [];
    first = parsed_first;
    client_signature = [];
    signature = [];
  }

  abbrev pub server : Server client
  server = record {
    digest = unsigned.digest;
    nonce = unsigned.nonce;
    names = unsigned.names;
    list_id = 0;
    first_id = 1;
    final_id = 2;
    final_flag = 0;
    server_first = first_message;
    server_final = 118 ∷ 61 ∷ checksum server_key (signed_text unsigned);
    first = parsed_first;
    client_signature = checksum stored_key (signed_text unsigned);
    signature = checksum server_key (signed_text unsigned);
  }

  pub server-IsGenuine : IsGenuine client server
  unfolding digest_for_mechanism same_bytes generate_nonce starts_with client_keys
  server-IsGenuine = record {
    supported = refl;
    drawn = refl;
    sends = λ frame. refl;
    ids = (omega arith, omega arith, omega arith);
    names_few = omega arith;
    names_short = (omega arith, (omega arith, tt));
    listed = refl;
    first_short = omega arith;
    final_short = omega arith;
    parsed = first_parsed;
    extends = refl;
    keys = client_keys;
    client_signed = refl;
    one_length = refl;
    key_bytes = (omega arith, tt);
    signature_bytes = (omega arith, tt);
    server_signed = refl;
    final_signed = (checksum server_key (signed_text unsigned), refl, refl);
  }

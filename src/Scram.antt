-- ===== src/Scram.antt =====
-- src/auth/SCRAM.cpp: the messages of the SCRAM mechanisms. A string is the list of its bytes, and an
-- `int` its bits: a negative number `-n` is `2^32 - n`. What OpenSSL and the random generator compute
-- is a parameter.
pub mod Texts
pub mod Parsing
pub mod Proofs
use cpp17_client.Base.{
  ℕ, suc, zero, ◌+◌, ◌-◌, ◌*◌, ◌%◌, ◌^◌, List, [], ◌∷◌, ◌++◌, foldl, length, Bool, true, false, not,
  ◌&&◌, ◌||◌, ◌==◌, leb, ltb, if◌then◌else◌, Option, none, some, bit_xor, String,
}
use cpp17_client.Base.{
  Outcome, ok, err, ◌>>=◌, Error, runtime_error, out_of_range, invalid_argument,
}
use cpp17_client.Failure.{same_bytes}
use cpp17_client.Scram.Texts.{
  append_digit, is_digit, is_space, lead, leading_digits, magnitude, signed, stoi, tokens_of,
}

pub data Digest : Type 0 where
  sha1 sha256 sha512 : Digest

-- What the source calls: the size of a digest, `PKCS5_PBKDF2_HMAC` with the length of the key last,
-- `HMAC`, `EVP_Digest`, `RAND_bytes`, and the base 64 filter; `none` is a failure.
pub record Primitives : Type 0 where
  pub md_size : Digest → ℕ
  pub pkcs5_pbkdf2_hmac : Digest → List ℕ → List ℕ → ℕ → ℕ → Option (List ℕ)
  pub hmac_of : Digest → List ℕ → List ℕ → Option (List ℕ)
  pub evp_digest : Digest → List ℕ → Option (List ℕ)
  pub rand_bytes : ℕ → Option (List ℕ)
  pub encoded : List ℕ → List ℕ
  pub decoded : List ℕ → Option (List ℕ)

abbrev pub or_throw {ℓ} : {A : Type ℓ} → String → Option A → Outcome A
or_throw message none = err (runtime_error message)
or_throw message (some a) = ok a

-- "SCRAM-SHA-" and what follows it.
abbrev scram_sha : List ℕ → List ℕ
scram_sha size = 83 ∷ 67 ∷ 82 ∷ 65 ∷ 77 ∷ 45 ∷ 83 ∷ 72 ∷ 65 ∷ 45 ∷ size

abbrev pub mechanism_of : Digest → List ℕ
mechanism_of Digest.sha1 = scram_sha (49 ∷ [])
mechanism_of Digest.sha256 = scram_sha (50 ∷ 53 ∷ 54 ∷ [])
mechanism_of Digest.sha512 = scram_sha (53 ∷ 49 ∷ 50 ∷ [])

unfoldable pub digest_for_mechanism : List ℕ → Outcome Digest
unfolding same_bytes
digest_for_mechanism mechanism =
    if same_bytes mechanism (mechanism_of Digest.sha1)
    then ok Digest.sha1
    else if same_bytes mechanism (mechanism_of Digest.sha256)
    then ok Digest.sha256
    else if same_bytes mechanism (mechanism_of Digest.sha512)
    then ok Digest.sha512
    else err (runtime_error "Unsupported SASL mechanism: ")

abbrev pub nonce_length : ℕ
nonce_length = 24

unfoldable pub generate_nonce : Primitives → ℕ → Outcome (List ℕ)
generate_nonce crypto size = do
  random_bytes ←
      or_throw "SCRAM::generateNonce: Failed to generate random bytes" (crypto.rand_bytes size)
  ok (crypto.encoded random_bytes)

-- "n=<username>,r=<nonce>", behind "n,,".
abbrev pub client_first_bare : List ℕ → List ℕ → List ℕ
client_first_bare username nonce = (110 ∷ 61 ∷ []) ++ (username ++ ((44 ∷ 114 ∷ 61 ∷ []) ++ nonce))

unfoldable pub create_client_first_message : List ℕ → List ℕ → List ℕ
create_client_first_message username nonce =
    (110 ∷ 44 ∷ 44 ∷ 110 ∷ 61 ∷ []) ++ (username ++ ((44 ∷ 114 ∷ 61 ∷ []) ++ nonce))

-- The output parameters.
pub record ServerFirst : Type 0 where
  pub nonce : List ℕ
  pub salt : List ℕ
  pub iterations : ℕ

-- One turn of the `while` loop.
unfoldable pub take_token : ServerFirst → List ℕ → Outcome ServerFirst
unfolding stoi
take_token s [] = ok s
take_token s (key ∷ []) = ok s
take_token s (key ∷ equals ∷ value) =
    if not (equals == 61)
    then ok s
    else if key == 114
    then ok (record { nonce = value; salt = s.salt; iterations = s.iterations })
    else if key == 115
    then ok (record { nonce = s.nonce; salt = value; iterations = s.iterations })
    else if key == 105
    then (stoi value >>= λ n. ok (record { nonce = s.nonce; salt = s.salt; iterations = n }))
    else ok s

unfoldable pub take_tokens : ServerFirst → List (List ℕ) → Outcome ServerFirst
unfolding take_token
take_tokens s [] = ok s
take_tokens s (token ∷ tokens) = take_token s token >>= λ t. take_tokens t tokens

abbrev pub is_empty : List ℕ → Bool
is_empty [] = true
is_empty (c ∷ cs) = false

unfoldable pub parse_server_first_message : List ℕ → ServerFirst → Outcome ServerFirst
unfolding take_tokens tokens_of
parse_server_first_message message out = do
  t ← take_tokens out (tokens_of message)
  if is_empty t.nonce || is_empty t.salt || t.iterations == 0
      then err (runtime_error "SCRAM::parseServerFirstMessage: Invalid server message")
      else ok t

unfoldable pub xor_each : List ℕ → List ℕ → List ℕ
xor_each [] b = []
xor_each (x ∷ a) [] = []
xor_each (x ∷ a) (y ∷ b) = bit_xor x y ∷ xor_each a b

unfoldable pub xor_bytes : List ℕ → List ℕ → Outcome (List ℕ)
unfolding xor_each
xor_bytes a b =
    if not (length a == length b)
    then err (runtime_error "SCRAM::xorBytes: Arrays must be same size")
    else ok (xor_each a b)

unfoldable pub has_null : List ℕ → Bool
has_null [] = false
has_null (c ∷ input) = c == 0 || has_null input

unfoldable pub sasl_prep : List ℕ → Outcome (List ℕ)
unfolding has_null
sasl_prep input =
    if has_null input
    then err (runtime_error "SCRAM::saslPrep: Null character not allowed")
    else ok input

-- "Client Key" and "Server Key".
abbrev pub client_key_text : List ℕ
client_key_text = 67 ∷ 108 ∷ 105 ∷ 101 ∷ 110 ∷ 116 ∷ 32 ∷ 75 ∷ 101 ∷ 121 ∷ []

abbrev pub server_key_text : List ℕ
server_key_text = 83 ∷ 101 ∷ 114 ∷ 118 ∷ 101 ∷ 114 ∷ 32 ∷ 75 ∷ 101 ∷ 121 ∷ []

-- "c=biws,r=<nonce>".
abbrev pub without_proof : List ℕ → List ℕ
without_proof nonce = (99 ∷ 61 ∷ 98 ∷ 105 ∷ 119 ∷ 115 ∷ 44 ∷ 114 ∷ 61 ∷ []) ++ nonce

-- ",p=".
abbrev pub proof_mark : List ℕ
proof_mark = 44 ∷ 112 ∷ 61 ∷ []

-- The three messages with "," between them.
abbrev pub auth_message_of : List ℕ → List ℕ → List ℕ → List ℕ
auth_message_of first_bare server_first final_without_proof =
    first_bare ++ (44 ∷ (server_first ++ (44 ∷ final_without_proof)))

module _ (crypto : Primitives) where
  unfoldable pub base64_decode : List ℕ → Outcome (List ℕ)
  base64_decode text = or_throw "SCRAM::base64Decode: Decoding failed" (crypto.decoded text)

  unfoldable pub pbkdf2 : List ℕ → List ℕ → ℕ → Digest → Outcome (List ℕ)
  pbkdf2 password salt iterations digest =
      or_throw "SCRAM::pbkdf2: PBKDF2 derivation failed"
        (crypto.pkcs5_pbkdf2_hmac digest password salt iterations (crypto.md_size digest))

  unfoldable pub hmac : List ℕ → List ℕ → Digest → Outcome (List ℕ)
  hmac key message digest =
      or_throw "SCRAM::hmac: HMAC computation failed" (crypto.hmac_of digest key message)

  unfoldable pub hash : List ℕ → Digest → Outcome (List ℕ)
  hash data_bytes digest =
      or_throw "SCRAM::hash: digest computation failed" (crypto.evp_digest digest data_bytes)

  unfoldable pub create_client_final_message :
      List ℕ → List ℕ → List ℕ → ServerFirst → Digest → Outcome (List ℕ)
  unfolding base64_decode pbkdf2 hmac hash xor_bytes
  create_client_final_message password first_bare server_first s digest = do
    salt_bytes ← base64_decode s.salt
    salted_password ← pbkdf2 password salt_bytes s.iterations digest
    client_key ← hmac salted_password client_key_text digest
    stored_key ← hash client_key digest
    client_signature ←
        hmac stored_key (auth_message_of first_bare server_first (without_proof s.nonce)) digest
    client_proof ← xor_bytes client_key client_signature
    ok (without_proof s.nonce ++ (proof_mark ++ crypto.encoded client_proof))

  -- The signature that the client expects of the server.
  unfoldable pub server_signature : List ℕ → List ℕ → List ℕ → ℕ → Digest → Outcome (List ℕ)
  unfolding base64_decode pbkdf2 hmac
  server_signature password auth_message salt iterations digest = do
    salt_bytes ← base64_decode salt
    salted_password ← pbkdf2 password salt_bytes iterations digest
    server_key ← hmac salted_password server_key_text digest
    hmac server_key auth_message digest

  unfoldable pub verify_server_final_message :
      List ℕ → List ℕ → List ℕ → List ℕ → ℕ → Digest → Outcome Bool
  unfolding server_signature base64_decode
  verify_server_final_message [] password auth_message salt iterations digest = ok false
  verify_server_final_message (v ∷ []) password auth_message salt iterations digest = ok false
  verify_server_final_message (v ∷ equals ∷ text) password auth_message salt iterations digest =
      if not (v == 118) || not (equals == 61) then ok false else do
        expected ← server_signature password auth_message salt iterations digest
        received ← base64_decode text
        ok (same_bytes expected received)

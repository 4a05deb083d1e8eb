-- ===== src/Scram/Proofs.antt =====
-- The proofs and signatures of src/auth/SCRAM.cpp against a server of RFC 5802.
use cpp17_client.Base.{
  ℕ, ◌^◌, ◌<◌, ◌≡◌, refl, sym, ap, ◌∙◌, arith, List, [], ◌∷◌, ◌++◌, length, All, Bool, true, false,
  ◌==◌, some, Option-cases, Outcome, ok, err, ◌>>=◌, bind_ok, Bool-cases, inl, inr, runtime_error,
  ◌↔◌,
}
use cpp17_client.Base.Bits.{bit_xor-twice}
use cpp17_client.Failure.{same_bytes}
use cpp17_client.Scram.{
  Digest, Primitives, ServerFirst, xor_each, xor_bytes, hmac, hash, pbkdf2, base64_decode,
  without_proof, proof_mark, auth_message_of, client_key_text, server_key_text,
  create_client_final_message, server_signature, verify_server_final_message,
}

abbrev pub AreBytes : List ℕ → Type 0
AreBytes bytes = All (λ b. b < 2 ^ 8) bytes

length-xor_each : (a b : List ℕ) → length a ≡ length b → length (xor_each a b) ≡ length a
unfolding xor_each
length-xor_each [] b h = refl
length-xor_each (x ∷ a) [] h = absurd (omega arith)
length-xor_each (x ∷ a) (y ∷ b) h = omega (arith, length-xor_each a b (omega arith))

xor_each-twice :
    (a b : List ℕ) → length a ≡ length b → AreBytes a → AreBytes b → xor_each (xor_each a b) b ≡ a
unfolding xor_each
xor_each-twice [] b h k l = refl
xor_each-twice (x ∷ a) [] h k l = absurd (omega arith)
xor_each-twice (x ∷ a) (y ∷ b) h (k, ks) (l, ls) =
    rw (bit_xor-twice 8 x y k l, xor_each-twice a b (omega arith) ks ls) refl

-- Two byte arrays of one length: `xorBytes` of what it gives and the second is the first again.
pub xor_bytes-twice :
    (a b : List ℕ)
    → length a ≡ length b
    → AreBytes a
    → AreBytes b
    → (xor_bytes a b >>= λ c. xor_bytes c b) ≡ ok a
unfolding xor_bytes
xor_bytes-twice a b h k l =
    let same : (length a == length b) ≡ true = ground arith in
    let size : (length (xor_each a b) == length b) ≡ true = ground (arith, length-xor_each a b h) in
    rw (same, size, xor_each-twice a b h k l) refl

pub same_bytes_refl : (a : List ℕ) → same_bytes a a ≡ true
unfolding same_bytes
same_bytes_refl [] = refl
same_bytes_refl (x ∷ a) =
    let same : (x == x) ≡ true = ground arith in rw (same, same_bytes_refl a) refl

pub same_bytes-eq : (a b : List ℕ) → same_bytes a b ≡ true → a ≡ b
unfolding same_bytes
same_bytes-eq [] [] h = refl
same_bytes-eq [] (y ∷ b) h = cc
same_bytes-eq (x ∷ a) [] h = cc
same_bytes-eq (x ∷ a) (y ∷ b) h =
    let first : x ≡ y = ground arith in
    let rest : a ≡ b = same_bytes-eq a b (ground arith) in
    ap (λ (t : ℕ). t ∷ a) first ∙ ap (λ l. y ∷ l) rest

-- What RFC 5802 has the server do with a proof: it takes the client's key out of it with the signature
-- that it computes with the stored key, and compares the hash of it.
unfoldable pub server_accepts : Primitives → List ℕ → List ℕ → List ℕ → Digest → Outcome Bool
unfolding hmac hash xor_bytes
server_accepts crypto stored_key auth_message proof digest = do
  signature ← hmac crypto stored_key auth_message digest
  client_key ← xor_bytes proof signature
  hashed ← hash crypto client_key digest
  ok (same_bytes hashed stored_key)

-- The keys of a password, as the primitives give them.
pub record Keys (crypto : Primitives) (password salt : List ℕ) (iterations : ℕ) (digest : Digest)
    : Type 0 where
  pub salt_bytes : List ℕ
  pub salted_password : List ℕ
  pub client_key : List ℕ
  pub stored_key : List ℕ
  pub server_key : List ℕ
  pub salt_decoded : crypto.decoded salt ≡ some salt_bytes
  pub salted :
      crypto.pkcs5_pbkdf2_hmac digest password salt_bytes iterations (crypto.md_size digest)
      ≡ some salted_password
  pub client_keyed : crypto.hmac_of digest salted_password client_key_text ≡ some client_key
  pub stored : crypto.evp_digest digest client_key ≡ some stored_key
  pub server_keyed : crypto.hmac_of digest salted_password server_key_text ≡ some server_key

-- The proof in the client's final message is one that a server with the stored key accepts: where the
-- primitives return keys and a signature, of one length and made of bytes, `createClientFinalMessage`
-- returns "c=biws,r=<nonce>,p=<proof>", and the server's computation on the proof comes to the stored
-- key.
pub create_client_final_message-server_accepts :
    {crypto : Primitives} {password : List ℕ} {digest : Digest} (s : ServerFirst)
    (first_bare server_first signature : List ℕ)
    (keys : Keys crypto password s.salt s.iterations digest)
    → crypto.hmac_of digest keys.stored_key
        (auth_message_of first_bare server_first (without_proof s.nonce))
      ≡ some signature
    → length keys.client_key ≡ length signature
    → AreBytes keys.client_key
    → AreBytes signature
    → (proof : List ℕ) × (create_client_final_message crypto password first_bare server_first s
          digest
        ≡ ok (without_proof s.nonce ++ (proof_mark ++ crypto.encoded proof)))
      × (server_accepts crypto keys.stored_key
            (auth_message_of first_bare server_first (without_proof s.nonce))
            proof
            digest
          ≡ ok true)
unfolding create_client_final_message server_accepts base64_decode pbkdf2 hmac hash xor_bytes
create_client_final_message-server_accepts s first_bare server_first signature keys signed size k
      l =
    let same : (length keys.client_key == length signature) ≡ true = ground arith in
    let still : (length (xor_each keys.client_key signature) == length signature) ≡ true =
      ground (arith, length-xor_each keys.client_key signature size) in
    (
      xor_each keys.client_key signature,
      simp (keys.salt_decoded, keys.salted, keys.client_keyed, keys.stored, signed, same) refl,
      simp
          (
            signed,
            still,
            xor_each-twice keys.client_key signature size k l,
            keys.stored,
            same_bytes_refl keys.stored_key,
          )
          refl,
    )

value_of {ℓ} : {A : Type ℓ} {x y : A} → ◌≡◌ {A = Outcome A} (ok x) (ok y) → x ≡ y
value_of h = cc

-- The form of the client's final message, whatever the primitives return.
pub create_client_final_message_form :
    (crypto : Primitives) (password first_bare server_first : List ℕ) (s : ServerFirst)
    (digest : Digest) (message : List ℕ)
    → create_client_final_message crypto password first_bare server_first s digest ≡ ok message
    → (proof : List ℕ) × (message ≡ without_proof s.nonce ++ (proof_mark ++ proof))
unfolding create_client_final_message
create_client_final_message_form crypto password first_bare server_first s digest message e =
    let (salt_bytes, _, e1) = bind_ok (base64_decode crypto s.salt) _ e in
    let (salted, _, e2) = bind_ok (pbkdf2 crypto password salt_bytes s.iterations digest) _ e1 in
    let (client_key, _, e3) = bind_ok (hmac crypto salted client_key_text digest) _ e2 in
    let (stored_key, _, e4) = bind_ok (hash crypto client_key digest) _ e3 in
    let (signature, _, e5) =
      bind_ok
        (hmac crypto stored_key (auth_message_of first_bare server_first (without_proof s.nonce))
          digest)
        _ e4 in
    let (proof, _, e6) = bind_ok (xor_bytes client_key signature) _ e5 in
    (crypto.encoded proof, sym (value_of e6))

server_signature-Keys :
    {crypto : Primitives} {password salt : List ℕ} {iterations : ℕ} {digest : Digest}
    (keys : Keys crypto password salt iterations digest) (auth_message signature : List ℕ)
    → crypto.hmac_of digest keys.server_key auth_message ≡ some signature
    → server_signature crypto password auth_message salt iterations digest ≡ ok signature
unfolding server_signature base64_decode pbkdf2 hmac
server_signature-Keys keys auth_message signature signed =
    simp (keys.salt_decoded, keys.salted, keys.server_keyed, signed) refl

-- What a server has to send for `verifyServerFinalMessage`.
abbrev pub IsSigned : Primitives → List ℕ → List ℕ → Type 0
IsSigned crypto signature message =
    (text : List ℕ) × (message ≡ 118 ∷ 61 ∷ text) × (crypto.decoded text ≡ some signature)

verified_text :
    (crypto : Primitives) (signature text : List ℕ)
    → (base64_decode crypto text >>= λ received. ok (same_bytes signature received)) ≡ ok true
    → crypto.decoded text ≡ some signature
unfolding base64_decode
verified_text crypto signature text e = elim (Option-cases (crypto.decoded text)) [
  | inl h ↦
      let no : ◌≡◌ {A = Outcome Bool} (err (runtime_error "SCRAM::base64Decode: Decoding failed"))
          (ok true) =
        simp h at e in
      cc
  | inr (received, h) ↦
      let yes : ◌≡◌ {A = Outcome Bool} (ok (same_bytes signature received)) (ok true) =
        simp h at e in
      h ∙ ap (λ b. some b) (sym (same_bytes-eq signature received cc))
]

module _ {crypto : Primitives} {password salt : List ℕ} {iterations : ℕ} {digest : Digest}
    (keys : Keys crypto password salt iterations digest) (auth_message signature : List ℕ)
    (signed : crypto.hmac_of digest keys.server_key auth_message ≡ some signature) where
  accepted-IsSigned :
      (message : List ℕ)
      → verify_server_final_message crypto message password auth_message salt iterations digest
        ≡ ok true
      → IsSigned crypto signature message
  unfolding verify_server_final_message
  accepted-IsSigned [] e = cc
  accepted-IsSigned (v ∷ []) e = cc
  accepted-IsSigned (v ∷ equals ∷ text) e = elim (Bool-cases (v == 118)) [
    | inr c ↦ let no : ◌≡◌ {A = Outcome Bool} (ok false) (ok true) = simp c at e in cc
    | inl c ↦ elim (Bool-cases (equals == 61)) [
      | inr d ↦ let no : ◌≡◌ {A = Outcome Bool} (ok false) (ok true) = simp (c, d) at e in cc
      | inl d ↦
          let first : v ≡ 118 = ground arith in
          let second : equals ≡ 61 = ground arith in
          (
            text,
            ap (λ (t : ℕ). t ∷ equals ∷ text) first ∙ ap (λ (t : ℕ). 118 ∷ t ∷ text) second,
            verified_text crypto signature text
                (simp (c, d, server_signature-Keys keys auth_message signature signed) at e),
          )
    ]
  ]

  IsSigned-accepted :
      (message : List ℕ)
      → IsSigned crypto signature message
      → verify_server_final_message crypto message password auth_message salt iterations digest
        ≡ ok true
  unfolding verify_server_final_message base64_decode
  IsSigned-accepted message (text, e, d) =
      ap (λ t. verify_server_final_message crypto t password auth_message salt iterations digest) e
      ∙ simp
          (server_signature-Keys keys auth_message signature signed, d, same_bytes_refl signature)
          refl

-- Where the primitives return the server's signature, `verifyServerFinalMessage` accepts a message if
-- and only if it is "v=" with a text behind it that decodes to that signature.
pub verify_server_final_message-IsSigned :
    {crypto : Primitives} {password salt : List ℕ} {iterations : ℕ} {digest : Digest}
    (keys : Keys crypto password salt iterations digest) (auth_message signature message : List ℕ)
    → crypto.hmac_of digest keys.server_key auth_message ≡ some signature
    → (verify_server_final_message crypto message password auth_message salt iterations digest
        ≡ ok true)
      ↔ IsSigned crypto signature message
verify_server_final_message-IsSigned keys auth_message signature message signed = (
  accepted-IsSigned keys auth_message signature signed message,
  IsSigned-accepted keys auth_message signature signed message,
)

-- ===== src/Scram/Parsing.antt =====
-- The server's first message against `SCRAM::parseServerFirstMessage` of src/auth/SCRAM.cpp.
use cpp17_client.Base.{
  ℕ, ◌^◌, ◌<◌, ◌≡◌, refl, subst, arith, List, [], ◌∷◌, ◌++◌, foldl, All, true, false, ◌||◌, ◌==◌,
  leb, if◌then◌else◌, Outcome, ok, err, runtime_error, bind_ok, Bool-cases, inl, inr,
}
use cpp17_client.Scram.{ServerFirst, take_token, take_tokens, is_empty, parse_server_first_message}
use cpp17_client.Scram.Texts.{
  lead, tokens_of, is_digit, is_space, leading_digits, append_digit, magnitude, signed, stoi,
}

-- Text without a comma.
abbrev pub IsPlain : List ℕ → Type 0
IsPlain text = All (λ c. (c == 44) ≡ false) text

-- Text of decimal digits, one at least.
abbrev pub IsNumber : List ℕ → Type 0
IsNumber text = All (λ c. is_digit c ≡ true) text × (is_empty text ≡ false)

abbrev pub number_of : List ℕ → ℕ
number_of text = foldl append_digit 0 text

-- "r=<nonce>,s=<salt>,i=<iterations>".
abbrev pub server_first_message : List ℕ → List ℕ → List ℕ → List ℕ
server_first_message nonce salt iterations =
    (114 ∷ 61 ∷ nonce) ++ (44 ∷ ((115 ∷ 61 ∷ salt) ++ (44 ∷ (105 ∷ 61 ∷ iterations))))

tokens_of-comma :
    (text rest : List ℕ) → IsPlain text → tokens_of (text ++ (44 ∷ rest)) ≡ text ∷ tokens_of rest
unfolding tokens_of
tokens_of-comma [] rest h = refl
tokens_of-comma (c ∷ text) rest (h, hs) = rw (h, tokens_of-comma text rest hs) refl

tokens_of-last :
    (c : ℕ) (text : List ℕ) → IsPlain (c ∷ text) → tokens_of (c ∷ text) ≡ (c ∷ text) ∷ []
unfolding tokens_of
tokens_of-last c [] (h, hs) = rw h refl
tokens_of-last c (d ∷ text) (h, hs) = rw (h, tokens_of-last d text hs) refl

IsPlain-number : (text : List ℕ) → All (λ c. is_digit c ≡ true) text → IsPlain text
IsPlain-number [] h = tt
IsPlain-number (c ∷ text) (h, hs) = (ground arith, IsPlain-number text hs)

leading_digits-number :
    (text : List ℕ) → All (λ c. is_digit c ≡ true) text → leading_digits text ≡ text
unfolding leading_digits
leading_digits-number [] h = refl
leading_digits-number (c ∷ text) (h, hs) = rw (h, leading_digits-number text hs) refl

-- `std::stoi` reads a number that an `int` holds.
pub stoi-number_of :
    (text : List ℕ) → IsNumber text → number_of text < 2 ^ 31 → stoi text ≡ ok (number_of text)
unfolding stoi signed magnitude
stoi-number_of [] h l = cc
stoi-number_of (c ∷ text) ((h, hs), k) l =
    let digits = leading_digits-number (c ∷ text) (h, hs) in
    let no_space : is_space c ≡ false = ground arith in
    let no_minus : (c == 45) ≡ false = ground arith in
    let no_plus : (c == 43) ≡ false = ground arith in
    let small : leb (2 ^ 31) (number_of (c ∷ text)) ≡ false = ground arith in
    rw (no_space, no_minus, no_plus, digits, small) refl

-- From a message of the form that RFC 5802 prescribes, `parseServerFirstMessage` takes the nonce, the
-- salt and the iteration count, whatever the output parameters held, provided that nonce and salt are
-- not empty and have no comma, and that the count is not 0 and fits in an `int`.
pub parse_server_first_message_round_trip :
    (nonce salt iterations : List ℕ) (out : ServerFirst)
    → IsPlain nonce × (is_empty nonce ≡ false)
    → IsPlain salt × (is_empty salt ≡ false)
    → IsNumber iterations
    → number_of iterations < 2 ^ 31
    → (number_of iterations == 0) ≡ false
    → parse_server_first_message (server_first_message nonce salt iterations) out
      ≡ ok (record { nonce = nonce; salt = salt; iterations = number_of iterations })
unfolding parse_server_first_message take_tokens take_token
parse_server_first_message_round_trip nonce salt iterations out (pn, en) (ps, es) number l z =
    let first =
      tokens_of-comma (114 ∷ 61 ∷ nonce) ((115 ∷ 61 ∷ salt) ++ (44 ∷ (105 ∷ 61 ∷ iterations)))
        (refl, (refl, pn)) in
    let second = tokens_of-comma (115 ∷ 61 ∷ salt) (105 ∷ 61 ∷ iterations) (refl, (refl, ps)) in
    let third =
      tokens_of-last 105 (61 ∷ iterations) (refl, (refl, IsPlain-number iterations number.0)) in
    rw (first, second, third, stoi-number_of iterations number l, en, es, z) refl

-- The tokens hold no comma, so neither do the nonce and the salt that come of them.
IsPlain-lead :
    (c : ℕ) (tokens : List (List ℕ))
    → (c == 44) ≡ false
    → All IsPlain tokens
    → All IsPlain (lead c tokens)
IsPlain-lead c [] h k = ((h, tt), tt)
IsPlain-lead c (token ∷ tokens) h (k, ks) = ((h, k), ks)

tokens_of-IsPlain : (message : List ℕ) → All IsPlain (tokens_of message)
unfolding tokens_of
tokens_of-IsPlain [] = tt
tokens_of-IsPlain (c ∷ message) = elim (Bool-cases (c == 44)) [
  | inl h ↦ rw h (tt, tokens_of-IsPlain message)
  | inr h ↦ rw h (IsPlain-lead c (tokens_of message) h (tokens_of-IsPlain message))
]

nonce_kept :
    (s t : ServerFirst)
    → IsPlain s.nonce
    → ◌≡◌ {A = Outcome ServerFirst} (ok s) (ok t)
    → IsPlain t.nonce
nonce_kept s t h e = let same : s ≡ t = cc in subst (λ r. IsPlain r.nonce) same h

take_token-IsPlain :
    (s : ServerFirst) (token : List ℕ) (t : ServerFirst)
    → IsPlain s.nonce
    → IsPlain token
    → take_token s token ≡ ok t
    → IsPlain t.nonce
unfolding take_token
take_token-IsPlain s [] t h k e = nonce_kept s t h e
take_token-IsPlain s (key ∷ []) t h k e = nonce_kept s t h e
take_token-IsPlain s (key ∷ equals ∷ value) t h (a, (b, k)) e = elim (Bool-cases (equals == 61)) [
  | inr c ↦ nonce_kept s t h (simp c at e)
  | inl c ↦ elim (Bool-cases (key == 114)) [
    | inl d ↦
        nonce_kept (record { nonce = value; salt = s.salt; iterations = s.iterations }) t k
          (simp (c, d) at e)
    | inr d ↦ elim (Bool-cases (key == 115)) [
      | inl f ↦
          nonce_kept (record { nonce = s.nonce; salt = value; iterations = s.iterations }) t h
            (simp (c, d, f) at e)
      | inr f ↦ elim (Bool-cases (key == 105)) [
        | inl g ↦
            let next : ℕ → Outcome ServerFirst =
              λ n. ok (record { nonce = s.nonce; salt = s.salt; iterations = n }) in
            let (n, read, stored) = bind_ok (stoi value) next (simp (c, d, f, g) at e) in
            nonce_kept (record { nonce = s.nonce; salt = s.salt; iterations = n }) t h stored
        | inr g ↦ nonce_kept s t h (simp (c, d, f, g) at e)
      ]
    ]
  ]
]

take_tokens-IsPlain :
    (s : ServerFirst) (tokens : List (List ℕ)) (t : ServerFirst)
    → IsPlain s.nonce
    → All IsPlain tokens
    → take_tokens s tokens ≡ ok t
    → IsPlain t.nonce
unfolding take_tokens
take_tokens-IsPlain s [] t h k e = nonce_kept s t h e
take_tokens-IsPlain s (token ∷ tokens) t h (k, ks) e =
    let (u, first, later) = bind_ok (take_token s token) (λ u. take_tokens u tokens) e in
    take_tokens-IsPlain u tokens t (take_token-IsPlain s token u h k first) ks later

-- What `parseServerFirstMessage` returns with.
abbrev checked : ServerFirst → Outcome ServerFirst
checked t =
    if is_empty t.nonce || is_empty t.salt || t.iterations == 0
    then err (runtime_error "SCRAM::parseServerFirstMessage: Invalid server message")
    else ok t

checked-ok : (s t : ServerFirst) → checked s ≡ ok t → s ≡ t
checked-ok s t e = elim (Bool-cases (is_empty s.nonce || is_empty s.salt || s.iterations == 0)) [
  | inl c ↦
      let no : ◌≡◌ {A = Outcome ServerFirst}
          (err (runtime_error "SCRAM::parseServerFirstMessage: Invalid server message")) (ok t) =
        simp c at e in
      cc
  | inr c ↦ let yes : ◌≡◌ {A = Outcome ServerFirst} (ok s) (ok t) = simp c at e in cc
]

-- A nonce that is parsed out of any message has no comma.
pub parse_server_first_message-IsPlain :
    (message : List ℕ) (out s : ServerFirst)
    → IsPlain out.nonce
    → parse_server_first_message message out ≡ ok s
    → IsPlain s.nonce
unfolding parse_server_first_message
parse_server_first_message-IsPlain message out s h e =
    let (t, taken, tested) = bind_ok (take_tokens out (tokens_of message)) checked e in
    subst (λ r. IsPlain r.nonce) (checked-ok t s tested)
      (take_tokens-IsPlain out (tokens_of message) t h (tokens_of-IsPlain message) taken)

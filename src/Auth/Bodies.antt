-- ===== src/Auth/Bodies.antt =====
-- Round trips of the bodies of include/hotrod/AuthCodec.h.
use cpp17_client.Base.{
  ℕ, ◌<◌, ◌^◌, ◌≡◌, sym, ap, ◌∙◌, subst, List, [], ◌∷◌, ◌++◌, append-nil, length, All, not, ◌==◌,
  ok, out_of_range,
}
use cpp17_client.Base.Readers.{
  Reader, ◌>>=◌, return, Takes, Takes-bind, Takes-map, Takes-return, Takes-next_byte,
}
use cpp17_client.Codec.{read_string, read_byte_array, write_string}
use cpp17_client.Codec.Septets.{septets}
use cpp17_client.Codec.Framing.{
  counted, write_byte_array-counted, write_string-counted, Takes-read_vint, Takes-read_string,
  Takes-read_byte_array,
}
use cpp17_client.Auth.{
  read_mechanisms, decoded, decode_auth_mech_list_response, encode_auth_request_body,
  read_auth_response, decode_auth_response,
}

-- The names of a list, each as a counted string.
unfoldable pub name_bytes : List (List ℕ) → List ℕ
name_bytes [] = []
name_bytes (name ∷ names) = counted name ++ name_bytes names

abbrev pub IsShort : List ℕ → Type 0
IsShort bytes = length bytes < 2 ^ 32

-- A reader that takes all bytes gives its value.
decoded-Takes :
    {A : Type 0} {r : Reader A} {bytes : List ℕ} {a : A}
    → Takes r bytes a
    → decoded (r bytes 0) ≡ ok a
decoded-Takes {r} {bytes} {a} t =
    ap (λ b. decoded (r b 0)) (sym (append-nil bytes)) ∙ ap decoded (t.apply [] [])

Takes-read_mechanisms :
    (names : List (List ℕ))
    → All IsShort names
    → Takes (read_mechanisms (length names)) (name_bytes names) names
unfolding read_mechanisms name_bytes
Takes-read_mechanisms [] h = Takes-return []
Takes-read_mechanisms (name ∷ names) (h, hs) =
    Takes-bind _ (Takes-read_string name h)
      (Takes-map (λ l. name ∷ l) (Takes-read_mechanisms names hs))

-- A mechanism list as the protocol prescribes it, a count and the counted names, is decoded into the
-- names, in their order.
pub decode_auth_mech_list_response-name_bytes :
    (names : List (List ℕ))
    → length names < 2 ^ 32
    → All IsShort names
    → decode_auth_mech_list_response (septets 4 (length names) ++ name_bytes names) ≡ ok names
unfolding decode_auth_mech_list_response
decode_auth_mech_list_response-name_bytes names h k =
    decoded-Takes (Takes-bind _ (Takes-read_vint (length names) h) (Takes-read_mechanisms names k))

pub encode_auth_request_body-counted :
    (mechanism response : List ℕ)
    → IsShort mechanism
    → IsShort response
    → encode_auth_request_body mechanism response ≡ counted mechanism ++ counted response
unfolding encode_auth_request_body
encode_auth_request_body-counted mechanism response h k =
    write_byte_array-counted (write_string [] mechanism) response k
    ∙ ap (λ b. b ++ counted response) (write_string-counted [] mechanism h)

-- What `decodeAuthResponse` makes of a flag and a counted challenge: the flag is anything but 0 for a
-- completed exchange, and the challenge comes back whole.
pub decode_auth_response-counted :
    (flag : ℕ) (challenge : List ℕ)
    → IsShort challenge
    → decode_auth_response (flag ∷ counted challenge)
      ≡ ok (record { completed = not (flag == 0); challenge = challenge })
unfolding decode_auth_response read_auth_response
decode_auth_response-counted flag challenge h = decoded-Takes (
    Takes-bind _ (Takes-next_byte out_of_range flag) (
      Takes-map (λ c. record { completed = not (flag == 0); challenge = c })
        (Takes-read_byte_array challenge h)))

-- How a server takes an authentication request's body.
abbrev pub read_auth_request : Reader (List ℕ × List ℕ)
read_auth_request =
    read_string >>= λ mechanism. read_byte_array >>= λ token. return (mechanism, token)

-- From the body of an authentication request, which may stand among other bytes, a server reads back
-- the mechanism and then the token that the client has put in, and takes no byte more.
pub encode_auth_request_body-Takes :
    (mechanism token : List ℕ)
    → IsShort mechanism
    → IsShort token
    → Takes read_auth_request (encode_auth_request_body mechanism token) (mechanism, token)
encode_auth_request_body-Takes mechanism token h k =
    subst (λ b. Takes read_auth_request b (mechanism, token))
      (sym (encode_auth_request_body-counted mechanism token h k))
      (Takes-bind _ (Takes-read_string mechanism h)
        (Takes-map (λ r. (mechanism, r)) (Takes-read_byte_array token k)))

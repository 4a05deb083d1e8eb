-- ===== src/Auth/Runs.antt =====
-- Authentication bodies with bytes in them.
use cpp17_client.Base.{◌≡◌, arith, [], ◌∷◌, false, ok}
use cpp17_client.Base.Readers.{Takes}
use cpp17_client.Codec.Framing.{counted}
use cpp17_client.Auth.{encode_auth_request_body, decode_auth_response}
use cpp17_client.Auth.Bodies.{
  read_auth_request, decode_auth_response-counted, encode_auth_request_body-Takes,
}

first_challenge :
    decode_auth_response (0 ∷ counted (114 ∷ 61 ∷ []))
    ≡ ok (record { completed = false; challenge = 114 ∷ 61 ∷ [] })
first_challenge = decode_auth_response-counted 0 (114 ∷ 61 ∷ []) (omega arith)

token_read_back :
    Takes read_auth_request (encode_auth_request_body (80 ∷ []) (1 ∷ 2 ∷ [])) (80 ∷ [], 1 ∷ 2 ∷ [])
token_read_back = encode_auth_request_body-Takes (80 ∷ []) (1 ∷ 2 ∷ []) (omega arith) (omega arith)

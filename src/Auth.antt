-- ===== src/Auth.antt =====
-- include/hotrod/AuthCodec.h: the bodies of the authentication messages.
pub mod Bodies
mod Runs
use cpp17_client.Base.{
  ℕ, suc, zero, List, [], ◌∷◌, map, Bool, not, ◌==◌, Outcome, ok, err, undefined, out_of_range,
}
use cpp17_client.Base.Readers.{Reader, ◌>>=◌, return, next_byte}
use cpp17_client.Codec.{read_vint, read_string, read_byte_array, write_string, write_byte_array}

pub record AuthResponseBody : Type 0 where
  pub completed : Bool
  pub challenge : List ℕ

abbrev pub encode_auth_mech_list_request_body : List ℕ
encode_auth_mech_list_request_body = []

unfoldable pub read_mechanisms : ℕ → Reader (List (List ℕ))
read_mechanisms zero = return []
read_mechanisms (suc n) = do name ← read_string; names ← read_mechanisms n; return (name ∷ names)

-- The value at the end of a reader that starts in front.
abbrev pub decoded : {A : Type 0} → Outcome (A × ℕ) → Outcome A
decoded (ok (a, offset)) = ok a
decoded (err e) = err e
decoded undefined = undefined

-- `reserve(count)` is left out: it throws when the memory for the names is missing.
unfoldable pub decode_auth_mech_list_response : List ℕ → Outcome (List (List ℕ))
unfolding read_mechanisms
decode_auth_mech_list_response body =
    decoded ((read_vint >>= λ count. read_mechanisms count) body 0)

unfoldable pub encode_auth_request_body : List ℕ → List ℕ → List ℕ
encode_auth_request_body mechanism sasl_response =
    write_byte_array (write_string [] mechanism) sasl_response

unfoldable pub read_auth_response : Reader AuthResponseBody
read_auth_response = do
  flag ← next_byte out_of_range
  challenge ← read_byte_array
  return record { completed = not (flag == 0); challenge = challenge }

unfoldable pub decode_auth_response : List ℕ → Outcome AuthResponseBody
unfolding read_auth_response
decode_auth_response body = decoded (read_auth_response body 0)

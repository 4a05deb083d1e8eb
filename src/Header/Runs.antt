-- ===== src/Header/Runs.antt =====
-- Runs of src/codec/HeaderCodec.cpp on the frames of tests/unit/HeaderCodecTest.cpp, and the theorems
-- at concrete inputs.
use cpp17_client.Base.{◌≡◌, refl, [], ◌∷◌}
use cpp17_client.Base.{ok, err, runtime_error}
use cpp17_client.Header.{
  RequestHeader, ResponseHeader, hash_distribution_aware, write_request_header,
  read_response_header,
}
use cpp17_client.Codec.{read_vlong, write_byte_array, write_string, write_vint, write_vlong}

-- A GET request on the cache "c", with one parameter.
abbrev get_request : RequestHeader
get_request = record {
  magic = 0xa0;
  message_id = 300;
  version = 41;
  opcode = 3;
  cache_name = 99 ∷ [];
  flags = 0;
  client_intelligence = hash_distribution_aware;
  topology_id = 5;
  key_media_type = 0;
  value_media_type = 0;
  other_params = (107 ∷ [], 1 ∷ 2 ∷ []) ∷ [];
}

abbrev get_response : ResponseHeader
get_response = record {
  magic = 0xa1;
  message_id = 300;
  opcode = 4;
  status = 0;
  topology_change_marker = 1;
}

write_get :
    write_request_header [] get_request
    ≡ 0xa0 ∷ 0xac ∷ 0x02 ∷ 41 ∷ 3 ∷ 1 ∷ 99 ∷ 0 ∷ 3 ∷ 5 ∷ 0 ∷ 0 ∷ 1 ∷ 1 ∷ 107 ∷ 2 ∷ 1 ∷ 2 ∷ []
unfolding write_request_header write_byte_array write_vint write_string write_vlong
write_get = refl

read_get : read_response_header (0xa1 ∷ 0xac ∷ 0x02 ∷ 4 ∷ 0 ∷ 1 ∷ 8 ∷ []) 0 ≡ ok (get_response, 6)
unfolding read_response_header read_vlong
read_get = refl

read_cut :
    read_response_header (0xa1 ∷ 0x01 ∷ 4 ∷ []) 0
    ≡ err (runtime_error "readResponseHeader: buffer too short for status")
unfolding read_response_header read_vlong
read_cut = refl

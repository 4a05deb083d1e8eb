-- ===== src/Header.antt =====
-- include/hotrod/HeaderCodec.h and src/codec/HeaderCodec.cpp: the frame headers of protocol 4.0.
pub mod Request
pub mod Response
mod Runs
use cpp17_client.Base.{
  ℕ, zero, suc, ◌+◌, ◌%◌, ◌^◌, List, [], ◌∷◌, ◌++◌, length, leb, not, ◌==◌, if◌then◌else◌,
}
use cpp17_client.Base.{Outcome, ok, err, Error, runtime_error}
use cpp17_client.Base.Readers.{Reader, ◌>>=◌, ◌>>◌, return, throw_if, next_byte}
use cpp17_client.Codec.{u32, write_vlong, write_vint, write_string, write_byte_array, read_vlong}

-- Protocol::*
abbrev pub request_magic : ℕ
request_magic = 0xa0

abbrev pub response_magic : ℕ
response_magic = 0xa1

abbrev pub version_40 : ℕ
version_40 = 0x28

abbrev pub version_41 : ℕ
version_41 = 0x29

pub data ClientIntelligence : Type 0 where
  basic topology_aware hash_distribution_aware : ClientIntelligence

-- The enumerators' values.
abbrev pub intelligence_code : ClientIntelligence → ℕ
intelligence_code basic = 1
intelligence_code topology_aware = 2
intelligence_code hash_distribution_aware = 3

-- `other_params` holds the entries of the `std::map` in its order.
pub record RequestHeader : Type 0 where
  pub magic : ℕ
  pub message_id : ℕ
  pub version : ℕ
  pub opcode : ℕ
  pub cache_name : List ℕ
  pub flags : ℕ
  pub client_intelligence : ClientIntelligence
  pub topology_id : ℕ
  pub key_media_type : ℕ
  pub value_media_type : ℕ
  pub other_params : List (List ℕ × List ℕ)

pub record ResponseHeader : Type 0 where
  pub magic : ℕ
  pub message_id : ℕ
  pub opcode : ℕ
  pub status : ℕ
  pub topology_change_marker : ℕ

unfoldable pub write_params : List ℕ → List (List ℕ × List ℕ) → List ℕ
write_params buffer [] = buffer
write_params buffer ((key, value) ∷ params) =
    write_params (write_byte_array (write_string buffer key) value) params

unfoldable pub write_request_header : List ℕ → RequestHeader → List ℕ
unfolding write_params
write_request_header buffer h =
    let with_magic = buffer ++ (h.magic ∷ []) in
    let with_id = write_vlong with_magic h.message_id in
    let with_version = with_id ++ (h.version ∷ []) in
    let with_opcode = with_version ++ (h.opcode ∷ []) in
    let with_name = write_string with_opcode h.cache_name in
    let with_flags = write_vint with_name h.flags in
    let with_intelligence = with_flags ++ (intelligence_code h.client_intelligence ∷ []) in
    let with_topology = write_vint with_intelligence h.topology_id in
    let with_key_type =
      if leb 0x28 h.version then with_topology ++ (h.key_media_type ∷ []) else with_topology in
    let with_value_type =
      if leb 0x28 h.version then with_key_type ++ (h.value_media_type ∷ []) else with_key_type in
    if leb 40 h.version
    then write_params (write_vint with_value_type (u32 (length h.other_params))) h.other_params
    else with_value_type

unfoldable pub read_response_header : Reader ResponseHeader
unfolding ◌>>=◌ ◌>>◌ return throw_if next_byte
read_response_header = do
  magic ← next_byte (runtime_error "readResponseHeader: buffer too short for magic byte")
  throw_if (not (magic == response_magic)) (runtime_error "readResponseHeader: invalid magic byte")
  message_id ← read_vlong
  opcode ← next_byte (runtime_error "readResponseHeader: buffer too short for opcode")
  status ← next_byte (runtime_error "readResponseHeader: buffer too short for status")
  marker ← next_byte (runtime_error "readResponseHeader: buffer too short for topology marker")
  return (record {
    magic = magic;
    message_id = message_id;
    opcode = opcode;
    status = status;
    topology_change_marker = marker;
  })

-- ===== src/Operations.antt =====
-- src/operations/RemoteCache.cpp: what each operation sends and what it makes of a response. A body
-- parser runs over the stream of the connection; the text of an exception is left out.
pub mod Requests
pub mod Results
pub mod Answers
pub mod OpCount
pub mod Progress
mod Runs
use cpp17_client.Base.{
  ℕ, ◌+◌, ◌*◌, ◌^◌, ◌%◌, bit_and, bit_or, List, [], ◌∷◌, ◌++◌, drop, Bool, true, false, ◌||◌, ◌&&◌,
}
use cpp17_client.Base.{Option, none, some, ltb, leb, ◌==◌, if◌then◌else◌, Outcome, ok, err}
use cpp17_client.Base.Readers.{Reader, ◌>>=◌, ◌>>◌, return, next_byte}
use cpp17_client.Codec.{write_byte_array, write_vlong, write_long}
use cpp17_client.Header.{version_40}
use cpp17_client.Stream.{EntryMetadata, closed, receive, receive_metadata, receive_byte_array}

pub data Operation : Type 0 where
  ping : Operation
  get get_with_metadata contains_key : List ℕ → Operation
  put put_if_absent replace : List ℕ → List ℕ → ℕ → ℕ → Bool → Operation
  remove : List ℕ → Bool → Operation
  remove_with_version : List ℕ → ℕ → Operation
  replace_with_version : List ℕ → List ℕ → ℕ → ℕ → ℕ → Operation

-- The time units: the unit of the lifespan in the high half, that of the idle time in the low half; 7
-- is the server's default, 0 seconds.
unfoldable pub time_units : ℕ → ℕ → ℕ
time_units lifespan max_idle =
    bit_or (bit_or 0 ((if lifespan == 0 then 0x07 else 0x00) * 2 ^ 4))
      (if max_idle == 0 then 0x07 else 0x00)

-- A duration, unless it is the default.
unfoldable pub write_duration : List ℕ → ℕ → List ℕ
write_duration buffer duration = if ltb 0 duration then write_vlong buffer duration else buffer

unfoldable pub write_expiration : List ℕ → ℕ → ℕ → List ℕ
unfolding time_units write_duration
write_expiration buffer lifespan max_idle =
    write_duration (write_duration (buffer ++ (time_units lifespan max_idle ∷ [])) lifespan)
      max_idle

unfoldable pub key_body : List ℕ → List ℕ
key_body key = write_byte_array [] key

unfoldable pub value_body : List ℕ → List ℕ → ℕ → ℕ → List ℕ
unfolding key_body write_expiration
value_body key value lifespan max_idle =
    write_byte_array (write_expiration (key_body key) lifespan max_idle) value

unfoldable pub versioned_body : List ℕ → List ℕ → ℕ → ℕ → ℕ → List ℕ
unfolding key_body write_expiration
versioned_body key value version lifespan max_idle =
    write_byte_array (write_long (write_expiration (key_body key) lifespan max_idle) version) value

unfoldable pub request_body : Operation → List ℕ
unfolding value_body versioned_body
request_body ping = []
request_body (get key) = key_body key
request_body (get_with_metadata key) = key_body key
request_body (contains_key key) = key_body key
request_body (put key value lifespan max_idle previous) = value_body key value lifespan max_idle
request_body (put_if_absent key value lifespan max_idle previous) =
    value_body key value lifespan max_idle
request_body (replace key value lifespan max_idle previous) = value_body key value lifespan max_idle
request_body (remove key previous) = key_body key
request_body (remove_with_version key version) = write_long (key_body key) version
request_body (replace_with_version key value version lifespan max_idle) =
    versioned_body key value version lifespan max_idle

-- The arguments of `execute`: the opcodes of the request and of its response, and the flags.
unfoldable pub request_opcode : Operation → ℕ
request_opcode (put key value lifespan max_idle previous) = 0x01
request_opcode (get key) = 0x03
request_opcode (put_if_absent key value lifespan max_idle previous) = 0x05
request_opcode (replace key value lifespan max_idle previous) = 0x07
request_opcode (replace_with_version key value version lifespan max_idle) = 0x09
request_opcode (remove key previous) = 0x0b
request_opcode (remove_with_version key version) = 0x0d
request_opcode (contains_key key) = 0x0f
request_opcode ping = 0x17
request_opcode (get_with_metadata key) = 0x1b

unfoldable pub response_opcode : Operation → ℕ
response_opcode (put key value lifespan max_idle previous) = 0x02
response_opcode (get key) = 0x04
response_opcode (put_if_absent key value lifespan max_idle previous) = 0x06
response_opcode (replace key value lifespan max_idle previous) = 0x08
response_opcode (replace_with_version key value version lifespan max_idle) = 0x0a
response_opcode (remove key previous) = 0x0c
response_opcode (remove_with_version key version) = 0x0e
response_opcode (contains_key key) = 0x10
response_opcode ping = 0x18
response_opcode (get_with_metadata key) = 0x1c

abbrev previous_flag : Bool → ℕ
previous_flag previous = if previous then 1 else 0

unfoldable pub request_flags : Operation → ℕ
request_flags (put key value lifespan max_idle previous) = previous_flag previous
request_flags (put_if_absent key value lifespan max_idle previous) = previous_flag previous
request_flags (replace key value lifespan max_idle previous) = previous_flag previous
request_flags (remove key previous) = previous_flag previous
request_flags _ = 0

-- What a body parser leaves in the `std::any`: nothing, a value, or an entry, whose metadata is not
-- set in protocols below 4.0.
pub data Body : Type 0 where
  empty : Body
  value : List ℕ → Body
  entry : Option EntryMetadata → List ℕ → Body

-- Or the status with which it throws a `HotRodClientException` of the server's error.
pub data Parsed : Type 0 where
  parsed : Body → Parsed
  failed : ℕ → Parsed

unfoldable pub parse_entry : Reader Parsed
parse_entry = do
  metadata ← receive_metadata
  bytes ← receive_byte_array
  return (parsed (entry (some metadata) bytes))

unfoldable pub parse_value : Reader Parsed
parse_value = do bytes ← receive_byte_array; return (parsed (value bytes))

abbrev pub is_plain_status : ℕ → Bool
is_plain_status status = status == 0x00 || status == 0x01 || status == 0x02

-- The parsers of `get` and `getWithMetadata`, which differ in what they read on success.
unfoldable pub parse_found : ℕ → Reader Parsed → Reader Parsed
parse_found status read =
    if status == 0x01 || status == 0x02
    then return (parsed empty)
    else if status == 0x00
    then read
    else return (failed status)

unfoldable pub parse_put : ℕ → ℕ → Reader Parsed
unfolding parse_entry
parse_put status version =
    if status == 0x03
    then (if leb version_40 version
        then parse_entry
        else (receive_byte_array >>= λ bytes. return (parsed (entry none bytes))))
    else return (parsed empty)

-- The parser of `remove`, `removeWithVersion`, `replaceWithVersion`, `putIfAbsent` and `replace`.
unfoldable pub parse_conditional : ℕ → Reader Parsed
unfolding parse_entry
parse_conditional status =
    if status == 0x03 || status == 0x04
    then parse_entry
    else if is_plain_status status
    then return (parsed empty)
    else return (failed status)

unfoldable pub parse_status : ℕ → Reader Parsed
parse_status status =
    if is_plain_status status then return (parsed empty) else return (failed status)

-- A loop that drops the bytes of a vint up to the last one, which it returns.
unfoldable pub last_vint_byte : List ℕ → ℕ → Outcome (ℕ × ℕ)
last_vint_byte [] offset = err closed
last_vint_byte (b ∷ rest) offset =
    let more = last_vint_byte rest (offset + 1) in
    if bit_and b 0x80 == 0 then ok (b, offset + 1) else more

unfoldable pub skip_vint : Reader ℕ
unfolding last_vint_byte
skip_vint buffer offset = last_vint_byte (drop offset buffer) offset

-- The predefined number or the custom name of a media type; the length is its vint's last byte.
unfoldable pub skip_media_name : ℕ → Reader (List ℕ)
unfolding skip_vint
skip_media_name indicator =
    if indicator == 1
    then (skip_vint >>= λ b. return [])
    else if indicator == 2
    then (skip_vint >>= λ count. if ltb 0 count then receive count else return [])
    else return []

unfoldable pub skip_media_type : Reader ℕ
unfolding skip_media_name
skip_media_type = do
  indicator ← next_byte closed
  if indicator == 0 then return 0 else (skip_media_name indicator >>= λ name. skip_vint)

-- The loop that reads the number of opcodes, with the later bytes below the earlier ones.
unfoldable pub op_count_loop : List ℕ → ℕ → ℕ → Outcome (ℕ × ℕ)
op_count_loop [] op_count offset = err closed
op_count_loop (b ∷ rest) op_count offset =
    let next : ℕ = bit_or (op_count * 2 ^ 7 % 2 ^ 32) (bit_and b 0x7f) in
    let more = op_count_loop rest next (offset + 1) in
    if bit_and b 0x80 == 0 then ok (next, offset + 1) else more

unfoldable pub receive_op_count : Reader ℕ
unfolding op_count_loop
receive_op_count buffer offset = op_count_loop (drop offset buffer) 0 offset

unfoldable pub parse_ping : ℕ → Reader Parsed
unfolding skip_media_type receive_op_count
parse_ping status =
    if status == 0x00
    then (do
      key_type ← skip_media_type
      value_type ← skip_media_type
      server_version ← receive 1
      op_count ← receive_op_count
      opcodes ← (if ltb 0 op_count then receive (op_count * 2 % 2 ^ 32) else return [])
      return (parsed empty))
    else return (failed status)

unfoldable pub parse_body : Operation → ℕ → ℕ → Reader Parsed
unfolding parse_found parse_value parse_put parse_conditional parse_status parse_ping
parse_body ping status version = parse_ping status
parse_body (get key) status version = parse_found status parse_value
parse_body (get_with_metadata key) status version = parse_found status parse_entry
parse_body (contains_key key) status version = parse_status status
parse_body (put _ _ _ _ _) status version = parse_put status version
parse_body (put_if_absent _ _ _ _ _) status version = parse_conditional status
parse_body (replace _ _ _ _ _) status version = parse_conditional status
parse_body (remove _ _) status version = parse_conditional status
parse_body (remove_with_version _ _) status version = parse_conditional status
parse_body (replace_with_version _ _ _ _ _) status version = parse_conditional status

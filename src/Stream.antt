-- ===== src/Stream.antt =====
-- src/transport/Connection.cpp: the helpers that receive the parts of a response body. The buffer is
-- everything that the peer sends on the connected socket before it closes, and the offset counts the
-- bytes received so far.
pub mod Loops
pub mod Receiving
pub mod Agreement
pub mod Metadata
pub mod Progress
mod Runs
use cpp17_client.Base.{
  ℕ, ◌+◌, ◌*◌, ◌%◌, ◌^◌, bit_and, bit_or, List, [], ◌∷◌, Bool, not, length, take,
}
use cpp17_client.Base.{drop, Option, none, some, ltb, leb, ◌==◌, if◌then◌else◌}
use cpp17_client.Base.{Outcome, ok, err, undefined, Error, runtime_error}
use cpp17_client.Base.Readers.{Reader, ◌>>=◌, ◌>>◌, return, next_byte}

abbrev pub closed : Error
closed = runtime_error "Connection closed by peer"

unfoldable pub receive : ℕ → Reader (List ℕ)
receive count buffer offset =
    if ltb (length buffer) (offset + count)
    then err closed
    else ok (take count (drop offset buffer), offset + count)

-- The loop of `receiveVInt`: `first` is `firstByte[0]`, and `stream` what the peer still sends. A shift by the
-- width or more is undefined.
unfoldable pub receive_vint_loop : List ℕ → ℕ → ℕ → ℕ → ℕ → Outcome (ℕ × ℕ)
receive_vint_loop [] offset first value shift =
    if not (bit_and first 0x80 == 0) then err closed else ok (value, offset)
receive_vint_loop (next ∷ stream) offset first value shift =
    let continued =
      receive_vint_loop stream (offset + 1) next
        (bit_or value (bit_and next 0x7f * 2 ^ shift % 2 ^ 32)) (shift + 7) in
    if not (bit_and first 0x80 == 0)
    then (if leb 32 shift then undefined else continued)
    else ok (value, offset)

-- Behind the first `receive(1)`.
unfoldable pub receive_vint_first : List ℕ → ℕ → Outcome (ℕ × ℕ)
receive_vint_first [] offset = err closed
receive_vint_first (first ∷ stream) offset =
    receive_vint_loop stream (offset + 1) first (bit_and first 0x7f) 7

unfoldable pub receive_vint : Reader ℕ
unfolding receive_vint_first receive_vint_loop
receive_vint buffer offset = receive_vint_first (drop offset buffer) offset

-- The same for `receiveVLong`.
unfoldable pub receive_vlong_loop : List ℕ → ℕ → ℕ → ℕ → ℕ → Outcome (ℕ × ℕ)
receive_vlong_loop [] offset first value shift =
    if not (bit_and first 0x80 == 0) then err closed else ok (value, offset)
receive_vlong_loop (next ∷ stream) offset first value shift =
    let continued =
      receive_vlong_loop stream (offset + 1) next
        (bit_or value (bit_and next 0x7f * 2 ^ shift % 2 ^ 64)) (shift + 7) in
    if not (bit_and first 0x80 == 0)
    then (if leb 64 shift then undefined else continued)
    else ok (value, offset)

unfoldable pub receive_vlong_first : List ℕ → ℕ → Outcome (ℕ × ℕ)
receive_vlong_first [] offset = err closed
receive_vlong_first (first ∷ stream) offset =
    receive_vlong_loop stream (offset + 1) first (bit_and first 0x7f) 7

unfoldable pub receive_vlong : Reader ℕ
unfolding receive_vlong_first receive_vlong_loop
receive_vlong buffer offset = receive_vlong_first (drop offset buffer) offset

unfoldable pub receive_byte_array : Reader (List ℕ)
unfolding receive_vint receive ◌>>=◌ return
receive_byte_array = do count ← receive_vint; if count == 0 then return [] else receive count

-- `created = (created << 8) | createdBytes[i]`, and the same for the other times and the version.
unfoldable pub receive_long_loop : List ℕ → ℕ → ℕ
receive_long_loop [] value = value
receive_long_loop (b ∷ bytes) value = receive_long_loop bytes (bit_or (value * 2 ^ 8 % 2 ^ 64) b)

-- Eight bytes, the highest first.
unfoldable pub receive_long : Reader ℕ
unfolding receive receive_long_loop ◌>>=◌ return
receive_long = do bytes ← receive 8; return (receive_long_loop bytes 0)

-- An `int64_t` is its bit pattern.
pub record EntryMetadata : Type 0 where
  pub created : Option ℕ
  pub last_used : Option ℕ
  pub lifespan : Option ℕ
  pub max_idle : Option ℕ
  pub version : ℕ

-- A time and the duration behind it, unless the flag's bit says that there is no limit.
unfoldable pub receive_limit : Bool → Reader (Option ℕ × Option ℕ)
receive_limit limited =
    if limited
    then (do time ← receive_long; duration ← receive_vint; return (some time, some duration))
    else return (none, none)

unfoldable pub receive_metadata : Reader EntryMetadata
unfolding receive_limit
receive_metadata = do
  flag ← next_byte closed
  life ← receive_limit (bit_and flag 0x01 == 0)
  idle ← receive_limit (bit_and flag 0x02 == 0)
  version ← receive_long
  return record {
    created = life.0;
    last_used = idle.0;
    lifespan = life.1;
    max_idle = idle.1;
    version = version;
  }

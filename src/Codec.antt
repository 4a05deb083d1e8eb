-- ===== src/Codec.antt =====
-- src/codec/Codec.cpp: the wire primitives of the Hot Rod protocol. A `ByteArray` or `std::string`
-- is the list of its bytes. A writer returns the buffer that it has appended to; a reader takes the
-- buffer and the offset, and returns the value with the new offset. An `int64_t` is its bit pattern.
pub mod Septets
pub mod Reading
pub mod VarLoop
pub mod VarInts
pub mod Longs
pub mod Blocks
pub mod Framing
mod Runs
use cpp17_client.Base.{ℕ, zero, suc, ◌+◌, ◌-◌, ◌*◌, ◌/◌, ◌%◌, ◌^◌, ◌<◌, bit_and, bit_or, String}
use cpp17_client.Base.{◌≡◌, ◌≢◌, arith, Bool, List, [], ◌∷◌, ◌++◌, length, take, drop, foldl, Acc}
use cpp17_client.Base.{ltb, ◌==◌, if◌then◌else◌, dite, lt_wf, ℕ_discrete, All}
use cpp17_client.Base.{Outcome, ok, err, undefined, runtime_error, ◌>>=◌, ◌>>◌, throw_if}
use cpp17_client.Base.Bits.{bit_and-zero_left}

-- `static_cast<uint8_t>`, `static_cast<uint32_t>`.
abbrev pub u8 : ℕ → ℕ
u8 n = n % 2 ^ 8

abbrev pub u32 : ℕ → ℕ
u32 n = n % 2 ^ 32

abbrev pub IsByte : ℕ → Type 0
IsByte b = b < 256

-- The loop of `writeVInt` and `writeVLong` on a value of `w` bits; `~0x7F` has its other bits set.
pub septet_shrinks : (w v : ℕ) → bit_and v (2 ^ w - 2 ^ 7) ≢ 0 → v / 2 ^ 7 < v
septet_shrinks w zero h = absurd (h (bit_and-zero_left _))
septet_shrinks w (suc v) h = omega arith

pub write_var_loop : (w : ℕ) → List ℕ → (v : ℕ) → Acc ◌<◌ v → List ℕ
write_var_loop w buffer v (Acc.intro _ smaller) =
    dite (ℕ_discrete (bit_and v (2 ^ w - 2 ^ 7)) 0) (λ _. buffer ++ (u8 v ∷ []))
      (λ more.
        write_var_loop w (buffer ++ (u8 (bit_or (bit_and v 0x7f) 0x80) ∷ [])) (v / 2 ^ 7)
          (smaller _ (septet_shrinks w v more)))

unfoldable pub write_var : ℕ → List ℕ → ℕ → List ℕ
unfolding write_var_loop lt_wf ℕ_discrete
write_var w buffer v = write_var_loop w buffer v (lt_wf.apply v)

unfoldable pub write_vint : List ℕ → ℕ → List ℕ
unfolding write_var
write_vint = write_var 32

unfoldable pub write_vlong : List ℕ → ℕ → List ℕ
unfolding write_var
write_vlong = write_var 64

-- The loop of `readVInt` and `readVLong`: `b` is the byte read last, and the list is what the
-- buffer holds from `offset` on. A shift by the width or more is undefined.
unfoldable pub read_var_loop : ℕ → String → List ℕ → ℕ → ℕ → ℕ → ℕ → Outcome (ℕ × ℕ)
read_var_loop w incomplete [] offset b result shift =
    if bit_and b 0x80 == 0 then ok (result, offset) else err (runtime_error incomplete)
read_var_loop w incomplete (c ∷ rest) offset b result shift =
    let more =
      read_var_loop w incomplete rest (offset + 1) c
        (bit_or result (bit_and c 0x7f * 2 ^ shift % 2 ^ w)) (shift + 7) in
    if bit_and b 0x80 == 0 then ok (result, offset) else if ltb shift w then more else undefined

unfoldable pub read_var_from : ℕ → String → String → List ℕ → ℕ → Outcome (ℕ × ℕ)
read_var_from w outside incomplete [] offset = err (runtime_error outside)
read_var_from w outside incomplete (b ∷ rest) offset =
    read_var_loop w incomplete rest (offset + 1) b (bit_and b 0x7f) 7

unfoldable pub read_vint : List ℕ → ℕ → Outcome (ℕ × ℕ)
unfolding read_var_from read_var_loop
read_vint buffer offset =
    read_var_from 32 "readVInt: offset out of bounds" "readVInt: incomplete varint"
      (drop offset buffer) offset

unfoldable pub read_vlong : List ℕ → ℕ → Outcome (ℕ × ℕ)
unfolding read_var_from read_var_loop
read_vlong buffer offset =
    read_var_from 64 "readVLong: offset out of bounds" "readVLong: incomplete varint"
      (drop offset buffer) offset

-- `i` counts down from 7 in the source; here it is the number of bytes still to write.
write_long_loop : ℕ → List ℕ → ℕ → List ℕ
write_long_loop zero buffer value = buffer
write_long_loop (suc i) buffer value =
    write_long_loop i (buffer ++ (u8 (bit_and (value / 2 ^ (i * 8)) 0xff) ∷ [])) value

unfoldable pub write_long : List ℕ → ℕ → List ℕ
unfolding write_long_loop
write_long = write_long_loop 8

-- `result = (result << 8) | b` on 64 bits.
abbrev pub append_byte : ℕ → ℕ → ℕ
append_byte result b = bit_or (result * 2 ^ 8 % 2 ^ 64) b

unfoldable pub read_long : List ℕ → ℕ → Outcome (ℕ × ℕ)
read_long buffer offset = do
  throw_if (ltb (length buffer) (offset + 8)) (runtime_error "readLong: offset out of bounds")
  ok (foldl append_byte 0 (take 8 (drop offset buffer)), offset + 8)

unfoldable pub write_string : List ℕ → List ℕ → List ℕ
write_string buffer value =
    if length value == 0
    then write_vint buffer 0
    else write_vint buffer (u32 (length value)) ++ value

unfoldable pub write_byte_array : List ℕ → List ℕ → List ℕ
write_byte_array buffer value = write_vint buffer (u32 (length value)) ++ value

-- The common body of `readString` and `readByteArray`.
unfoldable pub read_counted : String → List ℕ → ℕ → Outcome (List ℕ × ℕ)
read_counted exceeds buffer start = do
  (count, offset) ← read_vint buffer start
  if count == 0
      then ok ([], offset)
      else if ltb (length buffer) (offset + count)
      then err (runtime_error exceeds)
      else ok (take count (drop offset buffer), offset + count)

unfoldable pub read_string : List ℕ → ℕ → Outcome (List ℕ × ℕ)
unfolding read_counted
read_string = read_counted "readString: string length exceeds buffer"

unfoldable pub read_byte_array : List ℕ → ℕ → Outcome (List ℕ × ℕ)
unfolding read_counted
read_byte_array = read_counted "readByteArray: array length exceeds buffer"

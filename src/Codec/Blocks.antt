-- ===== src/Codec/Blocks.antt =====
-- Strings and byte arrays of src/codec/Codec.cpp: a count and that many bytes.
use cpp17_client.Base.{ℕ, ◌+◌, ◌%◌, ◌^◌, ◌≤◌, ◌<◌, String}
use cpp17_client.Base.{◌≡◌, sym, arith, List, [], ◌∷◌, ◌++◌}
use cpp17_client.Base.{
  length, drop, take, length-append, length-drop, length-take, drop-append, take-append,
}
use cpp17_client.Base.{append_assoc, append-nil}
use cpp17_client.Base.{Outcome, ok, err, runtime_error, ltb, ◌==◌, if◌then◌else◌, bind_ok}
use cpp17_client.Codec.{
  read_vint, write_vint, write_string, write_byte_array, read_counted, read_string, read_byte_array,
}
use cpp17_client.Codec.VarInts.{read_vint-write_vint, read_vint_bounds}

-- An empty string is written like an empty array: as the count alone.
pub write_string-eq-write_byte_array :
    (buffer value : List ℕ) → write_string buffer value ≡ write_byte_array buffer value
unfolding write_string write_byte_array
write_string-eq-write_byte_array buffer [] = sym (append-nil _)
write_string-eq-write_byte_array buffer (c ∷ value) = ground arith

-- The common reader on what either writer appends.
read_counted-write :
    (exceeds : String) (front value rest : List ℕ)
    → length value < 2 ^ 32
    → read_counted exceeds (write_byte_array front value ++ rest) (length front)
      ≡ ok (value, length (write_byte_array front value))
unfolding read_counted write_byte_array
read_counted-write exceeds front [] rest h =
    rw (append_assoc, read_vint-write_vint front rest 0 (omega arith), append-nil)
read_counted-write exceeds front (c ∷ value) rest h =
    let n : ℕ = length (c ∷ value) in
    let counted : n % 2 ^ 32 ≡ n = omega arith in
    let w : List ℕ = write_vint front n in
    rw (counted, append_assoc, read_vint-write_vint front (c ∷ value ++ rest) n h)
      (ground (
        arith,
        length-append w (c ∷ value ++ rest),
        length-append w (c ∷ value),
        length-append (c ∷ value) rest,
        drop-append w (c ∷ value ++ rest),
        take-append (c ∷ value) rest,
      ))

-- `readByteArray` at the offset where `writeByteArray` began to append fewer than 2^32 bytes returns
-- them and the offset behind them.
pub read_byte_array-write_byte_array :
    (front value rest : List ℕ)
    → length value < 2 ^ 32
    → read_byte_array (write_byte_array front value ++ rest) (length front)
      ≡ ok (value, length (write_byte_array front value))
unfolding read_byte_array
read_byte_array-write_byte_array = read_counted-write _

-- `readString` at the offset where `writeString` began to append a string shorter than 2^32 bytes
-- returns the string and the offset behind it.
pub read_string-write_string :
    (front value rest : List ℕ)
    → length value < 2 ^ 32
    → read_string (write_string front value ++ rest) (length front)
      ≡ ok (value, length (write_string front value))
unfolding read_string
read_string-write_string front value rest h =
    rw write_string-eq-write_byte_array (read_counted-write _ front value rest h)

-- The reader behind the count `n`, which ended at `start`.
taken : String → List ℕ → ℕ × ℕ → Outcome (List ℕ × ℕ)
taken exceeds buffer (n, start) =
    if n == 0
    then ok ([], start)
    else if ltb (length buffer) (start + n)
    then err (runtime_error exceeds)
    else ok (take n (drop start buffer), start + n)

taken_piece :
    (exceeds : String) (buffer : List ℕ) (n start : ℕ) (value : List ℕ) (offset' : ℕ)
    → start ≤ length buffer
    → taken exceeds buffer (n, start) ≡ ok (value, offset')
    → (length value ≡ n)
      × (offset' ≡ start + n)
      × (offset' ≤ length buffer)
      × (value ≡ take n (drop start buffer))
unfolding taken
taken_piece exceeds buffer n start value offset' h e =
    ground (arith, length-take n (drop start buffer), length-drop start buffer)

-- What `readByteArray` returns is a piece of the buffer: it ends at the new offset, which lies in the
-- buffer, and the length of the piece was read in the one to five bytes in front of it.
pub read_byte_array_piece :
    (buffer : List ℕ) (offset : ℕ) (value : List ℕ) (offset' : ℕ)
    → read_byte_array buffer offset ≡ ok (value, offset')
    → (start : ℕ) × (read_vint buffer offset ≡ ok (length value, start))
      × (offset < start)
      × (start ≤ offset + 5)
      × (offset' ≡ start + length value)
      × (offset' ≤ length buffer)
      × (value ≡ take (length value) (drop start buffer))
unfolding read_byte_array taken
read_byte_array_piece buffer offset value offset' e =
    let (p, counted, e') = bind_ok (read_vint buffer offset) (taken _ buffer) e in
    let (small, after, near, inside) = read_vint_bounds buffer offset p.0 p.1 counted in
    let (long, ends, within, piece) = taken_piece _ buffer p.0 p.1 value offset' inside e' in
    (p.1, rw long counted, after, near, omega arith, within, rw long piece)

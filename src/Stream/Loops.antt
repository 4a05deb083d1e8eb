-- ===== src/Stream/Loops.antt =====
-- The loops of src/transport/Connection.cpp against those of src/codec/Codec.cpp.
use cpp17_client.Base.{
  ℕ, ◌+◌, ◌*◌, ◌%◌, ◌^◌, ◌≡◌, refl, List, [], ◌∷◌, drop, foldl, bit_and, bit_or, Bool-cases, ◌==◌,
  inl, inr, arith,
}
use cpp17_client.Codec.{read_var_loop, read_var_from, append_byte}
use cpp17_client.Stream.{
  receive_vint, receive_vint_first, receive_vint_loop, receive_vlong, receive_vlong_first,
  receive_vlong_loop, receive_long_loop,
}

receive_vint_loop-read_var_loop :
    (stream : List ℕ) (offset first value shift : ℕ)
    → receive_vint_loop stream offset first value shift
      ≡ read_var_loop 32 "Connection closed by peer" stream offset first value shift
unfolding receive_vint_loop read_var_loop
receive_vint_loop-read_var_loop [] offset first value shift =
    elim (Bool-cases (bit_and first 0x80 == 0)) [
      | inl last ↦ rw last refl
      | inr more ↦ rw more refl
    ]
receive_vint_loop-read_var_loop (next ∷ stream) offset first value shift = grind (
  arith,
  receive_vint_loop-read_var_loop stream (offset + 1) next
      (bit_or value (bit_and next 0x7f * 2 ^ shift % 2 ^ 32)) (shift + 7),
)

receive_vlong_loop-read_var_loop :
    (stream : List ℕ) (offset first value shift : ℕ)
    → receive_vlong_loop stream offset first value shift
      ≡ read_var_loop 64 "Connection closed by peer" stream offset first value shift
unfolding receive_vlong_loop read_var_loop
receive_vlong_loop-read_var_loop [] offset first value shift =
    elim (Bool-cases (bit_and first 0x80 == 0)) [
      | inl last ↦ rw last refl
      | inr more ↦ rw more refl
    ]
receive_vlong_loop-read_var_loop (next ∷ stream) offset first value shift = grind (
  arith,
  receive_vlong_loop-read_var_loop stream (offset + 1) next
      (bit_or value (bit_and next 0x7f * 2 ^ shift % 2 ^ 64)) (shift + 7),
)

receive_vint_first-read_var_from :
    (stream : List ℕ) (offset : ℕ)
    → receive_vint_first stream offset
      ≡ read_var_from 32 "Connection closed by peer" "Connection closed by peer" stream offset
unfolding receive_vint_first read_var_from
receive_vint_first-read_var_from [] offset = refl
receive_vint_first-read_var_from (first ∷ stream) offset =
    receive_vint_loop-read_var_loop stream (offset + 1) first (bit_and first 0x7f) 7

pub receive_vint-read_var_from :
    (buffer : List ℕ) (offset : ℕ)
    → receive_vint buffer offset
      ≡ read_var_from 32 "Connection closed by peer" "Connection closed by peer"
          (drop offset buffer)
          offset
unfolding receive_vint
receive_vint-read_var_from buffer offset =
    receive_vint_first-read_var_from (drop offset buffer) offset

receive_vlong_first-read_var_from :
    (stream : List ℕ) (offset : ℕ)
    → receive_vlong_first stream offset
      ≡ read_var_from 64 "Connection closed by peer" "Connection closed by peer" stream offset
unfolding receive_vlong_first read_var_from
receive_vlong_first-read_var_from [] offset = refl
receive_vlong_first-read_var_from (first ∷ stream) offset =
    receive_vlong_loop-read_var_loop stream (offset + 1) first (bit_and first 0x7f) 7

pub receive_vlong-read_var_from :
    (buffer : List ℕ) (offset : ℕ)
    → receive_vlong buffer offset
      ≡ read_var_from 64 "Connection closed by peer" "Connection closed by peer"
          (drop offset buffer)
          offset
unfolding receive_vlong
receive_vlong-read_var_from buffer offset =
    receive_vlong_first-read_var_from (drop offset buffer) offset

pub receive_long_loop-foldl :
    (bytes : List ℕ) (value : ℕ) → receive_long_loop bytes value ≡ foldl append_byte value bytes
unfolding receive_long_loop
receive_long_loop-foldl [] value = refl
receive_long_loop-foldl (b ∷ bytes) value = receive_long_loop-foldl bytes (append_byte value b)

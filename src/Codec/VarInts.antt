-- ===== src/Codec/VarInts.antt =====
-- What src/codec/Codec.cpp promises of `writeVInt`, `readVInt`, `writeVLong` and `readVLong`.
use cpp17_client.Base.{ℕ, ◌+◌, ◌^◌, ◌≤◌, ◌<◌}
use cpp17_client.Base.{◌≡◌, sym, ◌∙◌, arith, List, [], ◌∷◌, ◌++◌}
use cpp17_client.Base.{length, drop, All, length-append, length-drop, drop-append, append_assoc}
use cpp17_client.Base.{ok, err, undefined, runtime_error}
use cpp17_client.Codec.{IsByte, read_vint, read_vlong, write_vint, write_vlong}
use cpp17_client.Codec.Septets.{
  septets, septets-IsByte, length-septets, write_vint-septets, write_vlong-septets,
}
use cpp17_client.Codec.VarLoop.{read_var_from-absorb, read_var_from-septets, absorb_prefix}
use cpp17_client.Codec.VarLoop.{IsContinued, read_var_from_bounds, absorb_overlong}

-- `readVInt` at the offset where `writeVInt` began to append a 32-bit value returns the value and the
-- offset behind it, whatever stands in front of it and behind it.
pub read_vint-write_vint :
    (front rest : List ℕ) (v : ℕ)
    → v < 2 ^ 32
    → read_vint (write_vint front v ++ rest) (length front) ≡ ok (v, length (write_vint front v))
unfolding read_vint
read_vint-write_vint front rest v h =
    rw (write_vint-septets front v h, append_assoc, drop-append, length-append)
      (read_var_from-septets 32 _ _ 4 v (length front) rest (omega arith) (omega arith) h)

-- `readVLong` returns the 64-bit value that `writeVLong` appended, and the offset behind it.
pub read_vlong-write_vlong :
    (front rest : List ℕ) (v : ℕ)
    → v < 2 ^ 64
    → read_vlong (write_vlong front v ++ rest) (length front) ≡ ok (v, length (write_vlong front v))
unfolding read_vlong
read_vlong-write_vlong front rest v h =
    rw (write_vlong-septets front v h, append_assoc, drop-append, length-append)
      (read_var_from-septets 64 _ _ 9 v (length front) rest (omega arith) (omega arith) h)

-- `writeVInt` of a 32-bit value keeps the buffer and appends one to five bytes.
pub write_vint_shape :
    (buffer : List ℕ) (v : ℕ)
    → v < 2 ^ 32
    → (g : List ℕ) × (write_vint buffer v ≡ buffer ++ g)
      × All IsByte g
      × (1 ≤ length g)
      × (length g ≤ 5)
write_vint_shape buffer v h =
    let (lo, hi) = length-septets 4 v in
    (septets 4 v, write_vint-septets buffer v h, septets-IsByte 4 v (omega arith), lo, hi)

-- On every proper prefix of what `writeVInt` wrote for a 32-bit value, at least one byte long,
-- `readVInt` throws that the number is incomplete.
pub read_vint_truncated :
    (v f x : ℕ) (front back : List ℕ)
    → v < 2 ^ 32
    → write_vint [] v ≡ (f ∷ front) ++ (x ∷ back)
    → read_vint (f ∷ front) 0 ≡ err (runtime_error "readVInt: incomplete varint")
unfolding read_vint
read_vint_truncated v f x front back h e =
    read_var_from-absorb 32 "readVInt: offset out of bounds" _ (f ∷ front) 0 (omega arith)
      (omega arith)
    ∙ absorb_prefix 32 "" _ 4 v 0 0 0 x (f ∷ front) back (omega arith) (omega arith) (omega arith)
        (sym (write_vint-septets [] v h) ∙ e)

-- Whatever the buffer holds, a value that `readVInt` returns fits 32 bits, and the new offset lies one
-- to five bytes on and within the buffer.
pub read_vint_bounds :
    (buffer : List ℕ) (offset v offset' : ℕ)
    → read_vint buffer offset ≡ ok (v, offset')
    → (v < 2 ^ 32) × (offset < offset') × (offset' ≤ offset + 5) × (offset' ≤ length buffer)
unfolding read_vint
read_vint_bounds buffer offset v offset' e = ground (
  arith,
  length-drop offset buffer,
  read_var_from_bounds 32 _ _ (drop offset buffer) offset v offset' (omega arith) e,
)

-- Five or more bytes with the top bit set, and one more byte behind them, make `readVInt` shift a
-- 32-bit number by 35, which is undefined in C++.
pub read_vint_overlong :
    (front : List ℕ) (x : ℕ) (xs : List ℕ) (f : ℕ) (rest : List ℕ)
    → All IsContinued (x ∷ xs)
    → 5 ≤ length (x ∷ xs)
    → read_vint (front ++ (x ∷ xs ++ (f ∷ rest))) (length front) ≡ undefined
unfolding read_vint
read_vint_overlong front x xs f rest h k = rw drop-append (
    read_var_from-absorb 32 "readVInt: offset out of bounds" _ (x ∷ xs ++ (f ∷ rest)) _
      (omega arith) (omega arith)
    ∙ absorb_overlong 32 "" _ x xs rest f (length front) 0 0 h (omega arith))

-- Likewise for `readVLong`: 64 bits, and one to ten bytes.
pub read_vlong_bounds :
    (buffer : List ℕ) (offset v offset' : ℕ)
    → read_vlong buffer offset ≡ ok (v, offset')
    → (v < 2 ^ 64) × (offset < offset') × (offset' ≤ offset + 10) × (offset' ≤ length buffer)
unfolding read_vlong
read_vlong_bounds buffer offset v offset' e = ground (
  arith,
  length-drop offset buffer,
  read_var_from_bounds 64 _ _ (drop offset buffer) offset v offset' (omega arith) e,
)

-- ===== src/Codec/Longs.antt =====
-- `writeLong` and `readLong` of src/codec/Codec.cpp: eight bytes, the highest first.
use cpp17_client.Base.{ℕ, ◌+◌, ◌*◌, ◌/◌, ◌%◌, ◌^◌, ◌≤◌, ◌<◌}
use cpp17_client.Base.{◌≡◌, refl, ap, ◌∙◌, arith, ltb, false, List, [], ◌∷◌, ◌++◌, foldl}
use cpp17_client.Base.{length, All, length-append, drop-append, append_assoc}
use cpp17_client.Base.{ok}
use cpp17_client.Base.Bits.{low_byte, bit_or-high}
use cpp17_client.Codec.{IsByte, append_byte, write_long, read_long}
use native.Mathlib.Nat.{mod-mod, div-one, mod-eq_of_lt, one-le-pow, pow-suc}

-- The number whose digits to the base 256 are those of `r` and then the bytes.
unfoldable pub big_endian : ℕ → List ℕ → ℕ
big_endian r [] = r
big_endian r (b ∷ bs) = big_endian (r * 256 + b) bs

append_byte-add : (r b : ℕ) → r < 2 ^ 56 → b < 256 → append_byte r b ≡ r * 256 + b
append_byte-add r b h k =
    rw (mod-eq_of_lt {n = r * 2 ^ 8} {m = 2 ^ 64} (omega arith)) (bit_or-high 8 r b k)

mul_mono : (x m p : ℕ) → x ≤ m → x * p ≤ m * p
mul_mono x m p h = grind arith

next_room : (r b p n : ℕ) → b < 256 → (r + 1) * (p * 256) ≤ n → (r * 256 + b + 1) * p ≤ n
next_room r b p n h k = omega (arith, mul_mono (r * 256 + b + 1) ((r + 1) * 256) p (omega arith))

pub foldl-append_byte :
    (bs : List ℕ) (r : ℕ)
    → All IsByte bs
    → (r + 1) * 256 ^ length bs ≤ 2 ^ 64
    → foldl append_byte r bs ≡ big_endian r bs
unfolding big_endian
foldl-append_byte [] r h k = refl
foldl-append_byte (b ∷ bs) r (h, hs) k =
    let room : (r + 1) * (256 ^ length bs * 256) ≤ 2 ^ 64 = rw (← pow-suc 256 (length bs)) k in
    let step : append_byte r b ≡ r * 256 + b =
      append_byte-add r b (grind (arith, one-le-pow (length bs) 256 (omega arith))) h in
    ap (λ (t : ℕ). foldl append_byte t bs) step
    ∙ foldl-append_byte bs (r * 256 + b) hs (next_room r b (256 ^ length bs) (2 ^ 64) h room)

unfoldable pub long_bytes : ℕ → List ℕ
long_bytes v =
    (v / 2 ^ 56 % 256)
    ∷ (v / 2 ^ 48 % 256)
    ∷ (v / 2 ^ 40 % 256)
    ∷ (v / 2 ^ 32 % 256)
    ∷ (v / 2 ^ 24 % 256)
    ∷ (v / 2 ^ 16 % 256)
    ∷ (v / 2 ^ 8 % 256)
    ∷ (v % 256)
    ∷ []

pub write_long-long_bytes : (buffer : List ℕ) (v : ℕ) → write_long buffer v ≡ buffer ++ long_bytes v
unfolding write_long long_bytes
write_long-long_bytes buffer v = simp (append_assoc, low_byte, mod-mod, div-one)

pub big_endian-long_bytes : (v : ℕ) → v < 2 ^ 64 → big_endian 0 (long_bytes v) ≡ v
unfolding big_endian long_bytes
big_endian-long_bytes v h = omega arith

pub foldl-long_bytes : (v : ℕ) → v < 2 ^ 64 → foldl append_byte 0 (long_bytes v) ≡ v
unfolding long_bytes
foldl-long_bytes v h =
    foldl-append_byte (long_bytes v) 0 (omega arith) (omega arith) ∙ big_endian-long_bytes v h

-- `readLong` at the offset where `writeLong` began to append a 64-bit pattern returns the pattern
-- and the offset eight bytes on.
pub read_long-write_long :
    (front rest : List ℕ) (v : ℕ)
    → v < 2 ^ 64
    → read_long (write_long front v ++ rest) (length front) ≡ ok (v, length front + 8)
unfolding read_long long_bytes
read_long-write_long front rest v h =
    let fits : ltb (length (front ++ (long_bytes v ++ rest))) (length front + 8) ≡ false =
      ground (arith, length-append front (long_bytes v ++ rest)) in
    rw (write_long-long_bytes front v, append_assoc, drop-append, fits)
      (ap (λ (t : ℕ). ok (t, length front + 8)) (foldl-long_bytes v h))

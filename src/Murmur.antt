-- ===== src/Murmur.antt =====
-- src/hash/MurmurHash3.cpp: the hash of a key. A `uint64_t` is a number below 2^64, an `int` its bit
-- pattern on 64 bits; a byte of the key outside the vector is undefined, and so is a shift left of
-- a negative number.
pub mod Bounds
mod Runs
use cpp17_client.Base.{
  ℕ, zero, suc, ◌+◌, ◌-◌, ◌*◌, ◌/◌, ◌%◌, ◌^◌, bit_and, bit_or, bit_xor, List, length,
}
use cpp17_client.Base.{ltb, leb, ◌==◌, ◌&&◌, not, if◌then◌else◌}
use cpp17_client.Base.{Outcome, ok, undefined, element, ◌>>=◌}

abbrev pub u64 : ℕ → ℕ
u64 n = n % 2 ^ 64

-- `MurmurHash3::State`.
pub record State : Type 0 where
  pub h1 : ℕ
  pub h2 : ℕ
  pub k1 : ℕ
  pub k2 : ℕ
  pub c1 : ℕ
  pub c2 : ℕ

unfoldable pub getblock : List ℕ → ℕ → Outcome ℕ
getblock key i = do
  b0 ← element key (i + 0)
  b1 ← element key (i + 1)
  b2 ← element key (i + 2)
  b3 ← element key (i + 3)
  b4 ← element key (i + 4)
  b5 ← element key (i + 5)
  b6 ← element key (i + 6)
  b7 ← element key (i + 7)
  ok (
      bit_or
        (bit_or
          (bit_or
            (bit_or (bit_or (bit_or (bit_or b0 (b1 * 2 ^ 8)) (b2 * 2 ^ 16)) (b3 * 2 ^ 24))
              (b4 * 2 ^ 32))
            (b5 * 2 ^ 40))
          (b6 * 2 ^ 48))
        (b7 * 2 ^ 56))

-- `(x << r) | (x >> (64 - r))`.
unfoldable pub rotate : ℕ → ℕ → ℕ
rotate r x = bit_or (u64 (x * 2 ^ r)) (x / 2 ^ (64 - r))

unfoldable pub bmix : State → State
unfolding rotate
bmix s =
    let k1 : ℕ = u64 (rotate 23 (u64 (s.k1 * s.c1)) * s.c2) in
    let h1 : ℕ = u64 (bit_xor s.h1 k1 + s.h2) in
    let k2 : ℕ = u64 (rotate 23 (u64 (s.k2 * s.c2)) * s.c1) in
    let h2 : ℕ = u64 (bit_xor (rotate 41 s.h2) k2 + h1) in
    record {
      h1 = u64 (h1 * 3 + 0x52dce729);
      h2 = u64 (h2 * 3 + 0x38495ab5);
      k1 = k1;
      k2 = k2;
      c1 = u64 (s.c1 * 5 + 0x7b7d159c);
      c2 = u64 (s.c2 * 5 + 0x6bce6396);
    }

-- `k ^= k >> 33`.
abbrev pub fold_high : ℕ → ℕ
fold_high k = bit_xor k (k / 2 ^ 33)

unfoldable pub fmix : ℕ → ℕ
fmix k = fold_high (u64 (fold_high (u64 (fold_high k * 0xff51afd7ed558ccd)) * 0xc4ceb9fe1a85ec53))

unfoldable pub start : ℕ → State
start seed = record {
  h1 = bit_xor 0x9368e53c2f6af274 seed;
  h2 = bit_xor 0x586dcd208f7cd3fd seed;
  k1 = 0;
  k2 = 0;
  c1 = 0x87c37b91114253d5;
  c2 = 0x4cf5ad432745937f;
}

abbrev pub with_block : State → ℕ → ℕ → State
with_block s k1 k2 = record { h1 = s.h1; h2 = s.h2; k1 = k1; k2 = k2; c1 = s.c1; c2 = s.c2 }

-- The loop over the blocks of 16 bytes: `count` are still to come, and `i` is the next one.
unfoldable pub mix_blocks : ℕ → List ℕ → ℕ → State → Outcome State
unfolding getblock bmix
mix_blocks zero key i s = ok s
mix_blocks (suc count) key i s = do
  k1 ← getblock key (i * 2 * 8)
  k2 ← getblock key ((i * 2 + 1) * 8)
  mix_blocks count key (i + 1) (bmix (with_block s k1 k2))

-- `static_cast<int64_t>(static_cast<int8_t>(b))`.
abbrev pub sign_extend : ℕ → ℕ
sign_extend b = if ltb b 128 then b else (2 ^ 64 - 2 ^ 8 + b)

-- `static_cast<int64_t>(static_cast<int8_t>(b)) << bits`; without a shift where `bits` is 0.
unfoldable pub shift_left : ℕ → ℕ → Outcome ℕ
shift_left b bits =
    if leb 128 b && not (bits == 0) then undefined else ok (u64 (sign_extend b * 2 ^ bits))

-- The cases of the switch fall through, from the one of the byte `j` down to the first byte.
unfoldable pub mix_tail : ℕ → List ℕ → ℕ → State → Outcome State
unfolding shift_left
mix_tail zero key tail s = ok s
mix_tail (suc j) key tail s = do
  b ← element key (tail + j)
  k ← shift_left b (if leb 8 j then (j - 8) * 8 else j * 8)
  mix_tail j key tail
      (if leb 8 j then with_block s s.k1 (bit_xor s.k2 k) else with_block s (bit_xor s.k1 k) s.k2)

-- Behind the switch: only its last case, which every non-empty tail reaches, mixes.
unfoldable pub finish : ℕ → ℕ → State → ℕ × ℕ
unfolding bmix fmix
finish size rest s =
    let mixed : State = if rest == 0 then s else bmix s in
    let h2 : ℕ = bit_xor mixed.h2 size in
    let h1 : ℕ = u64 (mixed.h1 + h2) in
    let f1 : ℕ = fmix h1 in
    let f2 : ℕ = fmix (u64 (h2 + h1)) in let g1 : ℕ = u64 (f1 + f2) in (g1, u64 (f2 + g1))

unfoldable pub hash128 : List ℕ → ℕ → Outcome (ℕ × ℕ)
unfolding start mix_blocks mix_tail finish
hash128 key seed = do
  s ← mix_blocks (length key / 16) key 0 (start seed)
  t ← mix_tail (bit_and (length key) 15) key (length key / 2 ^ 4 * 2 ^ 4) (with_block s 0 0)
  ok (finish (length key) (bit_and (length key) 15) t)

unfoldable pub hash64 : List ℕ → ℕ → Outcome ℕ
unfolding hash128
hash64 key seed = do result ← hash128 key seed; ok result.0

-- An `int32_t` is its bit pattern.
unfoldable pub hash32 : List ℕ → ℕ → Outcome ℕ
unfolding hash64
hash32 key seed = do h64 ← hash64 key seed; ok (h64 / 2 ^ 32)

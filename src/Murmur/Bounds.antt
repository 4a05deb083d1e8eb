-- ===== src/Murmur/Bounds.antt =====
-- The hash of src/hash/MurmurHash3.cpp reads inside the key and fits its type.
use cpp17_client.Base.{
  ℕ, zero, suc, ◌+◌, ◌*◌, ◌/◌, ◌%◌, ◌^◌, ◌≤◌, ◌<◌, ◌≡◌, ◌≢◌, ◌-◌, refl, arith, List, [], ◌∷◌,
  length, ok, bit_and, ℕ_discrete, Bool-cases, inl, inr, false, ◌==◌, ◌&&◌, not, bit_xor, All,
  element, leb, if◌then◌else◌, element_total, Returns, Returns-bind,
}
use cpp17_client.Base.Bits.{bit_and-ones}
use cpp17_client.Murmur.{
  State, getblock, mix_blocks, shift_left, mix_tail, bmix, with_block, hash128, hash64, hash32,
  start, finish,
}

getblock_total : (key : List ℕ) (i : ℕ) → i + 8 ≤ length key → Returns (getblock key i)
unfolding getblock
getblock_total key i h = Returns-bind _ (element_total key (i + 0) (omega arith)) λ b0.
    Returns-bind _ (element_total key (i + 1) (omega arith)) λ b1.
      Returns-bind _ (element_total key (i + 2) (omega arith)) λ b2.
        Returns-bind _ (element_total key (i + 3) (omega arith)) λ b3.
          Returns-bind _ (element_total key (i + 4) (omega arith)) λ b4.
            Returns-bind _ (element_total key (i + 5) (omega arith)) λ b5.
              Returns-bind _ (element_total key (i + 6) (omega arith))
                λ b6. Returns-bind _ (element_total key (i + 7) (omega arith)) λ b7. (_, refl)

mix_blocks_total :
    (count : ℕ) (key : List ℕ) (i : ℕ) (s : State)
    → (i + count) * 16 ≤ length key
    → (t : State) × (mix_blocks count key i s ≡ ok t)
unfolding mix_blocks
mix_blocks_total zero key i s h = (s, refl)
mix_blocks_total (suc count) key i s h =
    let (k1, e1) = getblock_total key (i * 2 * 8) (omega arith) in
    let (k2, e2) = getblock_total key ((i * 2 + 1) * 8) (omega arith) in
    let (t, e) = mix_blocks_total count key (i + 1) (bmix (with_block s k1 k2)) (omega arith) in
    (t, rw (e1, e2, e) refl)

-- Every byte of the tail that the switch shifts, which is all but its first and its ninth, is below 128.
abbrev pub IsHashable : List ℕ → Type 0
IsHashable key =
    (j b : ℕ)
    → j < length key % 16
    → j % 8 ≢ 0
    → element key (length key / 16 * 16 + j) ≡ ok b
    → b < 128

element-All :
    (key : List ℕ) (i b : ℕ) → All (λ (x : ℕ). x < 128) key → element key i ≡ ok b → b < 128
element-All [] i b h e = cc
element-All (x ∷ key) zero b (h, hs) e = let same : x ≡ b = cc in rw (← same) h
element-All (x ∷ key) (suc i) b (h, hs) e = element-All key i b hs e

-- Such as a key of ASCII characters.
pub All-IsHashable : (key : List ℕ) → All (λ (x : ℕ). x < 128) key → IsHashable key
All-IsHashable key h j b k l e = element-All key _ b h e

shift_left_none : (b bits : ℕ) → bits ≡ 0 → Returns (shift_left b bits)
unfolding shift_left
shift_left_none b bits h =
    let unshifted : (leb 128 b && not (bits == 0)) ≡ false = ground (arith, h) in
    rw unshifted (_, refl)

shift_left_total :
    (b j : ℕ)
    → j < 16
    → (j % 8 ≢ 0 → b < 128)
    → Returns (shift_left b (if leb 8 j then (j - 8) * 8 else j * 8))
unfolding shift_left
shift_left_total b j l h = elim (ℕ_discrete (j % 8) 0) [
  | no p ↦ let small : leb 128 b ≡ false = ground (arith, h p) in rw small (_, refl)
  | yes p ↦ elim (Bool-cases (leb 8 j)) [
    | inl ninth ↦
        let at_ninth : j - 8 ≡ 0 = ground (arith, ninth, l) in
        rw ninth (shift_left_none b ((j - 8) * 8) (omega arith))
    | inr first ↦ rw first (shift_left_none b (j * 8) (ground arith))
  ]
]

mix_tail_total :
    (j : ℕ) (key : List ℕ) (s : State)
    → j ≤ length key % 16
    → IsHashable key
    → (t : State) × (mix_tail j key (length key / 16 * 16) s ≡ ok t)
unfolding mix_tail
mix_tail_total zero key s h k = (s, refl)
mix_tail_total (suc j) key s h k =
    let (b, e) = element_total key (length key / 16 * 16 + j) (omega arith) in
    let (n, f) = shift_left_total b j (omega arith) (λ l. k j b (omega arith) l e) in
    let (t, g) =
      mix_tail_total j key
        (if leb 8 j then with_block s s.k1 (bit_xor s.k2 n) else with_block s (bit_xor s.k1 n) s.k2)
        (omega arith) k in
    (t, rw (e, f) g)

hash128_total :
    (key : List ℕ) (seed : ℕ)
    → IsHashable key
    → (r : ℕ × ℕ) × (hash128 key seed ≡ ok r) × (r.0 < 2 ^ 64)
unfolding hash128 finish
hash128_total key seed k =
    let rest : bit_and (length key) 15 ≡ length key % 16 = bit_and-ones 4 (length key) in
    let (s, e) = mix_blocks_total (length key / 16) key 0 (start seed) (omega arith) in
    let (t, e1) =
      mix_tail_total (bit_and (length key) 15) key (with_block s 0 0) (omega (arith, rest)) k in
    (finish (length key) (bit_and (length key) 15) t, rw (e, e1) refl, omega arith)

-- The hash of a key under any seed is defined unless the tail has a byte from 128 on that is shifted: no byte
-- outside the key is read, and it fits 32 bits.
pub hash32_bounds :
    (key : List ℕ) (seed : ℕ) → IsHashable key → (h : ℕ) × (hash32 key seed ≡ ok h) × (h < 2 ^ 32)
unfolding hash32 hash64
hash32_bounds key seed k =
    let (r, e, small) = hash128_total key seed k in (r.0 / 2 ^ 32, rw e refl, omega (arith, small))

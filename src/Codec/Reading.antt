-- ===== src/Codec/Reading.antt =====
-- One round of the loop of `readVInt` and `readVLong`, and the loop on what their writers append.
use cpp17_client.Base.{ℕ, zero, suc, ◌+◌, ◌*◌, ◌/◌, ◌%◌, ◌^◌, ◌≤◌, ◌<◌, bit_and, bit_or, String}
use cpp17_client.Base.{◌≡◌, arith, List, [], ◌∷◌, ◌++◌, length, ap}
use cpp17_client.Base.{Outcome, ok, err, undefined, runtime_error}
use cpp17_client.Base.Bits.{low_septet, top_bit, bit_or-low}
use cpp17_client.Codec.{read_var_loop}
use cpp17_client.Codec.Septets.{septets, shift_seven}
use native.Mathlib.Decide.{dec_lt}
use native.Mathlib.Nat.{pow-le-pow_right, mod-eq_of_lt}

pub power_cancel : (a b : ℕ) → 2 ^ a < 2 ^ b → a < b
power_cancel a b h = elim (dec_lt a b) [
  | yes p ↦ p
  | no p ↦
      absurd (omega (arith, pow-le-pow_right {n = 2} (omega arith) {i = b} {j = a} (omega arith)))
]

-- The lowest septet of `v` and the rest, both counting from bit `s` on.
pub split_septet : (v s : ℕ) → v * 2 ^ s ≡ v % 128 * 2 ^ s + v / 128 * 2 ^ (s + 7)
split_septet v s =
    let parts : v ≡ v % 128 + 128 * (v / 128) = omega arith in
    omega (arith, ap (λ (t : ℕ). t * 2 ^ s) parts, ap (λ (t : ℕ). v / 128 * t) (shift_seven s))

pub septet_room : (r c s : ℕ) → r < 2 ^ s → r + c % 128 * 2 ^ s < 2 ^ (s + 7)
septet_room r c s h = let small : c % 128 ≤ 127 = omega arith in rw (shift_seven s) (grind arith)

shift_room : (w v s r : ℕ) → 128 ≤ v → r + v * 2 ^ s < 2 ^ w → s + 7 < w
shift_room w v s r h k = power_cancel (s + 7) w (rw (shift_seven s) (grind arith))

module _ (w : ℕ) (cut : String) where
  -- The loop from where it reads the next byte.
  unfoldable pub absorb : List ℕ → ℕ → ℕ → ℕ → Outcome (ℕ × ℕ)
  absorb [] offset r s = err (runtime_error cut)
  absorb (c ∷ rest) offset r s =
      read_var_loop w cut rest (offset + 1) c (bit_or r (bit_and c 0x7f * 2 ^ s % 2 ^ w)) (s + 7)

  pub loop_stops :
      (rest : List ℕ) (offset b r s : ℕ)
      → b < 128
      → read_var_loop w cut rest offset b r s ≡ ok (r, offset)
  unfolding read_var_loop
  loop_stops [] offset b r s h = ground (arith, top_bit b)
  loop_stops (c ∷ rest) offset b r s h = ground (arith, top_bit b)

  pub loop_goes_on :
      (rest : List ℕ) (offset b r s : ℕ)
      → 128 ≤ b
      → b < 256
      → s < w
      → read_var_loop w cut rest offset b r s ≡ absorb rest offset r s
  unfolding read_var_loop absorb
  loop_goes_on [] offset b r s h l k = ground (arith, top_bit b)
  loop_goes_on (c ∷ rest) offset b r s h l k = ground (arith, top_bit b)

  -- A byte that is to be followed by another, when the shift has reached the width.
  pub loop_overflows :
      (c : ℕ) (rest : List ℕ) (offset b r s : ℕ)
      → 128 ≤ b
      → b < 256
      → w ≤ s
      → read_var_loop w cut (c ∷ rest) offset b r s ≡ undefined
  unfolding read_var_loop
  loop_overflows c rest offset b r s h l k = ground (arith, top_bit b)

  pub join_septet :
      (c r s : ℕ)
      → c < 256
      → r < 2 ^ s
      → c % 128 * 2 ^ s < 2 ^ w
      → bit_or r (bit_and c 0x7f * 2 ^ s % 2 ^ w) ≡ r + c % 128 * 2 ^ s
  join_septet c r s h l k =
      rw (low_septet, mod-eq_of_lt {n = c % 128 * 2 ^ s} {m = 2 ^ w} k) (bit_or-low s (c % 128) r l)

  absorb_last :
      (rest : List ℕ) (offset v r s : ℕ)
      → v < 128
      → r < 2 ^ s
      → r + v * 2 ^ s < 2 ^ w
      → absorb (v ∷ rest) offset r s ≡ ok (r + v * 2 ^ s, offset + 1)
  unfolding absorb
  absorb_last rest offset v r s h l k =
      let same : v % 128 ≡ v = omega arith in
      ground
        (arith, join_septet v r s, loop_stops rest (offset + 1) v (r + v % 128 * 2 ^ s) (s + 7))

  pub absorb_inner :
      (tail : List ℕ) (offset v r s : ℕ)
      → 128 ≤ v
      → r < 2 ^ s
      → r + v * 2 ^ s < 2 ^ w
      → absorb ((v % 128 + 128) ∷ tail) offset r s
        ≡ absorb tail (offset + 1) (r + v % 128 * 2 ^ s) (s + 7)
  unfolding absorb
  absorb_inner tail offset v r s h l k =
      let same : (v % 128 + 128) % 128 ≡ v % 128 = omega arith in
      rw
        (
          join_septet (v % 128 + 128) r s (omega arith) l
              (rw same (omega (arith, split_septet v s))),
          same,
        )
        (loop_goes_on tail (offset + 1) (v % 128 + 128) (r + v % 128 * 2 ^ s) (s + 7) (omega arith)
          (omega arith) (shift_room w v s r h k))

  -- `v` is the part of the number still to be read, and it counts from bit `s` on.
  pub absorb-septets :
      (n v offset r s : ℕ) (rest : List ℕ)
      → v < 128 ^ suc n
      → r < 2 ^ s
      → r + v * 2 ^ s < 2 ^ w
      → absorb (septets n v ++ rest) offset r s ≡ ok (r + v * 2 ^ s, offset + length (septets n v))
  unfolding septets
  absorb-septets zero v offset r s rest h l k = absorb_last rest offset v r s h l k
  absorb-septets (suc n) v offset r s rest h l k = ground (
    arith,
    absorb_last rest offset v r s,
    absorb_inner (septets n (v / 128) ++ rest) offset v r s,
    split_septet v s,
    septet_room r v s l,
    absorb-septets n (v / 128) (offset + 1) (r + v % 128 * 2 ^ s) (s + 7) rest (omega arith),
  )

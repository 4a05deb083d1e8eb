-- ===== src/Codec/VarLoop.antt =====
-- The loop of `readVInt` and `readVLong` from its first byte, at every width: on the groups that a
-- writer appends, on a proper prefix of them, and on any input.
use cpp17_client.Base.{ℕ, zero, suc, ◌+◌, ◌*◌, ◌/◌, ◌%◌, ◌^◌, ◌≤◌, ◌<◌, bit_and, bit_or, String}
use cpp17_client.Base.{◌≡◌, refl, ap, ◌∙◌, ◌⊎◌, arith, List, [], ◌∷◌, ◌++◌}
use cpp17_client.Base.{length, All, length-append}
use cpp17_client.Base.{ok, err, undefined, runtime_error}
use cpp17_client.Base.Bits.{low_septet, bit_or-lt, bit_or-zero_left}
use cpp17_client.Codec.{read_var_loop, read_var_from}
use cpp17_client.Codec.Septets.{septets, septets_short, septets_long, length-septets}
use cpp17_client.Codec.Reading.{
  absorb, absorb-septets, loop_goes_on, loop_overflows, absorb_inner, split_septet, septet_room,
}
use native.Mathlib.Decide.{dec_lt}
use native.Mathlib.Nat.{mod-lt, one-le-pow, pow-le-pow_right, mod-eq_of_lt}

-- A byte that says that the number goes on.
abbrev pub IsContinued : ℕ → Type 0
IsContinued b = (128 ≤ b) × (b < 256)

module _ (w : ℕ) (outside cut : String) where
  -- The first byte is taken with shift 0.
  pub read_var_from-absorb :
      (xs : List ℕ) (offset : ℕ)
      → 7 ≤ w
      → 0 < length xs
      → read_var_from w outside cut xs offset ≡ absorb w cut xs offset 0 0
  unfolding read_var_from absorb
  read_var_from-absorb [] offset h k = absurd (omega arith)
  read_var_from-absorb (b ∷ rest) offset h k =
      ap (λ (r : ℕ). read_var_loop w cut rest (offset + 1) b r 7) first
    where
      first : bit_and b 0x7f ≡ bit_or 0 (bit_and b 0x7f * 2 ^ 0 % 2 ^ w)
      first =
          let fits : b % 128 < 2 ^ w =
            omega (arith, pow-le-pow_right {n = 2} (omega arith) {i = 7} {j = w} h) in
          rw (low_septet, bit_or-zero_left)
            (omega (arith, mod-eq_of_lt {n = b % 128 * 2 ^ 0} {m = 2 ^ w} (omega arith)))

  pub read_var_from-septets :
      (n v offset : ℕ) (rest : List ℕ)
      → 7 ≤ w
      → v < 128 ^ suc n
      → v < 2 ^ w
      → read_var_from w outside cut (septets n v ++ rest) offset
        ≡ ok (v, offset + length (septets n v))
  read_var_from-septets n v offset rest h k l =
      let some_byte : 0 < length (septets n v ++ rest) =
        omega (arith, length-septets n v, length-append (septets n v) rest) in
      read_var_from-absorb (septets n v ++ rest) offset h some_byte
      ∙ absorb-septets w cut n v offset 0 0 rest k (omega arith) (omega arith)
      ∙ ap (λ (t : ℕ). ok (t, offset + length (septets n v))) total
    where
      total : 0 + v * 2 ^ 0 ≡ v
      total = omega arith

  -- A proper prefix of what the writer appends ends inside the number.
  pub absorb_prefix :
      (n v offset r s x : ℕ) (front back : List ℕ)
      → v < 128 ^ suc n
      → r < 2 ^ s
      → r + v * 2 ^ s < 2 ^ w
      → septets n v ≡ front ++ (x ∷ back)
      → absorb w cut front offset r s ≡ err (runtime_error cut)
  unfolding absorb
  absorb_prefix n v offset r s x [] back h k l e = refl
  absorb_prefix zero v offset r s x (f ∷ front) back h k l e =
      let one_byte : length (septets 0 v) ≤ 1 = (length-septets 0 v).1 in
      absurd (omega (arith, one_byte, ap length e, length-append front (x ∷ back)))
  absorb_prefix (suc n) v offset r s x (f ∷ front) back h k l e = elim (dec_lt v 128) [
    | yes p ↦ absurd (
        omega (
          arith,
          ap length (septets_short (suc n) v p),
          ap length e,
          length-append front (x ∷ back),
        ))
    | no p ↦ ground (
      arith,
      septets_long n v (omega arith),
      absorb_inner w cut front offset v r s,
      split_septet v s,
      septet_room r v s k,
      absorb_prefix n (v / 128) (offset + 1) (r + v % 128 * 2 ^ s) (s + 7) x front back
          (omega arith),
    )
  ]

  -- What any input comes to.
  pub loop_bounds :
      (rest : List ℕ) (offset b r s v offset' : ℕ)
      → r < 2 ^ w
      → read_var_loop w cut rest offset b r s ≡ ok (v, offset')
      → (v < 2 ^ w)
        × (offset ≤ offset')
        × (offset' ≤ offset + length rest)
        × ((offset' ≡ offset) ⊎ (7 * offset' + s ≤ 7 * offset + w + 6))
  unfolding read_var_loop
  loop_bounds [] offset b r s v offset' h e = ground arith
  loop_bounds (c ∷ rest) offset b r s v offset' h e = ground (
    arith,
    one-le-pow w 2 (omega arith),
    mod-lt (bit_and c 0x7f * 2 ^ s) {m = 2 ^ w},
    bit_or-lt w r (bit_and c 0x7f * 2 ^ s % 2 ^ w),
    loop_bounds rest (offset + 1) c (bit_or r (bit_and c 0x7f * 2 ^ s % 2 ^ w)) (s + 7) v offset',
  )

  pub read_var_from_bounds :
      (xs : List ℕ) (offset v offset' : ℕ)
      → 7 ≤ w
      → read_var_from w outside cut xs offset ≡ ok (v, offset')
      → (v < 2 ^ w)
        × (offset < offset')
        × (offset' ≤ offset + length xs)
        × (7 * offset' ≤ 7 * offset + w + 6)
  unfolding read_var_from
  read_var_from_bounds [] offset v offset' h e = cc
  read_var_from_bounds (b ∷ rest) offset v offset' h e =
      let fits : bit_and b 0x7f < 2 ^ w =
        omega (arith, low_septet b, pow-le-pow_right {n = 2} (omega arith) {i = 7} {j = w} h) in
      ground (arith, loop_bounds rest (offset + 1) b (bit_and b 0x7f) 7 v offset' fits e)

  -- Bytes with the top bit set until the shift reaches the width, and one byte more.
  pub absorb_overlong :
      (x : ℕ) (xs rest : List ℕ) (f offset r s : ℕ)
      → All IsContinued (x ∷ xs)
      → w ≤ s + 7 * length (x ∷ xs)
      → absorb w cut ((x ∷ xs) ++ (f ∷ rest)) offset r s ≡ undefined
  unfolding absorb
  absorb_overlong x [] rest f offset r s (h, _) k =
      loop_overflows w cut f rest (offset + 1) x _ (s + 7) h.0 h.1 (omega arith)
  absorb_overlong x (y ∷ ys) rest f offset r s (h, hs) k = elim (dec_lt (s + 7) w) [
    | yes p ↦
        loop_goes_on w cut (y ∷ ys ++ (f ∷ rest)) (offset + 1) x _ (s + 7) h.0 h.1 p
        ∙ absorb_overlong y ys rest f (offset + 1) _ (s + 7) hs (omega arith)
    | no p ↦
        loop_overflows w cut y (ys ++ (f ∷ rest)) (offset + 1) x _ (s + 7) h.0 h.1 (omega arith)
  ]

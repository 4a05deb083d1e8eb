-- ===== src/Codec/Septets.antt =====
-- What `writeVInt` and `writeVLong` append, in plain arithmetic: the groups of seven bits of the
-- value, lowest first, each but the last with 128 added.
use cpp17_client.Base.{ℕ, zero, suc, ◌+◌, ◌-◌, ◌*◌, ◌/◌, ◌%◌, ◌^◌, ◌≤◌, ◌<◌, bit_and, bit_or}
use cpp17_client.Base.{◌≡◌, refl, arith, List, [], ◌∷◌, ◌++◌, append_assoc, Acc, ltb, length, All}
use cpp17_client.Base.{if◌then◌else◌, lt_wf}
use cpp17_client.Base.Bits.{low_septet, set_top_bit, high_bits}
use cpp17_client.Codec.{IsByte, u8, write_var_loop, write_vint, write_vlong}
use native.Mathlib.Numerals.{towards_suc}

unfoldable pub septets : ℕ → ℕ → List ℕ
septets zero v = v ∷ []
septets (suc k) v =
    let rest = septets k (v / 128) in if ltb v 128 then v ∷ [] else ((v % 128 + 128) ∷ rest)

continued : (v : ℕ) → u8 (bit_or (bit_and v 0x7f) 0x80) ≡ v % 128 + 128
continued v = rw low_septet (omega (arith, set_top_bit (v % 128) (omega arith)))

pub shift_seven : (k : ℕ) → 2 ^ (k + 7) ≡ 128 * 2 ^ k
shift_seven k = simp towards_suc (omega arith)

-- The loop's test on a value of `k + 7` bits.
high_part : (k v : ℕ) → v < 2 ^ (k + 7) → bit_and v (2 ^ (k + 7) - 2 ^ 7) ≡ v / 128 * 128
high_part k v h = rw (shift_seven k) (high_bits k v (omega (arith, shift_seven k)))

write_var_loop-septets :
    (k n : ℕ) (buffer : List ℕ) (v : ℕ) (a : Acc ◌<◌ v)
    → v < 2 ^ (k + 7)
    → v < 128 ^ suc n
    → write_var_loop (k + 7) buffer v a ≡ buffer ++ septets n v
unfolding write_var_loop septets
write_var_loop-septets k zero buffer v (Acc.intro _ smaller) h l = ground (arith, high_part k v h)
write_var_loop-septets k (suc n) buffer v (Acc.intro _ smaller) h l =
    let head : List ℕ = (v % 128 + 128) ∷ [] in
    grind (
      arith,
      high_part k v h,
      continued v,
      λ (a : Acc ◌<◌ (v / 128)).
          write_var_loop-septets k n (buffer ++ head) (v / 128) a (omega arith) (omega arith),
      append_assoc buffer head (septets n (v / 128)),
    )

-- `writeVInt` keeps the buffer and appends at most five groups; `writeVLong`, ten.
pub write_vint-septets :
    (buffer : List ℕ) (v : ℕ) → v < 2 ^ 32 → write_vint buffer v ≡ buffer ++ septets 4 v
unfolding write_vint
write_vint-septets buffer v h = write_var_loop-septets 25 4 buffer v (lt_wf.apply v) h (omega arith)

pub write_vlong-septets :
    (buffer : List ℕ) (v : ℕ) → v < 2 ^ 64 → write_vlong buffer v ≡ buffer ++ septets 9 v
unfolding write_vlong
write_vlong-septets buffer v h =
    write_var_loop-septets 57 9 buffer v (lt_wf.apply v) h (omega arith)

pub septets-IsByte : (n v : ℕ) → v < 128 ^ suc n → All IsByte (septets n v)
unfolding septets
septets-IsByte zero v h = omega arith
septets-IsByte (suc n) v h = ground (arith, septets-IsByte n (v / 128) (omega arith))

pub length-septets : (n v : ℕ) → (1 ≤ length (septets n v)) × (length (septets n v) ≤ suc n)
unfolding septets
length-septets zero v = omega arith
length-septets (suc n) v = ground (arith, length-septets n (v / 128))

pub septets_short : (n v : ℕ) → v < 128 → septets n v ≡ v ∷ []
unfolding septets
septets_short zero v h = refl
septets_short (suc n) v h = ground arith

pub septets_long : (n v : ℕ) → 128 ≤ v → septets (suc n) v ≡ (v % 128 + 128) ∷ septets n (v / 128)
unfolding septets
septets_long n v h = ground arith

-- ===== src/Operations/OpCount.antt =====
-- The number of opcodes in the response to `ping`, which src/operations/RemoteCache.cpp reads by a loop
-- of its own.
use cpp17_client.Base.{
  ℕ, ◌+◌, ◌*◌, ◌/◌, ◌%◌, ◌^◌, ◌≤◌, ◌<◌, ◌≡◌, arith, List, [], ◌∷◌, ◌++◌, length, drop-append, ok,
}
use cpp17_client.Base.Bits.{low_septet, top_bit, bit_or-high, bit_or-zero_left}
use cpp17_client.Codec.Septets.{septets}
use cpp17_client.Operations.{op_count_loop, receive_op_count}

two_septets : (n : ℕ) → 128 ≤ n → n < 2 ^ 14 → septets 4 n ≡ (n % 128 + 128) ∷ (n / 128) ∷ []
unfolding septets
two_septets n h l = ground arith

op_count_two :
    (low high offset : ℕ) (rest : List ℕ)
    → low < 128
    → high < 128
    → op_count_loop ((low + 128) ∷ high ∷ rest) 0 offset ≡ ok (low * 128 + high, offset + 2)
unfolding op_count_loop
op_count_two low high offset rest h l = ground (
  arith,
  top_bit (low + 128),
  top_bit high,
  low_septet (low + 128),
  low_septet high,
  bit_or-zero_left low,
  bit_or-high 7 low high,
)

-- Of a number from 128 to 16383, which takes two bytes on the wire, `ping` makes the number with the
-- two groups of seven bits exchanged.
pub receive_op_count_exchanged :
    (n : ℕ) (front rest : List ℕ)
    → 128 ≤ n
    → n < 2 ^ 14
    → receive_op_count (front ++ (septets 4 n ++ rest)) (length front)
      ≡ ok (n % 128 * 128 + n / 128, length front + 2)
unfolding receive_op_count
receive_op_count_exchanged n front rest h l =
    rw (drop-append, two_septets n h l)
      (op_count_two (n % 128) (n / 128) (length front) rest (omega arith) (omega arith))

-- ===== src/Routing/Segments.antt =====
-- The segment of a key, as src/hash/ConsistentHash.cpp computes it.
use cpp17_client.Base.{ℕ, ◌+◌, ◌*◌, ◌/◌, ◌%◌, ◌^◌, ◌≤◌, ◌<◌, ◌≡◌, arith, List, length, ok, bit_and}
use cpp17_client.Base.Bits.{bit_and-ones}
use cpp17_client.Murmur.{hash32}
use cpp17_client.Murmur.Bounds.{IsHashable, hash32_bounds}
use cpp17_client.Routing.{ConsistentHash, segment_of, get_segment}

-- A table with owners for each of its segments, of which there is at least one.
abbrev pub IsTable : ConsistentHash → Type 0
IsTable ch =
    (length ch.segment_owners ≡ ch.num_segments)
    × (0 < ch.num_segments)
    × (ch.num_segments < 2 ^ 31)

below : (h n : ℕ) → 0 < n → h < 2 ^ 31 → h * n / 2 ^ 31 < n
below h n k l = grind arith

-- With a table of owners for each of at least one and fewer than 2^31 segments, the segment of a key, no
-- byte of whose tail from 128 on is shifted, is the one of the equal parts of the range from 0 to 2^31 in
-- which the hash of the key without its sign bit lies.
pub get_segment_part :
    (ch : ConsistentHash) (key : List ℕ)
    → IsTable ch
    → IsHashable key
    → (h : ℕ) × (segment : ℕ) × (hash32 key 9001 ≡ ok h)
      × (get_segment ch key ≡ ok segment)
      × (segment < ch.num_segments)
      × (segment * 2 ^ 31 ≤ h % 2 ^ 31 * ch.num_segments)
      × (h % 2 ^ 31 * ch.num_segments < (segment + 1) * 2 ^ 31)
unfolding get_segment segment_of
get_segment_part ch key (size, some_segment, small) plain =
    let (h, e, bound) = hash32_bounds key 9001 plain in
    let mask : bit_and h 0x7fffffff ≡ h % 2 ^ 31 = bit_and-ones 31 h in
    let inside : h % 2 ^ 31 * ch.num_segments / 2 ^ 31 < ch.num_segments =
      below (h % 2 ^ 31) ch.num_segments some_segment (omega arith) in
    (
      h,
      h % 2 ^ 31 * ch.num_segments / 2 ^ 31,
      e,
      ground (arith, e, mask, inside, size),
      inside,
      omega arith,
      omega arith,
    )

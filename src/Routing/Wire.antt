-- ===== src/Routing/Wire.antt =====
-- `ConsistentHash::parseHashTopology` of src/hash/ConsistentHash.cpp: a table of hash ids from a buffer. It
-- writes into the object as it goes, so an exception leaves the object as it is by then.
use cpp17_client.Base.{
  ℕ, zero, suc, ◌+◌, ◌*◌, ◌^◌, bit_or, List, [], ◌∷◌, length, take, drop, not, ltb, ◌==◌,
  if◌then◌else◌, Outcome, ok, err, undefined, Error, runtime_error,
}
use cpp17_client.Codec.{read_vint}
use cpp17_client.Routing.{ConsistentHash, is_positive}

-- The object behind a call, with the new offset if the call returns.
pub data Parsing : Type 0 where
  parsed : ConsistentHash → ℕ → Parsing
  thrown : Error → ConsistentHash → Parsing
  broken : Parsing

-- Of four bytes, as an `int32_t`.
unfoldable pub hash_id_of : List ℕ → ℕ
hash_id_of (a ∷ b ∷ c ∷ d ∷ rest) = bit_or (bit_or (bit_or (a * 2 ^ 24) (b * 2 ^ 16)) (c * 2 ^ 8)) d
hash_id_of _ = 0

-- `resize`.
unfoldable pub filled {ℓ} : {A : Type ℓ} → A → ℕ → List A
filled a zero = []
filled a (suc n) = a ∷ filled a n

-- The owners of a segment: all are read, or the buffer is too short for one of them.
pub data Row : Type 0 where
  full : List ℕ → ℕ → Row
  short : List ℕ → Row

unfoldable pub cons_owner : ℕ → Row → Row
cons_owner hash_id (full row offset) = full (hash_id ∷ row) offset
cons_owner hash_id (short row) = short (hash_id ∷ row)

-- The loop over the owners of a segment, of which this many are still to come.
unfoldable pub read_row : List ℕ → ℕ → ℕ → Row
unfolding hash_id_of filled cons_owner
read_row buffer offset zero = full [] offset
read_row buffer offset (suc n) =
    let next = read_row buffer (offset + 4) n in
    if ltb (length buffer) (offset + 4)
    then short (filled 0 (suc n))
    else cons_owner (hash_id_of (take 4 (drop offset buffer))) next

pub data Rows : Type 0 where
  all_read : List (List ℕ) → ℕ → Rows
  cut : List (List ℕ) → Rows

unfoldable pub cons_row : List ℕ → Rows → Rows
cons_row row (all_read rows offset) = all_read (row ∷ rows) offset
cons_row row (cut rows) = cut (row ∷ rows)

-- The segments behind a segment that was read, or that was not.
unfoldable pub after_row : (ℕ → Rows) → ℕ → Row → Rows
unfolding cons_row filled
after_row next n (full row offset) = cons_row row (next offset)
after_row next n (short row) = cut (row ∷ filled [] n)

-- The loop over the segments.
unfoldable pub read_rows : List ℕ → ℕ → ℕ → ℕ → Rows
unfolding read_row after_row
read_rows buffer num_owners offset zero = all_read [] offset
read_rows buffer num_owners offset (suc n) =
    after_row (λ behind. read_rows buffer num_owners behind n) n (read_row buffer offset num_owners)

abbrev pub with_table : ℕ → ℕ → List (List ℕ) → ConsistentHash
with_table num_segments num_owners segment_owners = record {
  num_segments = num_segments;
  num_owners = num_owners;
  segment_owners = segment_owners;
}

unfoldable pub after_rows : ℕ → ℕ → Rows → Parsing
after_rows num_segments num_owners (all_read rows offset) =
    parsed (with_table num_segments num_owners rows) offset
after_rows num_segments num_owners (cut rows) =
    thrown (runtime_error "ConsistentHash: buffer too short for hash ID")
      (with_table num_segments num_owners rows)

-- Behind the number of segments.
unfoldable pub after_owners : ConsistentHash → List ℕ → ℕ → ℕ → List ℕ → Parsing
unfolding read_rows after_rows
after_owners ch buffer num_segments offset [] =
    thrown (runtime_error "ConsistentHash: buffer too short for numOwners")
      (with_table num_segments ch.num_owners ch.segment_owners)
after_owners ch buffer num_segments offset (num_owners ∷ rest) =
    if num_owners == 0
    then thrown (runtime_error "ConsistentHash: invalid number of owners")
        (with_table num_segments num_owners ch.segment_owners)
    else after_rows num_segments num_owners (read_rows buffer num_owners (offset + 1) num_segments)

unfoldable pub after_segments : ConsistentHash → List ℕ → Outcome (ℕ × ℕ) → Parsing
unfolding after_owners
after_segments ch buffer (err e) = thrown e ch
after_segments ch buffer undefined = broken
after_segments ch buffer (ok (num_segments, offset)) =
    if not (is_positive num_segments)
    then thrown (runtime_error "ConsistentHash: invalid number of segments")
        (with_table num_segments ch.num_owners ch.segment_owners)
    else after_owners ch buffer num_segments offset (drop offset buffer)

unfoldable pub parse_hash_topology : ConsistentHash → List ℕ → ℕ → Parsing
unfolding after_segments
parse_hash_topology ch buffer offset = after_segments ch buffer (read_vint buffer offset)

-- ===== src/Routing/Tables.antt =====
-- What `parseHashTopology` of src/hash/ConsistentHash.cpp makes of a table on the wire, and of one that is
-- cut short.
use cpp17_client.Base.{
  ℕ, zero, suc, ◌+◌, ◌^◌, ◌≤◌, ◌<◌, ◌≡◌, refl, ap, ◌∙◌, arith, List, [], ◌∷◌, ◌++◌, length, All,
  true, ltb, runtime_error, length-append, append_assoc, append-nil,
}
use cpp17_client.Routing.{ConsistentHash, has_hash_topology}
use cpp17_client.Routing.Wire.{
  parsed, thrown, short, cons_owner, read_row, all_read, cut, cons_row, after_row, read_rows,
  with_table, after_rows, parse_hash_topology, filled,
}
use cpp17_client.Routing.Steps.{
  IsId, IsRow, id_bytes, row_bytes, rows_bytes, head_bytes, read_row_step, read_rows_step,
  parse_hash_topology_step,
}

read_rows-all_read :
    (num_owners : ℕ) (rows : List (List ℕ)) (front rest : List ℕ)
    → All (IsRow num_owners) rows
    → read_rows (front ++ (rows_bytes rows ++ rest)) num_owners (length front) (length rows)
      ≡ all_read rows (length (front ++ rows_bytes rows))
unfolding read_rows cons_row
read_rows-all_read num_owners [] front rest h = rw append-nil refl
read_rows-all_read num_owners (row ∷ rows) front rest (h, hs) =
    ap (λ b. read_rows (front ++ b) num_owners (length front) (suc (length rows)))
      (append_assoc (row_bytes row) (rows_bytes rows) rest)
    ∙ read_rows_step num_owners row front (rows_bytes rows ++ rest) (length rows) h
    ∙ ap (cons_row row) (read_rows-all_read num_owners rows (front ++ row_bytes row) rest hs)
    ∙ ap (λ b. all_read (row ∷ rows) (length b))
        (append_assoc front (row_bytes row) (rows_bytes rows))

-- A table on the wire: the number of segments, that of owners, and the hash ids.
abbrev pub table_bytes : ℕ → List (List ℕ) → List ℕ
table_bytes num_owners rows = head_bytes (length rows) num_owners ++ rows_bytes rows

-- `parseHashTopology` takes a table of one segment at least and fewer than 2^31, each with the same number of
-- owners, one at least, from its bytes, wherever they stand in the buffer and whatever the object holds
-- before: the object is that table afterwards, and the offset is behind the last byte.
pub parse_hash_topology-table_bytes :
    (ch : ConsistentHash) (front rest : List ℕ) (num_owners : ℕ) (rows : List (List ℕ))
    → 1 ≤ num_owners
    → 1 ≤ length rows
    → length rows < 2 ^ 31
    → All (IsRow num_owners) rows
    → parse_hash_topology ch (front ++ (table_bytes num_owners rows ++ rest)) (length front)
      ≡ parsed
          (with_table (length rows) num_owners rows)
          (length (front ++ table_bytes num_owners rows))
unfolding after_rows
parse_hash_topology-table_bytes ch front rest num_owners rows some_owner some_row few h =
    let head : List ℕ = head_bytes (length rows) num_owners in
    ap (λ b. parse_hash_topology ch (front ++ b) (length front))
      (append_assoc head (rows_bytes rows) rest)
    ∙ parse_hash_topology_step ch (length rows) num_owners front (rows_bytes rows ++ rest) some_row
        few some_owner
    ∙ ap (after_rows (length rows) num_owners)
        (read_rows-all_read num_owners rows (front ++ head) rest h)
    ∙ ap (λ b. parsed (with_table (length rows) num_owners rows) (length b))
        (append_assoc front head (rows_bytes rows))

-- Fewer than four bytes.
abbrev pub IsPiece : List ℕ → Type 0
IsPiece piece = length piece < 4

-- This many owners are not read.
read_row-short :
    (ids front piece : List ℕ) (count missing : ℕ)
    → All IsId ids
    → IsPiece piece
    → count ≡ length ids + missing
    → 1 ≤ missing
    → read_row (front ++ (row_bytes ids ++ piece)) (length front) count
      ≡ short (ids ++ filled 0 missing)
unfolding read_row cons_owner
read_row-short [] front piece zero missing h l e k = absurd (omega arith)
read_row-short [] front piece (suc n) missing h l e k =
    let beyond : ltb (length (front ++ piece)) (length front + 4) ≡ true =
      ground (arith, length-append front piece) in
    let same : suc n ≡ missing = omega arith in rw (beyond, ← same) refl
read_row-short (id ∷ ids) front piece zero missing h l e k = absurd (omega arith)
read_row-short (id ∷ ids) front piece (suc n) missing (h, hs) l e k =
    read_row_step id front (row_bytes ids ++ piece) n h
    ∙ ap (cons_owner id)
        (read_row-short ids (front ++ id_bytes id) piece n missing hs l (omega arith) k)

-- Behind these rows there are the ids of a segment that is not complete, and this many more segments.
read_rows-cut :
    (num_owners : ℕ) (rows : List (List ℕ)) (ids piece front : List ℕ) (count unread missing : ℕ)
    → All (IsRow num_owners) rows
    → All IsId ids
    → IsPiece piece
    → num_owners ≡ length ids + missing
    → 1 ≤ missing
    → count ≡ length rows + (1 + unread)
    → read_rows
        (front ++ (rows_bytes rows ++ (row_bytes ids ++ piece)))
        num_owners
        (length front)
        count
      ≡ cut (rows ++ ((ids ++ filled 0 missing) ∷ filled [] unread))
unfolding read_rows after_row cons_row
read_rows-cut num_owners [] ids piece front zero unread missing hs h l e k c = absurd (omega arith)
read_rows-cut num_owners [] ids piece front (suc n) unread missing hs h l e k c =
    let same : n ≡ unread = omega arith in
    rw (read_row-short ids front piece num_owners missing h l e k, same) refl
read_rows-cut num_owners (row ∷ rows) ids piece front zero unread missing hs h l e k c =
    absurd (omega arith)
read_rows-cut num_owners (row ∷ rows) ids piece front (suc n) unread missing (r, hs) h l e k c =
    ap (λ b. read_rows (front ++ b) num_owners (length front) (suc n))
      (append_assoc (row_bytes row) (rows_bytes rows) (row_bytes ids ++ piece))
    ∙ read_rows_step num_owners row front (rows_bytes rows ++ (row_bytes ids ++ piece)) n r
    ∙ ap (cons_row row) (
        read_rows-cut num_owners rows ids piece (front ++ row_bytes row) n unread missing hs h l e k
          (omega arith))

-- A table whose bytes end in the middle of a segment makes `parseHashTopology` throw and leaves a table in the
-- object that counts as one: it has the new number of segments, the rows that were read, the ids of the
-- segment in which the bytes end, with 0 for each one that is missing, and no owners for the segments behind.
pub parse_hash_topology-cut :
    (ch : ConsistentHash) (front piece ids : List ℕ) (rows : List (List ℕ))
    (num_segments num_owners unread missing : ℕ)
    → num_segments ≡ length rows + (1 + unread)
    → num_segments < 2 ^ 31
    → num_owners ≡ length ids + missing
    → 1 ≤ missing
    → All (IsRow num_owners) rows
    → All IsId ids
    → IsPiece piece
    → let left =
        with_table num_segments num_owners
          (rows ++ ((ids ++ filled 0 missing) ∷ filled [] unread)) in
      (parse_hash_topology ch
          (front
            ++ (head_bytes num_segments num_owners
                ++ (rows_bytes rows ++ (row_bytes ids ++ piece))))
          (length front)
        ≡ thrown (runtime_error "ConsistentHash: buffer too short for hash ID") left)
      × (has_hash_topology left ≡ true)
unfolding after_rows
parse_hash_topology-cut ch front piece ids rows num_segments num_owners unread missing c few e k hs
      h l =
    let head : List ℕ = head_bytes num_segments num_owners in
    (
      parse_hash_topology_step ch num_segments num_owners front
            (rows_bytes rows ++ (row_bytes ids ++ piece)) (omega arith) few (omega arith)
          ∙ ap (after_rows num_segments num_owners) (
              read_rows-cut num_owners rows ids piece (front ++ head) num_segments unread missing hs
                h l e k c),
      ground arith,
    )

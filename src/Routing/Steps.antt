-- ===== src/Routing/Steps.antt =====
-- The loops of `parseHashTopology` of src/hash/ConsistentHash.cpp, a step at a time.
use cpp17_client.Base.{
  ℕ, suc, ◌+◌, ◌*◌, ◌/◌, ◌%◌, ◌^◌, ◌≤◌, ◌<◌, ◌≡◌, refl, sym, ap, ◌∙◌, subst, arith, List, [], ◌∷◌,
  ◌++◌, length, take, drop, All, true, false, ltb, ◌==◌, ok, length-append, drop-append,
  append_assoc, append-nil, bit_or,
}
use cpp17_client.Base.Bits.{bit_or-high}
use cpp17_client.Codec.{read_vint}
use cpp17_client.Codec.Septets.{septets}
use cpp17_client.Codec.Framing.{Takes-read_vint}
use cpp17_client.Routing.{ConsistentHash, is_positive}
use cpp17_client.Routing.Wire.{
  hash_id_of, full, cons_owner, read_row, cons_row, after_row, read_rows, after_rows, after_owners,
  after_segments, parse_hash_topology,
}

-- A hash id on the wire, its highest byte first.
abbrev pub id_bytes : ℕ → List ℕ
id_bytes id = (id / 2 ^ 24 % 256) ∷ (id / 2 ^ 16 % 256) ∷ (id / 2 ^ 8 % 256) ∷ (id % 256) ∷ []

abbrev pub row_bytes : List ℕ → List ℕ
row_bytes [] = []
row_bytes (id ∷ ids) = id_bytes id ++ row_bytes ids

abbrev pub rows_bytes : List (List ℕ) → List ℕ
rows_bytes [] = []
rows_bytes (row ∷ rows) = row_bytes row ++ rows_bytes rows

abbrev pub IsId : ℕ → Type 0
IsId id = id < 2 ^ 32

-- A segment with this number of owners.
abbrev pub IsRow : ℕ → List ℕ → Type 0
IsRow num_owners row = (length row ≡ num_owners) × All IsId row

hash_id_of-id_bytes :
    (id : ℕ) (rest : List ℕ) → IsId id → hash_id_of (take 4 (id_bytes id ++ rest)) ≡ id
unfolding hash_id_of
hash_id_of-id_bytes id rest h =
    let a : ℕ = id / 2 ^ 24 % 256 in
    let b : ℕ = id / 2 ^ 16 % 256 in
    let c : ℕ = id / 2 ^ 8 % 256 in
    let d : ℕ = id % 256 in
    let first : bit_or (a * 2 ^ 24) (b * 2 ^ 16) ≡ (a * 256 + b) * 2 ^ 16 =
      bit_or-high 24 a (b * 2 ^ 16) (omega arith) ∙ omega arith in
    let second : bit_or ((a * 256 + b) * 2 ^ 16) (c * 2 ^ 8) ≡ ((a * 256 + b) * 256 + c) * 2 ^ 8 =
      bit_or-high 16 (a * 256 + b) (c * 2 ^ 8) (omega arith) ∙ omega arith in
    let third : bit_or (((a * 256 + b) * 256 + c) * 2 ^ 8) d
        ≡ ((a * 256 + b) * 256 + c) * 2 ^ 8 + d =
      bit_or-high 8 ((a * 256 + b) * 256 + c) d (omega arith) in
    rw (first, second, third) (omega arith)

room :
    (front bytes rest : List ℕ)
    → ltb (length (front ++ (bytes ++ rest))) (length front + length bytes) ≡ false
room front bytes rest =
    ground (arith, length-append front (bytes ++ rest), length-append bytes rest)

-- An owner.
pub read_row_step :
    (id : ℕ) (front rest : List ℕ) (n : ℕ)
    → IsId id
    → read_row (front ++ (id_bytes id ++ rest)) (length front) (suc n)
      ≡ cons_owner id (read_row ((front ++ id_bytes id) ++ rest) (length (front ++ id_bytes id)) n)
unfolding read_row
read_row_step id front rest n h =
    rw
      (
        room front (id_bytes id) rest,
        drop-append front (id_bytes id ++ rest),
        hash_id_of-id_bytes id rest h,
        length-append front (id_bytes id),
        append_assoc front (id_bytes id) rest,
      )
      refl

pub read_row-full :
    (ids front rest : List ℕ)
    → All IsId ids
    → read_row (front ++ (row_bytes ids ++ rest)) (length front) (length ids)
      ≡ full ids (length (front ++ row_bytes ids))
unfolding read_row cons_owner
read_row-full [] front rest h = rw append-nil refl
read_row-full (id ∷ ids) front rest (h, hs) =
    read_row_step id front (row_bytes ids ++ rest) (length ids) h
    ∙ ap (cons_owner id) (read_row-full ids (front ++ id_bytes id) rest hs)
    ∙ ap (λ b. full (id ∷ ids) (length b)) (append_assoc front (id_bytes id) (row_bytes ids))

-- A segment.
pub read_rows_step :
    (num_owners : ℕ) (row front rest : List ℕ) (n : ℕ)
    → IsRow num_owners row
    → read_rows (front ++ (row_bytes row ++ rest)) num_owners (length front) (suc n)
      ≡ cons_row row (
          read_rows
            ((front ++ row_bytes row) ++ rest)
            num_owners
            (length (front ++ row_bytes row))
            n)
unfolding read_rows after_row
read_rows_step num_owners row front rest n (long, ids) =
    let whole : List ℕ = front ++ (row_bytes row ++ rest) in
    let first : read_row whole (length front) num_owners
        ≡ full row (length (front ++ row_bytes row)) =
      subst (λ n. read_row whole (length front) n ≡ full row (length (front ++ row_bytes row))) long
        (read_row-full row front rest ids) in
    ap (after_row (λ behind. read_rows whole num_owners behind n) n) first
    ∙ ap (λ b. cons_row row (read_rows b num_owners (length (front ++ row_bytes row)) n))
        (sym (append_assoc front (row_bytes row) rest))

-- What stands in front of the hash ids.
abbrev pub head_bytes : ℕ → ℕ → List ℕ
head_bytes num_segments num_owners = septets 4 num_segments ++ (num_owners ∷ [])

-- The two numbers.
pub parse_hash_topology_step :
    (ch : ConsistentHash) (num_segments num_owners : ℕ) (front rest : List ℕ)
    → 1 ≤ num_segments
    → num_segments < 2 ^ 31
    → 1 ≤ num_owners
    → parse_hash_topology ch (front ++ (head_bytes num_segments num_owners ++ rest)) (length front)
      ≡ after_rows num_segments num_owners (
          read_rows
            ((front ++ head_bytes num_segments num_owners) ++ rest)
            num_owners
            (length (front ++ head_bytes num_segments num_owners))
            num_segments)
unfolding parse_hash_topology after_segments after_owners
parse_hash_topology_step ch num_segments num_owners front rest some_row few some_owner =
    let count : List ℕ = septets 4 num_segments in
    let one : List ℕ = num_owners ∷ [] in
    let whole : List ℕ = front ++ (count ++ (one ++ rest)) in
    let same : front ++ ((count ++ one) ++ rest) ≡ whole =
      ap (λ b. front ++ b) (append_assoc count one rest) in
    let counted : read_vint whole (length front) ≡ ok (num_segments, length (front ++ count)) =
      (Takes-read_vint num_segments (omega arith)).apply front (one ++ rest) in
    let positive : is_positive num_segments ≡ true = ground arith in
    let behind : drop (length (front ++ count)) whole ≡ one ++ rest =
      ap (drop (length (front ++ count))) (sym (append_assoc front count (one ++ rest)))
      ∙ drop-append (front ++ count) (one ++ rest) in
    let owned : (num_owners == 0) ≡ false = ground arith in
    let onward : read_rows whole num_owners (length (front ++ count) + 1) num_segments
        ≡ read_rows ((front ++ (count ++ one)) ++ rest) num_owners
            (length (front ++ (count ++ one))) num_segments =
      rw
        (
          ← length-append (front ++ count) one,
          append_assoc front count one,
          append_assoc front (count ++ one) rest,
          append_assoc count one rest,
        )
        refl in
    ap (λ b. parse_hash_topology ch b (length front)) same
    ∙ simp (counted, positive, behind, owned) (ap (after_rows num_segments num_owners) onward)

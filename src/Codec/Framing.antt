-- ===== src/Codec/Framing.antt =====
-- The readers of src/codec/Codec.cpp as steps of a chain: each takes exactly what its writer appends.
use cpp17_client.Base.{ℕ, ◌<◌, ◌^◌, ◌%◌, ◌≡◌, ◌∙◌, arith, List, ◌++◌, length, append_assoc}
use cpp17_client.Base.Readers.{Takes, Gives}
use cpp17_client.Codec.{read_vint, read_vlong, read_string, read_byte_array}
use cpp17_client.Codec.{write_byte_array, write_string}
use cpp17_client.Codec.Septets.{septets, write_vint-septets, write_vlong-septets}
use cpp17_client.Codec.VarInts.{
  read_vint-write_vint, read_vlong-write_vlong, read_vint_bounds, read_vlong_bounds,
}
use cpp17_client.Codec.Blocks.{
  write_string-eq-write_byte_array, read_byte_array-write_byte_array, read_string-write_string,
}

-- What `writeString` and `writeByteArray` append.
unfoldable pub counted : List ℕ → List ℕ
counted value = septets 4 (length value) ++ value

pub write_byte_array-counted :
    (buffer value : List ℕ)
    → length value < 2 ^ 32
    → write_byte_array buffer value ≡ buffer ++ counted value
unfolding write_byte_array counted
write_byte_array-counted buffer value h =
    let same : length value % 2 ^ 32 ≡ length value = omega arith in
    rw (same, write_vint-septets buffer (length value) h, append_assoc)

pub write_string-counted :
    (buffer value : List ℕ)
    → length value < 2 ^ 32
    → write_string buffer value ≡ buffer ++ counted value
write_string-counted buffer value h =
    write_string-eq-write_byte_array buffer value ∙ write_byte_array-counted buffer value h

pub Takes-read_vint : (v : ℕ) → v < 2 ^ 32 → Takes read_vint (septets 4 v) v
Takes-read_vint v h = record {
  apply = λ front rest.
      rw (← append_assoc, ← write_vint-septets front v h) (read_vint-write_vint front rest v h);
}

pub Takes-read_vlong : (v : ℕ) → v < 2 ^ 64 → Takes read_vlong (septets 9 v) v
Takes-read_vlong v h = record {
  apply = λ front rest.
      rw (← append_assoc, ← write_vlong-septets front v h) (read_vlong-write_vlong front rest v h);
}

pub Takes-read_string :
    (value : List ℕ) → length value < 2 ^ 32 → Takes read_string (counted value) value
Takes-read_string value h = record {
  apply = λ front rest.
      rw (← append_assoc, ← write_string-counted front value h)
        (read_string-write_string front value rest h);
}

pub Takes-read_byte_array :
    (value : List ℕ) → length value < 2 ^ 32 → Takes read_byte_array (counted value) value
Takes-read_byte_array value h = record {
  apply = λ front rest.
      rw (← append_assoc, ← write_byte_array-counted front value h)
        (read_byte_array-write_byte_array front value rest h);
}

pub Gives-read_vint : Gives read_vint 1 5 (λ v. v < 2 ^ 32)
Gives-read_vint = record {
  apply = λ buffer offset v offset' l e.
      let (small, after, near, inside) = read_vint_bounds buffer offset v offset' e in
      (small, omega arith, near, inside);
}

pub Gives-read_vlong : Gives read_vlong 1 10 (λ v. v < 2 ^ 64)
Gives-read_vlong = record {
  apply = λ buffer offset v offset' l e.
      let (small, after, near, inside) = read_vlong_bounds buffer offset v offset' e in
      (small, omega arith, near, inside);
}

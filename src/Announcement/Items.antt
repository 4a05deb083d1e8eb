-- ===== src/Announcement/Items.antt =====
-- Each item of a topology is read off exactly its bytes.
use cpp17_client.Base.{
  ℕ, zero, suc, ◌+◌, ◌/◌, ◌%◌, ◌^◌, ◌<◌, ◌≡◌, refl, subst, arith, List, [], ◌∷◌, ◌++◌, length, ok,
  append_assoc, append-nil, length-append, drop-append,
}
use cpp17_client.Base.Bits.{top_bit}
use cpp17_client.Base.Readers.{Takes, Takes-bind, Takes-return, ◌>>=◌}
use cpp17_client.Codec.{read_vint}
use cpp17_client.Codec.Septets.{septets, write_vint-septets}
use cpp17_client.Codec.VarInts.{read_vint-write_vint}
use cpp17_client.Codec.Framing.{counted}
use cpp17_client.Stream.Receiving.{Takes-receive}
use cpp17_client.Announcement.{collect_vint, decode_vint, parse_vint, parse_string}

collect_vint-septets :
    (n v : ℕ) (vint_bytes rest : List ℕ) (offset : ℕ)
    → v < 128 ^ suc n
    → collect_vint (septets n v ++ rest) vint_bytes offset
      ≡ ok (vint_bytes ++ septets n v, offset + length (septets n v))
unfolding collect_vint septets
collect_vint-septets zero v vint_bytes rest offset h = ground (arith, top_bit v)
collect_vint-septets (suc n) v vint_bytes rest offset h = ground (
  arith,
  top_bit v,
  top_bit (v % 128 + 128),
  collect_vint-septets n (v / 128) (vint_bytes ++ ((v % 128 + 128) ∷ [])) rest (offset + 1),
  append_assoc vint_bytes ((v % 128 + 128) ∷ []) (septets n (v / 128)),
)

read_vint-septets : (v : ℕ) → v < 2 ^ 32 → read_vint (septets 4 v) 0 ≡ ok (v, length (septets 4 v))
read_vint-septets v h =
    let written = read_vint-write_vint [] [] v h in
    simp (append-nil, write_vint-septets [] v h) at written

pub Takes-parse_vint : (v : ℕ) → v < 2 ^ 32 → Takes parse_vint (septets 4 v) v
unfolding parse_vint decode_vint ◌>>=◌
Takes-parse_vint v h = record {
  apply = λ front rest.
      rw
        (
          drop-append,
          collect_vint-septets 4 v [] rest (length front) (omega arith),
          read_vint-septets v h,
          length-append,
        )
        refl;
}

pub Takes-parse_string :
    (value : List ℕ) → length value < 2 ^ 32 → Takes parse_string (counted value) value
unfolding parse_string counted
Takes-parse_string [] h = Takes-bind _ (Takes-parse_vint 0 h) (Takes-return [])
Takes-parse_string (b ∷ value) h =
    Takes-bind _ (Takes-parse_vint (length (b ∷ value)) h)
      (subst (λ r. Takes r (b ∷ value) (b ∷ value)) (ground arith) (Takes-receive (b ∷ value)))

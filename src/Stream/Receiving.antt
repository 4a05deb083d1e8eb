-- ===== src/Stream/Receiving.antt =====
-- Each helper of src/transport/Connection.cpp takes exactly the bytes of one item off the stream.
use cpp17_client.Base.{
  ℕ, ◌+◌, ◌^◌, ◌<◌, ◌≡◌, refl, subst, arith, List, [], ◌∷◌, ◌++◌, length, ◌∙◌, ltb, false,
  length-append, drop-append, take-append,
}
use cpp17_client.Base.Readers.{Takes, Takes-bind, Takes-return, Takes-map}
use cpp17_client.Codec.Septets.{septets}
use cpp17_client.Codec.VarLoop.{read_var_from-septets}
use cpp17_client.Codec.Longs.{long_bytes, foldl-long_bytes}
use cpp17_client.Codec.Framing.{counted}
use cpp17_client.Stream.{receive, receive_vint, receive_vlong, receive_byte_array, receive_long}
use cpp17_client.Stream.{receive_long_loop}
use cpp17_client.Stream.Loops.{
  receive_vint-read_var_from, receive_vlong-read_var_from, receive_long_loop-foldl,
}

pub Takes-receive : (value : List ℕ) → Takes (receive (length value)) value value
unfolding receive
Takes-receive value = record {
  apply = λ front rest.
      let fits : ltb (length (front ++ (value ++ rest))) (length front + length value) ≡ false =
        ground (arith, length-append front (value ++ rest), length-append value rest) in
      rw (fits, drop-append, take-append, length-append) refl;
}

pub Takes-receive_vint : (v : ℕ) → v < 2 ^ 32 → Takes receive_vint (septets 4 v) v
Takes-receive_vint v h = record {
  apply = λ front rest.
      rw (receive_vint-read_var_from, drop-append, length-append)
        (read_var_from-septets 32 _ _ 4 v (length front) rest (omega arith) (omega arith) h);
}

pub Takes-receive_vlong : (v : ℕ) → v < 2 ^ 64 → Takes receive_vlong (septets 9 v) v
Takes-receive_vlong v h = record {
  apply = λ front rest.
      rw (receive_vlong-read_var_from, drop-append, length-append)
        (read_var_from-septets 64 _ _ 9 v (length front) rest (omega arith) (omega arith) h);
}

pub Takes-receive_long : (v : ℕ) → v < 2 ^ 64 → Takes receive_long (long_bytes v) v
unfolding receive_long long_bytes
Takes-receive_long v h =
    subst (Takes receive_long (long_bytes v))
      (receive_long_loop-foldl (long_bytes v) 0 ∙ foldl-long_bytes v h)
      (Takes-map (λ bytes. receive_long_loop bytes 0) (Takes-receive (long_bytes v)))

pub Takes-receive_byte_array :
    (value : List ℕ) → length value < 2 ^ 32 → Takes receive_byte_array (counted value) value
unfolding receive_byte_array counted
Takes-receive_byte_array [] h = Takes-bind _ (Takes-receive_vint 0 h) (Takes-return [])
Takes-receive_byte_array (b ∷ value) h =
    Takes-bind _ (Takes-receive_vint (length (b ∷ value)) h)
      (subst (λ r. Takes r (b ∷ value) (b ∷ value)) (ground arith) (Takes-receive (b ∷ value)))

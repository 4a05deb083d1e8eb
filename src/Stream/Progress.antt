-- ===== src/Stream/Progress.antt =====
-- What src/transport/Connection.cpp receives moves the stream on.
use cpp17_client.Base.{Bool, ℕ, sym, ◌∙◌, arith, drop, length-drop, bit_and, ◌==◌}
use cpp17_client.Base.Progress.{
  Advances, Advances-return, Advances-bind, Advances-if, Advances-byte,
}
use cpp17_client.Codec.VarLoop.{read_var_from_bounds}
use cpp17_client.Stream.Loops.{receive_vint-read_var_from, receive_vlong-read_var_from}
use cpp17_client.Stream.{
  closed, receive, receive_vint, receive_vlong, receive_byte_array, receive_long, receive_limit,
  receive_metadata,
}

pub Advances-receive : (count : ℕ) → Advances (receive count) 0
unfolding receive
Advances-receive count = record { apply = λ buffer offset bytes offset' l e. ground arith }

pub Advances-receive_vint : Advances receive_vint 0
Advances-receive_vint = record {
  apply = λ buffer offset v offset' l e.
      let (small, after, near, far) =
        read_var_from_bounds 32 _ _ (drop offset buffer) offset v offset' (omega arith)
          (sym (receive_vint-read_var_from buffer offset) ∙ e) in
      omega (arith, length-drop offset buffer);
}

pub Advances-receive_vlong : Advances receive_vlong 0
Advances-receive_vlong = record {
  apply = λ buffer offset v offset' l e.
      let (small, after, near, far) =
        read_var_from_bounds 64 _ _ (drop offset buffer) offset v offset' (omega arith)
          (sym (receive_vlong-read_var_from buffer offset) ∙ e) in
      omega (arith, length-drop offset buffer);
}

pub Advances-receive_byte_array : Advances receive_byte_array 0
unfolding receive_byte_array
Advances-receive_byte_array =
    Advances-bind _ Advances-receive_vint
      λ count. Advances-if (count == 0) (Advances-return _) (Advances-receive count)

Advances-receive_long : Advances receive_long 0
unfolding receive_long
Advances-receive_long = Advances-bind _ (Advances-receive 8) λ bytes. Advances-return _

Advances-receive_limit : (limited : Bool) → Advances (receive_limit limited) 0
unfolding receive_limit
Advances-receive_limit limited =
    Advances-if limited
      (Advances-bind _ Advances-receive_long
        λ time. Advances-bind _ Advances-receive_vint λ duration. Advances-return _)
      (Advances-return _)

pub Advances-receive_metadata : Advances receive_metadata 0
unfolding receive_metadata
Advances-receive_metadata = Advances-bind _ (Advances-byte closed) λ flag.
    Advances-bind _ (Advances-receive_limit (bit_and flag 0x01 == 0)) λ life.
      Advances-bind _ (Advances-receive_limit (bit_and flag 0x02 == 0))
        λ idle. Advances-bind _ Advances-receive_long λ version. Advances-return _

-- ===== src/Stream/Runs.antt =====
-- Bytes off the stream at concrete inputs.
use cpp17_client.Base.{◌≡◌, refl, [], ◌∷◌, ok, err}
use cpp17_client.Codec.{read_vint, read_vlong, read_long, read_byte_array, read_string}
use cpp17_client.Stream.{closed, receive_vint, receive_vlong, receive_long, receive_byte_array}
use cpp17_client.Stream.Agreement.{without_text, receive-read}

two_bytes : receive_byte_array (9 ∷ 2 ∷ 65 ∷ 66 ∷ 7 ∷ []) 1 ≡ ok (65 ∷ 66 ∷ [], 4)
unfolding receive_byte_array
two_bytes = refl

cut_short : receive_byte_array (9 ∷ 2 ∷ 65 ∷ []) 1 ≡ err closed
unfolding receive_byte_array
cut_short = refl

receive-read_example :
    (without_text (receive_vint (130 ∷ 1 ∷ 5 ∷ []) 0)
      ≡ without_text (read_vint (130 ∷ 1 ∷ 5 ∷ []) 0))
    × (without_text (receive_vlong (130 ∷ 1 ∷ 5 ∷ []) 0)
        ≡ without_text (read_vlong (130 ∷ 1 ∷ 5 ∷ []) 0))
    × (without_text (receive_long (130 ∷ 1 ∷ 5 ∷ []) 0)
        ≡ without_text (read_long (130 ∷ 1 ∷ 5 ∷ []) 0))
    × (without_text (receive_byte_array (130 ∷ 1 ∷ 5 ∷ []) 0)
        ≡ without_text (read_byte_array (130 ∷ 1 ∷ 5 ∷ []) 0))
    × (without_text (receive_byte_array (130 ∷ 1 ∷ 5 ∷ []) 0)
        ≡ without_text (read_string (130 ∷ 1 ∷ 5 ∷ []) 0))
receive-read_example = receive-read (130 ∷ 1 ∷ 5 ∷ []) 0

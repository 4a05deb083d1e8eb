-- ===== src/Codec/Runs.antt =====
-- Runs of src/codec/Codec.cpp on the byte strings of tests/unit/CodecTest.cpp, and the theorems at
-- concrete inputs.
use cpp17_client.Base.{◌≡◌, refl, arith, [], ◌∷◌, ◌++◌, length}
use cpp17_client.Base.{ok, err, undefined, runtime_error}
use cpp17_client.Codec.{write_vint, write_vlong, write_long}
use cpp17_client.Codec.{read_vint, read_string, read_byte_array}
use cpp17_client.Codec.VarInts.{read_vint-write_vint, read_vint_overlong}

write_vint_300 : write_vint (7 ∷ []) 300 ≡ 7 ∷ 0xac ∷ 0x02 ∷ []
unfolding write_vint
write_vint_300 = refl

read_vint_300 : read_vint (7 ∷ 0xac ∷ 0x02 ∷ 9 ∷ []) 1 ≡ ok (300, 3)
unfolding read_vint
read_vint_300 = refl

write_vlong_max :
    write_vlong [] 0xffff_ffff_ffff_ffff
    ≡ 0xff ∷ 0xff ∷ 0xff ∷ 0xff ∷ 0xff ∷ 0xff ∷ 0xff ∷ 0xff ∷ 0xff ∷ 0x01 ∷ []
unfolding write_vlong
write_vlong_max = refl

write_long_1 : write_long [] 0x0102_0304_0506_0708 ≡ 1 ∷ 2 ∷ 3 ∷ 4 ∷ 5 ∷ 6 ∷ 7 ∷ 8 ∷ []
unfolding write_long
write_long_1 = refl

read_byte_array_2 : read_byte_array (9 ∷ 2 ∷ 5 ∷ 6 ∷ 7 ∷ []) 1 ≡ ok (5 ∷ 6 ∷ [], 4)
unfolding read_byte_array read_vint
read_byte_array_2 = refl

read_string_too_long :
    read_string (3 ∷ 65 ∷ []) 0 ≡ err (runtime_error "readString: string length exceeds buffer")
unfolding read_string read_vint
read_string_too_long = refl

read_vint-write_vint_example :
    read_vint (write_vint (7 ∷ []) 300 ++ (9 ∷ [])) 1 ≡ ok (300, length (write_vint (7 ∷ []) 300))
read_vint-write_vint_example = read_vint-write_vint (7 ∷ []) (9 ∷ []) 300 (omega arith)

read_vint_overlong_example :
    read_vint (7 ∷ 0x80 ∷ 0x80 ∷ 0x80 ∷ 0x80 ∷ 0x80 ∷ 0x00 ∷ []) 1 ≡ undefined
read_vint_overlong_example =
    read_vint_overlong (7 ∷ []) 0x80 (0x80 ∷ 0x80 ∷ 0x80 ∷ 0x80 ∷ []) 0x00 [] (omega arith)
      (omega arith)

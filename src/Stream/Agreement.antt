-- ===== src/Stream/Agreement.antt =====
-- The helpers of src/transport/Connection.cpp that receive from the socket, against the readers of
-- src/codec/Codec.cpp that take the same parts out of a buffer.
use cpp17_client.Base.{
  ℕ, ◌+◌, ◌*◌, ◌^◌, ◌%◌, ◌≡◌, refl, ap, List, [], ◌∷◌, length, take, drop, bit_and, bit_or,
  Bool-cases, ltb, ◌==◌, if◌then◌else◌, inl, inr, Outcome, ok, err, undefined, ◌>>=◌, ◌∙◌,
  runtime_error, String,
}
use cpp17_client.Base.Readers
use cpp17_client.Codec.{
  read_var_loop, read_var_from, read_vint, read_vlong, read_long, read_counted, read_string,
  read_byte_array,
}
use cpp17_client.Stream.Loops.{
  receive_vint-read_var_from, receive_vlong-read_var_from, receive_long_loop-foldl,
}
use cpp17_client.Stream.{
  closed, receive, receive_vint, receive_vlong, receive_byte_array, receive_long,
}

-- Whatever is thrown counts as the same.
abbrev pub without_text {ℓ} : {A : Type ℓ} → Outcome A → Outcome A
without_text (ok a) = ok a
without_text (err e) = err closed
without_text undefined = undefined

-- The loops differ in what they throw at the end of the bytes.
read_var_loop_text :
    (w : ℕ) (s s' : String) (rest : List ℕ) (offset b result shift : ℕ)
    → without_text (read_var_loop w s rest offset b result shift)
      ≡ without_text (read_var_loop w s' rest offset b result shift)
unfolding read_var_loop
read_var_loop_text w s s' [] offset b result shift = elim (Bool-cases (bit_and b 0x80 == 0)) [
  | inl last ↦ rw last refl
  | inr more ↦ rw more refl
]
read_var_loop_text w s s' (c ∷ rest) offset b result shift =
    elim (Bool-cases (bit_and b 0x80 == 0)) [
      | inl last ↦ simp last refl
      | inr more ↦ elim (Bool-cases (ltb shift w)) [
        | inl fits ↦
            simp (more, fits)
              (read_var_loop_text w s s' rest (offset + 1) c
                (bit_or result (bit_and c 0x7f * 2 ^ shift % 2 ^ w)) (shift + 7))
        | inr wide ↦ simp (more, wide) refl
      ]
    ]

read_var_from_text :
    (w : ℕ) (s s' t t' : String) (bytes : List ℕ) (offset : ℕ)
    → without_text (read_var_from w s t bytes offset)
      ≡ without_text (read_var_from w s' t' bytes offset)
unfolding read_var_from
read_var_from_text w s s' t t' [] offset = refl
read_var_from_text w s s' t t' (b ∷ rest) offset =
    read_var_loop_text w t t' rest (offset + 1) b (bit_and b 0x7f) 7

receive_vint-read_vint :
    (buffer : List ℕ) (offset : ℕ)
    → without_text (receive_vint buffer offset) ≡ without_text (read_vint buffer offset)
unfolding read_vint
receive_vint-read_vint buffer offset =
    ap without_text (receive_vint-read_var_from buffer offset)
    ∙ read_var_from_text 32 _ _ _ _ (drop offset buffer) offset

same_ok : {A : Type 0} {a a' : A} → ◌≡◌ {A = Outcome A} (ok a) (ok a') → a ≡ a'
same_ok h = cc

bind_text :
    {A B : Type 0} (o o' : Outcome A) (k k' : A → Outcome B)
    → without_text o ≡ without_text o'
    → ((a : A) → without_text (k a) ≡ without_text (k' a))
    → without_text (o >>= k) ≡ without_text (o' >>= k')
bind_text (ok a) (ok a') k k' h g = g a ∙ ap (λ x. without_text (k' x)) (same_ok h)
bind_text (ok a) (err e) k k' h g = cc
bind_text (ok a) undefined k k' h g = cc
bind_text (err e) (ok a) k k' h g = cc
bind_text (err e) (err e') k k' h g = refl
bind_text (err e) undefined k k' h g = cc
bind_text undefined (ok a) k k' h g = cc
bind_text undefined (err e) k k' h g = cc
bind_text undefined undefined k k' h g = refl

-- Behind the count.
counted_text :
    (buffer : List ℕ) (count offset : ℕ) (s : String)
    → without_text
        ((if count == 0 then Readers.return {A = List ℕ} [] else receive count) buffer offset)
      ≡ without_text (
          if count == 0
          then ok ([], offset)
          else if ltb (length buffer) (offset + count)
          then err (runtime_error s)
          else ok (take count (drop offset buffer), offset + count))
unfolding receive Readers.return
counted_text buffer count offset s = elim (Bool-cases (count == 0)) [
  | inl nothing ↦ simp nothing refl
  | inr more ↦ elim (Bool-cases (ltb (length buffer) (offset + count))) [
    | inl beyond ↦ simp (more, beyond) refl
    | inr within ↦ simp (more, within) refl
  ]
]

-- On the same bytes, the helpers that receive a part of a body off the socket, by loops of their own, and
-- the functions of `Codec` that read it out of a buffer come to the same, for every input: the same value
-- and the same place behind it, an exception in both, which differs only in its text, or undefined
-- behaviour in both.
pub receive-read :
    (buffer : List ℕ) (offset : ℕ)
    → (without_text (receive_vint buffer offset) ≡ without_text (read_vint buffer offset))
      × (without_text (receive_vlong buffer offset) ≡ without_text (read_vlong buffer offset))
      × (without_text (receive_long buffer offset) ≡ without_text (read_long buffer offset))
      × (without_text (receive_byte_array buffer offset)
          ≡ without_text (read_byte_array buffer offset))
      × (without_text (receive_byte_array buffer offset) ≡ without_text (read_string buffer offset))
unfolding read_vlong receive_byte_array read_byte_array read_string read_counted receive_long
    read_long receive Readers.◌>>=◌ Readers.return
receive-read buffer offset = (
  receive_vint-read_vint buffer offset,
  ap without_text (receive_vlong-read_var_from buffer offset)
      ∙ read_var_from_text 64 _ _ _ _ (drop offset buffer) offset,
  elim (Bool-cases (ltb (length buffer) (offset + 8))) [
    | inl beyond ↦ simp beyond refl
    | inr within ↦ simp within (
        ap (λ (v : ℕ). ok (v, offset + 8))
          (receive_long_loop-foldl (take 8 (drop offset buffer)) 0))
  ],
  bind_text (receive_vint buffer offset) (read_vint buffer offset) _ _
      (receive_vint-read_vint buffer offset) (λ p. counted_text buffer p.0 p.1 _),
  bind_text (receive_vint buffer offset) (read_vint buffer offset) _ _
      (receive_vint-read_vint buffer offset) (λ p. counted_text buffer p.0 p.1 _),
)

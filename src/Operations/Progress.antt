-- ===== src/Operations/Progress.antt =====
-- The body parsers of src/operations/RemoteCache.cpp move the stream on.
use cpp17_client.Base.{
  ℕ, ◌+◌, ◌*◌, ◌^◌, ◌%◌, ◌≤◌, ◌≡◌, arith, List, [], ◌∷◌, length, drop, length-drop, ok, ◌==◌, ◌||◌,
  ltb, leb, bit_or, bit_and,
}
use cpp17_client.Base.Readers.{Reader}
use cpp17_client.Base.Progress.{
  Advances, Advances-return, Advances-bind, Advances-if, Advances-byte,
}
use cpp17_client.Header.{version_40}
use cpp17_client.Stream.{closed}
use cpp17_client.Stream.Progress.{
  Advances-receive, Advances-receive_byte_array, Advances-receive_metadata,
}
use cpp17_client.Operations.{
  Operation, Parsed, parse_entry, parse_value, is_plain_status, parse_found, parse_put,
  parse_conditional, parse_status, last_vint_byte, skip_vint, skip_media_name, skip_media_type,
  op_count_loop, receive_op_count, parse_ping, parse_body,
}

Advances-parse_entry : Advances parse_entry 0
unfolding parse_entry
Advances-parse_entry =
    Advances-bind _ Advances-receive_metadata
      λ metadata. Advances-bind _ Advances-receive_byte_array λ bytes. Advances-return _

Advances-parse_value : Advances parse_value 0
unfolding parse_value
Advances-parse_value = Advances-bind _ Advances-receive_byte_array λ bytes. Advances-return _

Advances-parse_found :
    (status : ℕ) {read : Reader Parsed} → Advances read 0 → Advances (parse_found status read) 0
unfolding parse_found
Advances-parse_found status h =
    Advances-if (status == 0x01 || status == 0x02) (Advances-return _)
      (Advances-if (status == 0x00) h (Advances-return _))

Advances-parse_put : (status version : ℕ) → Advances (parse_put status version) 0
unfolding parse_put
Advances-parse_put status version =
    Advances-if (status == 0x03)
      (Advances-if (leb version_40 version) Advances-parse_entry
        (Advances-bind _ Advances-receive_byte_array λ bytes. Advances-return _))
      (Advances-return _)

Advances-parse_status : (status : ℕ) → Advances (parse_status status) 0
unfolding parse_status
Advances-parse_status status =
    Advances-if (is_plain_status status) (Advances-return _) (Advances-return _)

Advances-parse_conditional : (status : ℕ) → Advances (parse_conditional status) 0
unfolding parse_conditional
Advances-parse_conditional status =
    Advances-if (status == 0x03 || status == 0x04) Advances-parse_entry
      (Advances-if (is_plain_status status) (Advances-return _) (Advances-return _))

last_vint_byte_moves :
    (xs : List ℕ) (offset b offset' : ℕ)
    → last_vint_byte xs offset ≡ ok (b, offset')
    → (offset ≤ offset') × (offset' ≤ offset + length xs)
unfolding last_vint_byte
last_vint_byte_moves [] offset b offset' h = cc
last_vint_byte_moves (x ∷ rest) offset b offset' h =
    ground (arith, last_vint_byte_moves rest (offset + 1) b offset')

Advances-skip_vint : Advances skip_vint 0
unfolding skip_vint
Advances-skip_vint = record {
  apply = λ buffer offset b offset' l e.
      let (after, near) = last_vint_byte_moves (drop offset buffer) offset b offset' e in
      omega (arith, length-drop offset buffer);
}

op_count_loop_moves :
    (xs : List ℕ) (count offset n offset' : ℕ)
    → op_count_loop xs count offset ≡ ok (n, offset')
    → (offset ≤ offset') × (offset' ≤ offset + length xs)
unfolding op_count_loop
op_count_loop_moves [] count offset n offset' h = cc
op_count_loop_moves (x ∷ rest) count offset n offset' h = ground (
  arith,
  op_count_loop_moves rest (bit_or (count * 2 ^ 7 % 2 ^ 32) (bit_and x 0x7f)) (offset + 1) n
      offset',
)

Advances-receive_op_count : Advances receive_op_count 0
unfolding receive_op_count
Advances-receive_op_count = record {
  apply = λ buffer offset n offset' l e.
      let (after, near) = op_count_loop_moves (drop offset buffer) 0 offset n offset' e in
      omega (arith, length-drop offset buffer);
}

Advances-skip_media_name : (indicator : ℕ) → Advances (skip_media_name indicator) 0
unfolding skip_media_name
Advances-skip_media_name indicator =
    Advances-if (indicator == 1) (Advances-bind _ Advances-skip_vint λ b. Advances-return _) (
      Advances-if (indicator == 2)
        (Advances-bind _ Advances-skip_vint
          λ count. Advances-if (ltb 0 count) (Advances-receive count) (Advances-return _))
        (Advances-return _))

Advances-skip_media_type : Advances skip_media_type 0
unfolding skip_media_type
Advances-skip_media_type = Advances-bind _ (Advances-byte closed) λ indicator.
    Advances-if (indicator == 0) (Advances-return _)
      (Advances-bind _ (Advances-skip_media_name indicator) λ name. Advances-skip_vint)

Advances-parse_ping : (status : ℕ) → Advances (parse_ping status) 0
unfolding parse_ping
Advances-parse_ping status =
    Advances-if (status == 0x00)
      (Advances-bind _ Advances-skip_media_type λ key_type.
        Advances-bind _ Advances-skip_media_type λ value_type.
          Advances-bind _ (Advances-receive 1) λ server_version.
            Advances-bind _ Advances-receive_op_count λ n.
              Advances-bind _
                (Advances-if (ltb 0 n) (Advances-receive (n * 2 % 2 ^ 32)) (Advances-return _))
                λ opcodes. Advances-return _)
      (Advances-return _)

-- Every operation's body parser takes bytes off the stream in order, whatever the status.
pub Advances-parse_body :
    (op : Operation) (status version : ℕ) → Advances (parse_body op status version) 0
unfolding parse_body
Advances-parse_body Operation.ping status version = Advances-parse_ping status
Advances-parse_body (Operation.get key) status version =
    Advances-parse_found status Advances-parse_value
Advances-parse_body (Operation.get_with_metadata key) status version =
    Advances-parse_found status Advances-parse_entry
Advances-parse_body (Operation.contains_key key) status version = Advances-parse_status status
Advances-parse_body (Operation.put _ _ _ _ _) status version = Advances-parse_put status version
Advances-parse_body (Operation.put_if_absent _ _ _ _ _) status version =
    Advances-parse_conditional status
Advances-parse_body (Operation.replace _ _ _ _ _) status version = Advances-parse_conditional status
Advances-parse_body (Operation.remove _ _) status version = Advances-parse_conditional status
Advances-parse_body (Operation.remove_with_version _ _) status version =
    Advances-parse_conditional status
Advances-parse_body (Operation.replace_with_version _ _ _ _ _) status version =
    Advances-parse_conditional status

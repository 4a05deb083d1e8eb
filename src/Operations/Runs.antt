-- ===== src/Operations/Runs.antt =====
-- Requests and responses on the wire.
use cpp17_client.Base.{ℕ, ◌≡◌, arith, List, [], ◌∷◌, ◌++◌, length, true, none, some, ok}
use cpp17_client.Codec.Septets.{septets}
use cpp17_client.Header.{version_41}
use cpp17_client.Operations.{Operation, value_body, receive_op_count}
use cpp17_client.Operations.Requests.{read_value_body, read_value_body-value_body}
use cpp17_client.Operations.OpCount.{receive_op_count_exchanged}
use cpp17_client.Operations.Results.{found, perform}
use cpp17_client.Operations.Answers.{the_entry, entry_bytes, put_over, perform_entry}

read_value_body-value_body_example :
    read_value_body (value_body (107 ∷ []) (118 ∷ 119 ∷ []) 300 0 ++ (9 ∷ [])) 0
    ≡ ok (
      record { key = 107 ∷ []; lifespan = 300; max_idle = 0; value = 118 ∷ 119 ∷ [] },
      length (value_body (107 ∷ []) (118 ∷ 119 ∷ []) 300 0),
    )
read_value_body-value_body_example =
    read_value_body-value_body (107 ∷ []) (118 ∷ 119 ∷ []) 300 0 (omega arith) (omega arith)
      (omega arith) (omega arith) (9 ∷ [])

-- 130 opcodes, 130 and 1 on the wire, are taken for 257.
receive_op_count_exchanged_example :
    receive_op_count ((5 ∷ []) ++ (septets 4 130 ++ (7 ∷ []))) 1 ≡ ok (257, 3)
receive_op_count_exchanged_example =
    receive_op_count_exchanged 130 (5 ∷ []) (7 ∷ []) (omega arith) (omega arith)

abbrev previous : List ℕ
previous = 111 ∷ 108 ∷ 100 ∷ []

perform_entry_example :
    perform
      (Operation.put (107 ∷ []) (118 ∷ []) 0 0 true)
      0x03
      version_41
      ((5 ∷ []) ++ (entry_bytes (some (1700000000000, 300)) none 0 12345 previous ++ (7 ∷ [])))
      1
    ≡ ok (
      found (the_entry (some (1700000000000, 300)) none 12345 previous),
      length ((5 ∷ []) ++ entry_bytes (some (1700000000000, 300)) none 0 12345 previous),
    )
perform_entry_example =
    perform_entry (some (1700000000000, 300)) none 0 12345 previous (omega arith, omega arith) tt
      (omega arith) (omega arith) version_41 (5 ∷ []) (7 ∷ []) (omega arith) put_over

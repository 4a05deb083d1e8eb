-- ===== src/Operations/Results.antt =====
-- What the futures of src/operations/RemoteCache.cpp deliver, given a response without an error.
use cpp17_client.Base.{ℕ, Bool, true, false, not, ◌&&◌, ◌||◌, ◌==◌, if◌then◌else◌}
use cpp17_client.Base.Readers.{Reader, ◌>>=◌, return}
use cpp17_client.Operations.{Operation, Body, Parsed, empty, parsed, failed, parse_body}

-- A `void`, `std::nullopt`, a value or an entry, a `bool`, or a `HotRodClientException` with the
-- server's status.
pub data Result : Type 0 where
  done absent : Result
  found : Body → Result
  answer : Bool → Result
  refused : ℕ → Result

-- `resp.body.has_value()`.
unfoldable pub has_value : Body → Bool
has_value empty = false
has_value _ = true

unfoldable pub found_if : Bool → Body → Result
unfolding has_value
found_if c body = if c && has_value body then found body else absent

-- `get` and `getWithMetadata`; `put`; `putIfAbsent` and `replace`; `remove`; the versioned operations;
-- `containsKey`; `ping`.
unfoldable pub result_of : Operation → ℕ → Body → Result
unfolding found_if
result_of (Operation.get key) status body = found_if (status == 0x00) body
result_of (Operation.get_with_metadata key) status body = found_if (status == 0x00) body
result_of (Operation.put _ _ _ _ _) status body =
    if not (status == 0x00) && not (status == 0x03)
    then refused status
    else found_if (status == 0x03) body
result_of (Operation.put_if_absent _ _ _ _ _) status body =
    found_if (status == 0x03 || status == 0x04) body
result_of (Operation.replace _ _ _ _ _) status body =
    found_if (status == 0x03 || status == 0x04) body
result_of (Operation.remove _ _) status body = found_if (status == 0x03) body
result_of (Operation.remove_with_version _ _) status body =
    answer (status == 0x00 || status == 0x03)
result_of (Operation.replace_with_version _ _ _ _ _) status body =
    answer (status == 0x00 || status == 0x03)
result_of (Operation.contains_key key) status body = answer (status == 0x00)
result_of Operation.ping status body = done

unfoldable pub deliver : Operation → ℕ → Parsed → Result
unfolding result_of
deliver op status (parsed body) = result_of op status body
deliver op status (failed code) = refused code

-- A response off the stream, as its future delivers it.
unfoldable pub perform : Operation → ℕ → ℕ → Reader Result
unfolding deliver
perform op status version = parse_body op status version >>= λ p. return (deliver op status p)

-- ===== src/Operations/Answers.antt =====
-- What the operations of src/operations/RemoteCache.cpp make of a response that carries an entry.
use cpp17_client.Base.{
  ℕ, ◌^◌, ◌≤◌, ◌<◌, ◌≡◌, refl, ap, ◌∙◌, arith, List, ◌++◌, length, Bool, true, false, some, ok, leb,
}
use cpp17_client.Base.Readers.{Takes, Takes-bind, Takes-map}
use cpp17_client.Codec.Framing.{counted}
use cpp17_client.Header.{version_40}
use cpp17_client.Stream.Metadata.{
  Limit, IsSendableLimit, metadata_bytes, metadata_of, Takes-receive_metadata,
}
use cpp17_client.Stream.Receiving.{Takes-receive_byte_array}
use cpp17_client.Operations.{
  Operation, Body, parsed, entry, parse_entry, parse_put, parse_conditional, parse_body,
  parse_found,
}
use cpp17_client.Operations.Results.{Result, found, absent, answer, deliver, perform}

-- The statuses with which a response carries an entry, and what the operation delivers of it.
pub data Carries : Operation → ℕ → (Body → Result) → Type 0 where
  got : {key : List ℕ} → Carries (Operation.get_with_metadata key) 0x00 found
  put_over : {key v : List ℕ} {l m : ℕ} {p : Bool} → Carries (Operation.put key v l m p) 0x03 found
  put_if_absent_over :
      {key v : List ℕ} {l m : ℕ} {p : Bool}
      → Carries (Operation.put_if_absent key v l m p) 0x03 found
  put_if_absent_kept :
      {key v : List ℕ} {l m : ℕ} {p : Bool}
      → Carries (Operation.put_if_absent key v l m p) 0x04 found
  replaced :
      {key v : List ℕ} {l m : ℕ} {p : Bool} → Carries (Operation.replace key v l m p) 0x03 found
  replace_kept :
      {key v : List ℕ} {l m : ℕ} {p : Bool} → Carries (Operation.replace key v l m p) 0x04 found
  removed : {key : List ℕ} {p : Bool} → Carries (Operation.remove key p) 0x03 found
  remove_kept : {key : List ℕ} {p : Bool} → Carries (Operation.remove key p) 0x04 (λ _. absent)
  removed_version :
      {key : List ℕ} {n : ℕ} → Carries (Operation.remove_with_version key n) 0x03 (λ _. answer true)
  remove_version_kept :
      {key : List ℕ} {n : ℕ}
      → Carries (Operation.remove_with_version key n) 0x04 (λ _. answer false)
  replaced_version :
      {key v : List ℕ} {n l m : ℕ}
      → Carries (Operation.replace_with_version key v n l m) 0x03 (λ _. answer true)
  replace_version_kept :
      {key v : List ℕ} {n l m : ℕ}
      → Carries (Operation.replace_with_version key v n l m) 0x04 (λ _. answer false)

abbrev pub the_entry : Limit → Limit → ℕ → List ℕ → Body
the_entry life idle stamp bytes = entry (some (metadata_of life idle stamp)) bytes

-- The entry's bytes, as the protocol prescribes them.
abbrev pub entry_bytes : Limit → Limit → ℕ → ℕ → List ℕ → List ℕ
entry_bytes life idle other stamp bytes = metadata_bytes life idle other stamp ++ counted bytes

module _ (life idle : Limit) (other stamp : ℕ) (bytes : List ℕ) (hl : IsSendableLimit life)
    (hi : IsSendableLimit idle) (hs : stamp < 2 ^ 64) (hb : length bytes < 2 ^ 32) where
  Takes-parse_entry :
      Takes parse_entry
        (entry_bytes life idle other stamp bytes)
        (parsed (the_entry life idle stamp bytes))
  unfolding parse_entry
  Takes-parse_entry =
      Takes-bind _ (Takes-receive_metadata life idle other stamp hl hi hs)
        (Takes-map _ (Takes-receive_byte_array bytes hb))

  Takes-parse_body :
      {op : Operation} {status : ℕ} {give : Body → Result} (version : ℕ)
      → version_40 ≤ version
      → Carries op status give
      → Takes
          (parse_body op status version)
          (entry_bytes life idle other stamp bytes)
          (parsed (the_entry life idle stamp bytes))
  unfolding parse_body parse_found parse_put parse_conditional
  Takes-parse_body version h Carries.got = Takes-parse_entry
  Takes-parse_body version h Carries.put_over =
      let recent : leb version_40 version ≡ true = ground arith in rw recent Takes-parse_entry
  Takes-parse_body version h Carries.put_if_absent_over = Takes-parse_entry
  Takes-parse_body version h Carries.put_if_absent_kept = Takes-parse_entry
  Takes-parse_body version h Carries.replaced = Takes-parse_entry
  Takes-parse_body version h Carries.replace_kept = Takes-parse_entry
  Takes-parse_body version h Carries.removed = Takes-parse_entry
  Takes-parse_body version h Carries.remove_kept = Takes-parse_entry
  Takes-parse_body version h Carries.removed_version = Takes-parse_entry
  Takes-parse_body version h Carries.remove_version_kept = Takes-parse_entry
  Takes-parse_body version h Carries.replaced_version = Takes-parse_entry
  Takes-parse_body version h Carries.replace_version_kept = Takes-parse_entry

  delivered :
      {op : Operation} {status : ℕ} {give : Body → Result}
      → Carries op status give
      → deliver op status (parsed (the_entry life idle stamp bytes))
        ≡ give (the_entry life idle stamp bytes)
  unfolding deliver
  delivered Carries.got = refl
  delivered Carries.put_over = refl
  delivered Carries.put_if_absent_over = refl
  delivered Carries.put_if_absent_kept = refl
  delivered Carries.replaced = refl
  delivered Carries.replace_kept = refl
  delivered Carries.removed = refl
  delivered Carries.remove_kept = refl
  delivered Carries.removed_version = refl
  delivered Carries.remove_version_kept = refl
  delivered Carries.replaced_version = refl
  delivered Carries.replace_version_kept = refl

  -- From protocol 4.0 on, a response that carries an entry is read off the stream exactly, wherever it
  -- stands. The entry is delivered by `getWithMetadata` at status 0x00, by `put` at 0x03, by
  -- `putIfAbsent` and `replace` at 0x03 and 0x04, and by `remove` at 0x03; at 0x04 `remove` delivers
  -- nothing; and the operations on a version deliver that they were done at 0x03, and that they were not
  -- at 0x04. The times and the version fit 64 bits, the durations and the length of the value 32.
  pub perform_entry :
      {op : Operation} {status : ℕ} {give : Body → Result} (version : ℕ) (front rest : List ℕ)
      → version_40 ≤ version
      → Carries op status give
      → perform op status version
          (front ++ ((entry_bytes life idle other stamp bytes) ++ rest))
          (length front)
        ≡ ok (
          give (the_entry life idle stamp bytes),
          length (front ++ (entry_bytes life idle other stamp bytes)),
        )
  unfolding perform
  perform_entry {op} {status} version front rest h carries =
      (Takes-map (deliver op status) (Takes-parse_body version h carries)).apply front rest
      ∙ ap (λ r. ok (r, length (front ++ (entry_bytes life idle other stamp bytes))))
          (delivered carries)

-- ===== src/Header/Response.antt =====
-- What src/codec/HeaderCodec.cpp promises of `readResponseHeader`.
use cpp17_client.Base.{ℕ, ◌+◌, ◌<◌, ◌≤◌, ◌^◌, ◌≡◌, ◌≢◌, arith, List, [], ◌∷◌, ◌++◌, length, false}
use cpp17_client.Base.{ok, err, runtime_error, ◌==◌, not, drop-append}
use cpp17_client.Base.Readers.{
  Takes, Takes-bind, Takes-then, Takes-return, Takes-next_byte, Takes-throw_if,
}
use cpp17_client.Base.Readers.{
  Gives, Gives-bind, Gives-then, Gives-return, Gives-next_byte, Gives-throw_if,
}
use cpp17_client.Codec.Septets.{septets}
use cpp17_client.Codec.Framing.{Takes-read_vlong, Gives-read_vlong}
use cpp17_client.Header.{ResponseHeader, response_magic, read_response_header}

-- The bytes that the protocol prescribes for a response header.
unfoldable pub response_bytes : ResponseHeader → List ℕ
response_bytes h =
    h.magic ∷ septets 9 h.message_id ++ (h.opcode ∷ h.status ∷ h.topology_change_marker ∷ [])

Takes-read_response_header :
    (h : ResponseHeader)
    → h.magic ≡ response_magic
    → h.message_id < 2 ^ 64
    → Takes read_response_header (response_bytes h) h
unfolding read_response_header response_bytes
Takes-read_response_header h m l = Takes-bind _ (Takes-next_byte _ h.magic) (
    Takes-then (Takes-throw_if _ _ (rw m)) (
      Takes-bind _ (Takes-read_vlong h.message_id l) (
        Takes-bind _ (Takes-next_byte _ h.opcode) (
          Takes-bind _ (Takes-next_byte _ h.status)
            (Takes-bind _ (Takes-next_byte _ h.topology_change_marker) (Takes-return h))))))

-- `readResponseHeader` reads back every header with the response magic from the bytes that the
-- protocol prescribes for it, wherever they stand, and stops behind them.
pub read_response_header_complete :
    (h : ResponseHeader) (front rest : List ℕ)
    → h.magic ≡ response_magic
    → h.message_id < 2 ^ 64
    → read_response_header (front ++ (response_bytes h ++ rest)) (length front)
      ≡ ok (h, length (front ++ response_bytes h))
read_response_header_complete h front rest m l = (Takes-read_response_header h m l).apply front rest

abbrev IsResponse : ResponseHeader → Type 0
IsResponse h = (h.magic ≡ response_magic) × (h.message_id < 2 ^ 64)

accepted_magic : (b : ℕ) → not (b == response_magic) ≡ false → b ≡ response_magic
accepted_magic b h = ground arith

Gives-read_response_header : Gives read_response_header 5 14 IsResponse
unfolding read_response_header
Gives-read_response_header = Gives-bind _ (Gives-next_byte _) λ magic _.
    Gives-then (Gives-throw_if (not (magic == response_magic)) _) λ good.
      Gives-bind _ (Gives-read_vlong) λ id small. Gives-bind _ (Gives-next_byte _) λ opcode _.
        Gives-bind _ (Gives-next_byte _) λ status _.
          Gives-bind _ (Gives-next_byte _)
            λ marker _. Gives-return _ _ (accepted_magic magic good, small)

-- Whatever the buffer holds, a header that `readResponseHeader` returns has the response magic and a
-- 64-bit message id, and the new offset lies 5 to 14 bytes on and within the buffer.
pub read_response_header_bounds :
    (buffer : List ℕ) (offset : ℕ) (h : ResponseHeader) (offset' : ℕ)
    → offset ≤ length buffer
    → read_response_header buffer offset ≡ ok (h, offset')
    → ((h.magic ≡ response_magic) × (h.message_id < 2 ^ 64))
      × (offset + 5 ≤ offset')
      × (offset' ≤ offset + 14)
      × (offset' ≤ length buffer)
read_response_header_bounds = Gives-read_response_header.apply

-- A frame that does not begin with the response magic is refused, whatever follows.
pub read_response_header_bad_magic :
    (front rest : List ℕ) (b : ℕ)
    → b ≢ response_magic
    → read_response_header (front ++ (b ∷ rest)) (length front)
      ≡ err (runtime_error "readResponseHeader: invalid magic byte")
unfolding read_response_header
read_response_header_bad_magic front rest b h = rw drop-append (ground arith)

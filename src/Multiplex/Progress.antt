-- ===== src/Multiplex/Progress.antt =====
-- The read loop of src/transport/MultiplexedConnection.cpp takes the bytes of the stream in order.
use cpp17_client.Base.{
  ℕ, ◌≡◌, refl, subst, ap, arith, List, [], ◌∷◌, length, All, not, ◌&&◌, ◌==◌, Option, none, some,
  Outcome, ok, err, undefined, Bool-cases, ◌⊎◌, inl, inr,
}
use cpp17_client.Base.Progress.{
  Advances, Advances-return, Advances-bind, Advances-if, Advances-next_byte, Advances-byte,
  Advances-then,
}
use cpp17_client.Header.{ClientIntelligence, response_magic}
use cpp17_client.Stream.{closed}
use cpp17_client.Stream.Progress.{Advances-receive_vlong, Advances-receive_byte_array}
use cpp17_client.Topology.{new_topology}
use cpp17_client.Announcement.Progress.{Advances-parse_topology_info}
use cpp17_client.Operations.{Parsed, parsed, failed}
use cpp17_client.Multiplex.{Multiplexer, PendingRequest, Response, find_pending, erase_pending}
use cpp17_client.Multiplex.Reading.{
  Frame, error_response, is_aware, receive_topology, receive_error, receive_start, receive_message,
  receive_frame, parsed_response, respond, answer, settle, read_round,
}

-- A body parser that takes bytes off the stream in order.
abbrev pub IsForward : PendingRequest → Type 0
IsForward p = (status version flags : ℕ) → Advances (p.body_parser status version flags) 0

abbrev pub IsForwardAll : List (ℕ × PendingRequest) → Type 0
IsForwardAll pending = All (λ entry. IsForward entry.1) pending

Advances-receive_start : (i : ClientIntelligence) → Advances (receive_start i) 1
unfolding receive_start receive_topology
Advances-receive_start i = Advances-bind _ (Advances-next_byte closed) λ magic.
    Advances-then (not (magic == response_magic)) _ (
      Advances-bind _ Advances-receive_vlong λ id. Advances-bind _ (Advances-byte closed) λ opcode.
        Advances-bind _ (Advances-byte closed) λ status.
          Advances-bind _ (Advances-byte closed) λ marker.
            Advances-bind _
              (Advances-if (not (marker == 0) && is_aware i)
                (Advances-bind _ (Advances-parse_topology_info new_topology i)
                  λ t. Advances-return _)
                (Advances-return _))
              λ topology. Advances-return _)

Advances-receive_frame : (i : ClientIntelligence) → Advances (receive_frame i) 1
unfolding receive_frame receive_message receive_error
Advances-receive_frame i = Advances-bind _ (Advances-receive_start i) λ f.
    Advances-bind _
      (Advances-if (f.opcode == error_response)
        (Advances-bind _ Advances-receive_byte_array λ message. Advances-return _)
        (Advances-return _))
      λ message. Advances-return _

parsed_response_moves :
    (m : Multiplexer) (f : Frame) (size : ℕ) (o : Outcome (Parsed × ℕ)) (x : Response) (offset : ℕ)
    → parsed_response m f size o ≡ ok (x, offset)
    → (offset ≡ size) ⊎ ((b : Parsed) × (o ≡ ok (b, offset)))
unfolding parsed_response
parsed_response_moves m f size (ok (parsed b, n)) x offset h =
    let same : n ≡ offset = cc in inr (parsed b, ap (λ k. ok (parsed b, k)) same)
parsed_response_moves m f size (ok (failed c, n)) x offset h =
    let same : n ≡ offset = cc in inr (failed c, ap (λ k. ok (failed c, k)) same)
parsed_response_moves m f size (err e) x offset h = inl (cc)
parsed_response_moves m f size undefined x offset h = cc

Advances-respond :
    (m : Multiplexer) (f : Frame) (p : PendingRequest) → IsForward p → Advances (respond m f p) 0
unfolding respond
Advances-respond m f p h = record {
  apply = λ buffer offset x offset' l e.
      elim (parsed_response_moves m f (length buffer)
        (p.body_parser f.status m.protocol_version p.flags buffer offset) x offset' e) [
          | inl end ↦ (omega (arith, end), omega (arith, end))
          | inr (b, r) ↦ (h f.status m.protocol_version p.flags).apply buffer offset b offset' l r
        ];
}

Advances-answer :
    (m : Multiplexer) (f : Frame) (message : Option (List ℕ)) (p : PendingRequest)
    → IsForward p
    → Advances (answer m f message p) 0
unfolding answer
Advances-answer m f (some message) p h = Advances-return _
Advances-answer m f none p h =
    Advances-if (not (f.opcode == p.expected_opcode)) (Advances-return _) (Advances-respond m f p h)

IsForward-find :
    (pending : List (ℕ × PendingRequest)) (id : ℕ) (p : PendingRequest)
    → IsForwardAll pending
    → find_pending pending id ≡ some p
    → IsForward p
unfolding find_pending
IsForward-find [] id p h e = cc
IsForward-find ((k, q) ∷ pending) id p (h, hs) e = elim (Bool-cases (k == id)) [
  | inl c ↦ let same : q ≡ p = ground arith in subst IsForward same h
  | inr c ↦ IsForward-find pending id p hs (ground arith)
]

pub IsForwardAll-erase :
    (pending : List (ℕ × PendingRequest)) (id : ℕ)
    → IsForwardAll pending
    → IsForwardAll (erase_pending pending id)
unfolding erase_pending
IsForwardAll-erase [] id h = h
IsForwardAll-erase ((k, q) ∷ pending) id (h, hs) = elim (Bool-cases (k == id)) [
  | inl c ↦ rw c (IsForwardAll-erase pending id hs)
  | inr c ↦ rw c (h, IsForwardAll-erase pending id hs)
]

Advances-settle :
    (m : Multiplexer) (f : Frame) (o : Option PendingRequest)
    → ((p : PendingRequest) → o ≡ some p → IsForward p)
    → Advances (settle m f o) 0
unfolding settle
Advances-settle m f none h = Advances-return _
Advances-settle m f (some p) h =
    Advances-bind _ (Advances-answer m f f.error_message p (h p refl)) λ r. Advances-return _

pub Advances-read_round : (m : Multiplexer) → IsForwardAll m.pending → Advances (read_round m) 1
unfolding read_round
Advances-read_round m h = Advances-bind _ (Advances-receive_frame m.client_intelligence) λ f.
    Advances-settle m f (find_pending m.pending f.message_id)
      (λ p e. IsForward-find m.pending f.message_id p h e)

-- ===== src/Multiplex/Frames.antt =====
-- Responses on the wire, as the protocol prescribes them, against the first part of a round of
-- `MultiplexedConnection::readLoop`.
use cpp17_client.Base.{
  ℕ, ◌^◌, ◌<◌, ◌≡◌, refl, subst, List, [], ◌∷◌, ◌++◌, length, append_assoc, false, ◌==◌, Option,
  none, some, All,
}
use cpp17_client.Base.Readers.{
  Takes, Takes-bind, Takes-then, Takes-return, Takes-map, Takes-next_byte, Takes-throw_if,
}
use cpp17_client.Codec.Septets.{septets}
use cpp17_client.Codec.Framing.{counted}
use cpp17_client.Failure.{ServerAddress}
use cpp17_client.Selection.Nodes.{IsDistinct}
use cpp17_client.Header.{ClientIntelligence, response_magic}
use cpp17_client.Stream.{closed}
use cpp17_client.Stream.Receiving.{Takes-receive_vlong, Takes-receive_byte_array}
use cpp17_client.Topology.{TopologyInfo, new_topology}
use cpp17_client.Announcement.Complete.{
  IsSendableServer, topology_bytes, announced, Takes-parse_topology_info,
}
use cpp17_client.Multiplex.Reading.{
  Frame, error_response, receive_topology, receive_error, receive_start, receive_message,
  receive_frame,
}

-- A topology as the server announces it.
pub record Update : Type 0 where
  pub topology_id : ℕ
  pub addresses : List ServerAddress
  pub version : ℕ
  pub segments : List (List ℕ)

-- A topology with its segments is for a client that is aware of the hash distribution.
abbrev pub IsSendableUpdate : ClientIntelligence → Option Update → Type 0
IsSendableUpdate i none = Unit {0}
IsSendableUpdate i (some u) =
    (i ≡ ClientIntelligence.hash_distribution_aware)
    × (u.topology_id < 2 ^ 32)
    × (length u.addresses < 2 ^ 32)
    × (length u.segments < 2 ^ 32)
    × All IsSendableServer u.addresses
    × IsDistinct u.addresses

-- Either an error with its text, or a response with its opcode.
pub data Content : Type 0 where
  error_text : List ℕ → Content
  response : ℕ → Content

abbrev pub IsSendableContent : Content → Type 0
IsSendableContent (error_text message) = length message < 2 ^ 32
IsSendableContent (response opcode) = (opcode == error_response) ≡ false

pub record Reply : Type 0 where
  pub message_id : ℕ
  pub status : ℕ
  pub update : Option Update
  pub content : Content

abbrev pub IsSendableReply : ClientIntelligence → Reply → Type 0
IsSendableReply i r =
    (r.message_id < 2 ^ 64) × IsSendableUpdate i r.update × IsSendableContent r.content

abbrev pub opcode_of : Content → ℕ
opcode_of (error_text message) = error_response
opcode_of (response opcode) = opcode

abbrev pub error_of : Content → Option (List ℕ)
error_of (error_text message) = some message
error_of (response opcode) = none

abbrev pub topology_of : Option Update → Option TopologyInfo
topology_of none = none
topology_of (some u) = some (announced u.topology_id u.addresses u.version u.segments)

abbrev pub marker_of : Option Update → ℕ
marker_of none = 0
marker_of (some u) = 1

unfoldable pub update_bytes : Option Update → List ℕ
update_bytes none = []
update_bytes (some u) = topology_bytes u.topology_id u.addresses u.version u.segments

unfoldable pub error_bytes : Content → List ℕ
error_bytes (error_text message) = counted message
error_bytes (response opcode) = []

-- Everything in front of the body.
unfoldable pub reply_bytes : Reply → List ℕ
unfolding update_bytes error_bytes
reply_bytes r =
    response_magic ∷ septets 9 r.message_id
    ++ (opcode_of r.content
        ∷ r.status
        ∷ marker_of r.update
        ∷ (update_bytes r.update ++ error_bytes r.content))

abbrev pub frame_of : Reply → Frame
frame_of r = record {
  message_id = r.message_id;
  opcode = opcode_of r.content;
  status = r.status;
  topology = topology_of r.update;
  error_message = error_of r.content;
}

Takes-receive_topology :
    (i : ClientIntelligence) (u : Option Update)
    → IsSendableUpdate i u
    → Takes (receive_topology i (marker_of u)) (update_bytes u) (topology_of u)
unfolding receive_topology update_bytes
Takes-receive_topology i none h = Takes-return none
Takes-receive_topology i (some u) (aware, a, b, c, d, e) = rw aware (
    Takes-map (λ t. some t)
      (Takes-parse_topology_info new_topology u.topology_id u.addresses u.version u.segments a b c d
        e))

Takes-receive_error :
    (c : Content)
    → IsSendableContent c
    → Takes (receive_error (opcode_of c)) (error_bytes c) (error_of c)
unfolding receive_error error_bytes
Takes-receive_error (error_text message) h =
    Takes-map (λ t. some t) (Takes-receive_byte_array message h)
Takes-receive_error (response opcode) h = rw h (Takes-return none)

abbrev start_of : Reply → Frame
start_of r = record {
  message_id = r.message_id;
  opcode = opcode_of r.content;
  status = r.status;
  topology = topology_of r.update;
  error_message = none;
}

start_bytes : Reply → List ℕ
start_bytes r =
    response_magic ∷ septets 9 r.message_id
    ++ (opcode_of r.content ∷ r.status ∷ marker_of r.update ∷ update_bytes r.update)

Takes-receive_start :
    (i : ClientIntelligence) (r : Reply)
    → IsSendableReply i r
    → Takes (receive_start i) (start_bytes r) (start_of r)
unfolding receive_start start_bytes
Takes-receive_start i r (h, k, l) = Takes-bind _ (Takes-next_byte closed response_magic) (
    Takes-then (Takes-throw_if _ _ refl) (
      Takes-bind _ (Takes-receive_vlong r.message_id h) (
        Takes-bind _ (Takes-next_byte closed (opcode_of r.content)) (
          Takes-bind _ (Takes-next_byte closed r.status) (
            Takes-bind _ (Takes-next_byte closed (marker_of r.update))
              (Takes-map _ (Takes-receive_topology i r.update k)))))))

start_reply : (r : Reply) → start_bytes r ++ error_bytes r.content ≡ reply_bytes r
unfolding start_bytes reply_bytes
start_reply r = simp append_assoc

pub Takes-receive_frame :
    (i : ClientIntelligence) (r : Reply)
    → IsSendableReply i r
    → Takes (receive_frame i) (reply_bytes r) (frame_of r)
unfolding receive_frame receive_message
Takes-receive_frame i r h =
    subst (λ bytes. Takes (receive_frame i) bytes (frame_of r)) (start_reply r)
      (Takes-bind _ (Takes-receive_start i r h) (Takes-map _ (Takes-receive_error r.content h.2)))

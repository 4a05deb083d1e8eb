-- ===== src/Multiplex/Misfits.antt =====
-- A response with the wrong opcode in `MultiplexedConnection::readLoop`.
use cpp17_client.Base.{
  ℕ, suc, ◌≡◌, ◌∙◌, List, [], ◌∷◌, ◌++◌, length, append-nil, drop-append, subst, refl, false, ◌==◌,
  Option, none, some, ok, err, runtime_error, Error,
}
use cpp17_client.Base.Readers.{◌>>=◌, ◌>>◌, throw_if, next_byte, byte_of}
use cpp17_client.Failure.{FailurePhase, typed}
use cpp17_client.Header.{ClientIntelligence, response_magic}
use cpp17_client.Multiplex.{
  Multiplexer, PendingRequest, Response, exception, error_result, find_pending, read_failed,
}
use cpp17_client.Multiplex.Reading.{receive_start, receive_frame, read_round, read_loop}
use cpp17_client.Multiplex.Frames.{Reply, Update, IsSendableReply, reply_bytes, response}
use cpp17_client.Multiplex.Rounds.{Served, served, reply_with, Takes-read_round}
use cpp17_client.Multiplex.Loop.{IsReading, loop_round, loop_failure, served-IsReading}

abbrev pub bad_magic : Error
bad_magic = runtime_error "Invalid magic byte in response: "

start_misfit :
    (i : ClientIntelligence) (front rest : List ℕ) (b : ℕ)
    → (b == response_magic) ≡ false
    → receive_start i (front ++ (b ∷ rest)) (length front) ≡ err bad_magic
unfolding receive_start ◌>>=◌ ◌>>◌ throw_if next_byte byte_of
start_misfit i front rest b h = rw (drop-append, h) refl

round_misfit :
    (m : Multiplexer) (front rest : List ℕ) (b : ℕ)
    → (b == response_magic) ≡ false
    → read_round m (front ++ (b ∷ rest)) (length front) ≡ err bad_magic
unfolding read_round receive_frame ◌>>=◌
round_misfit m front rest b h = rw (start_misfit m.client_intelligence front rest b h) refl

-- The response that a wrong opcode gives.
abbrev pub mismatch : Multiplexer → Response
mismatch m = error_result none (typed (exception m FailurePhase.server_error none)) none

-- A reply with an opcode that its request does not expect, with a topology only if the client is aware of the
-- hash distribution, and with a body whose first byte is not the magic byte: the read loop of a connection that
-- runs answers the request with an exception and then, with all of the body still on the stream, gives up the
-- connection and every other request that waits.
pub read_loop_misfit :
    (fuel : ℕ) (m : Multiplexer) (id status opcode : ℕ) (update : Option Update)
    (p : PendingRequest) (b : ℕ) (rest : List ℕ)
    → IsReading m
    → IsSendableReply m.client_intelligence (reply_with id status update (response opcode))
    → find_pending m.pending id ≡ some p
    → (opcode == p.expected_opcode) ≡ false
    → (b == response_magic) ≡ false
    → read_loop
        (suc (suc fuel))
        m
        (reply_bytes (reply_with id status update (response opcode)) ++ (b ∷ rest))
        0
      ≡ ok (
          some
            (read_failed (served m (reply_with id status update (response opcode)) p (mismatch m))))
read_loop_misfit fuel m id status opcode update p b rest h s found wrong odd =
    let r : Reply = reply_with id status update (response opcode) in
    let bytes : List ℕ = reply_bytes r in
    let after : Multiplexer = served m r p (mismatch m) in
    let taken : read_round m (bytes ++ (b ∷ rest)) 0 ≡ ok (after, length bytes) =
      subst (λ g. read_round m (g ++ (b ∷ rest)) 0 ≡ ok (after, length g)) (append-nil bytes)
        ((Takes-read_round s found (Served.mismatch_served wrong)).apply [] (b ∷ rest)) in
    loop_round (suc fuel) m h (bytes ++ (b ∷ rest)) 0 (length bytes) taken
    ∙ loop_failure fuel after (served-IsReading m r p (mismatch m) h) bad_magic
        (bytes ++ (b ∷ rest)) (length bytes) (round_misfit after bytes rest b odd)
        (start_misfit after.client_intelligence bytes rest b odd)

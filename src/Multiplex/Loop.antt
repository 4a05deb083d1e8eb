-- ===== src/Multiplex/Loop.antt =====
-- The read loop of src/transport/MultiplexedConnection.cpp against the replies that the peer sends.
use cpp17_client.Base.{
  ℕ, zero, suc, ◌+◌, ◌≤◌, ◌<◌, ◌≡◌, refl, sym, subst, ap, ◌∙◌, arith, List, [], ◌++◌, length,
  length-append, append_assoc, true, false, ok, err, Error, some, drop-append,
}
use cpp17_client.Base.Readers.{◌>>=◌, next_byte}
use cpp17_client.Header.{ClientIntelligence}
use cpp17_client.Stream.{closed}
use cpp17_client.Multiplex.{Multiplexer, PendingRequest, Response, find_pending, read_failed}
use cpp17_client.Multiplex.Reading.{
  receive_start, interrupted, receive_frame, read_round, read_loop, answered,
}
use cpp17_client.Multiplex.Frames.{Reply, IsSendableReply, reply_bytes}
use cpp17_client.Multiplex.Rounds.{Served, served, Takes-read_round}

-- The replies whose bytes the peer sends, each to a request that waits, and the state behind them.
pub data Serves : Multiplexer → List ℕ → Multiplexer → Type 0 where
  finished : {m : Multiplexer} → Serves m [] m
  replied :
      {m m' : Multiplexer} {r : Reply} {p : PendingRequest} {bytes rest all : List ℕ} {x : Response}
      → IsSendableReply m.client_intelligence r
      → find_pending m.pending r.message_id ≡ some p
      → Served m p r.status r.update r.content bytes x
      → all ≡ (reply_bytes r ++ bytes) ++ rest
      → Serves (served m r p x) rest m'
      → Serves m all m'

-- A loop that runs.
abbrev pub IsReading : Multiplexer → Type 0
IsReading m = (m.connected ≡ true) × (m.stop_read_loop ≡ false)

pub served-IsReading :
    (m : Multiplexer) (r : Reply) (p : PendingRequest) (x : Response)
    → IsReading m
    → IsReading (served m r p x)
unfolding answered
served-IsReading m r p x h = h

-- At the end of the stream a round fails.
read_round_end :
    (m : Multiplexer) (front : List ℕ) → read_round m (front ++ []) (length front) ≡ err closed
unfolding read_round receive_frame receive_start ◌>>=◌ next_byte
read_round_end m front = rw (drop-append) refl

receive_start_end :
    (i : ClientIntelligence) (front : List ℕ)
    → receive_start i (front ++ []) (length front) ≡ err closed
unfolding receive_start ◌>>=◌ next_byte
receive_start_end i front = rw (drop-append) refl

size_of_reply : (r : Reply) → 1 ≤ length (reply_bytes r)
unfolding reply_bytes
size_of_reply r = omega arith

module _ (fuel : ℕ) (m : Multiplexer) (h : IsReading m) where
  pub loop_round :
      {m' : Multiplexer} (buffer : List ℕ) (offset offset' : ℕ)
      → read_round m buffer offset ≡ ok (m', offset')
      → read_loop (suc fuel) m buffer offset ≡ read_loop fuel m' buffer offset'
  unfolding read_loop
  loop_round buffer offset offset' e = simp (h.0, h.1, e)

  pub loop_failure :
      (e : Error) (buffer : List ℕ) (offset : ℕ)
      → read_round m buffer offset ≡ err e
      → receive_start m.client_intelligence buffer offset ≡ err e
      → read_loop (suc fuel) m buffer offset ≡ ok (some (read_failed m))
  unfolding read_loop interrupted
  loop_failure x buffer offset e k = simp (h.0, h.1, e, k)

-- One reply takes the loop from in front of it to behind it.
loop_reply :
    (fuel : ℕ) {m : Multiplexer} {r : Reply} {p : PendingRequest} {bytes : List ℕ} {x : Response}
    (front rest : List ℕ)
    → IsReading m
    → IsSendableReply m.client_intelligence r
    → find_pending m.pending r.message_id ≡ some p
    → Served m p r.status r.update r.content bytes x
    → read_loop (suc fuel) m (front ++ ((reply_bytes r ++ bytes) ++ rest)) (length front)
      ≡ read_loop fuel
          (served m r p x)
          ((front ++ (reply_bytes r ++ bytes)) ++ rest)
          (length (front ++ (reply_bytes r ++ bytes)))
loop_reply fuel {m} {r} {p} {bytes} {x} front rest h s e v =
    let whole : front ++ ((reply_bytes r ++ bytes) ++ rest)
        ≡ (front ++ (reply_bytes r ++ bytes)) ++ rest =
      sym (append_assoc front (reply_bytes r ++ bytes) rest) in
    loop_round fuel m h (front ++ ((reply_bytes r ++ bytes) ++ rest)) (length front)
      (length (front ++ (reply_bytes r ++ bytes))) ((Takes-read_round s e v).apply front rest)
    ∙ ap (λ b. read_loop fuel (served m r p x) b (length (front ++ (reply_bytes r ++ bytes)))) whole

pub loop_serves :
    (fuel : ℕ) {m m' : Multiplexer} {all : List ℕ} (front : List ℕ)
    → Serves m all m'
    → IsReading m
    → length all < fuel
    → read_loop fuel m (front ++ all) (length front) ≡ ok (some (read_failed m'))
loop_serves zero front s h l = absurd (omega arith)
loop_serves (suc fuel) {m} front finished h l =
    loop_failure fuel m h closed (front ++ []) (length front) (read_round_end m front)
      (receive_start_end m.client_intelligence front)
loop_serves (suc fuel) {m} {m'} front (replied {r} {p} {bytes} {rest} {all} {x} s e v split onward)
      h l =
    subst (λ b. read_loop (suc fuel) m (front ++ b) (length front) ≡ ok (some (read_failed m')))
      (sym split)
      (loop_reply fuel front rest h s e v
        ∙ loop_serves fuel (front ++ (reply_bytes r ++ bytes)) onward (served-IsReading m r p x h) (
            omega (
              arith,
              ap length split,
              length-append (reply_bytes r ++ bytes) rest,
              length-append (reply_bytes r) bytes,
              size_of_reply r,
            )))

-- Where the bytes on the socket are those of replies to requests that wait, each as the protocol prescribes
-- it, with a topology only if the client is aware of the hash distribution, and with a body that its request's
-- parser takes, a read loop that runs answers each request with its own reply, in the order of the replies,
-- until the socket is closed; then it gives up the requests that are left.
pub read_loop-Serves :
    {m m' : Multiplexer} {all : List ℕ}
    → Serves m all m'
    → IsReading m
    → read_loop (length all + 1) m all 0 ≡ ok (some (read_failed m'))
read_loop-Serves {all} s h = loop_serves (length all + 1) [] s h (omega arith)

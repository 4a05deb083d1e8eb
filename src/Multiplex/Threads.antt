-- ===== src/Multiplex/Threads.antt =====
-- The threads around src/transport/MultiplexedConnection.cpp: callers of `execute`, the thread of the
-- read loop and the thread that calls `close`. A step is what one of them does between two accesses of
-- what they share: the atomics, and `pending_` under its mutex. A body parser runs in the read thread
-- and is one step, since no other thread takes bytes off the socket. After `close` the connection is
-- not opened again.
pub mod Places
pub mod Accounts
pub mod Safety
pub mod Stranded
use cpp17_client.Base.{ℕ, zero, suc, ◌+◌, ◌≡◌, ◌⊎◌, List, [], ◌∷◌, ◌++◌, Bool, true, false}
use cpp17_client.Base.{Option, none, some, Outcome, ok, err, Error}
use cpp17_client.Stream.{closed}
use cpp17_client.Failure.{plain}
use cpp17_client.Multiplex.{
  Multiplexer, PendingRequest, Response, error_result, find_pending, take_number, enlist, withdraw,
  with_flags, with_requests, disconnected, close_all_pending, close,
}
use cpp17_client.Multiplex.Reading.{
  Frame, receive_start, receive_frame, answer, orphaned, interrupted, notified,
}

-- Where a call of `execute` is: behind the test of `connected_`, behind `nextMessageId_++`, and behind
-- the store to `pending_`.
pub data Caller : Type 0 where
  entered : PendingRequest → Caller
  numbered : ℕ → PendingRequest → Caller
  enlisted : ℕ → Caller

-- Where the read loop is: in front of a response, behind its header, with the request it answers taken
-- out of `pending_`, in the handler of the `catch`, and behind the loop.
pub data ReadThread : Type 0 where
  reading : ReadThread
  received : Frame → ReadThread
  taken : Frame → PendingRequest → ReadThread
  failing : ReadThread
  ended : ReadThread

-- `withdrawn` lists the ids whose `execute` threw after a failed `send`.
pub record Threads : Type 0 where
  pub mux : Multiplexer
  pub callers : List Caller
  pub reader : ReadThread
  pub offset : ℕ
  pub withdrawn : List ℕ

abbrev pub at_reader : Threads → Multiplexer → ReadThread → ℕ → Threads
at_reader s mux reader offset = record {
  mux = mux;
  callers = s.callers;
  reader = reader;
  offset = offset;
  withdrawn = s.withdrawn;
}

abbrev pub at_callers : Threads → Multiplexer → List Caller → List ℕ → Threads
at_callers s mux callers withdrawn = record {
  mux = mux;
  callers = callers;
  reader = s.reader;
  offset = s.offset;
  withdrawn = withdrawn;
}

-- The request taken out of `pending_`, and the topology callback.
unfoldable pub take_request : Multiplexer → Frame → PendingRequest → Multiplexer
unfolding withdraw notified
take_request m f p =
    let rest = withdraw m f.message_id in
    record {
      node = rest.node;
      protocol_version = rest.protocol_version;
      client_intelligence = rest.client_intelligence;
      connected = rest.connected;
      stop_read_loop = rest.stop_read_loop;
      next_message_id = rest.next_message_id;
      topology_id = rest.topology_id;
      pending = rest.pending;
      answers = rest.answers;
      updates = notified rest.updates f.topology p.cache_name;
    }

-- `promise.set_value`.
unfoldable pub set_value : Multiplexer → ℕ → Response → Multiplexer
set_value m id r = with_requests m m.next_message_id m.pending (m.answers ++ ((id, r) ∷ []))

-- What a receive comes to when `close` has shut the socket down under it.
abbrev pub IsShut : Multiplexer → Type 0
IsShut m = m.stop_read_loop ≡ true

-- One step of one thread, over the bytes that the peer sends.
pub data Step (buffer : List ℕ) : Threads → Threads → Type 0 where
  enter :
      {s : Threads} (p : PendingRequest)
      → s.mux.connected ≡ true
      → Step buffer s (at_callers s s.mux (entered p ∷ s.callers) s.withdrawn)
  number :
      {s : Threads} (xs ys : List Caller) (p : PendingRequest)
      → s.callers ≡ xs ++ (entered p ∷ ys)
      → Step buffer s (
          at_callers s
            (take_number s.mux).1
            (xs ++ (numbered (take_number s.mux).0 p ∷ ys))
            s.withdrawn)
  store :
      {s : Threads} (xs ys : List Caller) (id : ℕ) (p : PendingRequest)
      → s.callers ≡ xs ++ (numbered id p ∷ ys)
      → Step buffer s (at_callers s (enlist s.mux id p) (xs ++ (enlisted id ∷ ys)) s.withdrawn)
  send :
      {s : Threads} (xs ys : List Caller) (id : ℕ)
      → s.callers ≡ xs ++ (enlisted id ∷ ys)
      → Step buffer s (at_callers s s.mux (xs ++ ys) s.withdrawn)
  send_fails :
      {s : Threads} (xs ys : List Caller) (id : ℕ)
      → s.callers ≡ xs ++ (enlisted id ∷ ys)
      → Step buffer s (at_callers s (withdraw s.mux id) (xs ++ ys) (id ∷ s.withdrawn))
  receive :
      {s : Threads} (f : Frame) (offset : ℕ)
      → s.reader ≡ reading
      → receive_frame s.mux.client_intelligence buffer s.offset ≡ ok (f, offset)
      → Step buffer s (at_reader s (orphaned s.mux f) (received f) offset)
  skip :
      {s : Threads} (f : Frame)
      → s.reader ≡ received f
      → find_pending s.mux.pending f.message_id ≡ none
      → Step buffer s (at_reader s s.mux reading s.offset)
  take :
      {s : Threads} (f : Frame) (p : PendingRequest)
      → s.reader ≡ received f
      → find_pending s.mux.pending f.message_id ≡ some p
      → Step buffer s (at_reader s (take_request s.mux f p) (taken f p) s.offset)
  deliver :
      {s : Threads} (f : Frame) (p : PendingRequest) (r : Response) (offset : ℕ)
      → s.reader ≡ taken f p
      → (answer s.mux f f.error_message p buffer s.offset ≡ ok (r, offset))
        ⊎ (IsShut s.mux × (r ≡ error_result none (plain closed) none))
      → Step buffer s (at_reader s (set_value s.mux f.message_id r) reading offset)
  fail :
      {s : Threads} (e : Error)
      → s.reader ≡ reading
      → (receive_frame s.mux.client_intelligence buffer s.offset ≡ err e) ⊎ IsShut s.mux
      → Step buffer s (
          at_reader s
            (disconnected
              (interrupted s.mux (receive_start s.mux.client_intelligence buffer s.offset)))
            failing
            s.offset)
  give_up :
      {s : Threads}
      → s.reader ≡ failing
      → Step buffer s (at_reader s (close_all_pending s.mux) ended s.offset)
  leave :
      {s : Threads}
      → s.reader ≡ reading
      → (s.mux.connected ≡ false) ⊎ IsShut s.mux
      → Step buffer s (at_reader s s.mux ended s.offset)
  stop :
      {s : Threads}
      → Step buffer s (at_reader s (with_flags s.mux s.mux.connected true) s.reader s.offset)
  join :
      {s : Threads}
      → s.reader ≡ ended
      → IsShut s.mux
      → Step buffer s (at_reader s (close s.mux) ended s.offset)

-- A connection behind `connect`.
abbrev pub IsFresh : Threads → Type 0
IsFresh s =
    (s.mux.next_message_id ≡ 0)
    × (s.mux.pending ≡ [])
    × (s.mux.answers ≡ [])
    × (s.callers ≡ [])
    × (s.reader ≡ reading)

-- The states that so many steps lead to.
pub data Reach (buffer : List ℕ) : ℕ → Threads → Type 0 where
  start : {s : Threads} → IsFresh s → Reach buffer 0 s
  later : {n : ℕ} {s t : Threads} → Reach buffer n s → Step buffer s t → Reach buffer (suc n) t

-- ===== src/Multiplex/Threads/Stranded.antt =====
-- A call of `MultiplexedConnection::execute` that tests `connected_` before the read loop fails, and
-- stores its request after `closeAllPending`: src/transport/MultiplexedConnection.cpp.
use cpp17_client.Base.{
  ℕ, ◌≤◌, ◌≡◌, refl, arith, ◌⊎◌, inl, inr, List, [], ◌∷◌, Bool-cases, true, false, ◌||◌, ◌==◌,
  Outcome, ok, err, undefined,
}
use cpp17_client.Multiplex.{
  Multiplexer, PendingRequest, insert_pending, take_number, enlist, withdraw, disconnected, close,
  close_all_pending,
}
use cpp17_client.Multiplex.Reading.{Frame, orphaned, interrupted, receive_start}
use cpp17_client.Multiplex.Threads.{
  ended, Threads, take_request, set_value, Step, enter, number, store, send, send_fails, receive,
  skip, take, deliver, fail, give_up, leave, stop, join,
}
use cpp17_client.Multiplex.Ends.{has_id, has_id-erase_pending}
use cpp17_client.Multiplex.Threads.Places.{tally_ids}

-- The read loop has ended, nobody has called `close`, and the request waits.
abbrev pub IsStranded : Threads → ℕ → Type 0
IsStranded s id =
    (s.reader ≡ ended) × (s.mux.stop_read_loop ≡ false) × (has_id s.mux.pending id ≡ true)

-- Any number of steps of the threads.
pub data Steps (buffer : List ℕ) : Threads → Threads → Type 0 where
  done : {s : Threads} → Steps buffer s s
  next : {s t u : Threads} → Step buffer s t → Steps buffer t u → Steps buffer s u

-- Nobody has answered: the request waits still, unless `close` has begun or the request's own `execute`
-- has thrown.
abbrev pub IsLeft : Threads → ℕ → Type 0
IsLeft s id = IsStranded s id ⊎ (s.mux.stop_read_loop ≡ true) ⊎ (1 ≤ tally_ids s.withdrawn id)

pub has_id-insert_pending :
    (pending : List (ℕ × PendingRequest)) (k : ℕ) (p : PendingRequest) (id : ℕ)
    → has_id (insert_pending pending k p) id ≡ (k == id || has_id pending id)
unfolding insert_pending
has_id-insert_pending [] k p id = refl
has_id-insert_pending ((j, q) ∷ pending) k p id =
    ground (arith, has_id-insert_pending pending k p id)

Step-IsStranded :
    {buffer : List ℕ} {s t : Threads} (id : ℕ) → Step buffer s t → IsStranded s id → IsLeft t id
unfolding take_number enlist withdraw tally_ids
Step-IsStranded id (enter p c) h = inl h
Step-IsStranded id (number xs ys p e) h = inl h
Step-IsStranded {s} id (store xs ys k p e) (r, o, h) =
    inl (r, o, grind (arith, has_id-insert_pending s.mux.pending k p id, h))
Step-IsStranded id (send xs ys k e) h = inl h
Step-IsStranded {s} id (send_fails xs ys k e) (r, o, h) = elim (Bool-cases (k == id)) [
  | inl c ↦ inr (inr (rw c (omega arith)))
  | inr c ↦ inl (r, o, ground (arith, has_id-erase_pending s.mux.pending k id, h, c))
]
Step-IsStranded id (receive f n e r) h = cc
Step-IsStranded id (skip f e r) h = cc
Step-IsStranded id (take f p e found) h = cc
Step-IsStranded id (deliver f p r n e o) h = cc
Step-IsStranded id (fail x e o) h = cc
Step-IsStranded id (give_up e) h = cc
Step-IsStranded id (leave e o) h = cc
Step-IsStranded id stop h = inr (inl refl)
Step-IsStranded id (join e o) h = cc

flag_kept : (m : Multiplexer) → m.stop_read_loop ≡ true → (disconnected m).stop_read_loop ≡ true
unfolding disconnected
flag_kept m h = simp h refl

disconnected-stopped :
    (m : Multiplexer) (o : Outcome (Frame × ℕ))
    → m.stop_read_loop ≡ true
    → (disconnected (interrupted m o)).stop_read_loop ≡ true
unfolding interrupted orphaned
disconnected-stopped m (ok (f, n)) h = flag_kept (orphaned m f) h
disconnected-stopped m (err e) h = flag_kept m h
disconnected-stopped m undefined h = flag_kept m h

-- Once set, `stopReadLoop_` stays set.
Step-stopped :
    {buffer : List ℕ} {s t : Threads}
    → Step buffer s t
    → s.mux.stop_read_loop ≡ true
    → t.mux.stop_read_loop ≡ true
unfolding take_number enlist withdraw take_request set_value orphaned close close_all_pending
Step-stopped (enter p c) h = h
Step-stopped (number xs ys p e) h = h
Step-stopped (store xs ys k p e) h = h
Step-stopped (send xs ys k e) h = h
Step-stopped (send_fails xs ys k e) h = h
Step-stopped (receive f n e r) h = h
Step-stopped (skip f e r) h = h
Step-stopped (take f p e found) h = h
Step-stopped (deliver f p r n e o) h = h
Step-stopped {buffer} {s} (fail x e o) h =
    disconnected-stopped s.mux (receive_start s.mux.client_intelligence buffer s.offset) h
Step-stopped (give_up e) h = h
Step-stopped (leave e o) h = h
Step-stopped stop h = refl
Step-stopped (join e o) h = refl

Step-withdrawn :
    {buffer : List ℕ} {s t : Threads} (id : ℕ)
    → Step buffer s t
    → tally_ids s.withdrawn id ≤ tally_ids t.withdrawn id
unfolding tally_ids
Step-withdrawn id (enter p c) = omega arith
Step-withdrawn id (number xs ys p e) = omega arith
Step-withdrawn id (store xs ys k p e) = omega arith
Step-withdrawn id (send xs ys k e) = omega arith
Step-withdrawn id (send_fails xs ys k e) = omega arith
Step-withdrawn id (receive f n e r) = omega arith
Step-withdrawn id (skip f e r) = omega arith
Step-withdrawn id (take f p e found) = omega arith
Step-withdrawn id (deliver f p r n e o) = omega arith
Step-withdrawn id (fail x e o) = omega arith
Step-withdrawn id (give_up e) = omega arith
Step-withdrawn id (leave e o) = omega arith
Step-withdrawn id stop = omega arith
Step-withdrawn id (join e o) = omega arith

Step-IsLeft :
    {buffer : List ℕ} {s t : Threads} (id : ℕ) → Step buffer s t → IsLeft s id → IsLeft t id
Step-IsLeft id step (inl h) = Step-IsStranded id step h
Step-IsLeft id step (inr (inl h)) = inr (inl (Step-stopped step h))
Step-IsLeft id step (inr (inr h)) = inr (inr (omega (arith, h, Step-withdrawn id step)))

Steps-IsLeft :
    {buffer : List ℕ} {s t : Threads} (id : ℕ) → Steps buffer s t → IsLeft s id → IsLeft t id
Steps-IsLeft id done h = h
Steps-IsLeft id (next step steps) h = Steps-IsLeft id steps (Step-IsLeft id step h)

-- A request that waits in `pending_` after the read loop has ended, and before `close` is called, is
-- left: whatever the threads do from then on, it waits, unless its own `execute` has thrown or `close`
-- has been called.
pub Steps-IsStranded :
    {buffer : List ℕ} {s t : Threads} (id : ℕ) → Steps buffer s t → IsStranded s id → IsLeft t id
Steps-IsStranded id steps h = Steps-IsLeft id steps (inl h)

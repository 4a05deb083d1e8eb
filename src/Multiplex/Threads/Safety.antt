-- ===== src/Multiplex/Threads/Safety.antt =====
-- The promises of src/transport/MultiplexedConnection.cpp in every state that its threads reach.
use cpp17_client.Base.{
  ℕ, ◌+◌, ◌^◌, ◌≤◌, ◌<◌, ◌≡◌, refl, sym, ap, arith, ◌⊎◌, inl, inr, List, [], Bool-cases, true,
  false, Outcome, ok, err, undefined,
}
use cpp17_client.Multiplex.{
  Multiplexer, take_number, enlist, withdraw, with_flags, disconnected, close_all_pending, close,
}
use cpp17_client.Multiplex.Reading.{Frame, orphaned, interrupted, receive_start}
use cpp17_client.Multiplex.Threads.{
  reading, received, failing, ended, Threads, take_request, set_value, Step, enter, number, store,
  send, send_fails, receive, skip, take, deliver, fail, give_up, leave, stop, join, IsFresh, Reach,
  start, later,
}
use cpp17_client.Multiplex.Threads.Places.{
  tally, tally_callers, tally_reader, tally_ids, places, IsAccounted,
}
use cpp17_client.Multiplex.Threads.Accounts.{
  IsAccounted-enter, IsAccounted-number, IsAccounted-store, IsAccounted-send,
  IsAccounted-send_fails, IsAccounted-aside, IsAccounted-take, IsAccounted-deliver,
  IsAccounted-close_all_pending,
}

-- The parts of the state that hold promises.
abbrev Agree : Multiplexer → Multiplexer → Type 0
Agree m m' =
    (m.next_message_id ≡ m'.next_message_id) × (m.pending ≡ m'.pending) × (m.answers ≡ m'.answers)

Agree-interrupted : (m : Multiplexer) (o : Outcome (Frame × ℕ)) → Agree (interrupted m o) m
unfolding interrupted orphaned
Agree-interrupted m (ok (f, n)) = (refl, refl, refl)
Agree-interrupted m (err e) = (refl, refl, refl)
Agree-interrupted m undefined = (refl, refl, refl)

Agree-disconnected : (m m' : Multiplexer) → Agree m m' → Agree (disconnected m) m'
unfolding disconnected
Agree-disconnected m m' h = elim (Bool-cases m.stop_read_loop) [ inl c ↦ rw c h | inr c ↦ rw c h ]

Step-IsAccounted :
    {buffer : List ℕ} {s t : Threads}
    → s.mux.next_message_id + 1 < 2 ^ 64
    → Step buffer s t
    → IsAccounted s
    → IsAccounted t
unfolding tally_reader orphaned close
Step-IsAccounted {s} small (enter p c) h = IsAccounted-enter s p h
Step-IsAccounted {s} small (number xs ys p e) h = IsAccounted-number s xs ys p small e h
Step-IsAccounted {s} small (store xs ys id p e) h = IsAccounted-store s xs ys id p e h
Step-IsAccounted {s} small (send xs ys id e) h = IsAccounted-send s xs ys id e h
Step-IsAccounted {s} small (send_fails xs ys id e) h = IsAccounted-send_fails s xs ys id e h
Step-IsAccounted {s} small (receive f n e r) h =
    IsAccounted-aside s (orphaned s.mux f) (received f) n refl refl refl
      (λ id. sym (ap (λ t. tally_reader t id) e)) h
Step-IsAccounted {s} small (skip f e r) h =
    IsAccounted-aside s s.mux reading s.offset refl refl refl
      (λ id. sym (ap (λ t. tally_reader t id) e)) h
Step-IsAccounted {s} small (take f p e found) h = IsAccounted-take s f p s.offset e found h
Step-IsAccounted {s} small (deliver f p r n e o) h = IsAccounted-deliver s f p r n e h
Step-IsAccounted {buffer} {s} small (fail x e o) h =
    let begun = receive_start s.mux.client_intelligence buffer s.offset in
    let same = Agree-disconnected (interrupted s.mux begun) s.mux (Agree-interrupted s.mux begun) in
    IsAccounted-aside s (disconnected (interrupted s.mux begun)) failing s.offset same.0 same.1
      same.2 (λ id. sym (ap (λ t. tally_reader t id) e)) h
Step-IsAccounted {s} small (give_up e) h =
    IsAccounted-close_all_pending s s.mux ended s.offset refl refl refl
      (λ id. sym (ap (λ t. tally_reader t id) e)) h
Step-IsAccounted {s} small (leave e o) h =
    IsAccounted-aside s s.mux ended s.offset refl refl refl
      (λ id. sym (ap (λ t. tally_reader t id) e)) h
Step-IsAccounted {s} small stop h =
    IsAccounted-aside s (with_flags s.mux s.mux.connected true) s.reader s.offset refl refl refl
      (λ id. refl) h
Step-IsAccounted {s} small (join e o) h =
    IsAccounted-close_all_pending s (with_flags s.mux false true) ended s.offset refl refl refl
      (λ id. sym (ap (λ t. tally_reader t id) e)) h

-- A step gives out one id at most.
Step-next :
    {buffer : List ℕ} {s t : Threads}
    → Step buffer s t
    → t.mux.next_message_id ≤ s.mux.next_message_id + 1
unfolding take_number enlist withdraw take_request set_value orphaned close close_all_pending
Step-next (enter p c) = omega arith
Step-next (number xs ys p e) = omega arith
Step-next (store xs ys id p e) = omega arith
Step-next (send xs ys id e) = omega arith
Step-next (send_fails xs ys id e) = omega arith
Step-next (receive f n e r) = omega arith
Step-next (skip f e r) = omega arith
Step-next (take f p e found) = omega arith
Step-next (deliver f p r n e o) = omega arith
Step-next {buffer} {s} (fail x e o) =
    let begun = receive_start s.mux.client_intelligence buffer s.offset in
    let same = Agree-disconnected (interrupted s.mux begun) s.mux (Agree-interrupted s.mux begun) in
    omega (arith, same.0)
Step-next (give_up e) = omega arith
Step-next (leave e o) = omega arith
Step-next stop = omega arith
Step-next (join e o) = omega arith

Reach-next : {buffer : List ℕ} {n : ℕ} {s : Threads} → Reach buffer n s → s.mux.next_message_id ≤ n
Reach-next (start h) = omega (arith, h.0)
Reach-next (later r step) = omega (arith, Reach-next r, Step-next step)

IsAccounted-fresh : (s : Threads) → IsFresh s → IsAccounted s
unfolding places tally tally_callers tally_reader tally_ids
IsAccounted-fresh s (n, p, a, c, r) =
    let empty : (id : ℕ) → places s id ≡ 0 = λ id. simp (p, a, c, r) (omega arith) in
    record {
      once = λ id. omega (arith, empty id);
      fresh = λ id k. empty id;
      kept = λ id k. absurd (omega (arith, n));
    }

-- However the callers, the read loop and `close` interleave, in fewer than 2^64 steps: no message id
-- is given out twice, every id that was given out has exactly one promise, which its caller holds, or
-- waits in `pending_`, or is with the read loop, or was set once, unless its `execute` has thrown.
pub Reach-IsAccounted :
    {buffer : List ℕ} {n : ℕ} {s : Threads} → n < 2 ^ 64 → Reach buffer n s → IsAccounted s
Reach-IsAccounted {s} l (start h) = IsAccounted-fresh s h
Reach-IsAccounted l (later r step) =
    Step-IsAccounted (omega (arith, Reach-next r)) step (Reach-IsAccounted (omega arith) r)

-- When no call of `execute` is under way and the read loop has ended, after fewer than 2^64 steps,
-- `close` leaves nobody waiting: each message id that was given out has exactly one answer, unless its
-- `execute` has thrown.
pub close-IsAccounted :
    {buffer : List ℕ} {n : ℕ} {s : Threads} (id : ℕ)
    → n < 2 ^ 64
    → Reach buffer n s
    → s.callers ≡ []
    → s.reader ≡ ended
    → id < s.mux.next_message_id
    → ((close s.mux).pending ≡ [])
      × ((tally (close s.mux).answers id ≡ 1) ⊎ (1 ≤ tally_ids s.withdrawn id))
unfolding places tally tally_callers tally_reader close close_all_pending
close-IsAccounted {s} id l r c e k =
    let h =
      IsAccounted-close_all_pending s (with_flags s.mux false true) ended s.offset refl refl refl
        (λ i. sym (ap (λ t. tally_reader t i) e)) (Reach-IsAccounted l r) in
    (refl, grind (arith, h.once id, h.kept id k, ap (λ l. tally_callers l id) c))

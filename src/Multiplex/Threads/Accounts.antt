-- ===== src/Multiplex/Threads/Accounts.antt =====
-- The message ids of src/transport/MultiplexedConnection.cpp under any interleaving of its threads.
use cpp17_client.Base.{
  ℕ, ◌+◌, ◌^◌, ◌<◌, ◌≡◌, refl, ap, arith, List, [], ◌∷◌, ◌++◌, ◌==◌, if◌then◌else◌, some,
}
use cpp17_client.Multiplex.{
  Multiplexer, PendingRequest, Response, find_pending, take_number, enlist, withdraw,
  connection_lost, close_all_pending,
}
use cpp17_client.Multiplex.Reading.{Frame}
use cpp17_client.Multiplex.Threads.{
  Caller, entered, numbered, enlisted, ReadThread, reading, received, taken, Threads, at_reader,
  at_callers, take_request, set_value,
}
use cpp17_client.Multiplex.Threads.Places.{
  tally, tally_callers, tally_reader, tally_ids, places, IsAccounted, IsAccounted-still,
  tally_callers-at, tally-append, tally_callers-append, tally-erase_pending, tally-insert_pending,
  tally-connection_lost, tally-find_pending,
}

pub IsAccounted-enter :
    (s : Threads) (p : PendingRequest)
    → IsAccounted s
    → IsAccounted (at_callers s s.mux (entered p ∷ s.callers) s.withdrawn)
unfolding places tally_callers
IsAccounted-enter s p h = IsAccounted-still s _ refl (λ id. (omega arith, omega arith)) h

pub IsAccounted-number :
    (s : Threads) (xs ys : List Caller) (p : PendingRequest)
    → s.mux.next_message_id + 1 < 2 ^ 64
    → s.callers ≡ xs ++ (entered p ∷ ys)
    → IsAccounted s
    → IsAccounted (
        at_callers s
          (take_number s.mux).1
          (xs ++ (numbered (take_number s.mux).0 p ∷ ys))
          s.withdrawn)
unfolding places tally_callers take_number
IsAccounted-number s xs ys p small e h =
    let id_of : ℕ = s.mux.next_message_id in
    let now : (id : ℕ)
        → tally_callers (xs ++ (numbered id_of p ∷ ys)) id
          ≡ (if id_of == id then 1 else 0) + tally_callers s.callers id =
      λ id. omega (
        arith,
        tally_callers-at xs ys (entered p) id e,
        tally_callers-append xs (numbered id_of p ∷ ys) id,
      ) in
    record {
      once = λ id. ground (arith, now id, h.once id, h.fresh id);
      fresh = λ id k. ground (arith, now id, h.fresh id, small);
      kept = λ id k. ground (arith, now id, h.kept id, h.fresh id, small);
    }

pub IsAccounted-store :
    (s : Threads) (xs ys : List Caller) (k : ℕ) (p : PendingRequest)
    → s.callers ≡ xs ++ (numbered k p ∷ ys)
    → IsAccounted s
    → IsAccounted (at_callers s (enlist s.mux k p) (xs ++ (enlisted k ∷ ys)) s.withdrawn)
unfolding places tally_callers enlist
IsAccounted-store s xs ys k p e h =
    let none_yet : tally s.mux.pending k ≡ 0 =
      ground (arith, tally_callers-at xs ys (numbered k p) k e, h.once k) in
    IsAccounted-still s _ refl
      (λ id.
        let now = tally-insert_pending s.mux.pending k p id none_yet in
        let before = tally_callers-at xs ys (numbered k p) id e in
        let after = tally_callers-append xs (enlisted k ∷ ys) id in
        (omega (arith, now, before, after), omega (arith, now, before, after)))
      h

pub IsAccounted-send :
    (s : Threads) (xs ys : List Caller) (k : ℕ)
    → s.callers ≡ xs ++ (enlisted k ∷ ys)
    → IsAccounted s
    → IsAccounted (at_callers s s.mux (xs ++ ys) s.withdrawn)
unfolding places tally_callers
IsAccounted-send s xs ys k e h =
    IsAccounted-still s _ refl
      (λ id.
        let before = tally_callers-at xs ys (enlisted k) id e in
        let after = tally_callers-append xs ys id in
        (omega (arith, before, after), omega (arith, before, after)))
      h

pub IsAccounted-send_fails :
    (s : Threads) (xs ys : List Caller) (k : ℕ)
    → s.callers ≡ xs ++ (enlisted k ∷ ys)
    → IsAccounted s
    → IsAccounted (at_callers s (withdraw s.mux k) (xs ++ ys) (k ∷ s.withdrawn))
unfolding places tally_callers tally_ids withdraw
IsAccounted-send_fails s xs ys k e h =
    IsAccounted-still s _ refl
      (λ id.
        let before = tally_callers-at xs ys (enlisted k) id e in
        let after = tally_callers-append xs ys id in
        let erased = tally-erase_pending s.mux.pending k id in
        let once = h.once id in
        (ground (arith, before, after, erased), ground (arith, before, after, erased, once)))
      h

-- A step of the read thread that leaves the promises in their places.
pub IsAccounted-aside :
    (s : Threads) (m : Multiplexer) (r : ReadThread) (offset : ℕ)
    → m.next_message_id ≡ s.mux.next_message_id
    → m.pending ≡ s.mux.pending
    → m.answers ≡ s.mux.answers
    → ((id : ℕ) → tally_reader r id ≡ tally_reader s.reader id)
    → IsAccounted s
    → IsAccounted (at_reader s m r offset)
unfolding places
IsAccounted-aside s m r offset n p a reader h =
    IsAccounted-still s (at_reader s m r offset) n
      (λ id.
        let waits = ap (λ l. tally l id) p in
        let set = ap (λ l. tally l id) a in
        (omega (arith, waits, set, reader id), omega (arith, waits, set, reader id)))
      h

pub IsAccounted-take :
    (s : Threads) (f : Frame) (p : PendingRequest) (offset : ℕ)
    → s.reader ≡ received f
    → find_pending s.mux.pending f.message_id ≡ some p
    → IsAccounted s
    → IsAccounted (at_reader s (take_request s.mux f p) (taken f p) offset)
unfolding places tally_reader take_request withdraw
IsAccounted-take s f p offset e found h =
    IsAccounted-still s _ refl
      (λ id.
        let erased = tally-erase_pending s.mux.pending f.message_id id in
        let there = tally-find_pending s.mux.pending f.message_id p found in
        let before = ap (λ r. tally_reader r id) e in
        let once = h.once id in
        (ground (arith, erased, there, before, once), ground (arith, erased, there, before, once)))
      h

pub IsAccounted-deliver :
    (s : Threads) (f : Frame) (p : PendingRequest) (r : Response) (offset : ℕ)
    → s.reader ≡ taken f p
    → IsAccounted s
    → IsAccounted (at_reader s (set_value s.mux f.message_id r) reading offset)
unfolding places tally tally_reader set_value
IsAccounted-deliver s f p r offset e h =
    IsAccounted-still s _ refl
      (λ id.
        let before = ap (λ t. tally_reader t id) e in
        let after = tally-append s.mux.answers ((f.message_id, r) ∷ []) id in
        (omega (arith, before, after), omega (arith, before, after)))
      h

pub IsAccounted-close_all_pending :
    (s : Threads) (m : Multiplexer) (r : ReadThread) (offset : ℕ)
    → m.next_message_id ≡ s.mux.next_message_id
    → m.pending ≡ s.mux.pending
    → m.answers ≡ s.mux.answers
    → ((id : ℕ) → tally_reader r id ≡ tally_reader s.reader id)
    → IsAccounted s
    → IsAccounted (at_reader s (close_all_pending m) r offset)
unfolding places tally close_all_pending
IsAccounted-close_all_pending s m r offset n p a reader h =
    IsAccounted-still s (at_reader s (close_all_pending m) r offset) n
      (λ id.
        let waits = ap (λ l. tally l id) p in
        let set = ap (λ l. tally l id) a in
        let now = tally-append m.answers (connection_lost m m.pending) id in
        let lost = tally-connection_lost m m.pending id in
        (
          omega (arith, waits, set, reader id, now, lost),
          omega (arith, waits, set, reader id, now, lost),
        ))
      h

-- ===== src/Multiplex/Threads/Places.antt =====
-- Where the message ids that `nextMessageId_` has given out are: src/transport/MultiplexedConnection.cpp.
use cpp17_client.Base.{
  ℕ, ◌+◌, ◌≤◌, ◌<◌, ◌≡◌, refl, ap, arith, List, [], ◌∷◌, ◌++◌, ◌==◌, if◌then◌else◌, some,
}
use cpp17_client.Multiplex.{
  Multiplexer, PendingRequest, find_pending, insert_pending, erase_pending, connection_lost,
}
use cpp17_client.Multiplex.Threads.{
  Caller, entered, numbered, enlisted, ReadThread, reading, received, taken, failing, ended,
  Threads,
}

-- How many entries have the id.
unfoldable pub tally : {A : Type 0} → List (ℕ × A) → ℕ → ℕ
tally [] id = 0
tally ((k, a) ∷ entries) id = (if k == id then 1 else 0) + tally entries id

-- How many callers have the id and have not stored it yet.
unfoldable pub tally_callers : List Caller → ℕ → ℕ
tally_callers [] id = 0
tally_callers (entered p ∷ callers) id = tally_callers callers id
tally_callers (numbered k p ∷ callers) id = (if k == id then 1 else 0) + tally_callers callers id
tally_callers (enlisted k ∷ callers) id = tally_callers callers id

unfoldable pub tally_reader : ReadThread → ℕ → ℕ
tally_reader reading id = 0
tally_reader (received f) id = 0
tally_reader (taken f p) id = if f.message_id == id then 1 else 0
tally_reader failing id = 0
tally_reader ended id = 0

unfoldable pub tally_ids : List ℕ → ℕ → ℕ
tally_ids [] id = 0
tally_ids (k ∷ ids) id = (if k == id then 1 else 0) + tally_ids ids id

-- The promises of the id: a caller's that has not stored it, those in `pending_`, the read loop's, and
-- those that were set.
unfoldable pub places : Threads → ℕ → ℕ
unfolding tally tally_callers tally_reader
places s id =
    tally_callers s.callers id
    + tally s.mux.pending id
    + tally_reader s.reader id
    + tally s.mux.answers id

pub tally-append :
    {A : Type 0} (xs ys : List (ℕ × A)) (id : ℕ) → tally (xs ++ ys) id ≡ tally xs id + tally ys id
unfolding tally
tally-append [] ys id = omega arith
tally-append ((k, a) ∷ xs) ys id = ground (arith, tally-append xs ys id)

pub tally_callers-append :
    (xs ys : List Caller) (id : ℕ)
    → tally_callers (xs ++ ys) id ≡ tally_callers xs id + tally_callers ys id
unfolding tally_callers
tally_callers-append [] ys id = omega arith
tally_callers-append (entered p ∷ xs) ys id = tally_callers-append xs ys id
tally_callers-append (numbered k p ∷ xs) ys id = omega (arith, tally_callers-append xs ys id)
tally_callers-append (enlisted k ∷ xs) ys id = tally_callers-append xs ys id

pub tally-erase_pending :
    (pending : List (ℕ × PendingRequest)) (k id : ℕ)
    → tally (erase_pending pending k) id ≡ (if k == id then 0 else tally pending id)
unfolding tally erase_pending
tally-erase_pending [] k id = ground arith
tally-erase_pending ((j, p) ∷ pending) k id = ground (arith, tally-erase_pending pending k id)

-- Storing under an id that no entry has.
pub tally-insert_pending :
    (pending : List (ℕ × PendingRequest)) (k : ℕ) (p : PendingRequest) (id : ℕ)
    → tally pending k ≡ 0
    → tally (insert_pending pending k p) id ≡ (if k == id then 1 else 0) + tally pending id
unfolding tally insert_pending
tally-insert_pending [] k p id h = refl
tally-insert_pending ((j, q) ∷ pending) k p id h =
    ground (arith, tally-insert_pending pending k p id)

pub tally-connection_lost :
    (m : Multiplexer) (pending : List (ℕ × PendingRequest)) (id : ℕ)
    → tally (connection_lost m pending) id ≡ tally pending id
unfolding tally connection_lost
tally-connection_lost m [] id = refl
tally-connection_lost m ((k, p) ∷ pending) id = ground (arith, tally-connection_lost m pending id)

pub tally-find_pending :
    (pending : List (ℕ × PendingRequest)) (id : ℕ) (p : PendingRequest)
    → find_pending pending id ≡ some p
    → 1 ≤ tally pending id
unfolding tally find_pending
tally-find_pending [] id p h = cc
tally-find_pending ((k, q) ∷ pending) id p h = ground (arith, tally-find_pending pending id p)

-- Every id that was given out has one promise, which waits or was set, or its `execute` threw; no id
-- has two.
pub record IsAccounted (s : Threads) : Type 0 where
  pub once : (id : ℕ) → places s id ≤ 1
  pub fresh : (id : ℕ) → s.mux.next_message_id ≤ id → places s id ≡ 0
  pub kept : (id : ℕ) → id < s.mux.next_message_id → 1 ≤ places s id + tally_ids s.withdrawn id

-- A step that gives out no id, doubles no promise and loses none.
pub IsAccounted-still :
    (s t : Threads)
    → t.mux.next_message_id ≡ s.mux.next_message_id
    → ((id : ℕ)
        → (places t id ≤ places s id)
          × (places s id + tally_ids s.withdrawn id ≤ places t id + tally_ids t.withdrawn id))
    → IsAccounted s
    → IsAccounted t
IsAccounted-still s t same moves h = record {
  once = λ id. omega (arith, h.once id, (moves id).0);
  fresh = λ id k. omega (arith, h.fresh id (omega (arith, same)), (moves id).0);
  kept = λ id k. omega (arith, h.kept id (omega (arith, same)), (moves id).1);
}

-- The callers' ids where one caller has moved on.
pub tally_callers-at :
    {callers : List Caller} (xs ys : List Caller) (c : Caller) (id : ℕ)
    → callers ≡ xs ++ (c ∷ ys)
    → tally_callers callers id
      ≡ tally_callers xs id + (tally_callers (c ∷ []) id + tally_callers ys id)
unfolding tally_callers
tally_callers-at xs ys (entered p) id e =
    omega (arith, ap (λ l. tally_callers l id) e, tally_callers-append xs (entered p ∷ ys) id)
tally_callers-at xs ys (numbered k p) id e =
    omega (arith, ap (λ l. tally_callers l id) e, tally_callers-append xs (numbered k p ∷ ys) id)
tally_callers-at xs ys (enlisted k) id e =
    omega (arith, ap (λ l. tally_callers l id) e, tally_callers-append xs (enlisted k ∷ ys) id)

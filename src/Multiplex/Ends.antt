-- ===== src/Multiplex/Ends.antt =====
-- The read loop of src/transport/MultiplexedConnection.cpp on any bytes: it ends, and leaves nobody
-- waiting.
use cpp17_client.Base.{
  ℕ, zero, suc, ◌+◌, ◌≤◌, ◌<◌, ◌≡◌, refl, sym, subst, ap, ◌∙◌, arith, List, [], ◌∷◌, ◌++◌, length,
  Bool, true, false, not, ◌&&◌, ◌||◌, ◌==◌, if◌then◌else◌, Option, none, some, Outcome, ok, err,
  undefined, Outcome-cases, bind_ok, ◌⊎◌, inl, inr,
}
use cpp17_client.Base.Readers.{◌>>=◌, return}
use cpp17_client.Multiplex.{
  Multiplexer, PendingRequest, find_pending, erase_pending, disconnected, read_failed,
  close_all_pending, connection_lost, with_flags,
}
use cpp17_client.Multiplex.Reading.{
  Frame, receive_start, interrupted, receive_frame, answer, answered, orphaned, settle, read_round,
  after_round, read_loop,
}
use cpp17_client.Multiplex.Progress.{IsForwardAll, IsForwardAll-erase, Advances-read_round}

-- Whether an entry has the id.
abbrev pub has_id : {A : Type 0} → List (ℕ × A) → ℕ → Bool
has_id [] id = false
has_id ((k, a) ∷ entries) id = k == id || has_id entries id

has_id-append :
    {A : Type 0} (xs ys : List (ℕ × A)) (id : ℕ)
    → has_id (xs ++ ys) id ≡ (has_id xs id || has_id ys id)
has_id-append [] ys id = refl
has_id-append ((k, a) ∷ xs) ys id = ground (arith, has_id-append xs ys id)

pub has_id-erase_pending :
    (pending : List (ℕ × PendingRequest)) (k id : ℕ)
    → has_id (erase_pending pending k) id ≡ (has_id pending id && not (k == id))
unfolding erase_pending
has_id-erase_pending [] k id = refl
has_id-erase_pending ((j, p) ∷ pending) k id = ground (arith, has_id-erase_pending pending k id)

has_id-connection_lost :
    (m : Multiplexer) (pending : List (ℕ × PendingRequest)) (id : ℕ)
    → has_id (connection_lost m pending) id ≡ has_id pending id
unfolding connection_lost
has_id-connection_lost m [] id = refl
has_id-connection_lost m ((k, p) ∷ pending) id = ground (arith, has_id-connection_lost m pending id)

-- A request that waits for its answer or has it.
abbrev pub is_known : Multiplexer → ℕ → Bool
is_known m id = has_id m.pending id || has_id m.answers id

-- What a round keeps: the loop's flags, the parsers' order, and every request's answer or wait.
abbrev Keeps : Multiplexer → Multiplexer → Type 0
Keeps m m' =
    (m'.connected ≡ m.connected)
    × (m'.stop_read_loop ≡ m.stop_read_loop)
    × IsForwardAll m'.pending
    × ((id : ℕ) → is_known m id ≡ true → is_known m' id ≡ true)

state_of :
    {A : Type 0} (a b : A) (i j : ℕ) → ◌≡◌ {A = Outcome (A × ℕ)} (ok (a, i)) (ok (b, j)) → a ≡ b
state_of a b i j h = cc

Keeps-settle :
    (m : Multiplexer) (f : Frame) (o : Option PendingRequest) (buffer : List ℕ) (offset : ℕ)
    (m' : Multiplexer) (offset' : ℕ)
    → IsForwardAll m.pending
    → settle m f o buffer offset ≡ ok (m', offset')
    → Keeps m m'
unfolding settle ◌>>=◌ return answered orphaned
Keeps-settle m f none buffer offset m' offset' h e =
    subst (Keeps m) (state_of (orphaned m f) m' offset offset' e) (refl, refl, h, λ id k. k)
Keeps-settle m f (some p) buffer offset m' offset' h e =
    let (r, first, second) =
      bind_ok (answer m f f.error_message p buffer offset) (λ r. ok (answered m f p r.0, r.1)) e in
    subst (Keeps m) (state_of (answered m f p r.0) m' r.1 offset' second) (
      refl,
      refl,
      IsForwardAll-erase m.pending f.message_id h,
      λ id k. ground (
        arith,
        has_id-erase_pending m.pending f.message_id id,
        has_id-append m.answers ((f.message_id, r.0) ∷ []) id,
      ),
    )

Keeps-read_round :
    (m : Multiplexer) (buffer : List ℕ) (offset : ℕ) (m' : Multiplexer) (offset' : ℕ)
    → IsForwardAll m.pending
    → read_round m buffer offset ≡ ok (m', offset')
    → Keeps m m'
unfolding read_round ◌>>=◌
Keeps-read_round m buffer offset m' offset' h e =
    let (f, first, second) =
      bind_ok (receive_frame m.client_intelligence buffer offset)
        (λ f. settle m f.0 (find_pending m.pending f.0.message_id) buffer f.1) e in
    Keeps-settle m f.0 (find_pending m.pending f.0.message_id) buffer f.1 m' offset' h second

-- What the loop leaves behind: it has ended in a state that is not connected, in which nobody waits
-- and everybody who waited or had an answer has one.
abbrev pub HasEnded : Multiplexer → Outcome (Option Multiplexer) → Type 0
HasEnded m o =
    (m' : Multiplexer) × (o ≡ ok (some m'))
    × (m'.connected ≡ false)
    × (m'.pending ≡ [])
    × ((id : ℕ) → is_known m id ≡ true → has_id m'.answers id ≡ true)

-- `closeAllPending` answers everybody.
pub has_id-close_all_pending :
    (m : Multiplexer) (id : ℕ)
    → is_known m id ≡ true
    → has_id (close_all_pending m).answers id ≡ true
unfolding close_all_pending
has_id-close_all_pending m id h = ground (
  arith,
  has_id-append m.answers (connection_lost m m.pending) id,
  has_id-connection_lost m m.pending id,
)

HasEnded-closed :
    (m : Multiplexer) → m.stop_read_loop ≡ false → HasEnded m (ok (some (read_failed m)))
unfolding read_failed disconnected close_all_pending
HasEnded-closed m h =
    let gone : Multiplexer = with_flags m false m.stop_read_loop in
    let same : read_failed m ≡ close_all_pending gone =
      ap (λ b. close_all_pending (if not b then gone else m)) h in
    subst (λ t. HasEnded m (ok (some t))) (sym same)
      (close_all_pending gone, refl, refl, refl, λ id k. has_id-close_all_pending gone id k)

HasEnded-read_failed :
    (m : Multiplexer) (o : Outcome (Frame × ℕ))
    → m.stop_read_loop ≡ false
    → HasEnded m (ok (some (read_failed (interrupted m o))))
unfolding interrupted orphaned
HasEnded-read_failed m (ok (f, n)) h = HasEnded-closed (orphaned m f) h
HasEnded-read_failed m (err e) h = HasEnded-closed m h
HasEnded-read_failed m undefined h = HasEnded-closed m h

abbrev IsRunning : Multiplexer → Type 0
IsRunning m = (m.connected ≡ true) × (m.stop_read_loop ≡ false) × IsForwardAll m.pending

still_ends :
    (m m' : Multiplexer) {o : Outcome (Option Multiplexer)}
    → ((id : ℕ) → is_known m id ≡ true → is_known m' id ≡ true)
    → (o ≡ undefined) ⊎ HasEnded m' o
    → (o ≡ undefined) ⊎ HasEnded m o
still_ends m m' known (inl u) = inl u
still_ends m m' known (inr (t, e, c, p, answers)) =
    inr (t, e, c, p, λ id k. answers id (known id k))

loop_ends :
    (fuel : ℕ) (m : Multiplexer) (buffer : List ℕ) (offset : ℕ)
    → IsRunning m
    → offset ≤ length buffer
    → length buffer < fuel + offset
    → (read_loop fuel m buffer offset ≡ undefined) ⊎ HasEnded m (read_loop fuel m buffer offset)
unfolding read_loop after_round
loop_ends zero m buffer offset h l k = absurd (omega arith)
loop_ends (suc fuel) m buffer offset (on, off, forward) l k =
    elim (Outcome-cases (read_round m buffer offset)) [
      | inl u ↦ inl (simp (on, off, u))
      | inr (inl (e, u)) ↦ inr (
          simp (on, off, u)
            (HasEnded-read_failed m (receive_start m.client_intelligence buffer offset) off))
      | inr (inr ((m', offset'), u)) ↦
          let (on', off', forward', known) =
            Keeps-read_round m buffer offset m' offset' forward u in
          let (moved, inside) =
            (Advances-read_round m forward).apply buffer offset m' offset' l u in
          let later =
            loop_ends fuel m' buffer offset' (on' ∙ on, off' ∙ off, forward') inside
              (omega arith) in
          simp (on, off, u) (still_ends m m' known later)
    ]

-- On any bytes at all, the read loop of a connection whose body parsers take bytes in order runs into
-- undefined behaviour or ends: as many rounds as there are bytes, and one more, are enough. When it has
-- ended, the connection is closed, no request waits, and every request that waited has an answer.
pub read_loop-HasEnded :
    (m : Multiplexer) (buffer : List ℕ)
    → m.connected ≡ true
    → m.stop_read_loop ≡ false
    → IsForwardAll m.pending
    → (read_loop (length buffer + 1) m buffer 0 ≡ undefined)
      ⊎ HasEnded m (read_loop (length buffer + 1) m buffer 0)
read_loop-HasEnded m buffer on off forward =
    loop_ends (length buffer + 1) m buffer 0 (on, off, forward) (omega arith) (omega arith)

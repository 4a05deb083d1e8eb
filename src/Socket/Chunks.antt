-- ===== src/Socket/Chunks.antt =====
-- `Connection::send` and `Connection::receive` of src/transport/Connection.cpp, whatever pieces the
-- operating system moves the bytes in.
use cpp17_client.Base.{
  ℕ, zero, suc, ◌+◌, ◌-◌, ◌≤◌, ◌<◌, ◌≡◌, refl, sym, ap, ◌∙◌, subst, arith, ◌⊎◌, inl, inr, List, [],
  ◌∷◌, ◌++◌, length, take, drop, append_assoc, append-nil, length-append, length-drop, length-take,
  drop_add, take_add, Bool-cases, true, false, ltb, if◌then◌else◌, Option, some, Outcome, ok, err,
}
use cpp17_client.Stream.{closed}
use cpp17_client.Stream
use cpp17_client.Socket.{
  Moved, failed, moved, send_error, Sending, after_send, send_loop, after_recv, receive_loop,
  Connection, send, receive,
}

-- What `::recv` does while the peer's bytes come in and until the peer has closed the socket: it gives
-- some of the bytes that are left and fit, and none only when none are left.
pub record IsDelivered (buffer : List ℕ) (recvs : ℕ → ℕ → ℕ → Moved) : Type 0 where
  pub apply :
      (call offset remaining : ℕ)
      → 0 < remaining
      → offset ≤ length buffer
      → ((recvs call offset remaining ≡ moved 0) × (offset ≡ length buffer))
        ⊎ ((n : ℕ) × (recvs call offset remaining ≡ moved (suc n))
            × (suc n ≤ remaining)
            × (offset + suc n ≤ length buffer))

-- What is still to come of a receive: `r` bytes from the offset on, behind those that came in.
abbrev to_come : ℕ → List ℕ → ℕ → List ℕ → Outcome (List ℕ × ℕ)
to_come r buffer offset got =
    if ltb (length buffer) (offset + r)
    then err closed
    else ok (got ++ take r (drop offset buffer), offset + r)

to_come_step :
    (n r : ℕ) (buffer : List ℕ) (offset : ℕ) (got : List ℕ)
    → to_come r buffer (offset + n) (got ++ take n (drop offset buffer))
      ≡ to_come (n + r) buffer offset got
to_come_step n r buffer offset got =
    let there : offset + n + r ≡ offset + (n + r) = omega arith in
    let bytes : (got ++ take n (drop offset buffer)) ++ take r (drop (offset + n) buffer)
        ≡ got ++ take (n + r) (drop offset buffer) =
      append_assoc got (take n (drop offset buffer)) (take r (drop (offset + n) buffer))
      ∙ ap (λ l. got ++ (take n (drop offset buffer) ++ take r l)) (sym (drop_add offset n buffer))
      ∙ ap (λ l. got ++ l) (take_add n r (drop offset buffer)) in
    rw (there, bytes) refl

length_chunk :
    (n : ℕ) (buffer : List ℕ) (offset : ℕ)
    → offset + n ≤ length buffer
    → length (take n (drop offset buffer)) ≡ n
length_chunk n buffer offset h =
    omega (arith, length-take n (drop offset buffer), length-drop offset buffer)

module _ {buffer : List ℕ} {recvs : ℕ → ℕ → ℕ → Moved} (h : IsDelivered buffer recvs) where
  -- The loop, in front of `r` more bytes.
  receive_loop-to_come :
      (fuel r count offset call : ℕ) (got : List ℕ)
      → length got + r ≡ count
      → r < fuel
      → offset ≤ length buffer
      → receive_loop recvs fuel count buffer offset call got ≡ some (to_come r buffer offset got)
  unfolding receive_loop after_recv
  receive_loop-to_come zero r count offset call got e l k = absurd (omega arith)
  receive_loop-to_come (suc fuel) zero count offset call got e l k =
      let full : ltb (length got) count ≡ false = ground arith in
      let inside : ltb (length buffer) (offset + 0) ≡ false = ground arith in
      let same : offset ≡ offset + 0 = omega arith in
      rw (full, inside, append-nil) (ap (λ (n : ℕ). some (ok (got, n))) same)
  receive_loop-to_come (suc fuel) (suc r) count offset call got e l k =
      let more : ltb (length got) count ≡ true = ground arith in
      let room : count - length got ≡ suc r = omega arith in
      elim (h.apply call offset (suc r) (omega arith) k) [
        | inl (came, end) ↦
            let short : ltb (length buffer) (offset + suc r) ≡ true = ground arith in
            rw (more, room, came, short) refl
        | inr (n, came, few, near) ↦
            let later =
              receive_loop-to_come fuel (r - n) count (offset + suc n) (call + 1)
                (got ++ take (suc n) (drop offset buffer))
                (omega (
                  arith,
                  length-append got (take (suc n) (drop offset buffer)),
                  length_chunk (suc n) buffer offset near,
                ))
                (omega arith) near in
            let all : suc n + (r - n) ≡ suc r = omega arith in
            rw (more, room, came)
              (later
                ∙ ap (λ o. some o) (to_come_step (suc n) (r - n) buffer offset got)
                ∙ ap (λ (k : ℕ). some (to_come k buffer offset got)) all)
      ]

-- While the peer's bytes come in, in pieces of any sizes, and until it has closed the socket,
-- `Connection::receive` of a connected socket takes as many bytes as are asked for, in order and as one
-- array, or throws when there are not as many: it is the `receive` of Stream, on which all that reads
-- responses stands.
pub receive-IsDelivered :
    {buffer : List ℕ} {recvs : ℕ → ℕ → ℕ → Moved} (c : Connection) (count offset call : ℕ)
    → IsDelivered buffer recvs
    → c.connected ≡ true
    → offset ≤ length buffer
    → receive recvs c count buffer offset call ≡ some (Stream.receive count buffer offset)
unfolding receive Stream.receive
receive-IsDelivered c count offset call h up l =
    rw up
      (receive_loop-to_come h (count + 1) count count offset call [] (omega arith) (omega arith) l)

-- What `::send` does: it fails, or takes some of the bytes.
pub record IsSending (sends : ℕ → ℕ → Moved) : Type 0 where
  pub apply :
      (call remaining : ℕ)
      → 0 < remaining
      → (sends call remaining ≡ failed)
        ⊎ ((n : ℕ) × (sends call remaining ≡ moved (suc n)) × (suc n ≤ remaining))

-- How a `send` ends: all bytes went out, or it throws and a part of them went out that is not all.
abbrev pub HasSent : List ℕ → List ℕ → Option Sending → Type 0
HasSent wire bytes o =
    (o ≡ some (record { outcome = ok tt; wire = wire ++ bytes }))
    ⊎ ((n : ℕ) × (n < length bytes)
        × (o ≡ some (record { outcome = err send_error; wire = wire ++ take n bytes })))

take_all : (xs : List ℕ) → take (length xs) xs ≡ xs
take_all [] = refl
take_all (x ∷ xs) = ap (◌∷◌ x) (take_all xs)

module _ {sends : ℕ → ℕ → Moved} (h : IsSending sends) where
  send_loop-HasSent :
      (fuel total_sent call : ℕ) (wire bytes : List ℕ)
      → total_sent ≤ length bytes
      → length bytes < fuel + total_sent
      → HasSent wire bytes
          (send_loop sends fuel bytes total_sent call (wire ++ take total_sent bytes))
  unfolding send_loop after_send
  send_loop-HasSent zero total_sent call wire bytes l k = absurd (omega arith)
  send_loop-HasSent (suc fuel) total_sent call wire bytes l k =
      elim (Bool-cases (ltb total_sent (length bytes))) [
        | inr c ↦
            let all : total_sent ≡ length bytes = ground arith in rw (c, all, take_all) (inl refl)
        | inl c ↦ elim (h.apply call (length bytes - total_sent) (ground arith)) [
          | inl gone ↦ rw (c, gone) (inr (total_sent, ground arith, refl))
          | inr (n, went, few) ↦
              let piece : (wire ++ take total_sent bytes) ++ take (suc n) (drop total_sent bytes)
                  ≡ wire ++ take (total_sent + suc n) bytes =
                append_assoc wire (take total_sent bytes) (take (suc n) (drop total_sent bytes))
                ∙ ap (λ b. wire ++ b) (take_add total_sent (suc n) bytes) in
              rw (c, went, piece)
                (send_loop-HasSent fuel (total_sent + suc n) (call + 1) wire bytes (ground arith)
                  (omega arith))
        ]
      ]

-- Whatever pieces `::send` takes the bytes in, and whether or not it fails on the way, `Connection::send`
-- of a connected socket ends: either it returns, and all bytes went out, in order and once, or it
-- throws, and a part from the front that is not all of them went out.
pub send-HasSent :
    {sends : ℕ → ℕ → Moved} (c : Connection) (bytes wire : List ℕ) (call : ℕ)
    → IsSending sends
    → c.connected ≡ true
    → HasSent wire bytes (send sends c bytes call wire)
unfolding send
send-HasSent {sends} c bytes wire call h up =
    let begun : wire ++ [] ≡ wire = append-nil wire in
    rw up (
      subst (λ w. HasSent wire bytes (send_loop sends (length bytes + 1) bytes 0 call w)) begun
        (send_loop-HasSent h (length bytes + 1) 0 call wire bytes (omega arith) (omega arith)))

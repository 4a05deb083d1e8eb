-- ===== src/Socket/Runs.antt =====
-- A socket that moves a byte at a time.
use cpp17_client.Base.{
  ℕ, ◌≡◌, refl, arith, inl, inr, List, [], ◌∷◌, Bool-cases, true, leb, ltb, if◌then◌else◌, none,
  some, ok,
}
use cpp17_client.Stream
use cpp17_client.Socket.{
  Moved, failed, moved, Connection, send, receive, Dial, dial_succeeds, no_socket, dialled, connect,
  close,
}
use cpp17_client.Socket.Chunks.{IsDelivered, receive-IsDelivered, IsSending, HasSent, send-HasSent}
use cpp17_client.Socket.Opening.{opened, connect-first_reached}

abbrev greeting : List ℕ
greeting = 104 ∷ 101 ∷ 108 ∷ 108 ∷ 111 ∷ []

abbrev trickle : ℕ → ℕ → ℕ → Moved
trickle call offset remaining = if leb 5 offset then moved 0 else moved 1

trickle-IsDelivered : IsDelivered greeting trickle
trickle-IsDelivered = record {
  apply = λ call offset remaining some_left inside. elim (Bool-cases (leb 5 offset)) [
    | inl end ↦ inl (rw end refl, ground arith)
    | inr more ↦ inr (0, rw more refl, omega arith, ground arith)
  ];
}

abbrev over_seven : Connection
over_seven = record { connected = true; socket = some 7; open_sockets = 7 ∷ [] }

receive-IsDelivered_example :
    receive trickle over_seven 3 greeting 1 0 ≡ some (Stream.receive 3 greeting 1)
receive-IsDelivered_example =
    receive-IsDelivered over_seven 3 1 0 trickle-IsDelivered refl (omega arith)

-- Two calls take a byte each, and the third one fails.
abbrev breaks : ℕ → ℕ → Moved
breaks call remaining = if ltb call 2 then moved 1 else failed

breaks-IsSending : IsSending breaks
breaks-IsSending = record {
  apply = λ call remaining some_left. elim (Bool-cases (ltb call 2)) [
    | inl early ↦ inr (0, rw early refl, omega arith)
    | inr late ↦ inl (rw late refl)
  ];
}

send-HasSent_example : HasSent (9 ∷ []) greeting (send breaks over_seven greeting 0 (9 ∷ []))
send-HasSent_example = send-HasSent over_seven greeting (9 ∷ []) 0 breaks-IsSending refl

-- The second address is refused late, and the last one would be reached too.
connect-first_reached_example :
    (connect (opened none (3 ∷ [])) (
        some (
          no_socket
          ∷ dialled 4 (Dial.in_progress true 111)
          ∷ dialled 4 (Dial.in_progress true 0)
          ∷ dialled 5 Dial.accepted
          ∷ []))
      ≡ (ok tt, opened (some 4) (3 ∷ [])))
    × (close
          (connect (opened none (3 ∷ [])) (
            some (
              no_socket
              ∷ dialled 4 (Dial.in_progress true 111)
              ∷ dialled 4 (Dial.in_progress true 0)
              ∷ dialled 5 Dial.accepted
              ∷ []))).1
        ≡ opened none (3 ∷ []))
unfolding dial_succeeds
connect-first_reached_example = connect-first_reached (3 ∷ []) (
    no_socket
    ∷ dialled 4 (Dial.in_progress true 111)
    ∷ dialled 4 (Dial.in_progress true 0)
    ∷ dialled 5 Dial.accepted
    ∷ [])

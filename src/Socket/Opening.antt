-- ===== src/Socket/Opening.antt =====
-- `Connection::connect` and `Connection::close` of src/transport/Connection.cpp: the descriptors that the
-- process holds.
use cpp17_client.Base.{
  ℕ, ◌≡◌, refl, ap, ◌∙◌, arith, inl, inr, List, [], ◌∷◌, Bool-cases, true, false, ◌==◌,
  if◌then◌else◌, Option, none, some, Outcome, ok, err, runtime_error,
}
use cpp17_client.Socket.{
  Connection, Address, no_socket, dialled, dial_succeeds, erase_socket, connect_loop, connect,
  close_socket, close,
}

-- The descriptor of the first address that can be connected to.
abbrev pub first_reached : List Address → Option ℕ
first_reached [] = none
first_reached (no_socket ∷ addresses) = first_reached addresses
first_reached (dialled fd dial ∷ addresses) =
    let rest = first_reached addresses in if dial_succeeds dial then some fd else rest

-- Not connected, and with no descriptor; or connected over one, on top of the given ones.
abbrev pub opened : Option ℕ → List ℕ → Connection
opened none sockets = record { connected = false; socket = none; open_sockets = sockets }
opened (some fd) sockets = record {
  connected = true;
  socket = some fd;
  open_sockets = fd ∷ sockets;
}

erase_socket_top : (fd : ℕ) (sockets : List ℕ) → erase_socket fd (fd ∷ sockets) ≡ sockets
unfolding erase_socket
erase_socket_top fd sockets = let same : (fd == fd) ≡ true = ground arith in rw same refl

connect_loop-opened :
    (addresses : List Address) (sockets : List ℕ)
    → connect_loop (opened none sockets) addresses ≡ opened (first_reached addresses) sockets
unfolding connect_loop
connect_loop-opened [] sockets = refl
connect_loop-opened (no_socket ∷ addresses) sockets = connect_loop-opened addresses sockets
connect_loop-opened (dialled fd dial ∷ addresses) sockets = elim (Bool-cases (dial_succeeds dial)) [
  | inl c ↦ rw c refl
  | inr c ↦ rw c (
      ap (λ s. connect_loop (opened none s) addresses) (erase_socket_top fd sockets)
      ∙ connect_loop-opened addresses sockets)
]

-- Whether the connection that `connect` leaves is up.
abbrev pub outcome_of : Option ℕ → Outcome (Unit {0})
outcome_of none = err (runtime_error "Failed to connect to ")
outcome_of (some fd) = ok tt

-- The end of `connect`, by what its loop leaves.
ended : Connection → Outcome (Unit {0}) × Connection
ended c = if c.connected then (ok tt, c) else (err (runtime_error "Failed to connect to "), c)

ended-opened :
    (reached : Option ℕ) (sockets : List ℕ)
    → ended (opened reached sockets) ≡ (outcome_of reached, opened reached sockets)
unfolding ended
ended-opened none sockets = refl
ended-opened (some fd) sockets = refl

close-opened :
    (reached : Option ℕ) (sockets : List ℕ) → close (opened reached sockets) ≡ opened none sockets
unfolding close close_socket
close-opened none sockets = refl
close-opened (some fd) sockets = ap (λ s. opened none s) (erase_socket_top fd sockets)

-- `connect` of a connection that is not open goes through the addresses until the first one that it
-- reaches. It returns if there is one, and is then connected over that address's descriptor, the one
-- that it has opened and not closed again; else it throws and has closed all that it had opened. A
-- `close` afterwards leaves the descriptors that there were before.
pub connect-first_reached :
    (sockets : List ℕ) (addresses : List Address)
    → (connect (opened none sockets) (some addresses)
        ≡ (outcome_of (first_reached addresses), opened (first_reached addresses) sockets))
      × (close (connect (opened none sockets) (some addresses)).1 ≡ opened none sockets)
unfolding connect ended
connect-first_reached sockets addresses =
    let both : connect (opened none sockets) (some addresses)
        ≡ (outcome_of (first_reached addresses), opened (first_reached addresses) sockets) =
      ap ended (connect_loop-opened addresses sockets)
      ∙ ended-opened (first_reached addresses) sockets in
    (both, ap (λ p. close p.1) both ∙ close-opened (first_reached addresses) sockets)

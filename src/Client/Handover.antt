-- ===== src/Client/Handover.antt =====
-- `MultiplexedConnection::connect` of src/transport/MultiplexedConnection.cpp: what the socket, the
-- handshake and the read loop leave to each other.
use cpp17_client.Base.{
  ℕ, ◌+◌, ◌≡◌, refl, sym, ◌∙◌, arith, inl, inr, List, [], ◌∷◌, ◌++◌, length, Bool, Bool-cases, true,
  false, ◌==◌, Option, none, some, ok,
}
use cpp17_client.Socket.{Connection, Address}
use cpp17_client.Socket
use cpp17_client.Socket.Opening.{first_reached, opened, outcome_of, connect-first_reached}
use cpp17_client.Sasl.{authenticate}
use cpp17_client.Sasl.Calls.{Session, Verdict, returned, raised, broken}
use cpp17_client.Sasl.Mutual.{Server, IsGenuine, server_bytes, authenticate-IsGenuine}
use cpp17_client.Multiplex.{
  Multiplexer, PendingRequest, with_flags, read_failed, execute, register, build_request,
  take_number, enlist, send_failed, withdraw,
}
use cpp17_client.Multiplex.Reading.{read_loop}
use cpp17_client.Multiplex.Loop.{Serves, IsReading, loop_serves}
use cpp17_client.Client.{
  Link, Platform, authenticator, at_start, Opening, up, down, lost, started, after_handshake,
  after_socket, connect,
}

-- A request of `execute`: its body, its opcode, and what waits for the response.
abbrev pub Request : Type 0
Request = (List ℕ × ℕ) × PendingRequest

-- The multiplexer behind these calls of `execute`.
abbrev pub issued : (List ℕ → Bool) → Multiplexer → List Request → Multiplexer
issued sends m [] = m
issued sends m (((body, opcode), p) ∷ requests) =
    issued sends (execute sends m body opcode p).1 requests

-- `execute` leaves the flags and the settings as they are.
execute-IsReading :
    (sends : List ℕ → Bool) (m : Multiplexer) (body : List ℕ) (opcode : ℕ) (p : PendingRequest)
    → IsReading m
    → IsReading (execute sends m body opcode p).1
unfolding execute register take_number enlist send_failed withdraw
execute-IsReading sends m body opcode p h = elim (Bool-cases m.connected) [
  | inr off ↦ let no : true ≡ false = sym h.0 ∙ off in cc
  | inl on ↦
      let request : List ℕ =
        build_request (register m p).1 (register m p).0 opcode body p.cache_name p.flags in
      elim (Bool-cases (sends request)) [
        | inl out ↦ simp (on, out) (refl, h.1)
        | inr stuck ↦ simp (on, stuck) (refl, h.1)
      ]
]

issued-IsReading :
    (sends : List ℕ → Bool) (m : Multiplexer) (requests : List Request)
    → IsReading m
    → IsReading (issued sends m requests)
issued-IsReading sends m [] h = h
issued-IsReading sends m (((body, opcode), p) ∷ requests) h =
    issued-IsReading sends (execute sends m body opcode p).1 requests
      (execute-IsReading sends m body opcode p h)

-- The state behind a handshake, if `connect` runs one.
after_handshake-returned :
    (l : Link) (socket : Connection) (v : Verdict (Unit {0})) (t : Session)
    → v ≡ returned tt t
    → after_handshake l socket v ≡ started l socket t.offset
unfolding after_handshake
after_handshake-returned l socket v t h = rw h refl

module _ (os : Platform) (l : Link) (sockets : List ℕ)
    (free : Socket.close l.socket ≡ opened none sockets) (apart : l.mux.connected ≡ false) where
  connect-opened :
      (addresses : List Address) (fd : ℕ) (buffer : List ℕ)
      → first_reached addresses ≡ some fd
      → connect os (some addresses) buffer l
        ≡ after_socket os buffer l (ok tt, opened (some fd) sockets)
  unfolding connect
  connect-opened addresses fd buffer reached =
      rw (apart, free, (connect-first_reached sockets addresses).0, reached) refl

  -- `connect` of a link that is not connected, that gives back the socket it may still hold, and that
  -- authenticates, to a server of which an address can be reached and that is genuine: the link is up, over that
  -- address's descriptor, and the read thread starts right behind the server's last byte of the handshake.
  -- Whatever requests `execute` then sends, when the bytes that follow are replies to requests that wait, each as
  -- the protocol prescribes it, with a topology only if the client is aware of the hash distribution, and with a
  -- body that its request's parser takes, the read loop from there answers each of those requests with its own
  -- reply, until the socket is closed.
  pub connect-Serves :
      (addresses : List Address) (fd : ℕ) (v : Server (authenticator os l)) (all : List ℕ)
      (requests : List Request) (m' : Multiplexer)
      → first_reached addresses ≡ some fd
      → l.authentication.enabled ≡ true
      → IsGenuine (authenticator os l) v
      → Serves (issued os.sends (with_flags l.mux true false) requests) all m'
      → (connect os (some addresses) (server_bytes v ++ all) l
          ≡ started l (opened (some fd) sockets) (length (server_bytes v)))
        × (read_loop
              (length all + 1)
              (issued os.sends (with_flags l.mux true false) requests)
              (server_bytes v ++ all)
              (length (server_bytes v))
            ≡ ok (some (read_failed m')))
  unfolding after_socket
  connect-Serves addresses fd v all requests m' reached enabled genuine serves =
      let (proof, completes, accepted) = authenticate-IsGenuine v genuine in
      let ends = completes.apply [] all (0, []) in
      (
        connect-opened addresses fd (server_bytes v ++ all) reached
            ∙ simp enabled (after_handshake-returned l (opened (some fd) sockets) _ _ ends),
        loop_serves (length all + 1) (server_bytes v) serves
            (issued-IsReading os.sends (with_flags l.mux true false) requests (refl, refl))
            (omega arith),
      )

-- What `connect` may leave behind of a link over these other descriptors: it is up, over one descriptor
-- more; or it is down, with the settings it had, and has no descriptor. `lost` is undefined behaviour.
abbrev pub IsSettled : Link → List ℕ → Opening → Type 0
IsSettled l sockets (up l' offset) =
    (l'.mux ≡ with_flags l.mux true false) × ((fd : ℕ) × (l'.socket ≡ opened (some fd) sockets))
IsSettled l sockets (down e l') = (l'.mux ≡ l.mux) × (l'.socket ≡ opened none sockets)
IsSettled l sockets lost = Unit

close-opened :
    (fd : ℕ) (sockets : List ℕ) → Socket.close (opened (some fd) sockets) ≡ opened none sockets
unfolding Socket.close Socket.close_socket Socket.erase_socket
close-opened fd sockets = let same : (fd == fd) ≡ true = ground arith in rw same refl

after_handshake-IsSettled :
    (l : Link) (fd : ℕ) (sockets : List ℕ) (v : Verdict (Unit {0}))
    → IsSettled l sockets (after_handshake l (opened (some fd) sockets) v)
unfolding after_handshake started
after_handshake-IsSettled l fd sockets (returned t s) = (refl, (fd, refl))
after_handshake-IsSettled l fd sockets (raised e sent) = (refl, close-opened fd sockets)
after_handshake-IsSettled l fd sockets broken = tt

after_socket-IsSettled :
    (os : Platform) (buffer : List ℕ) (l : Link) (reached : Option ℕ) (sockets : List ℕ)
    → IsSettled l sockets (after_socket os buffer l (outcome_of reached, opened reached sockets))
unfolding after_socket started
after_socket-IsSettled os buffer l none sockets = (refl, refl)
after_socket-IsSettled os buffer l (some fd) sockets = elim (Bool-cases l.authentication.enabled) [
  | inl on ↦
      simp on
        (after_handshake-IsSettled l fd sockets (authenticate (authenticator os l) buffer at_start))
  | inr off ↦ simp off (refl, (fd, refl))
]

-- However `connect` ends, by the name service, the addresses, the handshake or the peer's bytes, a link
-- that it brings up has one descriptor more than there were, and a link whose `connect` throws has given
-- back every descriptor, is not connected, and has the settings that it had.
pub connect-IsSettled :
    (os : Platform) (l : Link) (sockets : List ℕ) (resolved : Option (List Address))
    (buffer : List ℕ)
    → Socket.close l.socket ≡ opened none sockets
    → l.mux.connected ≡ false
    → IsSettled l sockets (connect os resolved buffer l)
unfolding connect Socket.connect after_socket
connect-IsSettled os l sockets none buffer free apart = simp (apart, free) (refl, refl)
connect-IsSettled os l sockets (some addresses) buffer free apart =
    simp (apart, free, (connect-first_reached sockets addresses).0)
      (after_socket-IsSettled os buffer l (first_reached addresses) sockets)

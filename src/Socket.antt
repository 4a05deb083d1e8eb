-- ===== src/Socket.antt =====
-- src/transport/Connection.cpp: the connection over a socket. What the operating system does is a
-- parameter: how many bytes one call of `::send` or `::recv` moves, or that it fails, and how the
-- attempts to connect go. The name service's answer is the list of those attempts.
pub mod Chunks
pub mod Opening
mod Runs
use cpp17_client.Base.{
  ℕ, zero, suc, ◌+◌, ◌-◌, List, [], ◌∷◌, ◌++◌, length, take, drop, Bool, true, false, not, ◌&&◌,
  ◌==◌, ltb, if◌then◌else◌, Option, none, some,
}
use cpp17_client.Base.{Outcome, ok, err, Error, runtime_error}
use cpp17_client.Stream.{closed}

-- What one `::send` or `::recv` comes to: -1, or the number of bytes moved.
pub data Moved : Type 0 where
  failed : Moved
  moved : ℕ → Moved

abbrev pub not_connected : Error
not_connected = runtime_error "Not connected"

abbrev pub send_error : Error
send_error = runtime_error "send failed: "

abbrev pub recv_error : Error
recv_error = runtime_error "recv failed: "

-- A loop on fuel comes to `none` where the fuel ran out. What the loop of `send` leaves behind: how it
-- ended, and the bytes that went out.
pub record Sending : Type 0 where
  pub outcome : Outcome (Unit {0})
  pub wire : List ℕ

unfoldable pub after_send : (ℕ → Option Sending) → List ℕ → Moved → Option Sending
after_send next wire failed = some (record { outcome = err send_error; wire = wire })
after_send next wire (moved n) = next n

-- `sends call remaining` is the `call`-th `::send` of the connection, with `remaining` bytes.
unfoldable pub send_loop : (ℕ → ℕ → Moved) → ℕ → List ℕ → ℕ → ℕ → List ℕ → Option Sending
unfolding after_send
send_loop sends zero bytes total_sent call wire = none
send_loop sends (suc fuel) bytes total_sent call wire =
    if ltb total_sent (length bytes)
    then after_send
        (λ n.
          send_loop sends fuel bytes (total_sent + n) (call + 1)
            (wire ++ take n (drop total_sent bytes)))
        wire (sends call (length bytes - total_sent))
    else some (record { outcome = ok tt; wire = wire })

unfoldable pub after_recv :
    (ℕ → Option (Outcome (List ℕ × ℕ))) → Moved → Option (Outcome (List ℕ × ℕ))
after_recv next failed = some (err recv_error)
after_recv next (moved zero) = some (err closed)
after_recv next (moved (suc n)) = next (suc n)

-- The peer's bytes are the buffer, and the offset counts those that came in; `recvs call offset remaining`
-- is the `call`-th `::recv`, with room for `remaining` bytes.
unfoldable pub receive_loop :
    (ℕ → ℕ → ℕ → Moved) → ℕ → ℕ → List ℕ → ℕ → ℕ → List ℕ → Option (Outcome (List ℕ × ℕ))
unfolding after_recv
receive_loop recvs zero count buffer offset call got = none
receive_loop recvs (suc fuel) count buffer offset call got =
    if ltb (length got) count
    then after_recv
        (λ n.
          receive_loop recvs fuel count buffer (offset + n) (call + 1)
            (got ++ take n (drop offset buffer)))
        (recvs call offset (count - length got))
    else some (ok (got, offset))

-- `socket_` is `none` where it is `INVALID_SOCK`; `open_sockets` lists the descriptors that the process
-- has opened and not closed.
pub record Connection : Type 0 where
  pub connected : Bool
  pub socket : Option ℕ
  pub open_sockets : List ℕ

unfoldable pub send : (ℕ → ℕ → Moved) → Connection → List ℕ → ℕ → List ℕ → Option Sending
unfolding send_loop
send sends c bytes call wire =
    if not c.connected
    then some (record { outcome = err not_connected; wire = wire })
    else send_loop sends (length bytes + 1) bytes 0 call wire

unfoldable pub receive :
    (ℕ → ℕ → ℕ → Moved) → Connection → ℕ → List ℕ → ℕ → ℕ → Option (Outcome (List ℕ × ℕ))
unfolding receive_loop
receive recvs c count buffer offset call =
    if not c.connected
    then some (err not_connected)
    else receive_loop recvs (count + 1) count buffer offset call []

-- What `::connect` comes to for one address: 0; or `EINPROGRESS`, with whether `select` says that the
-- socket is writable in time, and the `SO_ERROR` then; or another error.
pub data Dial : Type 0 where
  accepted refused : Dial
  in_progress : Bool → ℕ → Dial

unfoldable pub dial_succeeds : Dial → Bool
dial_succeeds accepted = true
dial_succeeds refused = false
dial_succeeds (in_progress ready so_error) = ready && so_error == 0

-- What one address of the name service comes to: `::socket` fails, or gives a descriptor.
pub data Address : Type 0 where
  no_socket : Address
  dialled : ℕ → Dial → Address

unfoldable pub erase_socket : ℕ → List ℕ → List ℕ
erase_socket fd [] = []
erase_socket fd (s ∷ sockets) = if s == fd then sockets else s ∷ erase_socket fd sockets

-- The loop over the addresses.
unfoldable pub connect_loop : Connection → List Address → Connection
unfolding dial_succeeds erase_socket
connect_loop c [] = c
connect_loop c (no_socket ∷ addresses) =
    connect_loop (record { connected = false; socket = none; open_sockets = c.open_sockets })
      addresses
connect_loop c (dialled fd dial ∷ addresses) =
    let rest =
      connect_loop
        (record {
          connected = false;
          socket = none;
          open_sockets = erase_socket fd (fd ∷ c.open_sockets);
        })
        addresses in
    if dial_succeeds dial
    then record { connected = true; socket = some fd; open_sockets = fd ∷ c.open_sockets }
    else rest

-- Whether the call returns, and the connection behind it; `resolved` is `none` where `getaddrinfo` fails.
unfoldable pub connect : Connection → Option (List Address) → Outcome (Unit {0}) × Connection
unfolding connect_loop
connect c none = (
  if c.connected
      then err (runtime_error "Already connected")
      else err (runtime_error "getaddrinfo failed: "),
  c,
)
connect c (some addresses) =
    let done = connect_loop c addresses in
    if c.connected
    then (err (runtime_error "Already connected"), c)
    else if done.connected
    then (ok tt, done)
    else (err (runtime_error "Failed to connect to "), done)

unfoldable pub close_socket : Option ℕ → List ℕ → List ℕ
unfolding erase_socket
close_socket none sockets = sockets
close_socket (some fd) sockets = erase_socket fd sockets

unfoldable pub close : Connection → Connection
unfolding close_socket
close c = if not c.connected then c else record {
  connected = false;
  socket = none;
  open_sockets = close_socket c.socket c.open_sockets;
}

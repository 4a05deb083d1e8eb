-- ===== src/Client/Runs.antt =====
-- A link to a server that takes the handshake and then answers one request.
use cpp17_client.Base.{
  ℕ, ◌+◌, ◌≡◌, refl, arith, List, [], ◌∷◌, ◌++◌, length, true, false, some, none, ok,
}
use cpp17_client.Base.Readers.{Takes-return}
use cpp17_client.Header.{ClientIntelligence}
use cpp17_client.Operations.{Operation, parse_body, parse_status}
use cpp17_client.Socket
use cpp17_client.Socket.{Dial, Address, dialled, no_socket, dial_succeeds}
use cpp17_client.Socket.Opening.{opened}
use cpp17_client.Scram.{Digest, mechanism_of}
use cpp17_client.Sasl.Mutual.{Server, server_bytes}
use cpp17_client.Sasl.Small.{small, server, server-IsGenuine}
use cpp17_client.Multiplex.{
  Multiplexer, PendingRequest, with_flags, find_pending, read_failed, execute, register,
  take_number, enlist, insert_pending,
}
use cpp17_client.Multiplex.Reading.{read_loop}
use cpp17_client.Multiplex.Frames.{Reply, response, reply_bytes}
use cpp17_client.Multiplex.Rounds.{Served}
use cpp17_client.Multiplex.Loop.{Serves}
use cpp17_client.Client.{Link, Platform, authenticator, started, connect, new_link, new_client}
use cpp17_client.Client.Pool.{
  Peers, Implements, network_of, nodes_of, get_link, get_link-Implements,
}
use cpp17_client.Cache.{get_connection_for_server}
use cpp17_client.Client.Handover.{Request, issued, connect-Serves, IsSettled, connect-IsSettled}

abbrev os : Platform
os = record { crypto = small; sends = λ bytes. true }

abbrev unopened : Link
unopened = record {
  mux = record {
    node = record { host = []; port = 11222 };
    protocol_version = 41;
    client_intelligence = ClientIntelligence.basic;
    connected = false;
    stop_read_loop = false;
    next_message_id = 0;
    topology_id = 0;
    pending = [];
    answers = [];
    updates = [];
  };
  authentication = record {
    enabled = true;
    username = 117 ∷ [];
    password = 112 ∷ 119 ∷ [];
    realm = [];
    server_name = [];
    mechanism = mechanism_of Digest.sha256;
  };
  socket = opened none (3 ∷ []);
}

abbrev addresses : List Address
addresses = dialled 4 Dial.refused ∷ dialled 4 Dial.accepted ∷ []

abbrev genuine : Server (authenticator os unopened)
genuine = server ClientIntelligence.basic

abbrev to_contain : PendingRequest
to_contain = record {
  body_parser = λ status version flags. parse_body (Operation.contains_key (1 ∷ [])) status version;
  expected_opcode = 0x10;
  cache_name = [];
  flags = 0;
}

abbrev question : Request
question = ((1 ∷ 1 ∷ [], 0x0F), to_contain)

abbrev reply : Reply
reply = record { message_id = 0; status = 0; update = none; content = response 0x10 }

abbrev answer : List ℕ
answer = (reply_bytes reply ++ []) ++ []

abbrev asking : Multiplexer
asking = issued os.sends (with_flags unopened.mux true false) (question ∷ [])

serves_answer : (m' : Multiplexer) × Serves asking answer m'
unfolding parse_body parse_status find_pending execute register take_number enlist insert_pending
serves_answer = (
  _,
  Serves.replied {m = asking} {r = reply} {p = to_contain} (omega arith, tt, refl) refl
      (Served.body_served {bytes = []} refl (Takes-return _)) refl Serves.finished,
)

connect-Serves_example :
    (connect os (some addresses) (server_bytes genuine ++ answer) unopened
      ≡ started unopened (opened (some 4) (3 ∷ [])) (length (server_bytes genuine)))
    × (read_loop
          (length answer + 1)
          asking
          (server_bytes genuine ++ answer)
          (length (server_bytes genuine))
        ≡ ok (some (read_failed serves_answer.0)))
unfolding Socket.close dial_succeeds
connect-Serves_example =
    connect-Serves os unopened (3 ∷ []) refl refl addresses 4 genuine answer (question ∷ [])
      serves_answer.0 refl refl (server-IsGenuine ClientIntelligence.basic) serves_answer.1

-- The server closes in the middle of the handshake.
connect-IsSettled_example :
    IsSettled unopened (3 ∷ []) (connect os (some addresses) (0xA1 ∷ []) unopened)
unfolding Socket.close
connect-IsSettled_example =
    connect-IsSettled os unopened (3 ∷ []) (some addresses) (0xA1 ∷ []) refl refl

-- The pool has a connection to the server that has gone down.
abbrev dead : List Link
dead = new_link unopened.mux.node [] ∷ []

abbrev peers : Peers
peers = record { resolved = λ a. some addresses; sends = λ a. []; open_sockets = 3 ∷ [] }

get_link-Implements_example :
    Implements unopened.mux.node
      (get_connection_for_server
        (network_of os peers (new_client unopened.mux.node [] []) dead)
        (nodes_of dead)
        unopened.mux.node)
      (get_link os peers (new_client unopened.mux.node [] []) dead unopened.mux.node)
get_link-Implements_example =
    get_link-Implements os peers (new_client unopened.mux.node [] []) dead unopened.mux.node

-- ===== src/Client.antt =====
-- How connections come up and go down: `MultiplexedConnection::connect` of
-- src/transport/MultiplexedConnection.cpp, which opens the socket and runs the handshake, and the settings
-- of src/operations/RemoteCache.cpp that it takes.
pub mod Handover
pub mod Pool
mod Runs
use cpp17_client.Base.{ℕ, List, [], ◌∷◌, Bool, true, false, if◌then◌else◌, Option, none, some}
use cpp17_client.Base.{Outcome, ok, err, undefined, ◌>>=◌, Error, runtime_error}
use cpp17_client.Failure.{ServerAddress, Thrown, plain}
use cpp17_client.Header.{ClientIntelligence, version_41}
use cpp17_client.Topology.{new_topology}
use cpp17_client.Routing.{cleared}
use cpp17_client.Socket.{Connection, Address}
use cpp17_client.Socket
use cpp17_client.Scram.{Primitives, Digest, mechanism_of}
use cpp17_client.Sasl.{Authenticator, authenticate}
use cpp17_client.Sasl.Calls.{Session, Verdict, returned, raised, broken}
use cpp17_client.Multiplex.{
  Multiplexer, with_flags, set_protocol_version, set_client_intelligence, close,
}
use cpp17_client.Cache.{RemoteCache}

-- A string is the list of its bytes.
pub record Authentication : Type 0 where
  pub enabled : Bool
  pub username : List ℕ
  pub password : List ℕ
  pub realm : List ℕ
  pub server_name : List ℕ
  pub mechanism : List ℕ

-- "default", "infinispan" and "SCRAM-SHA-256".
abbrev pub default_authentication : Authentication
default_authentication = record {
  enabled = false;
  username = [];
  password = [];
  realm = 100 ∷ 101 ∷ 102 ∷ 97 ∷ 117 ∷ 108 ∷ 116 ∷ [];
  server_name = 105 ∷ 110 ∷ 102 ∷ 105 ∷ 110 ∷ 105 ∷ 115 ∷ 112 ∷ 97 ∷ 110 ∷ [];
  mechanism = mechanism_of Digest.sha256;
}

-- A `MultiplexedConnection` with its settings and, once it is open, its socket.
pub record Link : Type 0 where
  pub mux : Multiplexer
  pub authentication : Authentication
  pub socket : Connection

-- What the process can do: OpenSSL, and whether a `send` of these bytes returns.
pub record Platform : Type 0 where
  pub crypto : Primitives
  pub sends : List ℕ → Bool

abbrev pub authenticator : Platform → Link → Authenticator
authenticator os l = record {
  crypto = os.crypto;
  sends = os.sends;
  node = l.mux.node;
  protocol_version = l.mux.protocol_version;
  intelligence = l.mux.client_intelligence;
  mechanism = l.authentication.mechanism;
  username = l.authentication.username;
  password = l.authentication.password;
}

-- What `connect` comes to: the connection is up, and its read thread starts at the offset; or it throws.
pub data Opening : Type 0 where
  up : Link → ℕ → Opening
  down : Thrown → Link → Opening
  lost : Opening

abbrev pub at_start : Session
at_start = record { offset = 0; next_message_id = 0; sent = [] }

unfoldable pub started : Link → Connection → ℕ → Opening
started l socket offset =
    up
      (record {
        mux = with_flags l.mux true false;
        authentication = l.authentication;
        socket = socket;
      })
      offset

-- A handshake that throws has the socket closed.
unfoldable pub after_handshake : Link → Connection → Verdict (Unit {0}) → Opening
unfolding started
after_handshake l socket (returned t s) = started l socket s.offset
after_handshake l socket (raised e sent) =
    down e (record { mux = l.mux; authentication = l.authentication; socket = Socket.close socket })
after_handshake l socket broken = lost

-- With the socket open.
unfoldable pub after_socket : Platform → List ℕ → Link → Outcome (Unit {0}) × Connection → Opening
unfolding after_handshake started
after_socket os buffer l (ok t, socket) =
    if l.authentication.enabled
    then after_handshake l socket (authenticate (authenticator os l) buffer at_start)
    else started l socket 0
after_socket os buffer l (err e, socket) =
    down (plain e) (record { mux = l.mux; authentication = l.authentication; socket = socket })
after_socket os buffer l (undefined, socket) = lost

-- `MultiplexedConnection::connect`, of a link without a read thread; the buffer is what the peer sends. The
-- new `Connection` takes the place of the last one, whose destructor closes it.
unfoldable pub connect : Platform → Option (List Address) → List ℕ → Link → Opening
unfolding after_socket
connect os resolved buffer l =
    if l.mux.connected
    then down (plain (runtime_error "Already connected")) l
    else after_socket os buffer l (Socket.connect (Socket.close l.socket) resolved)

unfoldable pub set_authentication : Link → Authentication → Outcome Link
set_authentication l authentication =
    if l.mux.connected
    then err (runtime_error "Cannot change authentication after connect()")
    else ok (record { mux = l.mux; authentication = authentication; socket = l.socket })

-- `MultiplexedConnection::MultiplexedConnection`, over a socket that is not open.
abbrev pub new_link : ServerAddress → List ℕ → Link
new_link node open_sockets = record {
  mux = record {
    node = node;
    protocol_version = version_41;
    client_intelligence = ClientIntelligence.basic;
    connected = false;
    stop_read_loop = false;
    next_message_id = 0;
    topology_id = 0;
    pending = [];
    answers = [];
    updates = [];
  };
  authentication = default_authentication;
  socket = record { connected = false; socket = none; open_sockets = open_sockets };
}

-- A `RemoteCache` with the connection of its constructor.
pub record Client : Type 0 where
  pub node : ServerAddress
  pub cache_name : List ℕ
  pub protocol_version : ℕ
  pub authentication : Authentication
  pub link : Link
  pub routing : RemoteCache

unfoldable pub new_client : ServerAddress → List ℕ → List ℕ → Client
new_client node cache_name open_sockets = record {
  node = node;
  cache_name = cache_name;
  protocol_version = version_41;
  authentication = default_authentication;
  link = new_link node open_sockets;
  routing = record {
    client_intelligence = ClientIntelligence.basic;
    proxy_to_non_owner = true;
    topology = new_topology;
    consistent_hash = cleared;
    connection_pool = [];
  };
}

abbrev with_mux : Link → Multiplexer → Link
with_mux l mux = record { mux = mux; authentication = l.authentication; socket = l.socket }

-- The three setters that `RemoteCache::connect` and `getConnectionForServer` call in front of `connect`.
unfoldable pub configure : Link → ℕ → ClientIntelligence → Authentication → Outcome Link
unfolding set_authentication
configure l protocol_version intelligence authentication = do
  versioned ← set_protocol_version l.mux protocol_version
  aware ← set_client_intelligence versioned intelligence
  set_authentication (with_mux l aware) authentication

unfoldable pub connect_with :
    Platform → Option (List Address) → List ℕ → Link → Outcome Link → Opening
unfolding connect
connect_with os resolved buffer l (ok m) = connect os resolved buffer m
connect_with os resolved buffer l (err e) = down (plain e) l
connect_with os resolved buffer l undefined = lost

-- `RemoteCache::connect`.
unfoldable pub connect_client : Platform → Option (List Address) → List ℕ → Client → Opening
unfolding connect_with configure
connect_client os resolved buffer c =
    connect_with os resolved buffer c.link
      (configure c.link c.protocol_version c.routing.client_intelligence c.authentication)

-- `RemoteCache::getConnectionForServer` where the pool has no connection to the server that is up: a new one,
-- with the client's settings.
unfoldable pub connect_to_server :
    Platform → Option (List Address) → List ℕ → Client → ServerAddress → List ℕ → Opening
unfolding connect_with configure
connect_to_server os resolved buffer c server open_sockets =
    connect_with os resolved buffer (new_link server open_sockets) (
      configure (new_link server open_sockets) c.protocol_version c.routing.client_intelligence
        c.authentication)

-- `RemoteCache::disconnect`, after the read thread has been joined.
unfoldable pub disconnect : Link → Link
disconnect l = record {
  mux = close l.mux;
  authentication = l.authentication;
  socket = Socket.close l.socket;
}

-- The settings of `RemoteCache`, which only store.
abbrev pub set_client_authentication : Client → List ℕ → List ℕ → List ℕ → List ℕ → List ℕ → Client
set_client_authentication c username password realm server_name mechanism = record c {
  authentication = record {
    enabled = true;
    username = username;
    password = password;
    realm = realm;
    server_name = server_name;
    mechanism = mechanism;
  };
}

abbrev pub set_cache_name : Client → List ℕ → Client
set_cache_name c name = record c { cache_name = name }

abbrev pub set_client_version : Client → ℕ → Client
set_client_version c version = record c { protocol_version = version }

abbrev pub set_proxy_to_non_owner : Client → Bool → Client
set_proxy_to_non_owner c proxy = record c {
  routing = record c.routing { proxy_to_non_owner = proxy };
}

abbrev pub set_intelligence : Client → ClientIntelligence → Client
set_intelligence c intelligence = record c {
  routing = record c.routing { client_intelligence = intelligence };
}

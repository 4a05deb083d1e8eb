-- ===== src/Lib.antt =====
-- A model of the Infinispan Hot Rod client in C++17, with the theorems that make its parts correct.
--
-- Codec (src/codec/Codec.cpp) writes and reads the wire primitives in a byte buffer: variable-length
-- numbers, 64-bit numbers, strings and byte arrays. Header (src/codec/HeaderCodec.cpp) builds the
-- header of a request from them and reads the header of a response. Stream
-- (src/transport/Connection.cpp) takes the same primitives off the socket for a response body, by loops
-- of its own, and
-- Socket has the socket itself: the loops around `::send` and `::recv`, and the addresses that
-- `connect` goes through. Operations (src/operations/RemoteCache.cpp) builds the body of each
-- operation's request, parses the body of its response and delivers the result.
--
-- Topology (src/topology/TopologyInfo.cpp) keeps the servers of the cluster, Announcement parses a
-- topology off the stream, and Selector (src/selector/ServerSelector.cpp) has the strategies that
-- choose among servers. Murmur (src/hash/MurmurHash3.cpp) hashes a key and Routing
-- (src/hash/ConsistentHash.cpp) finds the key's segment and owners in a table made from the topology
-- or, in Routing/Wire, parsed from a buffer. Failure (include/hotrod/HotRodClientException.h) is the
-- exception that every operation fails with, and Selection (include/hotrod/ServerSelection.h) orders
-- the nodes that an operation tries. Cache (src/operations/RemoteCache.cpp) joins these: it chooses
-- the connection for a call, keeps the pool and takes over a new topology.
--
-- Multiplex (src/transport/MultiplexedConnection.cpp) sends many requests over one connection, built
-- with Header, and has one thread that reads the responses: it takes a header off the stream, with the
-- topology that may follow it, finds the request that waits under the message id and has its body
-- parser, which is one of Operations, take the body. Multiplex/Threads has the same code as a step
-- relation, in which the callers, the read thread and `close` interleave. Auth
-- (include/hotrod/AuthCodec.h) has the bodies of the authentication messages, Scram
-- (src/auth/SCRAM.cpp) the texts, proofs and signatures in them, and Sasl
-- (src/auth/SaslAuthenticator.cpp) the handshake over a fresh connection, before the read thread
-- starts. Client puts these together in `MultiplexedConnection::connect`, which opens the Socket, runs
-- Sasl and hands the bytes that follow to the read loop of Multiplex, and has the settings and the
-- lifecycle of RemoteCache; Client/Pool is its `getConnectionForServer` with such connections in the
-- pool, where Cache has their addresses.
--
-- Calls (src/operations/RemoteCache.cpp and include/hotrod/RetryView.h) puts a call together: Cache
-- chooses the connection, Multiplex sends what Operations has built, and the future delivers the
-- response or an exception that names the nodes tried, with which a view makes a further attempt over
-- the pool avoid them; Calls/Api and Calls/View have the operations one by one. Retry (examples/quickstart/retry.cpp)
-- is the loop around such attempts that the client documents.
--
-- Each of these names is a file with the definitions, one for each C++ function, under its name in
-- snake_case, and helpers for the loops and lambdas in it; the modules below it prove its properties,
-- and its Runs module holds tests. Base.antt has what they share.
--
-- A byte, a character and an unsigned integer is a native number, with its wrap-around written out; a
-- signed integer is its bit pattern. A buffer or string is the list of its bytes. A writer returns the
-- buffer that it has appended to. A reader takes the buffer and an offset and returns an Outcome: a
-- value with the new offset, an exception, or `undefined` for what the C++ standard leaves undefined,
-- such as a shift by the width of the type, a shift left of a negative number or an index past the end
-- of a vector. What a reader did to
-- the caller's offset before it threw is not kept, since no caller reads on after an exception. A
-- socket is the list of the bytes that the peer sends, with the number of bytes received as the
-- offset; in Socket the operating system moves them in chunks. A pointer to a server is the server,
-- and `nullptr` is `none`. A function that changes an object returns the new state. What the network
-- does is an argument of the choice of a connection, and so is the number that std::rand returns of
-- the random strategy. What OpenSSL computes is a record of functions that may fail, an argument of
-- the definitions that call it; whether a `send` returns is a function of the bytes that are sent. In
-- Socket the answers of the operating system and of the name service are arguments.
--
-- The loop of writeVInt recurs on the value, which falls; the loops that read recur on the rest of the
-- buffer or on the count that they count down. The read loop takes fuel, one unit for a round. Each
-- round that goes on takes a byte at least, so one unit more than there are bytes is enough; so it is
-- for the loops of Socket, and for the loop of Retry one unit more than there are attempts. The step
-- relation counts its steps, of which there are fewer than 2^64, so that no message id comes round
-- again.
--
-- Not modelled: the branches for Windows and the flags of a socket (src/transport/Connection.cpp), the
-- cryptography of OpenSSL, a `connect` of a connection whose read thread has not been joined, the
-- timing of threads, memory exhaustion, and the text that is appended to an exception's message.
pub mod Base
pub mod Codec
pub mod Header
pub mod Failure
pub mod Selection
pub mod Topology
pub mod Selector
pub mod Stream
pub mod Socket
pub mod Announcement
pub mod Murmur
pub mod Retry
pub mod Routing
pub mod Cache
pub mod Operations
pub mod Auth
pub mod Multiplex
pub mod Scram
pub mod Sasl
pub mod Calls
pub mod Client

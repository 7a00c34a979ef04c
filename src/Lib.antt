-- ===== src/Lib.antt =====
-- game_network: a library for games in which a server and its clients run in lockstep. Each side has an
-- application thread and servicer threads. A client's low-latency servicer collects the states of the
-- player's controller, one bit vector for each game tick, and sends all that are not acknowledged in one
-- UDP datagram, compressed; the server's low-latency servicer decompresses them, passes new ones on to
-- its application thread, acknowledges the newest tick, and sends world states back.
-- The reliable servicers let a client in and carry chat messages over TCP.
--
-- Files, and the code that each models:
-- * BitVec.antt (src/bitvec.rs): `BitVec` and its iterator. A method that changes its object is a
--   function to the changed object. BitVec/View says which values are well-formed and what bits they
--   hold; Push, Get, Loops and Canonical are about `push`, `get`, the loops of `append` and `range`,
--   and `==`; Built is about what all of them can make, and Lists
--   about well-formed values as lists of bits.
-- * Compressed.antt (src/bitvec.rs): `CompressedBitVec` with `compress` and `decompress`.
--   Compressed/Format has the format of a payload as
--   a relation, without loops or indices; Encode and Decode relate the two loops to it, RoundTrip
--   joins them, Sizes is about elements of different sizes, and Oversized about an element size near the
--   end of `usize`.
-- * Control.antt (src/control.rs): `ControllerSequence` and its compressed form, with Control/Ticks and
--   Control/Transfer.
-- * Msg.antt (src/msg.rs): messages and errors. `Drop` is `Dropped`.
-- * Util.antt (src/util.rs): draining channels and receiving from UDP.
-- * Client/LowLatency.antt (src/client/low_latency.rs) and Server/LowLatency.antt
--   (src/server/low_latency.rs): the UDP servicers, method by method; Server/Messages.antt has the
--   messages of src/server/mod.rs.
-- * Client/Reliable.antt (src/client/reliable.rs) and, for src/server/reliable.rs, Server/Join.antt
--   (how a client is let in), Server/Reliable.antt (the TCP servicer; Admit has its `new` and its
--   thread) and Server/Listener.antt (`listen`; Threads has `Servicer::listen`). Server/Reliable/Round
--   is about one round, Spin about the loop, Forward and Chat about the messages to and from the client.
-- * Client.antt (src/client/mod.rs; Client/Start has its `connect`) and Server.antt
--   (src/server/mod.rs): the objects that the application holds. Client/Mailbox, Inputs, Shutdown and
--   Quit are about what the client's object hands out, what it passes on, and how it ends;
--   Server/Shutdown and Server/Quit about how the server's ends.
-- * The modules called Unread are about reads into a vector without places, those called Malformed about
--   values that no method makes but a datagram may carry, and those called Quiet about the last rounds
--   of the low-latency servicers.
-- * Exchange.antt (several parts together) follows a client's sequence to the server's application
--   thread and back; Exchange/World follows a world state to the game, Exchange/Chat a chat message
--   from the server to the game, Exchange/Inputs what a player enters up to the datagram that carries it,
--   and Exchange/Acknowledge a sequence and the acknowledgement that comes back.
-- * Network.antt (several parts together): the low-latency servicers of one server and of any number of
--   clients as one system, whose steps are rounds of a servicer and what the network, the players and
--   the server's application may do between them. Network/Safety, Progress and Order are about
--   all systems that steps lead to; Msg/Genuine is about what datagrams of a client are, and the modules
--   called Faithful, Rounds and Ends are about single rounds of the servicers.
-- * Std.antt, Std/Tcp.antt, Server/Bidir.antt and the interfaces `Bincode` (Msg.antt), `Spmc` and
--   `SpmcSender` (Util.antt): what stands outside. A socket, a stream or an `mpsc` channel end is a record
--   of what it will deliver and of what went through it. The crates bincode, bidir-map and spmc are
--   parameters, with what they document as hypotheses: `IsLawful`, `IsBidirectional`, `IsQueue`,
--   `IsChannel`.
-- * Prelude, Exec: outcomes (`Run`: a value, a panic, or fuel used up), checked and wrapping arithmetic of
--   the two Cargo profiles, and methods that return a `Result` and keep what they changed before an
--   error. Samples.antt, the Tests modules and those
--   called Runs have concrete values and rounds. The UnitTests modules are the source's own tests, each
--   a run that ends where the test passes.
--
-- Numbers: `usize` has 64 bits; addition, subtraction and multiplication on it and on `u8` panic in a
-- debug build and wrap in a release build.
--
-- Fuel: `append` runs on 32 rounds for each word of storage and one more, which is always enough for a
-- well-formed `BitVec`. `decompress` needs more fuel than the payload has bits, and a drain more than
-- there are messages; both take their fuel as an argument. `rounds_left` is the fuel of the loops that
-- wait for a join message, which need a round more than the stream has segments, and of the drains in
-- the methods that call them. `spin` runs on the list of what happens before each round, and `listen` on
-- the list of its connections, each with the flag as it is after it.
--
-- Not modelled: the threads themselves (what another thread does between two steps is an argument, and a
-- started thread is a function of its own), pauses, logging, the crate root src/lib.rs, the example,
-- and the two tests that send a datagram over a socket of the operating system to itself.
-- A read timeout or non-blocking read of a socket is an empty inbox. A wait for
-- messages that nobody sends, as in `receive_iter` of the server's object, uses up the fuel.
pub mod Prelude
pub mod BitVec
pub mod Compressed
pub mod Control
pub mod Std
pub mod Exec
pub mod Msg
pub mod Util
pub mod Client
pub mod Server
pub mod Exchange
pub mod Network
pub mod Samples

-- ===== src/Server/Listener/Threads.antt =====
-- `Servicer::listen` of src/server/reliable.rs: the listener with a servicer for each of its connections.
use game_network.Prelude.{
  ℕ, ◌≡◌, ◌<◌, Bool, true, false, Option, none, List, [], ◌∷◌, ◌++◌, Run, done, length, All,
}
use game_network.Std.{Result, ok, IoError, Sender}
use game_network.Std.Tcp.{TcpStream}
use game_network.Msg.{Bincode, IsLawful}
use game_network.Util.{Spmc}
use game_network.Server.Messages.{ServicerMessage}
use game_network.Server.Reliable.{ApplicationMessage, Servicer}
use game_network.Server.Reliable.Admit.{serve}
use game_network.Server.Reliable.Admit.Unread.{serve_ends}
use game_network.Server.Listener.{listen}
use game_network.Server.Listener.Accepts.{accepted, stream_of, Ends, listen_lem}

module _ (bincode : Bincode) (spmc : Spmc ApplicationMessage) (rounds_left : ℕ) where
  module _ (to_application : Sender ServicerMessage) (from_application : spmc.State) (udp_port : ℕ)
      (arrivals : TcpStream → List (Servicer spmc → Servicer spmc)) where
    -- The closure that `listen` is given: a servicer on clones of the channel ends. What the rest of the
    -- program does between its rounds depends on the connection.
    pub thread : TcpStream → Run (Option (Servicer spmc))
    thread stream =
        serve bincode spmc rounds_left (arrivals stream) stream true to_application from_application
          udp_port

    pub listen_and_serve :
        Result (Unit {0}) IoError
        → List (Result TcpStream IoError × Bool)
        → Run (Result (List TcpStream) IoError)
    unfolding thread
    listen_and_serve = listen thread

    module _ (lawful : IsLawful bincode.reliable_client) where
      thread-Ends :
          (streams : List TcpStream)
          → All (λ stream. length stream.incoming < rounds_left) streams
          → All (Ends thread) streams
      unfolding thread
      thread-Ends [] enough = tt
      thread-Ends (stream ∷ rest) enough = (
        (
          none,
          serve_ends bincode spmc lawful rounds_left stream true to_application from_application
              udp_port (arrivals stream) enough.0,
        ),
        thread-Ends rest enough.1,
      )

      -- `Servicer::listen`, on a listener that can be set nonblocking, with a lawful wire form of
      -- the requests and more rounds than any of the streams has segments: the loop ends with the
      -- first connection behind which the flag is off, whatever comes later; it has started a
      -- thread for each connection up to then that came about, in order, has skipped those that did
      -- not, and its join of these threads ends without a panic.
      pub listen_and_serve_lem :
          (before : List (Result TcpStream IoError × Bool)) (last : Result TcpStream IoError)
          (after : List (Result TcpStream IoError × Bool))
          → All (λ c. c.1 ≡ true) before
          → All (λ stream. length stream.incoming < rounds_left) (accepted before ++ stream_of last)
          → listen_and_serve (ok tt) (before ++ (last, false) ∷ after)
            ≡ done (ok (accepted before ++ stream_of last))
      unfolding listen_and_serve
      listen_and_serve_lem before last after running enough =
          listen_lem thread before last after running
            (thread-Ends (accepted before ++ stream_of last) enough)

-- ===== src/Server/Reliable/Admit/Unread.antt =====
-- What becomes of the thread that `Servicer::listen` of src/server/reliable.rs starts for a connection: the
-- join request is read into a new vector, which has no places.
use game_network.Prelude.{ℕ, ◌≡◌, ◌<◌, Bool, List, none, done, length}
use game_network.Std.{err, Sender}
use game_network.Std.Tcp.{TcpStream}
use game_network.Msg.{CommError, Bincode, IsLawful}
use game_network.Util.{Spmc}
use game_network.Server.Messages.{ServicerMessage}
use game_network.Server.Join.Unread.{negotiate_fails}
use game_network.Server.Reliable.{ApplicationMessage, Servicer}
use game_network.Server.Reliable.Admit.{new, made, served, serve}

module _ (bincode : Bincode) (spmc : Spmc ApplicationMessage)
    (lawful : IsLawful bincode.reliable_client) (rounds_left : ℕ) (tcp_stream : TcpStream)
    (server_running : Bool) (to_application : Sender ServicerMessage)
    (from_application : spmc.State) (server_udp_port : ℕ) where
  -- No client is let in: with a round for every segment of the stream, `new` answers with an error.
  new_fails :
      length tcp_stream.incoming < rounds_left
      → (e : CommError bincode.Error) × (new bincode spmc rounds_left tcp_stream server_running
            to_application from_application server_udp_port
          ≡ done (err e))
  unfolding new made
  new_fails enough =
      let (e, t, runs) =
        negotiate_fails bincode lawful rounds_left server_udp_port tcp_stream enough in
      (e, rw runs)

  -- With a lawful wire form of the requests and more rounds than the stream has segments, the
  -- thread for a connection ends without a servicer, whatever the client sends: the join request is
  -- read into a vector without places.
  pub serve_ends :
      (arrivals : List (Servicer spmc → Servicer spmc))
      → length tcp_stream.incoming < rounds_left
      → serve bincode spmc rounds_left arrivals tcp_stream server_running to_application
          from_application server_udp_port
        ≡ done none
  unfolding serve served
  serve_ends arrivals enough = let (e, runs) = new_fails enough in rw runs

-- ===== src/Client/Start/Unread.antt =====
-- What `Client::connect` of src/client/mod.rs comes to.
use Prim.Native.String.{String}
use game_network.Prelude.{ℕ, suc, ◌≡◌, refl, Run, done}
use game_network.Std.{Result, ok, err, IoError, SocketAddr, UdpSocket}
use game_network.Std.Tcp.{TcpStream}
use game_network.Msg.{CommError, from, Bincode}
use game_network.Client.Start.{Answers, Connected, reach, joined, connect}
use game_network.Client.Reliable
use game_network.Client.Reliable.Join.{connect_fails}

module _ (bincode : Bincode) (rounds_left : ℕ) (username password : String)
    (server_addr : SocketAddr) (answers : Answers) where
  abbrev Fails : Run (Result Connected (CommError bincode.Error)) → Type 0
  Fails r = (e : CommError bincode.Error) × (r ≡ done (err e))

  joined-Fails :
      (udp_socket : UdpSocket) (r : Run (Result Reliable.Servicer (CommError bincode.Error)))
      → (e : CommError bincode.Error) × (r ≡ done (err e))
      → Fails (joined bincode answers server_addr udp_socket r)
  unfolding joined
  joined-Fails udp_socket r (e, runs) = (e, rw runs)

  reach-Fails :
      (bind : Result UdpSocket IoError) (local_addr : Result SocketAddr IoError)
      (tcp_connect : Result TcpStream IoError)
      → Fails (
          reach bincode
            (suc rounds_left)
            username
            password
            answers
            server_addr
            bind
            local_addr
            tcp_connect)
  unfolding reach
  reach-Fails (err e) local_addr tcp_connect = (from e, refl)
  reach-Fails (ok udp_socket) (err e) tcp_connect = (from e, refl)
  reach-Fails (ok udp_socket) (ok local_udp_addr) (err e) = (from e, refl)
  reach-Fails (ok udp_socket) (ok local_udp_addr) (ok tcp_stream) =
      joined-Fails udp_socket _ (connect_fails bincode rounds_left _ server_addr tcp_stream _ _)

  -- With at least one round for the join response, `Client::connect` always returns an error,
  -- whatever the system and the server answer: the join response is read into a vector without
  -- places, which counts as a closed stream.
  pub client_connect-Fails :
      Fails (connect bincode (suc rounds_left) username password server_addr answers)
  unfolding connect
  client_connect-Fails = reach-Fails answers.bind answers.local_addr answers.tcp_connect

-- ===== src/Client/Start.antt =====
-- `connect` of src/client/mod.rs.
pub mod Unread
use Prim.Native.String.{String}
use game_network.Prelude.{ℕ, true, false, Option, none, some, [], Run, done, panic, timeout}
use game_network.Std.{Result, ok, err, IoError, SocketAddr, set_port, UdpSocket, Sender, Receiver}
use game_network.Std.Tcp.{TcpStream}
use game_network.Control
use game_network.Msg.{CommError, from, Bincode}
use game_network.Client.LowLatency
use game_network.Client.Reliable
use game_network.Client.{Client}

-- Both ends of a new channel.
abbrev sender : {M : Type 0} → Sender M
sender = record { sent = []; receiver_alive = true }

abbrev receiver : {M : Type 0} → Receiver M
receiver = record { queue = []; sender_alive = true }

-- What `connect` starts: the object, and the servicers that were moved to their threads.
pub record Connected : Type 0 where
  pub client : Client
  pub reliable_servicer : Reliable.Servicer
  pub low_latency_servicer : LowLatency.Servicer

-- The answers of the system to the calls of `connect`. The last three are those of the low-latency
-- servicer.
pub record Answers : Type 0 where
  pub bind : Result UdpSocket IoError
  pub local_addr : Result SocketAddr IoError
  pub tcp_connect : Result TcpStream IoError
  pub udp_connect : Result (Unit {0}) IoError
  pub timeout_set : Result (Unit {0}) IoError
  pub udp_local_addr : Result SocketAddr IoError

put_together : Client
put_together = record {
  seq = Control.new;
  chat_history = [];
  world_state = none;
  shutdown = false;
  from_reliable_servicer = receiver;
  to_reliable_servicer = sender;
  from_low_latency_servicer = receiver;
  to_low_latency_servicer = sender;
}

module _ (bincode : Bincode) where
  open bincode use {Error}

  -- `connect` from the answer of the low-latency servicer's `connect` on.
  together :
      Reliable.Servicer → Result LowLatency.Servicer IoError → Result Connected (CommError Error)
  unfolding put_together
  together re (err e) = err (from e)
  together re (ok ll) =
      ok (record { client = put_together; reliable_servicer = re; low_latency_servicer = ll })

  -- `server_udp_port().unwrap()`, and the low-latency servicer.
  to_udp :
      Answers
      → SocketAddr
      → UdpSocket
      → Reliable.Servicer
      → Option ℕ
      → Run (Result Connected (CommError Error))
  unfolding together
  to_udp answers server_addr udp_socket re none = panic
  to_udp answers server_addr udp_socket re (some server_udp_port) = done (
      together re (
        LowLatency.connect udp_socket (set_port server_addr server_udp_port) sender receiver
          answers.udp_connect answers.timeout_set answers.udp_local_addr))

  joined :
      Answers
      → SocketAddr
      → UdpSocket
      → Run (Result Reliable.Servicer (CommError Error))
      → Run (Result Connected (CommError Error))
  unfolding to_udp
  joined answers server_addr udp_socket (done (ok re)) =
      to_udp answers server_addr udp_socket re re.server_udp_port
  joined answers server_addr udp_socket (done (err e)) = done (err e)
  joined answers server_addr udp_socket panic = panic
  joined answers server_addr udp_socket timeout = timeout

  reach :
      ℕ
      → String
      → String
      → Answers
      → SocketAddr
      → Result UdpSocket IoError
      → Result SocketAddr IoError
      → Result TcpStream IoError
      → Run (Result Connected (CommError Error))
  unfolding joined
  reach rounds_left username password answers server_addr (err e) local_addr tcp_stream =
      done (err (from e))
  reach rounds_left username password answers server_addr (ok udp_socket) (err e) tcp_stream =
      done (err (from e))
  reach rounds_left username password answers server_addr (ok udp_socket) (ok local_udp_addr)
        (err e) =
      done (err (from e))
  reach rounds_left username password answers server_addr (ok udp_socket) (ok local_udp_addr)
        (ok tcp_stream) =
      joined answers server_addr udp_socket (
        Reliable.connect bincode rounds_left
          (record {
            username = record { name = username };
            password = password;
            udp_port = local_udp_addr.port;
          })
          server_addr tcp_stream sender receiver)

  pub connect :
      ℕ → String → String → SocketAddr → Answers → Run (Result Connected (CommError Error))
  unfolding reach
  connect rounds_left username password server_addr answers =
      reach rounds_left username password answers server_addr answers.bind answers.local_addr
        answers.tcp_connect

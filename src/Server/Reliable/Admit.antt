-- ===== src/Server/Reliable/Admit.antt =====
-- `new` of src/server/reliable.rs, and the thread that runs a servicer. `rounds_left` bounds the loops that
-- wait for a join request and drain the queue.
pub mod Unread
use game_network.Prelude.{ℕ, Bool, false, Option, none, some, List, Run, done, panic, timeout}
use game_network.Std.{Result, ok, err, Sender}
use game_network.Std.Tcp.{TcpStream}
use game_network.Msg.{ClientData, CommError, Bincode}
use game_network.Server.Join.{negotiate}
use game_network.Util.{Spmc}
use game_network.Server.Messages.{ServicerMessage, client_data}
use game_network.Server.Messages as Messages
use game_network.Server.Reliable.{ApplicationMessage, Servicer, Method, send_to_application, spin}

module _ (bincode : Bincode) (spmc : Spmc ApplicationMessage) where
  open bincode use {Error}

  -- The end of `new`: the application thread hears of the client.
  pub announce : ClientData → Method bincode spmc (Unit {0})
  unfolding send_to_application
  announce data' =
      send_to_application bincode spmc
        (record { author = data'.username; payload = client_data data' })

  announced :
      Run (Result (Unit {0}) (CommError Error) × Servicer spmc)
      → Run (Result (Servicer spmc) (CommError Error))
  announced (done (ok _, s)) = done (ok s)
  announced (done (err e, s)) = done (err e)
  announced panic = panic
  announced timeout = timeout

  pub made :
      Bool
      → Sender ServicerMessage
      → spmc.State
      → Run (Result ClientData (CommError Error) × TcpStream)
      → Run (Result (Servicer spmc) (CommError Error))
  unfolding announced
  made server_running to_application from_application (done (err e, stream)) = done (err e)
  made server_running to_application from_application (done (ok data', stream)) = announced (
      announce data' (record {
        tcp_stream = stream;
        server_running = server_running;
        to_application = to_application;
        from_application = from_application;
        user = data'.username;
        shutting_down = false;
      }))
  made server_running to_application from_application panic = panic
  made server_running to_application from_application timeout = timeout

  pub new :
      ℕ
      → TcpStream
      → Bool
      → Sender ServicerMessage
      → spmc.State
      → ℕ
      → Run (Result (Servicer spmc) (CommError Error))
  unfolding made
  new rounds_left tcp_stream server_running to_application from_application server_udp_port =
      made server_running to_application from_application
        (negotiate bincode rounds_left server_udp_port tcp_stream)

  -- The thread that `Servicer::listen` starts for a connection.
  served :
      ℕ
      → List (Servicer spmc → Servicer spmc)
      → Run (Result (Servicer spmc) (CommError Error))
      → Run (Option (Servicer spmc))
  served rounds_left arrivals (done (ok servicer)) =
      elim (spin bincode spmc rounds_left arrivals servicer) [
        | done s ↦ done (some s)
        | panic ↦ panic
        | timeout ↦ timeout
      ]
  served rounds_left arrivals (done (err e)) = done none
  served rounds_left arrivals panic = panic
  served rounds_left arrivals timeout = timeout

  pub serve :
      ℕ
      → List (Servicer spmc → Servicer spmc)
      → TcpStream
      → Bool
      → Sender ServicerMessage
      → spmc.State
      → ℕ
      → Run (Option (Servicer spmc))
  unfolding served
  serve rounds_left arrivals stream server_running to_app from_app udp_port =
      served rounds_left arrivals (new rounds_left stream server_running to_app from_app udp_port)

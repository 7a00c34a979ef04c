-- ===== src/Server/Join.antt =====
-- How a servicer of src/server/reliable.rs lets its client in: the part of `new` on the TCP stream.
-- `rounds_left` bounds the loop that waits for the join request.
pub mod Unread
mod Tests
use game_network.Prelude.{ℕ, zero, suc, List, Run, done, timeout}
use game_network.Std.{Result, ok, err, map_err, IoError, SocketAddr, set_port}
use game_network.Std.Tcp.{TcpStream, read, write}
use game_network.Exec.{Exec, pure, lift, ◌>>=◌, ◌>>◌}
use game_network.Msg.{
  ClientData, Credentials, CommError, warning, dropped, exit, failed_to_deserialize,
  failed_to_serialize, wrong_message_type, from, confirmation, ReliableClientMessage, chat_message,
  join_request, join_response, Bincode,
}

module _ (bincode : Bincode) where
  open bincode use {Error, reliable_client, reliable_server}

  pub authenticate_user : SocketAddr → Credentials → Result ClientData (CommError Error)
  authenticate_user client_address cred =
      ok (record { username = cred.username; udp_addr = set_port client_address cred.udp_port })

  only_join : ReliableClientMessage → Result Credentials (CommError Error)
  only_join (join_request cred) = ok cred
  only_join (chat_message msg) = err (warning wrong_message_type)

  joined : Result ReliableClientMessage Error → Result Credentials (CommError Error)
  unfolding only_join
  joined (ok m) = only_join m
  joined (err e) = err (warning (failed_to_deserialize e))

  pub expect_join_request : List ℕ → Result Credentials (CommError Error)
  unfolding joined
  expect_join_request buf = joined (reliable_client.deserialize buf)

  -- The `match` on the converted error of a read; `again` is the next round.
  refused :
      (TcpStream → Run (Result Credentials (CommError Error) × TcpStream))
      → CommError Error
      → TcpStream
      → Run (Result Credentials (CommError Error) × TcpStream)
  refused again (dropped d) stream = done (err (dropped d), stream)
  refused again (warning w) stream = again stream
  refused again exit stream = done (err exit, stream)

  wait_match :
      (TcpStream → Run (Result Credentials (CommError Error) × TcpStream))
      → Result (List ℕ) IoError × TcpStream
      → Run (Result Credentials (CommError Error) × TcpStream)
  unfolding refused
  wait_match again (ok buf, stream) = done (expect_join_request buf, stream)
  wait_match again (err e, stream) = refused again (from e) stream

  -- The buffer is a new vector in each round, without places.
  pub wait_for_join_request : ℕ → Exec TcpStream (CommError Error) Credentials
  unfolding wait_match
  wait_for_join_request zero stream = timeout
  wait_for_join_request (suc rounds_left) stream =
      wait_match (wait_for_join_request rounds_left) (read 0 stream)

  -- The answer to the client: the port of the server.
  pub confirm : ℕ → Exec TcpStream (CommError Error) (Unit {0})
  confirm server_udp_port = do
    encoded_response ← lift (
        map_err (λ e. warning (failed_to_serialize e))
          (reliable_server.serialize (join_response (confirmation server_udp_port))))
    λ stream.
        let (answer, stream') = write encoded_response stream in
        done (elim answer [ ok n ↦ ok tt | err e ↦ err (from e) ], stream')

  -- `new` up to the making of the servicer.
  pub negotiate : ℕ → ℕ → Exec TcpStream (CommError Error) ClientData
  negotiate rounds_left server_udp_port = do
    client_tcp_address ← λ stream. done (map_err from stream.peer, stream)
    cred ← wait_for_join_request rounds_left
    client_data ← lift (authenticate_user client_tcp_address cred)
    confirm server_udp_port >> pure client_data

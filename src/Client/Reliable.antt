-- ===== src/Client/Reliable.antt =====
-- src/client/reliable.rs: the servicer that joins the server over TCP and passes chat messages on to the
-- application thread. `rounds_left` bounds the loop in which it waits for the answer. The pauses between
-- the rounds of `spin` are left out.
pub mod Join
pub mod Messages
use Prim.Native.String.{String}
use game_network.Prelude.{
  ℕ, zero, suc, Bool, true, false, Option, none, some, List, [], ◌∷◌, Run, done, panic, timeout,
}
use game_network.Std.{Result, ok, err, map_err, SocketAddr, Sender, send, Receiver}
use game_network.Std.Tcp.{TcpStream, read, write}
use game_network.Exec.{Exec, lift, rounds, within, ◌>>=◌, ◌>>◌}
use game_network.Msg.{
  Credentials, CommError, warning, dropped, exit, failed_to_deserialize, failed_to_serialize,
  application_thread_disconnected, from, JoinResponse, confirmation, authentication_error,
  join_request, ChatMessage, ReliableServerMessage, join_response, Bincode,
}

pub data ApplicationMessage : Type 0 where
  chat_message : String → ApplicationMessage

pub data ServicerMessage : Type 0 where
  chat_message : ChatMessage → ServicerMessage

pub record Servicer : Type 0 where
  pub tcp_stream : TcpStream
  pub to_application : Sender ServicerMessage
  pub from_application : Receiver ApplicationMessage
  pub server_udp_port : Option ℕ

module _ (bincode : Bincode) where
  open bincode use {Error, reliable_client, reliable_server}

  -- `receive_server_message` from the number of bytes read on.
  pub understand : List ℕ → Result ReliableServerMessage (CommError Error)
  understand [] = err exit
  understand (b ∷ bs) =
      map_err (λ e. warning (failed_to_deserialize e)) (reliable_server.deserialize (b ∷ bs))

  -- `Vec::<u8>::new()` is the buffer: it has no places.
  read_new : Exec TcpStream (CommError Error) (List ℕ)
  read_new s = let (answer, s') = read 0 s in done (map_err from answer, s')

  pub receive_server_message : Exec TcpStream (CommError Error) ReliableServerMessage
  unfolding read_new understand
  receive_server_message = do buf ← read_new; lift (understand buf)

  abbrev pub Method : Type 0 → Type 0
  Method = Exec Servicer (CommError Error)

  receive : Method ReliableServerMessage
  receive = within (λ s. s.tcp_stream) (λ t s. record s { tcp_stream = t }) receive_server_message

  pub handle_join_response : JoinResponse → Method (Unit {0})
  handle_join_response (confirmation port) s =
      done (ok tt, record s { server_udp_port = some port })
  handle_join_response authentication_error s = done (err exit, s)

  pub handle_chat_message : ChatMessage → Method (Unit {0})
  handle_chat_message chat s =
      let (answer, sender) = send (chat_message chat) s.to_application in
      done (
        map_err (λ _. dropped application_thread_disconnected) answer,
        record s { to_application = sender },
      )

  -- The `match` of `spin_once`.
  pub handle_server_message : ReliableServerMessage → Method (Unit {0})
  unfolding handle_join_response handle_chat_message
  handle_server_message (join_response response) = handle_join_response response
  handle_server_message (ReliableServerMessage.chat_message chat) = handle_chat_message chat

  pub spin_once : Method (Unit {0})
  unfolding receive
  spin_once = do message ← receive; handle_server_message message

  -- The join request goes out by one `write`, whose count of bytes is ignored.
  pub send_request : Credentials → Exec TcpStream (CommError Error) (Unit {0})
  send_request cred = do
    encoded_request ← lift (
        map_err (λ e. warning (failed_to_serialize e))
          (reliable_client.serialize (join_request cred)))
    λ s.
        let (answer, s') = write encoded_request s in
        done (elim answer [ ok n ↦ ok tt | err e ↦ err (from e) ], s')

  -- One answer of `spin_once` in the loop that waits for the join response.
  await :
      (Servicer → Run (Result Servicer (CommError Error)))
      → Run (Result (Unit {0}) (CommError Error) × Servicer)
      → Run (Result Servicer (CommError Error))
  await again (done (err e, s)) = done (err e)
  await again (done (ok _, s)) = elim s.server_udp_port [ some port ↦ done (ok s) | none ↦ again s ]
  await again panic = panic
  await again timeout = timeout

  pub wait_for_join : ℕ → Servicer → Run (Result Servicer (CommError Error))
  unfolding await
  wait_for_join zero s = timeout
  wait_for_join (suc rounds_left) s = await (wait_for_join rounds_left) (spin_once s)

  -- `connect` behind the request.
  joining :
      ℕ
      → Sender ServicerMessage
      → Receiver ApplicationMessage
      → Run (Result (Unit {0}) (CommError Error) × TcpStream)
      → Run (Result Servicer (CommError Error))
  joining rounds_left to_application from_application (done (err e, stream)) = done (err e)
  joining rounds_left to_application from_application (done (ok _, stream)) =
      wait_for_join rounds_left (record {
        tcp_stream = stream;
        to_application = to_application;
        from_application = from_application;
        server_udp_port = none;
      })
  joining rounds_left to_application from_application panic = panic
  joining rounds_left to_application from_application timeout = timeout

  pub connect :
      ℕ
      → Credentials
      → SocketAddr
      → TcpStream
      → Sender ServicerMessage
      → Receiver ApplicationMessage
      → Run (Result Servicer (CommError Error))
  unfolding joining
  connect rounds_left cred server_addr tcp_stream to_application from_application =
      joining rounds_left to_application from_application (send_request cred tcp_stream)

  goes_on : Result (Unit {0}) (CommError Error) → Bool
  goes_on (ok _) = true
  goes_on (err e) = false

  pub spin : List (Servicer → Servicer) → Servicer → Run (Bool × Servicer)
  unfolding goes_on
  spin = rounds goes_on spin_once

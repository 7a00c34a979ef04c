-- ===== src/Server/Reliable.antt =====
-- src/server/reliable.rs: the servicer of one client over TCP. Join.antt has how it lets the client in and
-- Listener.antt the loop that starts a servicer for each connection. `rounds_left` bounds the loop that
-- drains the queue.
pub mod Round
pub mod Spin
pub mod Forward
pub mod Chat
pub mod Admit
mod Tests
use Prim.Native.String.{String}
use game_network.Prelude.{
  ℕ, Bool, true, false, List, [], ◌∷◌, if◌then◌else◌, Run, done, panic, timeout,
}
use game_network.Std.{Result, ok, err, map_err, Sender, send}
use game_network.Std.Tcp.{TcpStream, read, write_all}
use game_network.Exec.{Exec, pure, raise, lift, call, within, ◌>>=◌, ◌>>◌}
use game_network.Msg.{
  Username, eq_user, CommError, warning, dropped, exit, failed_to_deserialize, failed_to_serialize,
  Dropped, already_connected, application_thread_disconnected, from, ReliableClientMessage,
  chat_message, join_request, ReliableServerMessage, Bincode,
}
use game_network.Util.{Spmc, drain_spmc_receiver}
use game_network.Server.Messages.{ServicerMessage}
use game_network.Server.Messages as Messages

pub record ToClient : Type 0 where
  pub to : Username
  pub payload : ReliableServerMessage

pub data ApplicationMessage : Type 0 where
  to_client : ToClient → ApplicationMessage

-- `server_running` is the value of the flag that the servicers share with the listener.
pub record Servicer (spmc : Spmc ApplicationMessage) : Type 0 where
  pub tcp_stream : TcpStream
  pub server_running : Bool
  pub to_application : Sender ServicerMessage
  pub from_application : spmc.State
  pub user : Username
  pub shutting_down : Bool

module _ (bincode : Bincode) (spmc : Spmc ApplicationMessage) where
  open bincode use {Error, reliable_client, reliable_server}

  abbrev pub Method : Type 0 → Type 0
  Method = Exec (Servicer spmc) (CommError Error)

  send_to_application : ServicerMessage → Method (Unit {0})
  send_to_application m s =
      let (answer, sender) = send m s.to_application in
      done (
        map_err (λ _. dropped application_thread_disconnected) answer,
        record s { to_application = sender },
      )

  drain : ℕ → Method (Result (List ApplicationMessage) Dropped)
  drain rounds_left s =
      call (λ receiver s. record s { from_application = receiver })
        (drain_spmc_receiver spmc rounds_left s.from_application) s

  -- A failed write: the converted error is passed on unless it is a warning.
  write_failure : CommError Error → Result (Unit {0}) (CommError Error)
  write_failure (warning w) = ok tt
  write_failure (dropped d) = err (dropped d)
  write_failure exit = err exit

  transmit : List ℕ → Method (Unit {0})
  unfolding write_failure
  transmit encoded_response s =
      let (answer, stream) = write_all encoded_response s.tcp_stream in
      done (
        elim answer [ ok _ ↦ ok tt | err e ↦ write_failure (from e) ],
        record s { tcp_stream = stream },
      )

  pub send_message : ReliableServerMessage → Method (Unit {0})
  unfolding transmit
  send_message msg = do
    encoded_response ←
        lift (map_err (λ e. warning (failed_to_serialize e)) (reliable_server.serialize msg))
    transmit encoded_response

  -- `if to_client.to == self.user`
  forward : ToClient → Method (Unit {0})
  forward m s = if eq_user m.to s.user then send_message m.payload s else done (ok tt, s)

  pub forward_all : List ApplicationMessage → Method (Unit {0})
  unfolding forward
  forward_all [] = pure tt
  forward_all (to_client m ∷ msgs) = forward m >> forward_all msgs

  pub handle_chat_message : String → Method (Unit {0})
  unfolding send_to_application
  handle_chat_message msg s =
      send_to_application
        (record { author = s.user; payload = Messages.ServicerPayload.chat_message msg }) s

  handle_client_message : ReliableClientMessage → Method (Unit {0})
  handle_client_message (chat_message msg) = handle_chat_message msg
  handle_client_message (join_request cred) = raise (dropped already_connected)

  -- `spin_once` behind the read.
  pub process : List ℕ → Method (Unit {0})
  unfolding handle_client_message
  process buf = do
    client_message ←
        lift (map_err (λ e. warning (failed_to_deserialize e)) (reliable_client.deserialize buf))
    handle_client_message client_message

  -- The buffer is a new vector, without places.
  read_new : Exec TcpStream (CommError Error) (List ℕ)
  read_new stream = let (answer, stream') = read 0 stream in done (map_err from answer, stream')

  receive : Method (List ℕ)
  unfolding read_new
  receive = within (λ s. s.tcp_stream) (λ t s. record s { tcp_stream = t }) read_new

  pub spin_once : ℕ → Method (Unit {0})
  unfolding drain receive
  spin_once rounds_left = do
    answer ← drain rounds_left
    elim answer [
      | ok msg_vec ↦ (do forward_all msg_vec; buf ← receive; process buf)
      | err d ↦ raise (dropped d)
    ]

  pub shutdown : Servicer spmc → Servicer spmc
  shutdown s = record s { shutting_down = true }

  -- The rest of a round of `spin`: an exit shuts down, and so does the flag of the server.
  after_round : Result (Unit {0}) (CommError Error) → Servicer spmc → Servicer spmc
  unfolding shutdown
  after_round (err exit) s = shutdown s
  after_round _ s = s

  check_running : Servicer spmc → Servicer spmc
  unfolding shutdown
  check_running s = if s.server_running then s else shutdown s

  next_round :
      (Servicer spmc → Run (Servicer spmc))
      → Run (Result (Unit {0}) (CommError Error) × Servicer spmc)
      → Run (Servicer spmc)
  unfolding after_round check_running
  next_round again (done (answer, s)) = again (check_running (after_round answer s))
  next_round again panic = panic
  next_round again timeout = timeout

  -- The loop of `spin`, with what the other threads and the client do before each round. When these
  -- steps are used up, `shutting_down` tells whether the loop has ended.
  pub spin : ℕ → List (Servicer spmc → Servicer spmc) → Servicer spmc → Run (Servicer spmc)
  unfolding next_round
  spin rounds_left [] s = done s
  spin rounds_left (arrive ∷ rest) s = elim s.shutting_down [
    | true ↦ done s
    | false ↦ next_round (spin rounds_left rest) (spin_once rounds_left (arrive s))
  ]

-- ===== src/Client/LowLatency.antt =====
-- src/client/low_latency.rs: the servicer that exchanges controller inputs and world states with the
-- server over UDP. Draining its queue takes one round more than there are messages.
pub mod Messages
pub mod Receive
pub mod Packets
pub mod Quiet
pub mod Faithful
pub mod Ends
pub mod Runs
mod Tests
use game_network.Prelude.{
  ℕ, suc, Bool, true, false, List, [], ◌∷◌, length, ltb, if◌then◌else◌, Run, done, Build,
}
use game_network.Std.{
  Result, ok, err, map_err, ok_or, IoError, SocketAddr, UdpSocket, send_to, Sender, send, Receiver,
}
use game_network.Exec.{Exec, pure, raise, run, lift, gets, call, rounds, ◌>>=◌, ◌>>◌}
use game_network.BitVec.{BitVec}
use game_network.Control
use game_network.Control.{ControllerSequence}
use game_network.Msg.{
  CommError, warning, dropped, exit, failed_to_compress, failed_to_deserialize, failed_to_serialize,
  Dropped, application_thread_disconnected, from, controller_input, LowLatencyServerMessage,
  last_tick_received, Bincode,
}
use game_network.Util.{max_packet_size, drain_mpsc_receiver, maybe_receive_udp}

pub data ApplicationMessage : Type 0 where
  control : BitVec → ApplicationMessage

pub data ServicerMessage : Type 0 where
  world_state : List ℕ → ServicerMessage

pub record Servicer : Type 0 where
  pub receive_buf : List ℕ
  pub udp_socket : UdpSocket
  pub server_addr : SocketAddr
  pub self_addr : SocketAddr
  pub controller_seq : ControllerSequence
  pub to_application : Sender ServicerMessage
  pub from_application : Receiver ApplicationMessage

-- The three calls of the system that `connect` makes are given by their results.
pub connect :
    UdpSocket
    → SocketAddr
    → Sender ServicerMessage
    → Receiver ApplicationMessage
    → Result (Unit {0}) IoError
    → Result (Unit {0}) IoError
    → Result SocketAddr IoError
    → Result Servicer IoError
connect udp_socket server_addr to_application from_application (err e) timeout_set local = err e
connect udp_socket server_addr to_application from_application (ok _) (err e) local = err e
connect udp_socket server_addr to_application from_application (ok _) (ok _) (err e) = err e
connect udp_socket server_addr to_application from_application (ok _) (ok _) (ok local_addr) =
    ok (record {
      receive_buf = [];
      udp_socket = udp_socket;
      server_addr = server_addr;
      self_addr = local_addr;
      controller_seq = Control.new;
      to_application = to_application;
      from_application = from_application;
    })

push_message : ControllerSequence → ApplicationMessage → ControllerSequence
push_message c (control controller_state) = Control.push c controller_state

-- `for msg in msg_vec.drain(..)` over the controller sequence.
push_messages : ControllerSequence → List ApplicationMessage → ControllerSequence
unfolding push_message
push_messages c [] = c
push_messages c (m ∷ ms) = push_messages (push_message c m) ms

module _ (build : Build) (bincode : Bincode) where
  open bincode use {Error, low_latency_client, low_latency_server}

  abbrev pub Method : Type 0 → Type 0
  Method = Exec Servicer (CommError Error)

  set_controller_seq : ControllerSequence → Method (Unit {0})
  set_controller_seq c s = done (ok tt, record s { controller_seq = c })

  pub receive : Method (List ℕ)
  receive s =
      let (answer, socket) = maybe_receive_udp s.udp_socket in
      done (answer, record s { udp_socket = socket })

  deserialize : List ℕ → Method LowLatencyServerMessage
  deserialize buf =
      lift (map_err (λ e. warning (failed_to_deserialize e)) (low_latency_server.deserialize buf))

  send_to_application : ServicerMessage → Method (Unit {0})
  send_to_application m s =
      let (answer, sender) = send m s.to_application in
      done (
        map_err (λ _. dropped application_thread_disconnected) answer,
        record s { to_application = sender },
      )

  pub parse_server_message : LowLatencyServerMessage → Method (Unit {0})
  unfolding set_controller_seq send_to_application
  parse_server_message (LowLatencyServerMessage.world_state state) =
      send_to_application (world_state state)
  parse_server_message (last_tick_received tick) = do
    c ← gets (λ s. s.controller_seq)
    c' ← run (Control.remove_till_tick build c tick)
    set_controller_seq c'

  is_empty : List ℕ → Bool
  is_empty [] = true
  is_empty (b ∷ bs) = false

  pub forward_from_server_to_client : Method (Unit {0})
  unfolding receive deserialize is_empty
  forward_from_server_to_client = do
    buf ← receive
    if is_empty buf
        then pure tt
        else (do server_message ← deserialize buf; parse_server_message server_message)

  pub parse_application_messages : List ApplicationMessage → Method (Unit {0})
  unfolding set_controller_seq push_messages
  parse_application_messages msg_vec s =
      set_controller_seq (push_messages s.controller_seq msg_vec) s

  transmit : List ℕ → Method (Unit {0})
  transmit encoded s =
      let (answer, socket) = send_to encoded s.server_addr s.udp_socket in
      done (map_err from answer, record s { udp_socket = socket })

  pub send_controller_inputs : Method (Unit {0})
  unfolding transmit
  send_controller_inputs = do
    c ← gets (λ s. s.controller_seq)
    if Control.is_empty c then pure tt else (do
      compressed ← run (Control.to_compressed build c)
      payload ← lift (ok_or (warning failed_to_compress) compressed)
      encoded ← lift (
          map_err (λ e. warning (failed_to_serialize e))
            (low_latency_client.serialize (controller_input payload)))
      if ltb max_packet_size (length encoded) then raise exit else transmit encoded)

  drain : Method (Result (List ApplicationMessage) Dropped)
  drain s =
      call (λ receiver s. record s { from_application = receiver })
        (drain_mpsc_receiver (suc (length s.from_application.queue)) s.from_application) s

  pub forward_from_client_to_server : Method (Unit {0})
  unfolding drain
  forward_from_client_to_server = do
    answer ← drain
    elim answer [
      | ok msg_vec ↦ (do parse_application_messages msg_vec; send_controller_inputs)
      | err _ ↦ raise exit
    ]

  pub spin_once : Method (Unit {0})
  spin_once = do forward_from_server_to_client; forward_from_client_to_server; pure tt

  -- How a round of the loop of `spin` goes on: whether there is another.
  goes_on : Result (Unit {0}) (CommError Error) → Bool
  goes_on (ok _) = true
  goes_on (err (warning w)) = true
  goes_on (err (dropped d)) = false
  goes_on (err exit) = false

  -- The loop of `spin`.
  pub spin : List (Servicer → Servicer) → Servicer → Run (Bool × Servicer)
  unfolding goes_on
  spin = rounds goes_on spin_once

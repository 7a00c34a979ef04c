-- ===== src/Server/LowLatency.antt =====
-- src/server/low_latency.rs: the servicer that exchanges controller inputs and world states with all
-- clients over UDP. `fuel` bounds the loop of `decompress`, `rounds_left` that of a drain.
pub mod Parse
pub mod Input
pub mod Order
pub mod Delivery
pub mod Answers
pub mod Faithful
pub mod Rounds
pub mod Ends
pub mod Quiet
pub mod Malformed
pub mod Runs
mod Tests
mod UnitTests
use game_network.Prelude.{
  ℕ, Bool, true, false, Option, none, some, List, [], ◌∷◌, ltb, if◌then◌else◌, Run, done, Build,
}
use game_network.Std.{Result, ok, err, map_err, ok_or, SocketAddr, UdpSocket, send_to, Sender, send}
use game_network.Exec.{Exec, pure, raise, run, lift, gets, call, rounds, ◌>>=◌, ◌>>◌}
use game_network.Control
use game_network.Control.{CompressedControllerSequence}
use game_network.Msg.{
  Username, ClientData, CommError, warning, dropped, exit, io_failure, unknown_source,
  failed_to_decompress, failed_to_deserialize, failed_to_serialize, Dropped,
  LowLatencyClientMessage, controller_input, LowLatencyServerMessage, world_state, Bincode,
}
use game_network.Util.{Spmc, drain_spmc_receiver, maybe_receive_from_udp}
use game_network.Server.Bidir.{BidirMap}
use game_network.Server.Messages.{ServicerMessage, controller_sequence}

pub record ToClient : Type 0 where
  pub to : Username
  pub payload : LowLatencyServerMessage

pub data ApplicationMessage : Type 0 where
  to_client : ToClient → ApplicationMessage
  new_client : ClientData → ApplicationMessage
  client_disconnect : Username → ApplicationMessage

-- The two places of the array that `parse_application_messages` returns.
pub record Outgoing : Type 0 where
  pub world : Option ToClient
  pub last_tick : Option ToClient

abbrev pub no_outgoing : Outgoing
no_outgoing = record { world = none; last_tick = none }

store : Outgoing → ToClient → LowLatencyServerMessage → Outgoing
store outgoing m (world_state state) = record outgoing { world = some m }
store outgoing m (LowLatencyServerMessage.last_tick_received tick) = record outgoing {
  last_tick = some m;
}

module _ (bidir : BidirMap) where
  open bidir use {Map, insert, remove_by_second}

  parse_loop : List ApplicationMessage → Map → Outgoing → Outgoing × Map
  unfolding store
  parse_loop [] address_user outgoing = (outgoing, address_user)
  parse_loop (to_client m ∷ msgs) address_user outgoing =
      parse_loop msgs address_user (store outgoing m m.payload)
  parse_loop (new_client data' ∷ msgs) address_user outgoing =
      parse_loop msgs (insert address_user data'.udp_addr data'.username) outgoing
  parse_loop (client_disconnect user ∷ msgs) address_user outgoing =
      parse_loop msgs (remove_by_second address_user user) outgoing

  pub parse_application_messages : List ApplicationMessage → Map → Outgoing × Map
  unfolding parse_loop
  parse_application_messages msg_vec address_user = parse_loop msg_vec address_user no_outgoing

pub record Servicer (bidir : BidirMap) (spmc : Spmc ApplicationMessage) : Type 0 where
  pub udp_socket : UdpSocket
  pub to_application : Sender ServicerMessage
  pub from_application : spmc.State
  pub address_user : bidir.Map
  pub last_tick_received : ℕ
  pub shutting_down : Bool

pub new :
    (bidir : BidirMap) (spmc : Spmc ApplicationMessage)
    → UdpSocket
    → Sender ServicerMessage
    → spmc.State
    → Servicer bidir spmc
new bidir spmc udp_socket to_application from_application = record {
  udp_socket = udp_socket;
  to_application = to_application;
  from_application = from_application;
  address_user = bidir.new;
  last_tick_received = 0;
  shutting_down = false;
}

module _ (build : Build) (bincode : Bincode) (bidir : BidirMap)
    (spmc : Spmc ApplicationMessage) where
  open bincode use {Error, low_latency_client, low_latency_server}
  open bidir use {Map, get_by_first, get_by_second}

  abbrev pub Method : Type 0 → Type 0
  Method = Exec (Servicer bidir spmc) (CommError Error)

  transmit : List ℕ → SocketAddr → Method (Unit {0})
  transmit encoded address s =
      let (answer, socket) = send_to encoded address s.udp_socket in
      done (map_err (λ e. warning (io_failure e)) answer, record s { udp_socket = socket })

  -- `send_message` behind the lookup of the address; a missing user is only logged.
  send_found : Option SocketAddr → LowLatencyServerMessage → Method (Unit {0})
  unfolding transmit
  send_found none payload = pure tt
  send_found (some address) payload = do
    encode ←
        lift (map_err (λ e. warning (failed_to_serialize e)) (low_latency_server.serialize payload))
    transmit encode address

  pub send_message : ToClient → Method (Unit {0})
  unfolding send_found
  send_message msg s = send_found (get_by_second s.address_user msg.to) msg.payload s

  send_option : Option ToClient → Method (Unit {0})
  send_option none = pure tt
  send_option (some msg) = send_message msg

  drain : ℕ → Method (Result (List ApplicationMessage) Dropped)
  drain rounds_left s =
      call (λ receiver s. record s { from_application = receiver })
        (drain_spmc_receiver spmc rounds_left s.from_application) s

  parse : List ApplicationMessage → Method Outgoing
  parse msg_vec s =
      let (outgoing, map) = parse_application_messages bidir msg_vec s.address_user in
      done (ok outgoing, record s { address_user = map })

  pub forward_from_server_to_client : ℕ → Method (Unit {0})
  unfolding drain parse send_option
  forward_from_server_to_client rounds_left = do
    answer ← drain rounds_left
    elim answer [
      | ok msg_vec ↦ (do
        outgoing ← parse msg_vec
        send_option outgoing.world
        send_option outgoing.last_tick)
      | err _ ↦ raise exit
    ]

  set_last_tick_received : ℕ → Method (Unit {0})
  set_last_tick_received tick s = done (ok tt, record s { last_tick_received = tick })

  send_to_application : ServicerMessage → Method (Unit {0})
  send_to_application m s =
      let (answer, sender) = send m s.to_application in
      done (map_err (λ _. exit) answer, record s { to_application = sender })

  -- The part of `handle_controller_input` under `if last_tick > self.last_tick_received`.
  accept : Username → Control.ControllerSequence → ℕ → Method (Unit {0})
  unfolding set_last_tick_received send_to_application
  accept user controller_seq tick = do
    newest ← gets (λ s. s.last_tick_received)
    if ltb newest tick
        then (do
          set_last_tick_received tick
          send_to_application
              (record { author = user; payload = controller_sequence controller_seq }))
        else pure tt

  acknowledge : Username → Method (Unit {0})
  acknowledge user = do
    newest ← gets (λ s. s.last_tick_received)
    send_message (record { to = user; payload = LowLatencyServerMessage.last_tick_received newest })

  -- `handle_controller_input` from the decompressed sequence on.
  respond : Username → Control.ControllerSequence → Method (Unit {0})
  unfolding accept acknowledge
  respond user controller_seq = do
    tick ← run (Control.last_tick build controller_seq)
    accept user controller_seq tick
    acknowledge user

  pub handle_controller_input : ℕ → SocketAddr → CompressedControllerSequence → Method (Unit {0})
  unfolding respond
  handle_controller_input fuel src input = do
    map ← gets (λ s. s.address_user)
    user ← lift (ok_or (warning (unknown_source src)) (get_by_first map src))
    decompressed ← run (Control.to_controller_sequence build fuel input)
    controller_seq ← lift (ok_or (warning failed_to_decompress) decompressed)
    respond user controller_seq

  handle_client_message : ℕ → SocketAddr → LowLatencyClientMessage → Method (Unit {0})
  handle_client_message fuel src (controller_input input) = handle_controller_input fuel src input

  pub process_udp : ℕ → SocketAddr → List ℕ → Method (Unit {0})
  unfolding handle_client_message
  process_udp fuel src buf = do
    client_message ←
        lift (map_err (λ e. warning (failed_to_deserialize e)) (low_latency_client.deserialize buf))
    handle_client_message fuel src client_message

  pub receive : Method (Option (List ℕ × SocketAddr))
  receive s =
      let (answer, socket) = maybe_receive_from_udp s.udp_socket in
      done (answer, record s { udp_socket = socket })

  process_received : ℕ → Option (List ℕ × SocketAddr) → Method (Unit {0})
  process_received fuel none = pure tt
  process_received fuel (some (buf, src)) = process_udp fuel src buf

  pub forward_from_client_to_server : ℕ → Method (Unit {0})
  unfolding receive process_received
  forward_from_client_to_server fuel = do received ← receive; process_received fuel received

  pub spin_once : ℕ → ℕ → Method (Unit {0})
  spin_once rounds_left fuel = do
    forward_from_server_to_client rounds_left
    forward_from_client_to_server fuel
    pure tt

  goes_on : Result (Unit {0}) (CommError Error) → Bool
  goes_on (ok _) = true
  goes_on (err (warning w)) = true
  goes_on (err (dropped d)) = true
  goes_on (err exit) = false

  -- The loop of `spin`, where the socket could be made non-blocking.
  pub spin :
      ℕ
      → ℕ
      → List (Servicer bidir spmc → Servicer bidir spmc)
      → Servicer bidir spmc
      → Run (Bool × Servicer bidir spmc)
  unfolding goes_on
  spin rounds_left fuel = rounds goes_on (spin_once rounds_left fuel)

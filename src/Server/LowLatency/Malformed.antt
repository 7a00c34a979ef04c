-- ===== src/Server/LowLatency/Malformed.antt =====
-- What src/server/low_latency.rs does in a debug build with a bit vector that has no words, as any client
-- of its address book can send it.
use game_network.Prelude.{
  ℕ, suc, ◌≡◌, ◌<◌, ◌≤◌, true, some, List, [], ◌∷◌, length, arith, take_all, panic, debug,
}
use game_network.Std.{ok, SocketAddr, Arrival, datagram}
use game_network.Exec.{rounds, next_round}
use game_network.Control
use game_network.Control.{CompressedControllerSequence}
use game_network.Compressed.Malformed.{empty_panics}
use game_network.Msg.{Username, Bincode, controller_input}
use game_network.Util.{Spmc, max_packet_size}
use game_network.Util.Udp.{maybe_receive_from_udp_lem}
use game_network.Util.Drain.{IsQueue}
use game_network.Server.LowLatency.Delivery.{quiet_queue}
use game_network.Server.Bidir.{BidirMap}
use game_network.Server.LowLatency.{
  ApplicationMessage, Servicer, receive, process_received, process_udp, handle_client_message,
  handle_controller_input, forward_from_client_to_server, spin_once, spin,
}

module _ (bincode : Bincode) (bidir : BidirMap) (spmc : Spmc ApplicationMessage)
    (q : IsQueue spmc.try_recv) (rounds_left fuel : ℕ) where
  input_panics :
      (src : SocketAddr) (user : Username) (input : CompressedControllerSequence)
      (s : Servicer bidir spmc)
      → bidir.get_by_first s.address_user src ≡ some user
      → input.comp_seq.bits.storage ≡ []
      → handle_controller_input debug bincode bidir spmc (suc fuel) src input s ≡ panic
  unfolding handle_controller_input Control.to_controller_sequence
  input_panics src user input s known empty =
      rw (known, empty_panics input.comp_seq (suc fuel) empty (omega arith))

  datagram_panics :
      (src : SocketAddr) (user : Username) (input : CompressedControllerSequence) (bytes : List ℕ)
      (rest : List Arrival) (s : Servicer bidir spmc)
      → bidir.get_by_first s.address_user src ≡ some user
      → input.comp_seq.bits.storage ≡ []
      → bincode.low_latency_client.deserialize bytes ≡ ok (controller_input input)
      → length bytes ≤ max_packet_size
      → s.udp_socket.inbox ≡ datagram bytes src ∷ rest
      → forward_from_client_to_server debug bincode bidir spmc (suc fuel) s ≡ panic
  unfolding forward_from_client_to_server receive process_received process_udp handle_client_message
  datagram_panics src user input bytes rest s known empty read small arrived =
      let s1 : Servicer bidir spmc = record s {
        udp_socket = record s.udp_socket { inbox = rest };
      } in
      rw (
        maybe_receive_from_udp_lem {E = bincode.Error} s.udp_socket,
        arrived,
        take_all max_packet_size bytes small,
        read,
        input_panics src user input s1 known empty,
      )

  -- In a debug build the low-latency servicer panics, for all clients, when the next datagram, of
  -- at most 1500 bytes and from an address in the address book, deserialises to a controller input
  -- whose bit vector has no words, with no message pending, a living application thread, a round
  -- for the drain and some fuel.
  pub malformed_input_panics :
      (src : SocketAddr) (user : Username) (input : CompressedControllerSequence) (bytes : List ℕ)
      (inbox : List Arrival) (arrive : Servicer bidir spmc → Servicer bidir spmc)
      (rest : List (Servicer bidir spmc → Servicer bidir spmc)) (s : Servicer bidir spmc)
      → q.pending (arrive s).from_application ≡ []
      → q.alive (arrive s).from_application ≡ true
      → 0 < rounds_left
      → bidir.get_by_first (arrive s).address_user src ≡ some user
      → input.comp_seq.bits.storage ≡ []
      → bincode.low_latency_client.deserialize bytes ≡ ok (controller_input input)
      → length bytes ≤ max_packet_size
      → (arrive s).udp_socket.inbox ≡ datagram bytes src ∷ inbox
      → spin debug bincode bidir spmc rounds_left (suc fuel) (arrive ∷ rest) s ≡ panic
  unfolding spin spin_once rounds next_round
  malformed_input_panics src user input bytes inbox arrive rest s none_left alive enough known empty
        read small arrived =
      let (r, quiet) =
        quiet_queue debug bincode bidir spmc q rounds_left (arrive s) none_left alive enough in
      rw (
        quiet,
        datagram_panics src user input bytes inbox (record (arrive s) { from_application = r })
            known empty read small arrived,
      )

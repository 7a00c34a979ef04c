-- ===== src/Server/LowLatency/Runs.antt =====
-- A round of the servicer of src/server/low_latency.rs in which a client is registered and its first
-- datagram arrives.
use game_network.Prelude.{
  ◌≡◌, refl, true, [], ◌∷◌, done, debug, add_u8, add_usize, sub_usize, mul_usize,
}
use game_network.Std.{
  ok, datagram, try_recv, send, send_to, recv_from, arrive, resize, eq_addr, eq_host,
}
use game_network.BitVec.{append, push, get, range, range_loop, get_in, len, one_shl, or_last}
use game_network.Compressed.{decompress, decompress_bits, decompress_loop}
use game_network.Control.{last_tick, to_controller_sequence}
use game_network.Msg.{eq_user}
use game_network.Util.{maybe_receive_from_udp, drain_spmc_receiver, drain_loop, from_answer}
use game_network.Server.Messages.{controller_sequence}
use game_network.Server.LowLatency.{
  new_client, ApplicationMessage, Servicer, store, parse_loop, parse_application_messages, transmit,
  send_found, send_message, send_option, parse, forward_from_server_to_client, accept, acknowledge,
  respond, handle_controller_input, handle_client_message, process_udp, process_received,
  forward_from_client_to_server, spin_once, receive,
}
use game_network.Samples.{bincode, bidir, spmc, server, ann, three_bits, address}

-- The new servicer, with the message of the application and the datagram.
abbrev pub fresh : Servicer bidir (spmc ApplicationMessage)
fresh = record server { address_user = bidir.new }

abbrev pub told : Servicer bidir (spmc ApplicationMessage)
told = record fresh {
  from_application = record {
    queue = new_client (record { username = ann; udp_addr = address 1 }) ∷ [];
    sender_alive = true;
  };
}

abbrev pub reached : Servicer bidir (spmc ApplicationMessage)
reached = record told {
  udp_socket = record told.udp_socket { inbox = datagram (0 ∷ 4 ∷ 3 ∷ 7 ∷ []) (address 1) ∷ [] };
}

abbrev pub handed : Servicer bidir (spmc ApplicationMessage)
handed = record fresh {
  address_user = bidir.insert bidir.new (address 1) ann;
  last_tick_received = 1;
  to_application = record fresh.to_application {
    sent =
        record {
          author = ann;
          payload = controller_sequence (record { start_tick = 0; seq = three_bits ∷ [] });
        }
        ∷ [];
  };
  udp_socket = record fresh.udp_socket { outbox = (1 ∷ 1 ∷ [], address 1) ∷ [] };
}

pub round_handed :
    spin_once debug bincode bidir (spmc ApplicationMessage) 2 5 reached ≡ done (ok tt, handed)
unfolding spin_once forward_from_server_to_client forward_from_client_to_server drain_spmc_receiver
    drain_loop try_recv parse parse_application_messages parse_loop store send_option send_message
    send_found transmit receive maybe_receive_from_udp from_answer recv_from arrive resize
    process_received process_udp handle_client_message handle_controller_input respond accept
    acknowledge send send_to last_tick to_controller_sequence decompress decompress_bits
    decompress_loop append push get get_in range range_loop len one_shl or_last add_u8 add_usize
    sub_usize mul_usize eq_addr eq_host eq_user
round_handed = refl

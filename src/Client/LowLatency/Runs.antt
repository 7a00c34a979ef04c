-- ===== src/Client/LowLatency/Runs.antt =====
-- A round of the servicer of src/client/low_latency.rs in which one state was entered.
use game_network.Prelude.{
  ◌≡◌, refl, true, [], ◌∷◌, done, debug, add_u8, add_usize, sub_usize, mul_usize,
}
use game_network.Std.{ok, try_recv, send_to, recv_from, arrive}
use game_network.BitVec.{append, push, get, len, one_shl, or_last}
use game_network.Compressed.{compress, compress_bits, compress_step, is_fresh}
use game_network.Control
use game_network.Control.{to_compressed}
use game_network.Util.{maybe_receive_udp, drain_mpsc_receiver, drain_loop, bytes_of}
use game_network.Client.LowLatency.{
  control, Servicer, push_messages, receive, is_empty, forward_from_server_to_client,
  parse_application_messages, transmit, send_controller_inputs, forward_from_client_to_server,
  spin_once,
}
use game_network.Samples.{bincode, client, three_bits, address}

-- The servicer when the player has entered the first state.
abbrev pub fresh : Servicer
fresh = record client { controller_seq = Control.new }

abbrev pub entered : Servicer
entered = record fresh {
  from_application = record { queue = control three_bits ∷ []; sender_alive = true };
}

abbrev pub sent : Servicer
sent = record fresh {
  controller_seq = record { start_tick = 0; seq = three_bits ∷ [] };
  udp_socket = record fresh.udp_socket { outbox = (0 ∷ 4 ∷ 3 ∷ 7 ∷ [], address 9) ∷ [] };
}

pub round_sent : spin_once debug bincode entered ≡ done (ok tt, sent)
unfolding spin_once forward_from_server_to_client receive is_empty forward_from_client_to_server
    parse_application_messages push_messages send_controller_inputs transmit maybe_receive_udp
    drain_mpsc_receiver drain_loop bytes_of recv_from arrive try_recv send_to to_compressed compress
    compress_bits compress_step is_fresh append push get len one_shl or_last add_u8 add_usize
    sub_usize mul_usize Control.is_empty Control.push
round_sent = refl

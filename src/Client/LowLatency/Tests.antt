-- ===== src/Client/LowLatency/Tests.antt =====
-- The servicer of src/client/low_latency.rs with one state in its sequence.
use game_network.Prelude.{◌≡◌, ◌≢◌, true, [], ◌∷◌, arith, done, debug}
use game_network.Std.{ok, datagram}
use game_network.Msg.{last_tick_received}
use game_network.Client.LowLatency.{control, Servicer, parse_server_message, spin}
use game_network.Client.LowLatency.Messages.{acknowledged_all_stay}
use game_network.Client.LowLatency.Packets.{SendsPackets, spin-SendsPackets}
use game_network.Exec.Keeps.{PostLoop}
use game_network.Samples.{bincode, client, kept, three_bits, other_three, address}

abbrev two_controls : Servicer
two_controls = record client {
  from_application = record {
    queue = control other_three ∷ control three_bits ∷ [];
    sender_alive = true;
  };
}

some_kept : kept.seq ≢ []
some_kept h = cc

kept_state_stays :
    parse_server_message debug bincode (last_tick_received 5) client
    ≡ done (ok tt, record client { controller_seq = record kept { start_tick = 6 } })
kept_state_stays = acknowledged_all_stay debug bincode client 5 (omega arith) (omega arith)

-- A datagram that means nothing comes in.
abbrev noise : Servicer → Servicer
noise s = record s {
  udp_socket = record s.udp_socket { inbox = datagram (3 ∷ []) (address 2) ∷ [] };
}

spin-SendsPackets_example :
    PostLoop SendsPackets (spin debug bincode (noise ∷ noise ∷ []) two_controls)
spin-SendsPackets_example =
    spin-SendsPackets debug bincode (noise ∷ noise ∷ []) (λ s h. h, (λ s h. h, tt)) two_controls tt

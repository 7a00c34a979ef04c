-- ===== src/Exchange/Tests.antt =====
-- One client, ann, and the server: what passes between them at concrete values.
use game_network.Prelude.{
  ◌≡◌, refl, [], ◌∷◌, ◌++◌, arith, done, debug, some, true, add_u8, add_usize, sub_usize, mul_usize,
}
use game_network.Std.{datagram, ok, eq_addr, eq_host}
use game_network.Msg.{
  controller_input, last_tick_received, eq_user, join_response, confirmation,
  LowLatencyServerMessage, ReliableServerMessage,
}
use game_network.Control.{CompressedControllerSequence, to_compressed, to_controller_sequence}
use game_network.Server.Messages.{controller_sequence}
use game_network.Server.LowLatency as Server
use game_network.Client.LowLatency as Client
use game_network.Exchange.{delivered}
use game_network.Exchange.Replay.{moved, acknowledged_replayed}
use game_network.Control.Ticks.{remove_till_tick_past}
use game_network.Client.Reliable
use game_network.Client as Object
use game_network.Exchange.Acknowledge.{acknowledgement_arrives}
use game_network.Exchange.Inputs.{extended, inputs_reach_datagram}
use game_network.Client.Inputs.{send_each, supplied as taking}
use game_network.BitVec.{eq, append, push, get, len, one_shl, or_last}
use game_network.Compressed.{compress, compress_bits, compress_step, is_fresh, is_repeat}
use game_network.Exchange.World.{reached, supplied, world_state_delivered}
use game_network.Util.Drain.{mpsc_queue}
use game_network.Samples.Wire as Wire
use game_network.Server.Reliable as TcpServer
use game_network.Exchange.Chat.{supplied as heard}
use game_network.Samples.{
  three_bits, bob, bincode, bidir, spmc, ann, address, server, kept, compressed_kept, kept_bytes,
  client, to_compressed-kept, kept-AreSized, input_codec-IsLawful,
}

abbrev received : Server.Servicer bidir (spmc Server.ApplicationMessage)
received = record server {
  last_tick_received = 5;
  to_application = record server.to_application {
    sent = record { author = ann; payload = controller_sequence kept } ∷ [];
  };
}

delivered_example :
    Server.process_udp debug bincode bidir
      (spmc Server.ApplicationMessage)
      5
      (address 1)
      kept_bytes
      server
    ≡ Server.send_message debug bincode bidir
        (spmc Server.ApplicationMessage)
        (record { to = ann; payload = last_tick_received 5 })
        received
unfolding eq_addr eq_host
delivered_example =
    delivered debug 5 3 kept kept-AreSized (omega arith) (omega arith) compressed_kept
      to_compressed-kept bincode bidir (spmc Server.ApplicationMessage) (address 1) ann server refl
      refl kept_bytes input_codec-IsLawful refl (omega arith) (omega arith)

-- The client of the exchange above once the server has answered it.
acknowledged_replayed_example :
    (Client.parse_server_message debug bincode (last_tick_received 5) client
      ≡ done (ok tt, record client { controller_seq = moved kept }))
    × (sent : CompressedControllerSequence) × (to_compressed debug (moved kept) ≡ done (some sent))
    × (Server.handle_controller_input debug bincode bidir
          (spmc Server.ApplicationMessage)
          5
          (address 1)
          sent
          received
        ≡ Server.send_message debug bincode bidir
            (spmc Server.ApplicationMessage)
            (record { to = ann; payload = last_tick_received 7 })
            (record received {
              last_tick_received = 7;
              to_application = record received.to_application {
                sent =
                    received.to_application.sent
                    ++ record { author = ann; payload = controller_sequence (moved kept) } ∷ [];
              };
            }))
unfolding eq_addr eq_host
acknowledged_replayed_example =
    acknowledged_replayed debug bincode bidir (spmc Server.ApplicationMessage) 5 3 client received
      (address 1) ann kept-AreSized (omega arith) (omega arith) (omega arith) refl refl refl

-- The same input once more: it is only acknowledged, and the client that kept it moves its ticks.
abbrev heard_before : Server.Servicer bidir (spmc Server.ApplicationMessage)
heard_before = record received {
  udp_socket = record received.udp_socket { inbox = datagram kept_bytes (address 1) ∷ [] };
}

acknowledgement_arrives_example :
    (server' : Server.Servicer bidir (spmc Server.ApplicationMessage)) × (client' : Client.Servicer)
    × (Server.spin_once debug Wire.bincode bidir (spmc Server.ApplicationMessage) 1 5 heard_before
        ≡ done (ok tt, server'))
    × (server'.last_tick_received ≡ 5)
    × (server'.to_application.sent ≡ received.to_application.sent ++ [])
    × (server'.udp_socket.outbox ≡ (1 ∷ 5 ∷ [], address 1) ∷ [])
    × (Client.forward_from_server_to_client debug Wire.bincode
          (reached client (1 ∷ 5 ∷ []) (address 9))
        ≡ done (ok tt, client'))
    × (client'.controller_seq ≡ moved kept)
unfolding eq_addr eq_host eq_user
acknowledgement_arrives_example =
    acknowledgement_arrives debug 5 3 kept kept-AreSized (omega arith) (omega arith) (omega arith)
      compressed_kept to_compressed-kept Wire.bincode input_codec-IsLawful Wire.states-IsLawful
      bidir (spmc Server.ApplicationMessage) (mpsc_queue Server.ApplicationMessage) 1 heard_before
      client ann (address 1) (address 1) (address 9) kept_bytes (1 ∷ 5 ∷ []) [] (moved kept) refl
      refl (omega arith) refl refl refl refl refl (omega arith) refl refl (omega arith)
      (remove_till_tick_past debug kept 5 (omega arith) (omega arith))

abbrev kept_twice : CompressedControllerSequence
kept_twice = record {
  start_tick = 4;
  comp_seq = record { bits = record { storage = 7 ∷ []; len_of_last = 5 }; element_size = 3 };
}

to_compressed-kept_twice :
    to_compressed debug (extended kept (three_bits ∷ [])) ≡ done (some kept_twice)
unfolding to_compressed compress compress_bits compress_step is_fresh is_repeat eq append push get
    len one_shl or_last add_u8 add_usize sub_usize mul_usize
to_compressed-kept_twice = refl

-- The state that is held already is entered again, and goes out as one bit.
inputs_reach_datagram_example :
    (object' : Object.Client) × (client' : Client.Servicer) × (send_each
        (three_bits ∷ [])
        Wire.object
      ≡ done (ok tt, object'))
    × (Client.spin_once debug bincode (taking object' client) ≡ done (ok tt, client'))
    × (client'.udp_socket.outbox ≡ (4 ∷ 5 ∷ 3 ∷ 7 ∷ [], address 9) ∷ [])
    × (client'.controller_seq ≡ extended kept (three_bits ∷ []))
    × (client'.from_application.queue ≡ [])
    × (bincode.low_latency_client.deserialize (4 ∷ 5 ∷ 3 ∷ 7 ∷ [])
        ≡ ok (controller_input kept_twice))
    × (to_controller_sequence debug 9 kept_twice ≡ done (some (extended kept (three_bits ∷ []))))
inputs_reach_datagram_example =
    inputs_reach_datagram debug bincode input_codec-IsLawful 9 3 (three_bits ∷ []) Wire.object
      client kept_twice (4 ∷ 5 ∷ 3 ∷ 7 ∷ []) refl refl refl refl refl (λ h. cc)
      (kept-AreSized.0, (kept-AreSized.0, tt)) (omega arith) (omega arith) to_compressed-kept_twice
      refl (omega arith)

-- A server with one world state for ann.
abbrev new_world : Server.Servicer bidir (spmc Server.ApplicationMessage)
new_world = record server {
  from_application = record {
    queue =
        Server.to_client
          (record { to = ann; payload = LowLatencyServerMessage.world_state (8 ∷ []) })
        ∷ [];
    sender_alive = true;
  };
}

world_state_delivered_example :
    (server' : Server.Servicer bidir (spmc Server.ApplicationMessage)) × (client' : Client.Servicer)
    × (object' : Object.Client) × (Server.forward_from_server_to_client debug Wire.bincode bidir
          (spmc Server.ApplicationMessage)
          2
          new_world
        ≡ done (ok tt, server'))
    × (server'.udp_socket.outbox ≡ (0 ∷ 8 ∷ [], address 1) ∷ [])
    × (Client.forward_from_server_to_client debug Wire.bincode
          (reached client (0 ∷ 8 ∷ []) (address 9))
        ≡ done (ok tt, client'))
    × (Object.take_world_state 2 (supplied Wire.object client') ≡ done (ok (8 ∷ []), object'))
unfolding eq_user eq_addr eq_host
world_state_delivered_example =
    world_state_delivered debug Wire.bincode bidir (spmc Server.ApplicationMessage)
      Wire.states-IsLawful (mpsc_queue Server.ApplicationMessage) 2 new_world client Wire.object ann
      (address 1) (address 9) (8 ∷ []) (0 ∷ 8 ∷ []) (omega arith) refl refl refl refl refl refl
      (omega arith) refl refl refl refl

-- A server with a chat message for ann between two that are not for her.
abbrev new_chat : TcpServer.Servicer (spmc TcpServer.ApplicationMessage)
new_chat = record Wire.reliable_server {
  from_application = record {
    queue =
        TcpServer.to_client (record { to = bob; payload = join_response (confirmation 6) })
        ∷ TcpServer.to_client
            (record { to = ann; payload = ReliableServerMessage.chat_message Wire.hello })
        ∷ TcpServer.to_client
            (record { to = bob; payload = ReliableServerMessage.chat_message Wire.hello })
        ∷ [];
    sender_alive = true;
  };
}

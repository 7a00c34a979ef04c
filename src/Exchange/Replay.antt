-- ===== src/Exchange/Replay.antt =====
-- What becomes of controller inputs of src/client/low_latency.rs that the server has acknowledged.
use game_network.Prelude.{
  ℕ, ◌+◌, ◌*◌, ◌<◌, ◌≡◌, true, some, [], ◌∷◌, ◌++◌, arith, length, done, Build, usize_mod,
}
use game_network.Std.{ok, SocketAddr}
use game_network.Compressed.Format.{AreSized}
use game_network.Control.{ControllerSequence, CompressedControllerSequence, to_compressed}
use game_network.Control.Ticks.{last_tick_of_lt}
use game_network.Control.Transfer.{to_controller_sequence-to_compressed}
use game_network.Msg.{Username, last_tick_received, Bincode}
use game_network.Util.{Spmc}
use game_network.Server.Bidir.{BidirMap}
use game_network.Server.Messages.{controller_sequence}
use game_network.Server.LowLatency as Server
use game_network.Server.LowLatency.Input.{input_fresh}
use game_network.Client.LowLatency as Client
use game_network.Client.LowLatency.Messages.{acknowledged_all_stay}

-- The sequence that a client keeps after the acknowledgement of all its ticks.
abbrev pub moved : ControllerSequence → ControllerSequence
moved c = record c { start_tick = c.start_tick + length c.seq + 1 }

-- A client whose sequence of well-formed states of one size, small enough for the fuel and a
-- `usize`, has been received and acknowledged to its last tick keeps all its states under later
-- ticks; sent again to a server that knows its address and has a living application thread, they
-- are taken for new ones and handed to the application thread once more.
pub acknowledged_replayed :
    (build : Build) (bincode : Bincode) (bidir : BidirMap) (spmc : Spmc Server.ApplicationMessage)
    (fuel size : ℕ) (client : Client.Servicer) (server : Server.Servicer bidir spmc)
    (src : SocketAddr) (user : Username)
    → let c = client.controller_seq in
      AreSized size c.seq
      → length c.seq * (size + 1) + size < usize_mod
      → length c.seq * (size + 1) < fuel
      → c.start_tick + length c.seq + 1 + length c.seq < usize_mod
      → bidir.get_by_first server.address_user src ≡ some user
      → server.to_application.receiver_alive ≡ true
      → server.last_tick_received ≡ c.start_tick + length c.seq
      → (Client.parse_server_message build bincode
            (last_tick_received server.last_tick_received)
            client
          ≡ done (ok tt, record client { controller_seq = moved c }))
        × (sent : CompressedControllerSequence) × (to_compressed build (moved c) ≡ done (some sent))
        × (Server.handle_controller_input build bincode bidir spmc fuel src sent server
            ≡ Server.send_message build bincode bidir spmc
                (record {
                  to = user;
                  payload = last_tick_received (c.start_tick + length c.seq + 1 + length c.seq);
                })
                (record server {
                  last_tick_received = c.start_tick + length c.seq + 1 + length c.seq;
                  to_application = record server.to_application {
                    sent =
                        server.to_application.sent
                        ++ record { author = user; payload = controller_sequence (moved c) } ∷ [];
                  };
                }))
acknowledged_replayed build bincode bidir spmc fuel size client server src user sized fits enough
      small known alive acked =
    let c = client.controller_seq in
    let (sent, compressed, back) =
      to_controller_sequence-to_compressed build fuel size (moved c) sized fits enough in
    (
      acknowledged_all_stay build bincode client server.last_tick_received (omega arith)
          (omega arith),
      sent,
      compressed,
      input_fresh build bincode bidir spmc fuel src sent server user known (moved c) back
          (c.start_tick + length c.seq + 1 + length c.seq) (last_tick_of_lt build (moved c) small)
          (omega arith) alive,
    )

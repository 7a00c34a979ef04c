-- ===== src/Server/LowLatency/Input.antt =====
-- `handle_controller_input` and `process_udp` of src/server/low_latency.rs on each branch.
use game_network.Prelude.{
  ℕ, ◌≤◌, ◌<◌, ◌≡◌, true, false, none, some, List, [], ◌∷◌, ◌++◌, lt→ltb, le→ltb_false, done, Build,
}
use game_network.Std.{ok, err, SocketAddr, send}
use game_network.Control
use game_network.Control.{ControllerSequence, CompressedControllerSequence}
use game_network.Msg.{
  controller_input, Username, warning, exit, unknown_source, failed_to_decompress,
  LowLatencyServerMessage, Bincode,
}
use game_network.Util.{Spmc}
use game_network.Server.Bidir.{BidirMap}
use game_network.Server.Messages.{controller_sequence}
use game_network.Server.LowLatency.{
  ApplicationMessage, ToClient, Servicer, handle_controller_input, send_message, process_udp,
  handle_client_message,
}

module _ (build : Build) (bincode : Bincode) (bidir : BidirMap) (spmc : Spmc ApplicationMessage)
    (fuel : ℕ) (src : SocketAddr) (input : CompressedControllerSequence)
    (s : Servicer bidir spmc) where
  -- An input from an address that is not in the address book is refused with a warning that names the
  -- address; the servicer stays as it is.
  pub input_unknown :
      bidir.get_by_first s.address_user src ≡ none
      → handle_controller_input build bincode bidir spmc fuel src input s
        ≡ done (err (warning (unknown_source src)), s)
  unfolding handle_controller_input
  input_unknown h = rw h

  module _ (user : Username) (known : bidir.get_by_first s.address_user src ≡ some user) where
    -- An input that does not decompress is refused with a warning; the servicer stays as it is.
    pub input_malformed :
        Control.to_controller_sequence build fuel input ≡ done none
        → handle_controller_input build bincode bidir spmc fuel src input s
          ≡ done (err (warning failed_to_decompress), s)
    unfolding handle_controller_input
    input_malformed h = rw (known, h)

    module _ (c : ControllerSequence)
        (read : Control.to_controller_sequence build fuel input ≡ done (some c)) (tick : ℕ)
        (last : Control.last_tick build c ≡ done tick) where
      -- The acknowledgement that goes back to the user.
      abbrev pub ack : ℕ → ToClient
      ack t = record { to = user; payload = LowLatencyServerMessage.last_tick_received t }

      -- A sequence that ends no later than the newest tick received from any client is not handed to
      -- the application thread; the newest tick is acknowledged to its sender all the same.
      pub input_stale :
          tick ≤ s.last_tick_received
          → handle_controller_input build bincode bidir spmc fuel src input s
            ≡ send_message build bincode bidir spmc (ack s.last_tick_received) s
      unfolding handle_controller_input
      input_stale h = rw (known, read, last, le→ltb_false s.last_tick_received tick h)

      -- A sequence that ends later than every one before it is handed to the application thread with
      -- the user's name, its last tick becomes the newest one and is acknowledged to the user.
      pub input_fresh :
          s.last_tick_received < tick
          → s.to_application.receiver_alive ≡ true
          → handle_controller_input build bincode bidir spmc fuel src input s
            ≡ send_message build bincode bidir spmc (ack tick) (record s {
              last_tick_received = tick;
              to_application = record s.to_application {
                sent =
                    s.to_application.sent
                    ++ record { author = user; payload = controller_sequence c } ∷ [];
              };
            })
      unfolding handle_controller_input send
      input_fresh h alive = rw (known, read, last, lt→ltb s.last_tick_received tick h, alive)

      -- Without an application thread a later sequence ends the servicer, unacknowledged.
      pub input_orphaned :
          s.last_tick_received < tick
          → s.to_application.receiver_alive ≡ false
          → handle_controller_input build bincode bidir spmc fuel src input s
            ≡ done (err exit, record s { last_tick_received = tick })
      unfolding handle_controller_input send
      input_orphaned h alive = rw (known, read, last, lt→ltb s.last_tick_received tick h, alive)

-- A datagram is handled as the controller input that it deserialises to.
pub process_udp_lem :
    (build : Build) (bincode : Bincode) (bidir : BidirMap) (spmc : Spmc ApplicationMessage)
    (fuel : ℕ) (src : SocketAddr) (buf : List ℕ) (input : CompressedControllerSequence)
    (s : Servicer bidir spmc)
    → bincode.low_latency_client.deserialize buf ≡ ok (controller_input input)
    → process_udp build bincode bidir spmc fuel src buf s
      ≡ handle_controller_input build bincode bidir spmc fuel src input s
unfolding process_udp handle_client_message
process_udp_lem build bincode bidir spmc fuel src buf input s e = rw e

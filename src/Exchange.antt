-- ===== src/Exchange.antt =====
-- A round of controller inputs between src/client/low_latency.rs and src/server/low_latency.rs: what
-- the client sends, what the server makes of it, and what the client makes of the acknowledgement.
pub mod Replay
pub mod World
pub mod Acknowledge
pub mod Inputs
pub mod Chat
mod Tests
use game_network.Prelude.{
  some-done-injective, ℕ, ◌+◌, ◌*◌, ◌<◌, ◌≡◌, sym, ap, ◌∙◌, true, some, List, [], ◌∷◌, ◌++◌, length,
  done, Build, usize_mod,
}
use game_network.Std.{ok, SocketAddr}
use game_network.Compressed.Format.{AreSized}
use game_network.Control
use game_network.Control.{
  ControllerSequence, CompressedControllerSequence, to_compressed, to_controller_sequence,
}
use game_network.Control.Ticks.{last_tick_of_lt}
use game_network.Control.Transfer.{to_controller_sequence-to_compressed}
use game_network.Msg.{Username, controller_input, last_tick_received, Bincode, IsLawful}
use game_network.Util.{Spmc}
use game_network.Server.Bidir.{BidirMap}
use game_network.Server.Messages.{controller_sequence}
use game_network.Server.LowLatency as Server
use game_network.Server.LowLatency.Input.{input_fresh, process_udp_lem}

module _ (build : Build) (fuel size : ℕ) (c : ControllerSequence) (sized : AreSized size c.seq)
    (fits : length c.seq * (size + 1) + size < usize_mod)
    (enough : length c.seq * (size + 1) < fuel) (sent : CompressedControllerSequence)
    (compressed : to_compressed build c ≡ done (some sent)) where
  -- What a sender compressed is what a receiver decompresses.
  pub read_back : to_controller_sequence build fuel sent ≡ done (some c)
  read_back =
      let (sent', e, back) =
        to_controller_sequence-to_compressed build fuel size c sized fits enough in
      ap (to_controller_sequence build fuel) (some-done-injective (sym compressed ∙ e)) ∙ back

  module _ (bincode : Bincode) (bidir : BidirMap) (spmc : Spmc Server.ApplicationMessage)
      (src : SocketAddr) (user : Username) (t : Server.Servicer bidir spmc)
      (known : bidir.get_by_first t.address_user src ≡ some user)
      (alive : t.to_application.receiver_alive ≡ true) where
    -- The server's servicer once it has handed a sequence over.
    abbrev handed_over : ControllerSequence → Server.Servicer bidir spmc
    handed_over c = record t {
      last_tick_received = c.start_tick + length c.seq;
      to_application = record t.to_application {
        sent =
            t.to_application.sent ++ record { author = user; payload = controller_sequence c } ∷ [];
      };
    }

    -- A client's sequence of well-formed states of one size, small enough for the fuel and a
    -- `usize`, that was compressed and serialised lawfully, and whose datagram comes from an
    -- address in the server's address book: if it ends later than the newest tick received and the
    -- application thread lives, the server hands over exactly that sequence with the user's name,
    -- makes its last tick the newest, and goes on to acknowledge this tick to the user.
    pub delivered :
        (bytes : List ℕ)
        → IsLawful bincode.low_latency_client
        → bincode.low_latency_client.serialize (controller_input sent) ≡ ok bytes
        → t.last_tick_received < c.start_tick + length c.seq
        → c.start_tick + length c.seq < usize_mod
        → Server.process_udp build bincode bidir spmc fuel src bytes t
          ≡ Server.send_message build bincode bidir spmc
              (record { to = user; payload = last_tick_received (c.start_tick + length c.seq) })
              (handed_over c)
    delivered bytes lawful encoded later small =
        process_udp_lem build bincode bidir spmc fuel src bytes sent t
          (lawful.round_trip (controller_input sent) bytes encoded)
        ∙ input_fresh build bincode bidir spmc fuel src sent t user known c read_back
            (c.start_tick + length c.seq) (last_tick_of_lt build c small) later alive

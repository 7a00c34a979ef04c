-- ===== src/Msg/Genuine.antt =====
-- Datagrams of controller inputs as a client writes them, by the address that they come from.
use game_network.Prelude.{
  ℕ, ◌+◌, ◌*◌, ◌≡◌, ◌≤◌, ◌<◌, List, length, some, done, Build, usize_mod, All,
}
use game_network.Std.{SocketAddr, ok}
use game_network.BitVec.{BitVec}
use game_network.BitVec.View.{bits, IsValid}
use game_network.Control.{ControllerSequence, CompressedControllerSequence, to_compressed}
use game_network.Msg.{controller_input, Bincode}
use game_network.Util.{max_packet_size}

-- What the players may enter: controller states of one size, and never more of them waiting for an
-- acknowledgement than the compression can take.
pub record Game : Type 1 where
  pub size : ℕ
  pub limit : ℕ
  pub Entered : SocketAddr → BitVec → Type 0
  pub sized : (a : SocketAddr) (b : BitVec) → Entered a b → IsValid b × (length (bits b) ≡ size)
  pub fits : limit * (size + 1) + size < usize_mod

module _ (build : Build) (bincode : Bincode) (game : Game) where
  -- The bytes fit in a packet, and are a sequence of states entered at the address.
  pub record Genuine (a : SocketAddr) (bytes : List ℕ) : Type 0 where
    pub small : length bytes ≤ max_packet_size
    pub c : ControllerSequence
    pub sent : CompressedControllerSequence
    pub entered : All (game.Entered a) c.seq
    pub few : length c.seq ≤ game.limit
    pub compressed : to_compressed build c ≡ done (some sent)
    pub encoded : bincode.low_latency_client.serialize (controller_input sent) ≡ ok bytes

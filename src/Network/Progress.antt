-- ===== src/Network/Progress.antt =====
-- No servicer of a network gets stuck, in a release build.
use game_network.Prelude.{ℕ, ◌+◌, ◌*◌, ◌≡◌, ◌<◌, release, length, done}
use game_network.Std.{SocketAddr, Result}
use game_network.Msg.{Username, CommError, Bincode, IsLawful}
use game_network.Msg.Genuine.{Game}
use game_network.Util.{Spmc}
use game_network.Util.Drain.{IsQueue}
use game_network.Exec.Keeps.{Ends-done}
use game_network.Server.Bidir.{BidirMap, IsBidirectional}
use game_network.Server.LowLatency as Server
use game_network.Server.LowLatency.Ends.{spin_once-Ends}
use game_network.Client.LowLatency as Client
use game_network.Client.LowLatency.Ends.{spin_once-Total}
use game_network.Network.{Network, Reach, IsInitial}
use game_network.Network.Safety.{Reach-IsSafe, IsInitial-IsSafe}

module _ (bincode : Bincode) (bidir : BidirMap) (spmc : Spmc Server.ApplicationMessage)
    (game : Game) (Registered : SocketAddr → Username → Type 0) (q : IsQueue spmc.try_recv)
    (rounds_left fuel : ℕ) (lawful : IsLawful bincode.low_latency_client)
    (laws : IsBidirectional bidir) (enough : game.limit * (game.size + 1) < fuel) where
  -- With a lawful wire form of the inputs, an address book that keeps its documented laws, and fuel
  -- above `limit * (size + 1)`, in a release build: in every network that steps lead to from new
  -- servicers, where players enter only states of `size` bits that the game allows and while the
  -- client holds fewer than `limit`, and only registered users join, if fewer messages are pending
  -- for the server's servicer than its drain has rounds, the next round of the server's servicer
  -- and of each client's ends with an answer: it does not panic and does not use up its fuel.
  pub rounds_end :
      {n m : Network bidir spmc}
      → IsInitial bidir spmc q n
      → Reach bidir spmc release bincode game Registered q rounds_left fuel n m
      → length (q.pending m.server.from_application) < rounds_left
      → ((answer : Result (Unit {0}) (CommError bincode.Error)) × (s : Server.Servicer bidir spmc)
          × (Server.spin_once release bincode bidir spmc rounds_left fuel m.server
              ≡ done (answer, s)))
        × ((i : ℕ)
            → (answer : Result (Unit {0}) (CommError bincode.Error)) × (c : Client.Servicer)
              × (Client.spin_once release bincode (m.clients i) ≡ done (answer, c)))
  rounds_end {n} {m} start reach few =
      let safe =
        Reach-IsSafe release bincode bidir spmc game Registered q rounds_left fuel lawful laws
          enough
          (IsInitial-IsSafe release bincode bidir spmc game Registered q rounds_left fuel lawful
            laws enough n start)
          reach in
      (
        Ends-done _ (
            spin_once-Ends bincode bidir spmc game Registered q lawful laws fuel rounds_left enough
              m.server safe.0 few),
        λ i.
            Ends-done _
              (spin_once-Total bincode game (m.clients i).self_addr (m.clients i) (safe.1 i)),
      )

-- ===== src/Network/Order.antt =====
-- The order in which a network's server hands over controller sequences.
use game_network.Prelude.{ℕ, ◌≡◌, arith, Build, done}
use game_network.Std.{SocketAddr, Result}
use game_network.Msg.{Bincode, CommError, Username}
use game_network.Msg.Genuine.{Game}
use game_network.Util.{Spmc}
use game_network.Util.Drain.{IsQueue}
use game_network.Server.Bidir.{BidirMap}
use game_network.Server.LowLatency as Server
use game_network.Server.LowLatency.Order.{IsOrdered, spin_once-IsOrdered}
use game_network.Network.{
  Network, Step, server_round, client_round, enters, arrives, delivers, faults, commands, Reach,
  here, next, IsInitial,
}

module _ (build : Build) (bincode : Bincode) (bidir : BidirMap)
    (spmc : Spmc Server.ApplicationMessage) (game : Game)
    (Registered : SocketAddr → Username → Type 0) (q : IsQueue spmc.try_recv)
    (rounds_left fuel : ℕ) where
  abbrev pub HandsInOrder : Network bidir spmc → Type 0
  HandsInOrder n = IsOrdered build bincode bidir spmc n.server

  round-IsOrdered :
      (s s' : Server.Servicer bidir spmc) (answer : Result (Unit {0}) (CommError bincode.Error))
      → Server.spin_once build bincode bidir spmc rounds_left fuel s ≡ done (answer, s')
      → IsOrdered build bincode bidir spmc s
      → IsOrdered build bincode bidir spmc s'
  round-IsOrdered s s' answer runs h =
      rw runs at (spin_once-IsOrdered build bincode bidir spmc rounds_left fuel s h)

  Step-HandsInOrder :
      {n m : Network bidir spmc}
      → Step bidir spmc build bincode game Registered q rounds_left fuel n m
      → HandsInOrder n
      → HandsInOrder m
  Step-HandsInOrder {n} (server_round answer s runs) h = round-IsOrdered n.server s answer runs h
  Step-HandsInOrder (client_round i answer c runs) h = h
  Step-HandsInOrder (enters i b new few) h = h
  Step-HandsInOrder (arrives i a) h = h
  Step-HandsInOrder (delivers i k p e) h = h
  Step-HandsInOrder (faults e) h = h
  Step-HandsInOrder (commands r allowed) h = h

  -- In every network that any steps of `Step` lead to from new servicers, where datagrams of the
  -- clients are lost, repeated, reordered and misdirected: the controller sequences that the
  -- server's servicer has handed to its application thread, from whatever client, end at strictly
  -- later ticks each than those before them, and the newest tick received is at least the last of
  -- them.
  pub reached-HandsInOrder :
      {n m : Network bidir spmc}
      → IsInitial bidir spmc q n
      → Reach bidir spmc build bincode game Registered q rounds_left fuel n m
      → HandsInOrder m
  reached-HandsInOrder start here = rw start.nothing_handed (omega arith)
  reached-HandsInOrder start (next reach step) =
      Step-HandsInOrder step (reached-HandsInOrder start reach)

-- ===== src/Network.antt =====
-- The low-latency servicers of one server and of any number of clients, with a network that may lose,
-- repeat, reorder and misdirect their datagrams, and applications that may do what they like within the
-- rules of the game. A step is a whole round of one servicer, or what the outside does between rounds.
pub mod Safety
pub mod Progress
pub mod Order
mod Tests
use native.Mathlib.Decide.{ℕ_discrete}
use mathlib.Core.Logic.{ite}
use game_network.Prelude.{
  ℕ, ◌+◌, ◌≡◌, ◌<◌, Option, some, List, [], ◌∷◌, ◌++◌, length, get_elem?, done, Build, All,
}
use game_network.Std.{Result, IoError, SocketAddr, Arrival, datagram, failure, Receiver}
use game_network.BitVec.{BitVec}
use game_network.Msg.{Username, CommError, Bincode}
use game_network.Msg.Genuine.{Game}
use game_network.Util.{Spmc}
use game_network.Util.Drain.{IsQueue}
use game_network.Server.Bidir.{BidirMap}
use game_network.Server.LowLatency as Server
use game_network.Server.LowLatency.Faithful.{Allowed}
use game_network.Client.LowLatency as Client
use game_network.Client.LowLatency.Messages.{states}

-- The clients are numbered.
abbrev pub update : (ℕ → Client.Servicer) → ℕ → Client.Servicer → ℕ → Client.Servicer
update clients i c j = ite (ℕ_discrete i j) c (clients j)

-- The servicer with one more state in its queue, or one more arrival at its socket.
abbrev pub entering : BitVec → Client.Servicer → Client.Servicer
entering b c = record c {
  from_application = record c.from_application {
    queue = c.from_application.queue ++ Client.control b ∷ [];
  };
}

abbrev pub arriving : Arrival → Client.Servicer → Client.Servicer
arriving a c = record c {
  udp_socket = record c.udp_socket { inbox = c.udp_socket.inbox ++ a ∷ [] };
}

-- How many states a client holds.
abbrev pub held : Client.Servicer → ℕ
held c = length c.controller_seq.seq + length (states c.from_application.queue)

module _ (bidir : BidirMap) (spmc : Spmc Server.ApplicationMessage) where
  pub record Network : Type 0 where
    pub server : Server.Servicer bidir spmc
    pub clients : ℕ → Client.Servicer

  abbrev pub at_client : ℕ → Client.Servicer → Network → Network
  at_client i c n = record n { clients = update n.clients i c }

  abbrev pub at_server : Arrival → Network → Network
  at_server a n = record n {
    server = record n.server {
      udp_socket = record n.server.udp_socket { inbox = n.server.udp_socket.inbox ++ a ∷ [] };
    };
  }

  module _ (q : IsQueue spmc.try_recv) where
    -- The servicers as they are made, before anything has been sent.
    pub record IsInitial (n : Network) : Type 0 where
      pub nothing_handed : n.server.to_application.sent ≡ []
      pub nothing_arrived : n.server.udp_socket.inbox ≡ []
      pub no_user : n.server.address_user ≡ bidir.new
      pub no_message : q.pending n.server.from_application ≡ []
      pub nothing_entered : (i : ℕ) → (n.clients i).controller_seq.seq ≡ []
      pub nothing_queued : (i : ℕ) → (n.clients i).from_application.queue ≡ []
      pub nothing_sent : (i : ℕ) → (n.clients i).udp_socket.outbox ≡ []

  module _ (build : Build) (bincode : Bincode) (game : Game)
      (Registered : SocketAddr → Username → Type 0) (q : IsQueue spmc.try_recv)
      (rounds_left fuel : ℕ) where
    pub data Step (n : Network) : Network → Type 0 where
      -- A round of a servicer that ends, with whatever answer.
      server_round :
          (answer : Result (Unit {0}) (CommError bincode.Error)) (s : Server.Servicer bidir spmc)
          → Server.spin_once build bincode bidir spmc rounds_left fuel n.server ≡ done (answer, s)
          → Step n (record n { server = s })
      client_round :
          (i : ℕ) (answer : Result (Unit {0}) (CommError bincode.Error)) (c : Client.Servicer)
          → Client.spin_once build bincode (n.clients i) ≡ done (answer, c)
          → Step n (at_client i c n)
      -- The player at a client enters a state, while the client does not hold too many.
      enters :
          (i : ℕ) (b : BitVec)
          → game.Entered (n.clients i).self_addr b
          → held (n.clients i) < game.limit
          → Step n (at_client i (entering b (n.clients i)) n)
      -- Anything may arrive at a client.
      arrives : (i : ℕ) (a : Arrival) → Step n (at_client i (arriving a (n.clients i)) n)
      -- At the server arrives what a client has sent at some time, from that client's address, or an
      -- error of the system.
      delivers :
          (i k : ℕ) (p : List ℕ × SocketAddr)
          → get_elem? (n.clients i).udp_socket.outbox k ≡ some p
          → Step n (at_server (datagram p.0 (n.clients i).self_addr) n)
      faults : (e : IoError) → Step n (at_server (failure e) n)
      -- The server's application leaves other messages in the queue.
      commands :
          (r : spmc.State)
          → All (Allowed Registered) (q.pending r)
          → Step n (record n { server = record n.server { from_application = r } })

    -- What the network comes to by steps.
    pub data Reach (n : Network) : Network → Type 0 where
      here : Reach n n
      next : {m l : Network} → Reach n m → Step m l → Reach n l

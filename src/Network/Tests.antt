-- ===== src/Network/Tests.antt =====
-- A network of one server and clients that all have the address 1, on which a first state travels.
use game_network.Network.{
  Reach, entering, update, Network, here, next, server_round, client_round, enters, delivers,
  commands, IsInitial,
}
use native.Mathlib.Decide.{ℕ_discrete}
use mathlib.Core.Path.{subst}
use game_network.Prelude.{ℕ, ◌≡◌, refl, sym, [], ◌∷◌, arith, debug, All, length, done, release}
use game_network.Std.{ok, SocketAddr, Result}
use game_network.BitVec.View.{bits, IsValid}
use game_network.Msg.{Username, CommError}
use game_network.Msg.Genuine.{Game}
use game_network.Util.{Spmc}
use game_network.Util.Drain.{mpsc_queue}
use game_network.Server.LowLatency.{ApplicationMessage, Servicer, spin_once}
use game_network.Client.LowLatency as ClientSide
use game_network.Network.Progress.{rounds_end}
use game_network.Server.LowLatency.Faithful.{IsAuthentic}
use game_network.Server.LowLatency.Runs as Server
use game_network.Client.LowLatency.Runs as Client
use game_network.Network.Order.{HandsInOrder, reached-HandsInOrder}
use game_network.Network.Safety.{handed_over-IsAuthentic}
use game_network.Samples.{
  bincode, bidir, bidir-IsBidirectional, spmc, ann, address, three_bits, kept-AreSized,
  input_codec-IsLawful,
}

-- Only one state may be entered, once.
abbrev game : Game
game = record {
  size = 3;
  limit = 1;
  Entered = λ a b. b ≡ three_bits;
  sized = λ a b e. subst (λ b. IsValid b × (length (bits b) ≡ 3)) (sym e) kept-AreSized.0;
  fits = omega arith;
}

abbrev Registered : SocketAddr → Username → Type 0
Registered a u = (a ≡ address 1) × (u ≡ ann)

abbrev channel : Spmc ApplicationMessage
channel = spmc ApplicationMessage

abbrev start : Network bidir channel
start = record { server = Server.fresh; clients = λ i. Client.fresh }

start-IsInitial : IsInitial bidir channel (mpsc_queue ApplicationMessage) start
start-IsInitial = record {
  nothing_handed = refl;
  nothing_arrived = refl;
  no_user = refl;
  no_message = refl;
  nothing_entered = λ i. refl;
  nothing_queued = λ i. refl;
  nothing_sent = λ i. refl;
}

abbrev reached : Network bidir channel
reached = record {
  server = Server.handed;
  clients = update (update start.clients 0 (entering three_bits Client.fresh)) 0 Client.sent;
}

-- ann is registered, a state is entered, the client sends it, it arrives, and the server takes it.
travels :
    Reach bidir channel debug bincode game Registered
      (mpsc_queue ApplicationMessage)
      2
      5
      start
      reached
unfolding ℕ_discrete
travels =
    next
      (next
        (next
          (next (next {m = start} here (commands Server.told.from_application ((refl, refl), tt)))
            (enters 0 three_bits refl (omega arith)))
          (client_round 0 (ok tt) Client.sent Client.round_sent))
        (delivers 0 0 (0 ∷ 4 ∷ 3 ∷ 7 ∷ [], address 9) refl))
      (server_round (ok tt) Server.handed Server.round_handed)

handed_over-IsAuthentic_example :
    All (IsAuthentic Registered game) Server.handed.to_application.sent
handed_over-IsAuthentic_example =
    handed_over-IsAuthentic debug bincode bidir channel game Registered
      (mpsc_queue ApplicationMessage) 2 5 input_codec-IsLawful bidir-IsBidirectional (omega arith)
      start-IsInitial travels

reached-HandsInOrder_example :
    HandsInOrder debug bincode bidir channel game Registered
      (mpsc_queue ApplicationMessage)
      2
      5
      reached
reached-HandsInOrder_example =
    reached-HandsInOrder debug bincode bidir channel game Registered (mpsc_queue ApplicationMessage)
      2 5 start-IsInitial travels

-- After any state has been entered at the first client, all rounds end.
rounds_end_example :
    ((answer : Result (Unit {0}) (CommError ℕ)) × (s : Servicer bidir channel) × (spin_once release
          bincode bidir channel 2 5 start.server
        ≡ done (answer, s)))
    × ((i : ℕ)
        → (answer : Result (Unit {0}) (CommError ℕ)) × (c : ClientSide.Servicer)
          × (ClientSide.spin_once release bincode
                (update start.clients 0 (entering three_bits Client.fresh) i)
              ≡ done (answer, c)))
rounds_end_example =
    rounds_end bincode bidir channel game Registered (mpsc_queue ApplicationMessage) 2 5
      input_codec-IsLawful bidir-IsBidirectional (omega arith) start-IsInitial
      (next {m = start} here (enters 0 three_bits refl (omega arith))) (omega arith)

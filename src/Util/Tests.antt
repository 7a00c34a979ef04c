-- ===== src/Util/Tests.antt =====
-- The functions of src/util.rs on a queue of two messages and on one datagram.
use game_network.Prelude.{◌≡◌, ℕ, true, false, [], ◌∷◌, arith, done}
use game_network.Std.{Receiver, UdpSocket, datagram}
use game_network.Util.{drain_spmc_receiver}
use game_network.Util.Drain.{drained, mpsc_queue, drain_spmc_receiver_lem}
use game_network.Samples.{spmc, socket, address}

abbrev two_messages : Receiver ℕ
two_messages = record { queue = 3 ∷ 1 ∷ []; sender_alive = true }

abbrev orphaned : Receiver ℕ
orphaned = record { queue = 3 ∷ 1 ∷ []; sender_alive = false }

abbrev one_datagram : UdpSocket
one_datagram = record socket { inbox = datagram (1 ∷ 2 ∷ []) (address 1) ∷ [] }

drain_spmc_receiver_lem_example :
    (r : Receiver ℕ) × (drain_spmc_receiver (spmc ℕ) 3 two_messages
      ≡ done (drained true (3 ∷ 1 ∷ []), r))
    × (r.queue ≡ [])
drain_spmc_receiver_lem_example =
    drain_spmc_receiver_lem (spmc ℕ) (mpsc_queue ℕ) 3 two_messages (omega arith)

-- ===== src/Server/LowLatency/Answers.antt =====
-- A whole round of src/server/low_latency.rs on a controller input from a known client.
use Prim.Native.Nat.{max}
use game_network.Prelude.{
  ℕ, refl, ◌≡◌, ◌≤◌, ◌<◌, ◌∙◌, true, some, List, [], ◌∷◌, ◌++◌, append-nil, length, inl, inr,
  lt→ltb, le→ltb_false, ltb, if◌then◌else◌, arith, take_all, done, Build,
}
use game_network.Std.{ok, SocketAddr, Arrival, datagram}
use game_network.BitVec.Get.{inside_or_not}
use game_network.Control
use game_network.Control.{ControllerSequence, CompressedControllerSequence}
use game_network.Msg.{Username, Bincode, controller_input, last_tick_received}
use game_network.Util.{Spmc, max_packet_size}
use game_network.Util.Udp.{maybe_receive_from_udp_lem}
use game_network.Util.Drain.{IsQueue}
use game_network.Server.Bidir.{BidirMap}
use game_network.Server.Messages.{ServicerMessage, controller_sequence}
use game_network.Server.LowLatency.{
  ApplicationMessage, Servicer, receive, process_received, handle_controller_input,
  forward_from_client_to_server, spin_once,
}
use game_network.Server.LowLatency.Delivery.{send_message-Sends, quiet_queue}
use game_network.Server.LowLatency.Input.{input_fresh, input_stale, process_udp_lem}

-- What is handed over of a sequence that ends at a tick, after another tick.
abbrev pub handed : Username → ControllerSequence → ℕ → ℕ → List ServicerMessage
handed user c old tick =
    if ltb old tick then record { author = user; payload = controller_sequence c } ∷ [] else []

module _ (build : Build) (bincode : Bincode) (bidir : BidirMap) (spmc : Spmc ApplicationMessage)
    (fuel : ℕ) (user : Username) (src back : SocketAddr) (input : CompressedControllerSequence)
    (c : ControllerSequence) (tick : ℕ)
    (read : Control.to_controller_sequence build fuel input ≡ done (some c))
    (last : Control.last_tick build c ≡ done tick) where
  abbrev pub answered : List ℕ → Servicer bidir spmc → Servicer bidir spmc
  answered reply s = record s {
    last_tick_received = max s.last_tick_received tick;
    to_application = record s.to_application {
      sent = s.to_application.sent ++ handed user c s.last_tick_received tick;
    };
    udp_socket = record s.udp_socket { outbox = s.udp_socket.outbox ++ (reply, back) ∷ [] };
  }

  input_answered :
      (s : Servicer bidir spmc) (reply : List ℕ)
      → bidir.get_by_first s.address_user src ≡ some user
      → bidir.get_by_second s.address_user user ≡ some back
      → s.to_application.receiver_alive ≡ true
      → s.udp_socket.send_faults ≡ []
      → bincode.low_latency_server.serialize (last_tick_received (max s.last_tick_received tick))
        ≡ ok reply
      → handle_controller_input build bincode bidir spmc fuel src input s
        ≡ done (ok tt, answered reply s)
  input_answered s reply known reachable alive no_fault encoded =
      let old = s.last_tick_received in
      elim (inside_or_not old tick) [
        | inl later ↦
            let newer : max old tick ≡ tick = omega arith in
            let s1 : Servicer bidir spmc = record s {
              last_tick_received = tick;
              to_application = record s.to_application {
                sent =
                    s.to_application.sent
                    ++ record { author = user; payload = controller_sequence c } ∷ [];
              };
            } in
            rw (newer, lt→ltb old tick later)
              (input_fresh build bincode bidir spmc fuel src input s user known c read tick last
                  later alive
                ∙ send_message-Sends build bincode bidir spmc
                    (record { to = user; payload = last_tick_received tick }) back reply s1
                    reachable (rw newer at encoded) no_fault)
        | inr earlier ↦
            let older : max old tick ≡ old = omega arith in
            rw (older, le→ltb_false old tick earlier, append-nil s.to_application.sent)
              (input_stale build bincode bidir spmc fuel src input s user known c read tick last
                  earlier
                ∙ send_message-Sends build bincode bidir spmc
                    (record { to = user; payload = last_tick_received old }) back reply s reachable
                    (rw older at encoded) no_fault)
      ]

  input_received :
      (s : Servicer bidir spmc) (bytes : List ℕ) (rest : List Arrival)
      → s.udp_socket.inbox ≡ datagram bytes src ∷ rest
      → length bytes ≤ max_packet_size
      → bincode.low_latency_client.deserialize bytes ≡ ok (controller_input input)
      → forward_from_client_to_server build bincode bidir spmc fuel s
        ≡ handle_controller_input build bincode bidir spmc fuel src input
            (record s { udp_socket = record s.udp_socket { inbox = rest } })
  unfolding forward_from_client_to_server receive process_received
  input_received s bytes rest arrived small decoded =
      let s1 : Servicer bidir spmc = record s {
        udp_socket = record s.udp_socket { inbox = rest };
      } in
      rw (
        maybe_receive_from_udp_lem {E = bincode.Error} s.udp_socket,
        arrived,
        take_all max_packet_size bytes small,
        process_udp_lem build bincode bidir spmc fuel src bytes input s1 decoded,
      )

  -- With no message pending, a round on such an input ends with the sequence handed over if it ends later
  -- than the newest tick received, and with the newest tick sent to the user.
  pub input_round :
      (q : IsQueue spmc.try_recv) (rounds_left : ℕ) (s : Servicer bidir spmc) (bytes reply : List ℕ)
      (rest : List Arrival)
      → q.pending s.from_application ≡ []
      → q.alive s.from_application ≡ true
      → 0 < rounds_left
      → s.udp_socket.inbox ≡ datagram bytes src ∷ rest
      → length bytes ≤ max_packet_size
      → bincode.low_latency_client.deserialize bytes ≡ ok (controller_input input)
      → bidir.get_by_first s.address_user src ≡ some user
      → bidir.get_by_second s.address_user user ≡ some back
      → s.to_application.receiver_alive ≡ true
      → s.udp_socket.send_faults ≡ []
      → bincode.low_latency_server.serialize (last_tick_received (max s.last_tick_received tick))
        ≡ ok reply
      → (s' : Servicer bidir spmc) × (spin_once build bincode bidir spmc rounds_left fuel s
          ≡ done (ok tt, s'))
        × (s'.last_tick_received ≡ max s.last_tick_received tick)
        × (s'.to_application.sent
            ≡ s.to_application.sent ++ handed user c s.last_tick_received tick)
        × (s'.udp_socket.outbox ≡ s.udp_socket.outbox ++ (reply, back) ∷ [])
  unfolding spin_once
  input_round q rounds_left s bytes reply rest none_left up enough arrived small decoded known
        reachable alive no_fault encoded =
      let (r, quiet) = quiet_queue build bincode bidir spmc q rounds_left s none_left up enough in
      let s0 : Servicer bidir spmc = record s { from_application = r } in
      let s1 : Servicer bidir spmc = record s0 {
        udp_socket = record s.udp_socket { inbox = rest };
      } in
      (
        answered reply s1,
        rw (
          quiet,
          input_received s0 bytes rest arrived small decoded,
          input_answered s1 reply known reachable alive no_fault encoded,
        ),
        refl,
        refl,
        refl,
      )

-- ===== src/Client/LowLatency/Receive.antt =====
-- What the servicer of src/client/low_latency.rs does with a datagram that carries a world state or a tick.
use game_network.Prelude.{
  ℕ, ◌≡◌, ◌≢◌, ◌≤◌, refl, ap, ◌∙◌, true, false, List, [], ◌∷◌, ◌++◌, length, take_all, drop, done,
  Build,
}
use game_network.Std.{Result, ok, SocketAddr, UdpSocket, Arrival, datagram}
use game_network.Msg.{LowLatencyServerMessage, CommError, Bincode}
use game_network.Util.{max_packet_size, maybe_receive_udp}
use game_network.Util.Udp.{
  Received, expected, without_source, maybe_receive_from_udp_lem, maybe_receive_udp_lem,
}
use game_network.Control.{ControllerSequence, remove_till_tick}
use game_network.Client.LowLatency.{
  parse_server_message, world_state, Servicer, is_empty, forward_from_server_to_client,
}
use game_network.Client.LowLatency.Messages.{world_state_forwarded}

received :
    (E : Type 0) (s : UdpSocket) (bytes : List ℕ) (src : SocketAddr) (rest : List Arrival)
    → s.inbox ≡ datagram bytes src ∷ rest
    → length bytes ≤ max_packet_size
    → maybe_receive_udp {E = E} s ≡ (ok bytes, record s { inbox = rest })
received E s bytes src rest arrived small =
    maybe_receive_udp_lem {E = E} s
    ∙ ap (λ (p : Received E × UdpSocket). (without_source p.0, p.1))
        (maybe_receive_from_udp_lem {E = E} s)
    ∙ ap
        (λ l.
          let r : Result (List ℕ) (CommError E) × UdpSocket =
            (without_source (expected l), record s { inbox = drop 1 l }) in
          r)
        arrived
    ∙ ap
        (λ l.
          let r : Result (List ℕ) (CommError E) × UdpSocket = (ok l, record s { inbox = rest }) in
          r)
        (take_all max_packet_size bytes small)

is_empty_of_some :
    (build : Build) (bincode : Bincode) (bytes : List ℕ)
    → bytes ≢ []
    → is_empty build bincode bytes ≡ false
unfolding is_empty
is_empty_of_some build bincode [] h = absurd (h refl)
is_empty_of_some build bincode (b ∷ bs) h = refl

module _ (build : Build) (bincode : Bincode) (s : Servicer) where
  pub world_received :
      (state bytes : List ℕ) (src : SocketAddr) (rest : List Arrival)
      → s.udp_socket.inbox ≡ datagram bytes src ∷ rest
      → bytes ≢ []
      → length bytes ≤ max_packet_size
      → bincode.low_latency_server.deserialize bytes
        ≡ ok (LowLatencyServerMessage.world_state state)
      → s.to_application.receiver_alive ≡ true
      → forward_from_server_to_client build bincode s
        ≡ done (
          ok tt,
          record s {
            udp_socket = record s.udp_socket { inbox = rest };
            to_application = record s.to_application {
              sent = s.to_application.sent ++ world_state state ∷ [];
            };
          },
        )
  unfolding forward_from_server_to_client
  world_received state bytes src rest arrived some_bytes small read alive =
      let s1 : Servicer = record s { udp_socket = record s.udp_socket { inbox = rest } } in
      simp (
        received bincode.Error s.udp_socket bytes src rest arrived small,
        is_empty_of_some build bincode bytes some_bytes,
        read,
        world_state_forwarded build bincode s1 state,
        alive,
      )

  pub tick_received :
      (tick : ℕ) (c : ControllerSequence) (bytes : List ℕ) (src : SocketAddr) (rest : List Arrival)
      → s.udp_socket.inbox ≡ datagram bytes src ∷ rest
      → bytes ≢ []
      → length bytes ≤ max_packet_size
      → bincode.low_latency_server.deserialize bytes
        ≡ ok (LowLatencyServerMessage.last_tick_received tick)
      → remove_till_tick build s.controller_seq tick ≡ done c
      → forward_from_server_to_client build bincode s
        ≡ done (
          ok tt,
          record s { udp_socket = record s.udp_socket { inbox = rest }; controller_seq = c },
        )
  unfolding forward_from_server_to_client parse_server_message
  tick_received tick c bytes src rest arrived some_bytes small read removed = simp (
    received bincode.Error s.udp_socket bytes src rest arrived small,
    is_empty_of_some build bincode bytes some_bytes,
    read,
    removed,
  )

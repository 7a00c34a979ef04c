-- ===== src/Client/LowLatency/Quiet.antt =====
-- Rounds of src/client/low_latency.rs in which no datagram arrives.
use game_network.Prelude.{
  refl, ◌≢◌, ◌≤◌, ◌++◌, true, some, length, ℕ, ◌≡◌, ap, ◌∙◌, false, List, [], ◌∷◌, drop, done,
  Build,
}
use game_network.Std.{Result, ok, err, UdpSocket}
use game_network.Msg.{controller_input, CommError, exit, Bincode}
use game_network.Exec.{rounds, next_round}
use game_network.Util.{max_packet_size, maybe_receive_udp}
use game_network.Util.Udp.{
  Received, expected, without_source, maybe_receive_from_udp_lem, maybe_receive_udp_lem,
}
use game_network.Client.LowLatency.{
  Servicer, is_empty, receive, forward_from_server_to_client, spin_once, goes_on, spin,
}
use game_network.Client.LowLatency.Messages.{
  states, application_gone, application_messages_taken, inputs_sent,
}
use game_network.Control.{CompressedControllerSequence, to_compressed}

nothing_received :
    (E : Type 0) (s : UdpSocket)
    → s.inbox ≡ []
    → maybe_receive_udp {E = E} s ≡ (ok [], record s { inbox = [] })
nothing_received E s quiet =
    maybe_receive_udp_lem {E = E} s
    ∙ ap (λ (p : Received E × UdpSocket). (without_source p.0, p.1))
        (maybe_receive_from_udp_lem {E = E} s)
    ∙ ap
        (λ l.
          let r : Result (List ℕ) (CommError E) × UdpSocket =
            (without_source (expected l), record s { inbox = drop 1 l }) in
          r)
        quiet

module _ (build : Build) (bincode : Bincode) where
  quiet_lem :
      (s : Servicer)
      → s.udp_socket.inbox ≡ []
      → forward_from_server_to_client build bincode s
        ≡ done (ok tt, record s { udp_socket = record s.udp_socket { inbox = [] } })
  unfolding forward_from_server_to_client receive is_empty
  quiet_lem s quiet = simp (nothing_received bincode.Error s.udp_socket quiet)

  gone_round :
      (s : Servicer)
      → s.udp_socket.inbox ≡ []
      → s.from_application.sender_alive ≡ false
      → (s' : Servicer) × (spin_once build bincode s ≡ done (err exit, s'))
  unfolding spin_once
  gone_round s quiet gone =
      let s1 : Servicer = record s { udp_socket = record s.udp_socket { inbox = [] } } in
      let (rest, none_left, exits) = application_gone build bincode s1 gone in
      (record s1 { from_application = rest }, simp (quiet_lem s quiet, exits))

  -- The loop ends with such a round.
  pub gone_stops :
      (arrive : Servicer → Servicer) (rest : List (Servicer → Servicer)) (s : Servicer)
      → (arrive s).udp_socket.inbox ≡ []
      → (arrive s).from_application.sender_alive ≡ false
      → (s' : Servicer) × (spin build bincode (arrive ∷ rest) s ≡ done (false, s'))
  unfolding spin rounds next_round goes_on
  gone_stops arrive rest s quiet gone =
      let (s', exits) = gone_round (arrive s) quiet gone in (s', rw exits)

  -- Such a round with a living application thread takes all states from the queue, and sends those that
  -- it then keeps in one datagram to the server.
  pub quiet_round_sends :
      (s : Servicer) (sent : CompressedControllerSequence) (bytes : List ℕ)
      → let c = record s.controller_seq {
        seq = s.controller_seq.seq ++ states s.from_application.queue;
      } in
        s.udp_socket.inbox ≡ []
        → s.from_application.sender_alive ≡ true
        → c.seq ≢ []
        → to_compressed build c ≡ done (some sent)
        → bincode.low_latency_client.serialize (controller_input sent) ≡ ok bytes
        → length bytes ≤ max_packet_size
        → s.udp_socket.send_faults ≡ []
        → (s' : Servicer) × (spin_once build bincode s ≡ done (ok tt, s'))
          × (s'.udp_socket.outbox ≡ s.udp_socket.outbox ++ (bytes, s.server_addr) ∷ [])
          × (s'.controller_seq ≡ c)
          × (s'.from_application.queue ≡ [])
  unfolding spin_once
  quiet_round_sends s sent bytes quiet alive some_state compressed encoded small no_fault =
      let s1 : Servicer = record s { udp_socket = record s.udp_socket { inbox = [] } } in
      let (rest, none_left, takes) = application_messages_taken build bincode s1 alive in
      let s2 : Servicer = record s1 {
        from_application = rest;
        controller_seq = record s.controller_seq {
          seq = s.controller_seq.seq ++ states s.from_application.queue;
        };
      } in
      let sends =
        inputs_sent build bincode s2 sent bytes some_state compressed encoded small no_fault in
      let s3 : Servicer = record s2 {
        udp_socket = record s2.udp_socket {
          outbox = s.udp_socket.outbox ++ (bytes, s.server_addr) ∷ [];
        };
      } in
      (s3, simp (quiet_lem s quiet, takes, sends), refl, refl, none_left)

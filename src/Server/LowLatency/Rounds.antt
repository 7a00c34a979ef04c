-- ===== src/Server/LowLatency/Rounds.antt =====
-- A round of the servicer of src/server/low_latency.rs keeps what it hands over authentic.
use game_network.Prelude.{
  take_all, ltb, ℕ, ◌≤◌, ◌<◌, ◌≡◌, Option, none, some, List, [], ◌∷◌, arith, done, Build,
  Bool-cases, Run-cases, Option-cases, inl, inr, All, ◌+◌, ◌*◌, sym, length, All-append, All-map,
  drop, All-drop,
}
use game_network.Std.{ok, err, map_err, SocketAddr, send, Arrival, datagram, failure}
use game_network.Exec.{◌>>◌, continue}
use game_network.Exec.Keeps.{Post, Keeps, Post-continue, Keeps-bind}
use game_network.Control
use game_network.Control.{ControllerSequence, CompressedControllerSequence}
use game_network.Msg.{Username, Bincode, controller_input, LowLatencyServerMessage, IsLawful}
use game_network.Util.{Spmc, drain_spmc_receiver, max_packet_size}
use game_network.Server.Bidir.{BidirMap, IsBidirectional}
use game_network.Server.LowLatency.{
  ApplicationMessage, ToClient, Servicer, Method, handle_controller_input, send_message, accept,
  acknowledge, respond, transmit, send_found, send_option, parse, forward_from_server_to_client,
  process_udp, handle_client_message, receive, process_received, forward_from_client_to_server,
  spin_once,
}
use game_network.Msg.Genuine.{Game, Genuine}
use game_network.Exchange.{read_back}
use game_network.Util.Udp.{expected, maybe_receive_from_udp_lem, inbox_sent, is_quiet}
use game_network.Util.Drain.{IsQueue, drain_spmc_receiver-All}
use game_network.Server.LowLatency.Parse.{
  book, parse_application_messages_lem, newest, is_world, is_tick,
}
use native.Mathlib.Nat.{mul-le-mul_right}
use mathlib.Core.Path.{subst}
use game_network.Server.LowLatency.Faithful.{Allowed, IsAuthentic, IsGenuine, IsBook, book-IsBook}

module _ (build : Build) (bincode : Bincode) (bidir : BidirMap) (spmc : Spmc ApplicationMessage)
    (game : Game) (Registered : SocketAddr → Username → Type 0) (q : IsQueue spmc.try_recv) where
  -- What was handed over and what waits to be received, the address book, and the queue.
  abbrev pub IsFaithful : Servicer bidir spmc → Type 0
  IsFaithful s =
      All (IsAuthentic Registered game) s.to_application.sent
      × All (IsGenuine build bincode game) s.udp_socket.inbox
      × IsBook bidir Registered s.address_user
      × All (Allowed Registered) (q.pending s.from_application)

  abbrev Faithful : {A : Type 0} → Method build bincode bidir spmc A → Type 0
  Faithful m = Keeps IsFaithful m

  transmit-Faithful :
      (bytes : List ℕ) (address : SocketAddr)
      → Faithful (transmit build bincode bidir spmc bytes address)
  unfolding transmit
  transmit-Faithful bytes address s (handed, waiting, known, queued) = (
    handed,
    subst (All (IsGenuine build bincode game)) (sym (inbox_sent bytes address s.udp_socket))
        waiting,
    known,
    queued,
  )

  send_found-Faithful :
      (found : Option SocketAddr) (payload : LowLatencyServerMessage)
      → Faithful (send_found build bincode bidir spmc found payload)
  unfolding send_found
  send_found-Faithful none payload s h = h
  send_found-Faithful (some address) payload s h =
      Post-continue IsFaithful (λ encode. transmit build bincode bidir spmc encode address)
        (done (map_err _ (bincode.low_latency_server.serialize payload), s))
        (λ encode. transmit-Faithful encode address) h

  send_message-Faithful : (m : ToClient) → Faithful (send_message build bincode bidir spmc m)
  unfolding send_message
  send_message-Faithful m s h =
      send_found-Faithful (bidir.get_by_second s.address_user m.to) m.payload s h

  acknowledge-Faithful : (user : Username) → Faithful (acknowledge build bincode bidir spmc user)
  unfolding acknowledge
  acknowledge-Faithful user s h = send_message-Faithful _ s h

  accept-Faithful :
      (user : Username) (c : ControllerSequence) (tick : ℕ)
      → ((a : SocketAddr) × Registered a user × All (game.Entered a) c.seq)
      → Faithful (accept build bincode bidir spmc user c tick)
  unfolding accept send
  accept-Faithful user c tick entered s (handed, waiting, known, queued) =
      elim (Bool-cases (ltb s.last_tick_received tick)) [
        | inl newer ↦ elim (Bool-cases s.to_application.receiver_alive) [
          | inl alive ↦
              rw (newer, alive)
                (
                  All-append (IsAuthentic Registered game) s.to_application.sent _ handed
                      (entered, tt),
                  waiting,
                  known,
                  queued,
                )
          | inr gone ↦ rw (newer, gone) (handed, waiting, known, queued)
        ]
        | inr stale ↦ rw stale (handed, waiting, known, queued)
      ]

  respond-Faithful :
      (user : Username) (c : ControllerSequence)
      → ((a : SocketAddr) × Registered a user × All (game.Entered a) c.seq)
      → Faithful (respond build bincode bidir spmc user c)
  unfolding respond
  respond-Faithful user c entered s h = elim (Run-cases (Control.last_tick build c)) [
    | inl (tick, e) ↦ rw e (
        Post-continue IsFaithful (λ _. acknowledge build bincode bidir spmc user)
          (accept build bincode bidir spmc user c tick s) (λ _. acknowledge-Faithful user)
          (accept-Faithful user c tick entered s h))
    | inr (inl e) ↦ rw e tt
    | inr (inr e) ↦ rw e tt
  ]

  send_option-Faithful : (m : Option ToClient) → Faithful (send_option build bincode bidir spmc m)
  unfolding send_option
  send_option-Faithful none s h = h
  send_option-Faithful (some m) s h = send_message-Faithful m s h

  module _ (lawful : IsLawful bincode.low_latency_client) (laws : IsBidirectional bidir)
      (fuel rounds_left : ℕ) (enough : game.limit * (game.size + 1) < fuel) where
    -- What the server reads from a genuine datagram.
    pub Genuine-read :
        (a : SocketAddr) (bytes : List ℕ) (g : Genuine build bincode game a bytes)
        → Control.to_controller_sequence build fuel g.sent ≡ done (some g.c)
    Genuine-read a bytes g =
        let few : length g.c.seq * (game.size + 1) ≤ game.limit * (game.size + 1) =
          mul-le-mul_right (game.size + 1) g.few in
        let fits = game.fits in
        read_back build fuel game.size g.c
          (All-map (game.Entered a) _ g.c.seq (game.sized a) g.entered) (omega arith) (omega arith)
          g.sent g.compressed

    process_udp-Faithful :
        (src : SocketAddr) (bytes : List ℕ)
        → Genuine build bincode game src bytes
        → Faithful (process_udp build bincode bidir spmc fuel src bytes)
    unfolding process_udp handle_client_message handle_controller_input
    process_udp-Faithful src bytes g s h =
        rw (lawful.round_trip (controller_input g.sent) bytes g.encoded)
          (elim (Option-cases (bidir.get_by_first s.address_user src)) [
            | inl e ↦ rw e h
            | inr (user, e) ↦
                rw (e, Genuine-read src bytes g)
                  (respond-Faithful user g.c (src, h.2 src user e, g.entered) s h)
          ])

    pub receive_lem :
        (s : Servicer bidir spmc)
        → receive build bincode bidir spmc s
          ≡ done (
            expected s.udp_socket.inbox,
            record s { udp_socket = record s.udp_socket { inbox = drop 1 s.udp_socket.inbox } },
          )
    unfolding receive
    receive_lem s = rw (maybe_receive_from_udp_lem {E = bincode.Error} s.udp_socket)

    process_expected :
        (inbox : List Arrival) (s : Servicer bidir spmc)
        → All (IsGenuine build bincode game) inbox
        → IsFaithful s
        → Post IsFaithful
            (continue (process_received build bincode bidir spmc fuel) (done (expected inbox, s)))
    unfolding process_received
    process_expected [] s genuine h = h
    process_expected (datagram bytes src ∷ rest) s genuine h =
        rw (take_all max_packet_size bytes genuine.0.small)
          (process_udp-Faithful src bytes genuine.0 s h)
    process_expected (failure e ∷ rest) s genuine h = elim (Bool-cases (is_quiet e.kind)) [
      | inl quiet ↦ rw quiet h
      | inr loud ↦ rw loud h
    ]

    forward_from_client_to_server-Faithful :
        Faithful (forward_from_client_to_server build bincode bidir spmc fuel)
    unfolding forward_from_client_to_server
    forward_from_client_to_server-Faithful s (handed, waiting, known, queued) = rw (receive_lem s) (
        process_expected s.udp_socket.inbox _ waiting (
          handed,
          All-drop (IsGenuine build bincode game) 1 s.udp_socket.inbox waiting,
          known,
          queued,
        ))

    -- The messages of a drain are in the address book, and the answers are sent.
    drained-Faithful :
        (msgs : List ApplicationMessage) (s : Servicer bidir spmc)
        → All (Allowed Registered) msgs
        → IsFaithful s
        → Post IsFaithful (
            continue
              (λ outgoing.
                send_option build bincode bidir spmc outgoing.world
                >> send_option build bincode bidir spmc outgoing.last_tick)
              (parse build bincode bidir spmc msgs s))
    unfolding parse
    drained-Faithful msgs s allowed (handed, waiting, known, queued) =
        rw (parse_application_messages_lem bidir msgs s.address_user) (
          Keeps-bind IsFaithful (send_option build bincode bidir spmc (newest is_world msgs))
            (λ _. send_option build bincode bidir spmc (newest is_tick msgs))
            (send_option-Faithful (newest is_world msgs))
            (λ _. send_option-Faithful (newest is_tick msgs))
            (record s { address_user = book bidir msgs s.address_user })
            (
              handed,
              waiting,
              book-IsBook bidir Registered laws msgs s.address_user allowed known,
              queued,
            ))

    pub forward_from_server_to_client-Faithful :
        Faithful (forward_from_server_to_client build bincode bidir spmc rounds_left)
    unfolding forward_from_server_to_client
    forward_from_server_to_client-Faithful s (handed, waiting, known, queued) =
        let all_allowed =
          drain_spmc_receiver-All spmc q (Allowed Registered) rounds_left s.from_application
            queued in
        elim (Run-cases (drain_spmc_receiver spmc rounds_left s.from_application)) [
          | inl ((ok msgs, receiver), e) ↦
              let left = rw e at all_allowed in
              rw e (
                drained-Faithful msgs (record s { from_application = receiver }) left.0
                  (handed, waiting, known, left.1))
          | inl ((err d, receiver), e) ↦
              let left = rw e at all_allowed in rw e (handed, waiting, known, left)
          | inr (inl e) ↦ rw e tt
          | inr (inr e) ↦ rw e tt
        ]

    -- A round of the servicer, however it ends, keeps what it hands over authentic.
    pub spin_once-IsFaithful : Faithful (spin_once build bincode bidir spmc rounds_left fuel)
    unfolding spin_once
    spin_once-IsFaithful =
        Keeps-bind IsFaithful (forward_from_server_to_client build bincode bidir spmc rounds_left)
          (λ _. forward_from_client_to_server build bincode bidir spmc fuel >> λ s. done (ok tt, s))
          forward_from_server_to_client-Faithful
          (λ _.
            Keeps-bind IsFaithful (forward_from_client_to_server build bincode bidir spmc fuel)
              (λ _ s. done (ok tt, s)) forward_from_client_to_server-Faithful (λ _ s h. h))

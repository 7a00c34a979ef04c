-- ===== src/Server/LowLatency/Ends.antt =====
-- In a release build a round of the servicer of src/server/low_latency.rs ends, when what arrives comes
-- from clients of the game.
use game_network.Msg.{Username, Bincode, controller_input, LowLatencyServerMessage, IsLawful}
use game_network.Prelude.{
  take_all, ltb, ℕ, ◌<◌, Option, none, some, List, [], ◌∷◌, done, Bool-cases, Option-cases, inl,
  inr, All, ◌+◌, ◌*◌, length, release,
}
use game_network.Std.{Result-cases, ok, SocketAddr, send, Arrival, datagram, failure}
use game_network.Exec.{◌>>◌, continue}
use game_network.Exec.Keeps.{Ends, Total, Ends-continue, Post-any}
use game_network.Control.{ControllerSequence}
use game_network.Util.{Spmc, max_packet_size}
use game_network.Server.Bidir.{BidirMap, IsBidirectional}
use game_network.Server.LowLatency.{
  ApplicationMessage, ToClient, Servicer, handle_controller_input, send_message, accept,
  acknowledge, respond, transmit, send_found, send_option, parse, forward_from_server_to_client,
  process_udp, handle_client_message, process_received, forward_from_client_to_server, spin_once,
}
use game_network.Msg.Genuine.{Game, Genuine}
use game_network.Util.Udp.{expected, is_quiet}
use game_network.Util.Drain.{IsQueue, drain_spmc_receiver_lem}
use game_network.Server.LowLatency.Parse.{parse_application_messages_lem, newest, is_world, is_tick}
use game_network.Server.LowLatency.Faithful.{IsGenuine}
use game_network.Control.Ticks.{last_tick_release}
use game_network.Server.LowLatency.Rounds.{
  IsFaithful, Genuine-read, receive_lem, forward_from_server_to_client-Faithful,
}

module _ (bincode : Bincode) (bidir : BidirMap) (spmc : Spmc ApplicationMessage) (game : Game)
    (Registered : SocketAddr → Username → Type 0) (q : IsQueue spmc.try_recv) where
  send_found-Ends :
      (found : Option SocketAddr) (payload : LowLatencyServerMessage) (s : Servicer bidir spmc)
      → Ends (send_found release bincode bidir spmc found payload s)
  unfolding send_found transmit
  send_found-Ends none payload s = tt
  send_found-Ends (some address) payload s =
      elim (Result-cases (bincode.low_latency_server.serialize payload)) [
        | inl (bytes, e) ↦ rw e tt
        | inr (x, e) ↦ rw e tt
      ]

  send_message-Ends :
      (m : ToClient) (s : Servicer bidir spmc) → Ends (send_message release bincode bidir spmc m s)
  unfolding send_message
  send_message-Ends m s = send_found-Ends (bidir.get_by_second s.address_user m.to) m.payload s

  send_option-Ends :
      (m : Option ToClient) (s : Servicer bidir spmc)
      → Ends (send_option release bincode bidir spmc m s)
  unfolding send_option
  send_option-Ends none s = tt
  send_option-Ends (some m) s = send_message-Ends m s

  accept-Ends :
      (user : Username) (c : ControllerSequence) (tick : ℕ) (s : Servicer bidir spmc)
      → Ends (accept release bincode bidir spmc user c tick s)
  unfolding accept send
  accept-Ends user c tick s = elim (Bool-cases (ltb s.last_tick_received tick)) [
    | inl newer ↦ rw newer tt
    | inr stale ↦ rw stale tt
  ]

  respond-Ends :
      (user : Username) (c : ControllerSequence) (s : Servicer bidir spmc)
      → Ends (respond release bincode bidir spmc user c s)
  unfolding respond acknowledge
  respond-Ends user c s =
      let (tick, e) = last_tick_release c in
      rw e (
        Ends-continue (λ _. Unit {0}) (λ _. acknowledge release bincode bidir spmc user)
          (accept release bincode bidir spmc user c tick s) (λ _ s h. send_message-Ends _ s)
          (Post-any (accept release bincode bidir spmc user c tick s)) (accept-Ends user c tick s))

  module _ (lawful : IsLawful bincode.low_latency_client) (laws : IsBidirectional bidir)
      (fuel rounds_left : ℕ) (enough : game.limit * (game.size + 1) < fuel) where
    abbrev Faithful : Servicer bidir spmc → Type 0
    Faithful = IsFaithful release bincode bidir spmc game Registered q

    process_udp-Ends :
        (src : SocketAddr) (bytes : List ℕ) (s : Servicer bidir spmc)
        → Genuine release bincode game src bytes
        → Ends (process_udp release bincode bidir spmc fuel src bytes s)
    unfolding process_udp handle_client_message handle_controller_input
    process_udp-Ends src bytes s g =
        let read =
          Genuine-read release bincode bidir spmc game Registered q lawful laws fuel rounds_left
            enough src bytes g in
        rw (lawful.round_trip (controller_input g.sent) bytes g.encoded)
          (elim (Option-cases (bidir.get_by_first s.address_user src)) [
            | inl e ↦ rw e tt
            | inr (user, e) ↦ rw (e, read) (respond-Ends user g.c s)
          ])

    process_expected-Ends :
        (inbox : List Arrival) (s : Servicer bidir spmc)
        → All (IsGenuine release bincode game) inbox
        → Ends
            (continue (process_received release bincode bidir spmc fuel) (done (expected inbox, s)))
    unfolding process_received
    process_expected-Ends [] s genuine = tt
    process_expected-Ends (datagram bytes src ∷ rest) s genuine =
        rw (take_all max_packet_size bytes genuine.0.small) (process_udp-Ends src bytes s genuine.0)
    process_expected-Ends (failure e ∷ rest) s genuine = elim (Bool-cases (is_quiet e.kind)) [
      | inl quiet ↦ rw quiet tt
      | inr loud ↦ rw loud tt
    ]

    forward_from_client_to_server-Total :
        Total Faithful (forward_from_client_to_server release bincode bidir spmc fuel)
    unfolding forward_from_client_to_server
    forward_from_client_to_server-Total s (handed, waiting, known, queued) =
        let received =
          receive_lem release bincode bidir spmc game Registered q lawful laws fuel rounds_left
            enough s in
        rw received (process_expected-Ends s.udp_socket.inbox _ waiting)

    forward_from_server_to_client-Ends :
        (s : Servicer bidir spmc)
        → length (q.pending s.from_application) < rounds_left
        → Ends (forward_from_server_to_client release bincode bidir spmc rounds_left s)
    unfolding forward_from_server_to_client parse
    forward_from_server_to_client-Ends s few =
        let (r, runs, none_left) =
          drain_spmc_receiver_lem spmc q rounds_left s.from_application few in
        elim (Bool-cases (q.alive s.from_application)) [
          | inl alive ↦
              let msgs = q.pending s.from_application in
              rw (runs, alive, parse_application_messages_lem bidir msgs s.address_user)
                (Ends-continue (λ _. Unit {0})
                  (λ _. send_option release bincode bidir spmc (newest is_tick msgs))
                  (send_option release bincode bidir spmc (newest is_world msgs) _)
                  (λ _ s h. send_option-Ends (newest is_tick msgs) s)
                  (Post-any (send_option release bincode bidir spmc (newest is_world msgs) _))
                  (send_option-Ends (newest is_world msgs) _))
          | inr gone ↦ rw (runs, gone) tt
        ]

    -- A round ends with an answer, without a panic, if its drain can take all messages.
    pub spin_once-Ends :
        (s : Servicer bidir spmc)
        → Faithful s
        → length (q.pending s.from_application) < rounds_left
        → Ends (spin_once release bincode bidir spmc rounds_left fuel s)
    unfolding spin_once
    spin_once-Ends s h few =
        Ends-continue Faithful
          (λ _.
            forward_from_client_to_server release bincode bidir spmc fuel >> λ s. done (ok tt, s))
          (forward_from_server_to_client release bincode bidir spmc rounds_left s)
          (λ _ s h.
            Ends-continue (λ _. Unit {0}) (λ _ s. done (ok tt, s))
              (forward_from_client_to_server release bincode bidir spmc fuel s) (λ _ s h. tt)
              (Post-any (forward_from_client_to_server release bincode bidir spmc fuel s))
              (forward_from_client_to_server-Total s h))
          (forward_from_server_to_client-Faithful release bincode bidir spmc game Registered q
            lawful laws fuel rounds_left enough s h)
          (forward_from_server_to_client-Ends s few)

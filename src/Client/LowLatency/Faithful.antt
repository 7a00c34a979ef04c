-- ===== src/Client/LowLatency/Faithful.antt =====
-- The servicer of src/client/low_latency.rs sends on what was entered: its sequence, its queue and its
-- datagrams hold states of the application.
use game_network.Prelude.{
  arith, done, Build, ℕ, ◌≡◌, ◌≤◌, sym, Bool-cases, Run-cases, inl, inr, none, some, List, length,
  if◌then◌else◌, All, ltb, lt→ltb, le→ltb_false, All-append, length-append, ◌+◌,
}
use game_network.Msg.{
  controller_input, CommError, Bincode, LowLatencyServerMessage, last_tick_received, exit, Bincode,
}
use mathlib.Core.Path.{subst}
use game_network.BitVec.Get.{inside_or_not}
use game_network.Std.{Result-cases, ok, SocketAddr}
use game_network.Exec.{Exec, raise}
use game_network.Exec.Keeps.{Post, Keeps, Keeps-bind}
use game_network.Control
use game_network.Util.{max_packet_size}
use game_network.Util.Udp.{send_to-All, outbox_received}
use game_network.Msg.Genuine.{Game, Genuine}
use game_network.Control.{CompressedControllerSequence}
use game_network.Control.Ticks.{remove_till_tick-All}
use game_network.Client.LowLatency.Messages.{states, application_messages_taken, application_gone}
use game_network.Client.LowLatency.{
  Servicer, receive, parse_server_message, is_empty, forward_from_server_to_client, transmit,
  send_controller_inputs, forward_from_client_to_server, spin_once,
}

module _ (build : Build) (bincode : Bincode) (game : Game) (a : SocketAddr) where
  abbrev pub IsFaithful : Servicer → Type 0
  IsFaithful s =
      (s.self_addr ≡ a)
      × All (game.Entered a) s.controller_seq.seq
      × All (game.Entered a) (states s.from_application.queue)
      × (length s.controller_seq.seq + length (states s.from_application.queue) ≤ game.limit)
      × All (λ p. Genuine build bincode game a p.0) s.udp_socket.outbox

  abbrev Faithful : {A : Type 0} → Exec Servicer (CommError bincode.Error) A → Type 0
  Faithful m = Keeps IsFaithful m

  pub receive-Faithful : Faithful (receive build bincode)
  unfolding receive
  receive-Faithful s (here, kept, queued, few, sent) = (
    here,
    kept,
    queued,
    few,
    subst (All (λ p. Genuine build bincode game a p.0))
        (sym (outbox_received bincode.Error s.udp_socket)) sent,
  )

  parse_server_message-Faithful :
      (m : LowLatencyServerMessage) → Faithful (parse_server_message build bincode m)
  unfolding parse_server_message
  parse_server_message-Faithful (LowLatencyServerMessage.world_state state) s h = h
  parse_server_message-Faithful (last_tick_received tick) s (here, kept, queued, few, sent) =
      elim (Run-cases (Control.remove_till_tick build s.controller_seq tick)) [
        | inl (c, e) ↦
            let (kept', fewer) =
              remove_till_tick-All (game.Entered a) build s.controller_seq c tick e kept in
            rw e (here, kept', queued, omega arith, sent)
        | inr (inl e) ↦ rw e tt
        | inr (inr e) ↦ rw e tt
      ]

  pub forward_from_server_to_client-Faithful :
      Faithful (forward_from_server_to_client build bincode)
  unfolding forward_from_server_to_client
  forward_from_server_to_client-Faithful =
      Keeps-bind IsFaithful (receive build bincode) _ receive-Faithful λ buf s h.
        elim (Bool-cases (is_empty build bincode buf)) [
          | inl e ↦ rw e h
          | inr e ↦ rw e (elim (Result-cases (bincode.low_latency_server.deserialize buf)) [
            | inl (m, r) ↦ rw r (parse_server_message-Faithful m s h)
            | inr (x, r) ↦ rw r h
          ])
        ]

  -- The bytes of the compressed sequence, once they have been made.
  send_encoded-Faithful :
      (encoded : List ℕ) (payload : CompressedControllerSequence) (s : Servicer)
      → Control.to_compressed build s.controller_seq ≡ done (some payload)
      → bincode.low_latency_client.serialize (controller_input payload) ≡ ok encoded
      → IsFaithful s
      → Post IsFaithful (
          (if ltb max_packet_size (length encoded)
              then raise exit
              else transmit build bincode encoded)
            s)
  unfolding transmit
  send_encoded-Faithful encoded payload s compressed serialized (here, kept, queued, few, sent) =
      elim (inside_or_not max_packet_size (length encoded)) [
        | inl long ↦
            rw (lt→ltb max_packet_size (length encoded) long) (here, kept, queued, few, sent)
        | inr small ↦ rw (le→ltb_false max_packet_size (length encoded) small) (
          here,
          kept,
          queued,
          few,
          send_to-All (λ p. Genuine build bincode game a p.0) encoded s.server_addr s.udp_socket
              sent
              (record {
                small = small;
                c = s.controller_seq;
                sent = payload;
                entered = kept;
                few = omega arith;
                compressed = compressed;
                encoded = serialized;
              }),
        )
      ]

  send_controller_inputs-Faithful : Faithful (send_controller_inputs build bincode)
  unfolding send_controller_inputs
  send_controller_inputs-Faithful s h = elim (Bool-cases (Control.is_empty s.controller_seq)) [
    | inl none_kept ↦ rw none_kept h
    | inr some_kept ↦
        rw some_kept (elim (Run-cases (Control.to_compressed build s.controller_seq)) [
          | inl (some c, e) ↦
              rw e
                (elim (Result-cases (bincode.low_latency_client.serialize (controller_input c))) [
                  | inl (encoded, r) ↦ rw r (send_encoded-Faithful encoded c s e r h)
                  | inr (x, r) ↦ rw r h
                ])
          | inl (none, e) ↦ rw e h
          | inr (inl e) ↦ rw e tt
          | inr (inr e) ↦ rw e tt
        ])
  ]

  pub forward_from_client_to_server-Faithful :
      Faithful (forward_from_client_to_server build bincode)
  forward_from_client_to_server-Faithful s (here, kept, queued, few, sent) =
      elim (Bool-cases s.from_application.sender_alive) [
        | inl alive ↦
            let (rest, none_left, e) = application_messages_taken build bincode s alive in
            let entered = states s.from_application.queue in
            rw e (
              send_controller_inputs-Faithful _ (
                here,
                All-append (game.Entered a) s.controller_seq.seq entered kept queued,
                rw none_left tt,
                rw none_left (omega (arith, length-append s.controller_seq.seq entered)),
                sent,
              ))
        | inr gone ↦
            let (rest, none_left, e) = application_gone build bincode s gone in
            rw e (here, kept, rw none_left tt, rw none_left (omega arith), sent)
      ]

  -- A round of the servicer, however it ends, keeps what it holds and has sent faithful to what was
  -- entered.
  pub spin_once-IsFaithful : Faithful (spin_once build bincode)
  unfolding spin_once
  spin_once-IsFaithful =
      Keeps-bind IsFaithful (forward_from_server_to_client build bincode) _
        forward_from_server_to_client-Faithful
        λ _.
          Keeps-bind IsFaithful (forward_from_client_to_server build bincode) _
            forward_from_client_to_server-Faithful λ _ s h. h

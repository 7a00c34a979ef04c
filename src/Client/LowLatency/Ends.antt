-- ===== src/Client/LowLatency/Ends.antt =====
-- In a release build a round of the servicer of src/client/low_latency.rs ends, while its sequence is as
-- the game has it.
use game_network.Prelude.{
  arith, done, suc, ◌≡◌, ◌≤◌, Bool-cases, inl, inr, some, length, All, ltb, All-append,
  length-append, ◌+◌, release, All-map, ◌*◌,
}
use game_network.Msg.{
  controller_input, CommError, Bincode, LowLatencyServerMessage, last_tick_received, Bincode,
}
use game_network.Std.{Result-cases, SocketAddr}
use game_network.Exec.{Exec}
use game_network.Exec.Keeps.{Total, Total-bind}
use game_network.Control
use game_network.Util.{max_packet_size}
use game_network.Msg.Genuine.{Game}
use game_network.Control.{CompressedControllerSequence}
use game_network.Control.Ticks.{remove_till_tick_release}
use game_network.Client.LowLatency.Messages.{states, application_messages_taken, application_gone}
use game_network.Client.LowLatency.{
  Servicer, receive, parse_server_message, is_empty, forward_from_server_to_client, transmit,
  send_controller_inputs, forward_from_client_to_server, spin_once,
}
use native.Mathlib.Nat.{mul-le-mul_right}
use game_network.Control.Transfer.{to_controller_sequence-to_compressed}
use game_network.Client.LowLatency.Faithful.{
  IsFaithful, receive-Faithful, forward_from_server_to_client-Faithful,
  forward_from_client_to_server-Faithful,
}

module _ (bincode : Bincode) (game : Game) (a : SocketAddr) where
  abbrev Faithful : Servicer → Type 0
  Faithful = IsFaithful release bincode game a

  abbrev Always : {A : Type 0} → Exec Servicer (CommError bincode.Error) A → Type 0
  Always m = Total Faithful m

  parse_server_message-Total :
      (m : LowLatencyServerMessage) → Always (parse_server_message release bincode m)
  unfolding parse_server_message
  parse_server_message-Total (LowLatencyServerMessage.world_state state) s h = tt
  parse_server_message-Total (last_tick_received tick) s h =
      let (c, e) = remove_till_tick_release s.controller_seq tick in rw e tt

  forward_from_server_to_client-Total : Always (forward_from_server_to_client release bincode)
  unfolding forward_from_server_to_client receive
  forward_from_server_to_client-Total =
      Total-bind Faithful (receive release bincode) _ (receive-Faithful release bincode game a)
        (λ s h. tt)
        λ buf s h. elim (Bool-cases (is_empty release bincode buf)) [
          | inl e ↦ rw e tt
          | inr e ↦ rw e (elim (Result-cases (bincode.low_latency_server.deserialize buf)) [
            | inl (m, r) ↦ rw r (parse_server_message-Total m s h)
            | inr (x, r) ↦ rw r tt
          ])
        ]

  -- States of the game can be compressed.
  entered_compress :
      (c : Control.ControllerSequence)
      → All (game.Entered a) c.seq
      → length c.seq ≤ game.limit
      → (sent : CompressedControllerSequence) × (Control.to_compressed release c ≡ done (some sent))
  entered_compress c entered few =
      let least : length c.seq * (game.size + 1) ≤ game.limit * (game.size + 1) =
        mul-le-mul_right (game.size + 1) few in
      let fits = game.fits in
      let (sent, runs, back) =
        to_controller_sequence-to_compressed release (suc (length c.seq * (game.size + 1)))
          game.size c (All-map (game.Entered a) _ c.seq (game.sized a) entered) (omega arith)
          (omega arith) in
      (sent, runs)

  send_controller_inputs-Total : Always (send_controller_inputs release bincode)
  unfolding send_controller_inputs transmit
  send_controller_inputs-Total s (here, kept, queued, few, sent) =
      elim (Bool-cases (Control.is_empty s.controller_seq)) [
        | inl none_kept ↦ rw none_kept tt
        | inr some_kept ↦
            let (c, e) = entered_compress s.controller_seq kept (omega arith) in
            rw (some_kept, e)
              (elim (Result-cases (bincode.low_latency_client.serialize (controller_input c))) [
                | inl (encoded, r) ↦
                    rw r (elim (Bool-cases (ltb max_packet_size (length encoded))) [
                      | inl long ↦ rw long tt
                      | inr small ↦ rw small tt
                    ])
                | inr (x, r) ↦ rw r tt
              ])
      ]

  forward_from_client_to_server-Total : Always (forward_from_client_to_server release bincode)
  forward_from_client_to_server-Total s (here, kept, queued, few, sent) =
      elim (Bool-cases s.from_application.sender_alive) [
        | inl alive ↦
            let (rest, none_left, e) = application_messages_taken release bincode s alive in
            let entered = states s.from_application.queue in
            rw e (
              send_controller_inputs-Total _ (
                here,
                All-append (game.Entered a) s.controller_seq.seq entered kept queued,
                rw none_left tt,
                rw none_left (omega (arith, length-append s.controller_seq.seq entered)),
                sent,
              ))
        | inr gone ↦ let (rest, none_left, e) = application_gone release bincode s gone in rw e tt
      ]

  -- A round ends with an answer, without a panic.
  pub spin_once-Total : Always (spin_once release bincode)
  unfolding spin_once
  spin_once-Total =
      Total-bind Faithful (forward_from_server_to_client release bincode) _
        (forward_from_server_to_client-Faithful release bincode game a)
        forward_from_server_to_client-Total
        λ _.
          Total-bind Faithful (forward_from_client_to_server release bincode) _
            (forward_from_client_to_server-Faithful release bincode game a)
            forward_from_client_to_server-Total λ _ s h. tt

-- ===== src/Client/LowLatency/Messages.antt =====
-- What the servicer of src/client/low_latency.rs does with messages from the server and the
-- application, and what it sends.
use game_network.Prelude.{
  Bool-cases, inl, inr, ℕ, suc, ◌+◌, ◌≤◌, ◌<◌, ◌≡◌, ◌≢◌, refl, sym, ◌∙◌, true, false, some, List,
  [], ◌∷◌, ◌++◌, append_assoc, append-nil, arith, length, lt→ltb, le→ltb_false, if◌then◌else◌, done,
  Build, usize_mod,
}
use game_network.Std.{ok, err, send_to, send, Receiver}
use game_network.BitVec.{BitVec}
use game_network.Control
use game_network.Control.{ControllerSequence, CompressedControllerSequence, to_compressed}
use game_network.Control.Ticks.{remove_till_tick_past}
use game_network.Msg.{
  dropped, exit, application_thread_disconnected, controller_input, LowLatencyServerMessage,
  last_tick_received, Bincode,
}
use game_network.Util.{max_packet_size}
use game_network.Util.Drain.{drain_mpsc_receiver_lem}
use game_network.Client.LowLatency.{
  ApplicationMessage, control, world_state, Servicer, push_messages, parse_server_message,
  parse_application_messages, send_controller_inputs, forward_from_client_to_server,
}

-- The controller states that messages of the application carry.
abbrev pub states : List ApplicationMessage → List BitVec
states [] = []
states (control bits ∷ ms) = bits ∷ states ms

push_messages_lem :
    (c : ControllerSequence) (ms : List ApplicationMessage)
    → push_messages c ms ≡ record c { seq = c.seq ++ states ms }
unfolding push_messages Control.push
push_messages_lem c [] = λ i. record c { seq = sym (append-nil c.seq) i }
push_messages_lem c (control bits ∷ ms) =
    push_messages_lem (record c { seq = c.seq ++ bits ∷ [] }) ms ∙ λ i. record c {
      seq = append_assoc c.seq (bits ∷ []) (states ms) i;
    }

is_empty_of_nil : (c : ControllerSequence) → c.seq ≡ [] → Control.is_empty c ≡ true
unfolding Control.is_empty
is_empty_of_nil c h = rw h

is_empty_of_ne : (c : ControllerSequence) → c.seq ≢ [] → Control.is_empty c ≡ false
unfolding Control.is_empty
is_empty_of_ne c h = no_element_of_ne c.seq h
  where
    no_element_of_ne : (l : List BitVec) → l ≢ [] → Control.no_element l ≡ false
    no_element_of_ne [] h = absurd (h refl)
    no_element_of_ne (x ∷ xs) h = refl

module _ (build : Build) (bincode : Bincode) (s : Servicer) where
  -- A world state is passed on to the application thread; when that thread is gone, the servicer
  -- answers with the drop that stops it and stays as it was.
  pub world_state_forwarded :
      (state : List ℕ)
      → parse_server_message build bincode (LowLatencyServerMessage.world_state state) s ≡ (
          if s.to_application.receiver_alive
          then done (
            ok tt,
            record s {
              to_application = record s.to_application {
                sent = s.to_application.sent ++ world_state state ∷ [];
              };
            },
          )
          else done (err (dropped application_thread_disconnected), s))
  unfolding parse_server_message send
  world_state_forwarded state = elim (Bool-cases s.to_application.receiver_alive) [
    | inl e ↦ rw e
    | inr e ↦ rw e
  ]

  -- The acknowledgement of the last tick of the sequence, or of a later one, makes the servicer forget
  -- no state; it moves the ticks of all of them behind the last tick.
  pub acknowledged_all_stay :
      (tick : ℕ)
      → let c = s.controller_seq in
        c.start_tick + length c.seq + 1 < usize_mod
        → c.start_tick + length c.seq ≤ tick
        → parse_server_message build bincode (last_tick_received tick) s
          ≡ done (
            ok tt,
            record s { controller_seq = record c { start_tick = c.start_tick + length c.seq + 1 } },
          )
  unfolding parse_server_message
  acknowledged_all_stay tick fits h = rw (remove_till_tick_past build s.controller_seq tick fits h)

  -- With no state to send, `send_controller_inputs` does nothing.
  send_empty : s.controller_seq.seq ≡ [] → send_controller_inputs build bincode s ≡ done (ok tt, s)
  unfolding send_controller_inputs
  send_empty h = rw (is_empty_of_nil s.controller_seq h)

  module _ (sent : CompressedControllerSequence) (bytes : List ℕ)
      (some_state : s.controller_seq.seq ≢ [])
      (compressed : to_compressed build s.controller_seq ≡ done (some sent))
      (encoded : bincode.low_latency_client.serialize (controller_input sent) ≡ ok bytes) where
    -- When there are states, and they compress and serialise to at most 1500 bytes, and the socket
    -- does not fail, `send_controller_inputs` sends all of them to the server in one datagram and
    -- changes nothing but the socket.
    pub inputs_sent :
        length bytes ≤ max_packet_size
        → s.udp_socket.send_faults ≡ []
        → send_controller_inputs build bincode s
          ≡ done (
            ok tt,
            record s {
              udp_socket = record s.udp_socket {
                outbox = s.udp_socket.outbox ++ (bytes, s.server_addr) ∷ [];
              };
            },
          )
    unfolding send_controller_inputs send_to
    inputs_sent small no_fault = rw (
      is_empty_of_ne s.controller_seq some_state,
      compressed,
      encoded,
      le→ltb_false max_packet_size (length bytes) small,
      no_fault,
    )

    -- When the states that are kept no longer fit a packet the servicer exits, and sends nothing.
    pub inputs_too_long :
        max_packet_size < length bytes → send_controller_inputs build bincode s ≡ done (err exit, s)
    unfolding send_controller_inputs
    inputs_too_long long = rw (
      is_empty_of_ne s.controller_seq some_state,
      compressed,
      encoded,
      lt→ltb max_packet_size (length bytes) long,
    )

  -- A round of messages from a living application: its queue is emptied, the states in it are put
  -- behind those that are kept, in order, and then all of them are sent.
  pub application_messages_taken :
      s.from_application.sender_alive ≡ true
      → (rest : Receiver ApplicationMessage) × (rest.queue ≡ [])
        × (forward_from_client_to_server build bincode s
            ≡ send_controller_inputs build bincode (record s {
              from_application = rest;
              controller_seq = record s.controller_seq {
                seq = s.controller_seq.seq ++ states s.from_application.queue;
              };
            }))
  unfolding forward_from_client_to_server parse_application_messages
  application_messages_taken alive =
      let (rest, drained, none_left) =
        drain_mpsc_receiver_lem (suc (length s.from_application.queue)) s.from_application
          (omega arith) in
      (
        rest,
        none_left,
        rw (drained, alive, push_messages_lem s.controller_seq s.from_application.queue),
      )

  -- When the application thread has dropped its end of the queue the servicer exits. What was still
  -- queued is neither kept nor sent.
  pub application_gone :
      s.from_application.sender_alive ≡ false
      → (rest : Receiver ApplicationMessage) × (rest.queue ≡ [])
        × (forward_from_client_to_server build bincode s
            ≡ done (err exit, record s { from_application = rest }))
  unfolding forward_from_client_to_server
  application_gone gone =
      let (rest, drained, none_left) =
        drain_mpsc_receiver_lem (suc (length s.from_application.queue)) s.from_application
          (omega arith) in
      (rest, none_left, rw (drained, gone))

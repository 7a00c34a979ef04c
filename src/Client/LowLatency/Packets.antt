-- ===== src/Client/LowLatency/Packets.antt =====
-- The datagrams that the servicer of src/client/low_latency.rs sends.
use game_network.Util.Udp.{outbox_received, send_to-All}
use game_network.Msg.{
  controller_input, CommError, Bincode, LowLatencyServerMessage, last_tick_received, exit,
}
use game_network.Prelude.{
  ℕ, suc, ◌≡◌, ◌≤◌, refl, sym, Bool-cases, Run-cases, inl, inr, none, some, List, length, Build,
  if◌then◌else◌, All, ltb, lt→ltb, le→ltb_false,
}
use mathlib.Core.Path.{subst}
use game_network.BitVec.Get.{inside_or_not}
use game_network.Std.{Result-cases, ok, err, SocketAddr}
use game_network.Exec.{Exec, raise}
use game_network.Exec.Keeps.{Post, Keeps, Keeps-bind, PostLoop, rounds-Keeps}
use game_network.Control
use game_network.Util.{max_packet_size, drain_mpsc_receiver}
use game_network.Client.LowLatency.{
  Servicer, receive, parse_server_message, is_empty, forward_from_server_to_client,
  parse_application_messages, transmit, send_controller_inputs, forward_from_client_to_server,
  spin_once, goes_on, spin,
}

-- The datagrams go to an address and have at most 1500 bytes.
abbrev pub ArePackets : SocketAddr → List (List ℕ × SocketAddr) → Type 0
ArePackets address = All (λ p. (length p.0 ≤ max_packet_size) × (p.1 ≡ address))

abbrev pub SendsPackets : Servicer → Type 0
SendsPackets s = ArePackets s.server_addr s.udp_socket.outbox

module _ (build : Build) (bincode : Bincode) where
  abbrev Packets : {A : Type 0} → Exec Servicer (CommError bincode.Error) A → Type 0
  Packets m = Keeps SendsPackets m

  receive-Packets : Packets (receive build bincode)
  unfolding receive
  receive-Packets s h =
      subst (ArePackets s.server_addr) (sym (outbox_received bincode.Error s.udp_socket)) h

  parse_server_message-Packets :
      (m : LowLatencyServerMessage) → Packets (parse_server_message build bincode m)
  unfolding parse_server_message
  parse_server_message-Packets (LowLatencyServerMessage.world_state state) s h = h
  parse_server_message-Packets (last_tick_received tick) s h =
      elim (Run-cases (Control.remove_till_tick build s.controller_seq tick)) [
        | inl (c, e) ↦ rw e h
        | inr (inl e) ↦ rw e tt
        | inr (inr e) ↦ rw e tt
      ]

  forward_from_server_to_client-Packets : Packets (forward_from_server_to_client build bincode)
  unfolding forward_from_server_to_client
  forward_from_server_to_client-Packets =
      Keeps-bind SendsPackets (receive build bincode) _ receive-Packets λ buf s h.
        elim (Bool-cases (is_empty build bincode buf)) [
          | inl e ↦ rw e h
          | inr e ↦ rw e (elim (Result-cases (bincode.low_latency_server.deserialize buf)) [
            | inl (m, r) ↦ rw r (parse_server_message-Packets m s h)
            | inr (x, r) ↦ rw r h
          ])
        ]

  transmit-Packets :
      (encoded : List ℕ) (s : Servicer)
      → length encoded ≤ max_packet_size
      → SendsPackets s
      → Post SendsPackets (transmit build bincode encoded s)
  unfolding transmit
  transmit-Packets encoded s small h =
      send_to-All (λ p. (length p.0 ≤ max_packet_size) × (p.1 ≡ s.server_addr)) encoded
        s.server_addr s.udp_socket h (small, refl)

  send_encoded-Packets :
      (encoded : List ℕ) (s : Servicer)
      → SendsPackets s
      → Post SendsPackets (
          (if ltb max_packet_size (length encoded)
              then raise exit
              else transmit build bincode encoded)
            s)
  send_encoded-Packets encoded s h = elim (inside_or_not max_packet_size (length encoded)) [
    | inl long ↦ rw (lt→ltb max_packet_size (length encoded) long) h
    | inr small ↦
        rw (le→ltb_false max_packet_size (length encoded) small)
          (transmit-Packets encoded s small h)
  ]

  send_controller_inputs-Packets : Packets (send_controller_inputs build bincode)
  unfolding send_controller_inputs
  send_controller_inputs-Packets s h = elim (Bool-cases (Control.is_empty s.controller_seq)) [
    | inl none_kept ↦ rw none_kept h
    | inr some_kept ↦
        rw some_kept (elim (Run-cases (Control.to_compressed build s.controller_seq)) [
          | inl (some c, e) ↦
              rw e
                (elim (Result-cases (bincode.low_latency_client.serialize (controller_input c))) [
                  | inl (encoded, r) ↦ rw r (send_encoded-Packets encoded s h)
                  | inr (x, r) ↦ rw r h
                ])
          | inl (none, e) ↦ rw e h
          | inr (inl e) ↦ rw e tt
          | inr (inr e) ↦ rw e tt
        ])
  ]

  forward_from_client_to_server-Packets : Packets (forward_from_client_to_server build bincode)
  unfolding forward_from_client_to_server parse_application_messages
  forward_from_client_to_server-Packets s h =
      elim (Run-cases
        (drain_mpsc_receiver (suc (length s.from_application.queue)) s.from_application)) [
          | inl ((ok msgs, r), e) ↦ rw e (send_controller_inputs-Packets _ h)
          | inl ((err d, r), e) ↦ rw e h
          | inr (inl e) ↦ rw e tt
          | inr (inr e) ↦ rw e tt
        ]

  spin_once-Packets : Packets (spin_once build bincode)
  unfolding spin_once
  spin_once-Packets =
      Keeps-bind SendsPackets (forward_from_server_to_client build bincode) _
        forward_from_server_to_client-Packets
        λ _.
          Keeps-bind SendsPackets (forward_from_client_to_server build bincode) _
            forward_from_client_to_server-Packets λ _ s h. h

  -- If all datagrams that the client's servicer has sent have at most 1500 bytes and went to its
  -- server, and what happens between the rounds keeps this, then `spin` keeps it too, through every
  -- input, error and exit.
  pub spin-SendsPackets :
      (arrivals : List (Servicer → Servicer))
      → All (λ arrive. (s : Servicer) → SendsPackets s → SendsPackets (arrive s)) arrivals
      → (s : Servicer) → SendsPackets s
      → PostLoop SendsPackets (spin build bincode arrivals s)
  unfolding spin
  spin-SendsPackets =
      rounds-Keeps SendsPackets (goes_on build bincode) (spin_once build bincode) spin_once-Packets

-- ===== src/Exchange/Inputs.antt =====
-- The way of controller states: from the object of src/client/mod.rs through src/client/low_latency.rs into
-- a datagram, and what src/control.rs makes of it on the other side.
use game_network.Prelude.{
  ℕ, ◌+◌, ◌*◌, ◌≡◌, ◌≢◌, ◌≤◌, ◌<◌, refl, ap, sym, ◌∙◌, true, false, some, List, [], ◌∷◌, ◌++◌,
  length, done, Build, usize_mod,
}
use mathlib.Core.Path.{subst}
use game_network.Std.{ok}
use game_network.BitVec.{BitVec}
use game_network.Compressed.Format.{AreSized}
use game_network.Control.{
  ControllerSequence, CompressedControllerSequence, to_compressed, to_controller_sequence,
}
use game_network.Msg.{controller_input, Bincode, IsLawful}
use game_network.Util.{max_packet_size}
use game_network.Client.{Client}
use game_network.Client.Inputs.{
  send_each, send_each_lem, controls, sent_on, supplied, states_of_controls,
}
use game_network.Client.LowLatency as LowLatency
use game_network.Client.LowLatency.Messages.{states}
use game_network.Client.LowLatency.Quiet.{quiet_round_sends}
use game_network.Exchange.{read_back}

-- The sequence with more states.
abbrev pub extended : ControllerSequence → List BitVec → ControllerSequence
extended c inputs = record c { seq = c.seq ++ inputs }

module _ (build : Build) (bincode : Bincode) (lawful : IsLawful bincode.low_latency_client)
    (fuel size : ℕ) where
  -- A game passes controller states to `send_controller_input` of an object that is up, with a
  -- living low-latency servicer and nothing sent before. Let the servicer's states with these
  -- behind them be a nonempty list of `n` well-formed states that all have `size` bits, where `n *
  -- (size + 1) + size` is a `usize` and `n * (size + 1)` is below the fuel, that is compressed and
  -- lawfully serialised to at most 1500 bytes. Then the servicer's next round, with no datagram
  -- before it and a working socket, takes the states off its queue, keeps them in order behind
  -- those that it held, and sends one datagram to its server, which deserialises and decompresses
  -- to exactly the sequence of all states held and passed.
  pub inputs_reach_datagram :
      (inputs : List BitVec) (s : Client) (servicer : LowLatency.Servicer)
      (sent : CompressedControllerSequence) (bytes : List ℕ)
      → s.shutdown ≡ false
      → s.to_low_latency_servicer.receiver_alive ≡ true
      → s.to_low_latency_servicer.sent ≡ []
      → servicer.udp_socket.inbox ≡ []
      → servicer.udp_socket.send_faults ≡ []
      → let c = extended servicer.controller_seq inputs in
        c.seq ≢ []
        → AreSized size c.seq
        → length c.seq * (size + 1) + size < usize_mod
        → length c.seq * (size + 1) < fuel
        → to_compressed build c ≡ done (some sent)
        → bincode.low_latency_client.serialize (controller_input sent) ≡ ok bytes
        → length bytes ≤ max_packet_size
        → (s' : Client) × (servicer' : LowLatency.Servicer) × (send_each inputs s
            ≡ done (ok tt, s'))
          × (LowLatency.spin_once build bincode (supplied s' servicer) ≡ done (ok tt, servicer'))
          × (servicer'.udp_socket.outbox
              ≡ servicer.udp_socket.outbox ++ (bytes, servicer.server_addr) ∷ [])
          × (servicer'.controller_seq ≡ c)
          × (servicer'.from_application.queue ≡ [])
          × (bincode.low_latency_client.deserialize bytes ≡ ok (controller_input sent))
          × (to_controller_sequence build fuel sent ≡ done (some c))
  inputs_reach_datagram inputs s servicer sent bytes up alive none_sent quiet no_fault some_state
        sized fits enough compressed encoded small =
      let s' : Client = sent_on (controls inputs) s in
      let c = extended servicer.controller_seq inputs in
      let same : inputs ≡ states (controls inputs) = sym (states_of_controls inputs) in
      let longer = ap (extended servicer.controller_seq) same in
      let (servicer', runs, out, keeps, none_left) =
        quiet_round_sends build bincode (supplied s' servicer) sent bytes quiet refl
          (subst (λ (c : ControllerSequence). c.seq ≢ []) longer some_state)
          (subst (λ c. to_compressed build c ≡ done (some sent)) longer compressed) encoded small
          no_fault in
      (
        s',
        servicer',
        send_each_lem inputs s (up, alive)
            ∙ ap (λ t. done (ok tt, sent_on (t ++ controls inputs) s)) none_sent,
        runs,
        out,
        keeps ∙ sym longer,
        none_left,
        lawful.round_trip (controller_input sent) bytes encoded,
        read_back build fuel size c sized fits enough sent compressed,
      )

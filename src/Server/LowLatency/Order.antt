-- ===== src/Server/LowLatency/Order.antt =====
-- The controller sequences that the servicer of src/server/low_latency.rs hands to the application
-- thread end at ever later ticks.
use game_network.Prelude.{
  ℕ, ◌≤◌, ◌<◌, ◌≡◌, Option, none, some, List, [], ◌∷◌, ◌++◌, arith, done, Build, Bool-cases,
  Run-cases, Option-cases, lt→ltb, le→ltb_false, inl, inr, All,
}
use game_network.Std.{Result-cases, ok, err, map_err, SocketAddr, send}
use game_network.Exec.{◌>>◌}
use game_network.Exec.Keeps.{Post, Keeps, Post-continue, Keeps-bind, PostLoop, rounds-Keeps}
use game_network.BitVec.Get.{inside_or_not}
use game_network.Control
use game_network.Control.{ControllerSequence, CompressedControllerSequence}
use game_network.Msg.{Username, Bincode, controller_input, LowLatencyServerMessage}
use game_network.Util.{Spmc, drain_spmc_receiver}
use game_network.Server.Bidir.{BidirMap}
use game_network.Server.Messages.{
  ServicerMessage, ServicerPayload, chat_message, controller_sequence, client_data,
}
use game_network.Server.LowLatency.{
  goes_on, ApplicationMessage, ToClient, Servicer, Method, handle_controller_input, send_message,
  accept, acknowledge, respond, transmit, send_found, send_option, parse,
  forward_from_server_to_client, process_udp, handle_client_message, receive, process_received,
  forward_from_client_to_server, spin_once, spin,
}

module _ (build : Build) where
  -- A message that hands over a controller sequence ending at a tick.
  abbrev pub EndsAt : ServicerPayload → ℕ → Type 0
  EndsAt (chat_message m) tick = ⊥
  EndsAt (controller_sequence c) tick = Control.last_tick build c ≡ done tick
  EndsAt (client_data d) tick = ⊥

  -- Messages that end at strictly later ticks, all above `low` and none above `high`.
  abbrev pub Increasing : ℕ → List ServicerMessage → ℕ → Type 0
  Increasing low [] high = low ≤ high
  Increasing low (m ∷ ms) high =
      (tick : ℕ) × (low < tick) × EndsAt m.payload tick × Increasing tick ms high

  Increasing-le :
      (low : ℕ) (ms : List ServicerMessage) (high high' : ℕ)
      → Increasing low ms high
      → high ≤ high'
      → Increasing low ms high'
  Increasing-le low [] high high' h le = omega arith
  Increasing-le low (m ∷ ms) high high' (tick, lt, ends, rest) le =
      (tick, lt, ends, Increasing-le tick ms high high' rest le)

  Increasing-snoc :
      (low : ℕ) (ms : List ServicerMessage) (high : ℕ) (m : ServicerMessage) (tick : ℕ)
      → Increasing low ms high
      → high < tick
      → EndsAt m.payload tick
      → Increasing low (ms ++ m ∷ []) tick
  Increasing-snoc low [] high m tick h lt ends = (tick, omega arith, ends, omega arith)
  Increasing-snoc low (n ∷ ms) high m tick (t, above, e, rest) lt ends =
      (t, above, e, Increasing-snoc t ms high m tick rest lt ends)

module _ (build : Build) (bincode : Bincode) (bidir : BidirMap)
    (spmc : Spmc ApplicationMessage) where
  -- What was handed to the application thread ends at ever later ticks, the newest tick at most.
  abbrev pub IsOrdered : Servicer bidir spmc → Type 0
  IsOrdered s = Increasing build 0 s.to_application.sent s.last_tick_received

  abbrev Ordered : {A : Type 0} → Method build bincode bidir spmc A → Type 0
  Ordered m = Keeps IsOrdered m

  transmit-Ordered :
      (bytes : List ℕ) (address : SocketAddr)
      → Ordered (transmit build bincode bidir spmc bytes address)
  unfolding transmit
  transmit-Ordered bytes address s h = h

  send_found-Ordered :
      (found : Option SocketAddr) (payload : LowLatencyServerMessage)
      → Ordered (send_found build bincode bidir spmc found payload)
  unfolding send_found
  send_found-Ordered none payload s h = h
  send_found-Ordered (some address) payload s h =
      Post-continue IsOrdered (λ encode. transmit build bincode bidir spmc encode address)
        (done (map_err _ (bincode.low_latency_server.serialize payload), s))
        (λ encode. transmit-Ordered encode address) h

  send_message-Ordered : (m : ToClient) → Ordered (send_message build bincode bidir spmc m)
  unfolding send_message
  send_message-Ordered m s h =
      send_found-Ordered (bidir.get_by_second s.address_user m.to) m.payload s h

  accept_new :
      (user : Username) (c : ControllerSequence) (tick : ℕ) (s : Servicer bidir spmc)
      → Control.last_tick build c ≡ done tick
      → s.last_tick_received < tick
      → IsOrdered s
      → Post IsOrdered (accept build bincode bidir spmc user c tick s)
  unfolding accept send
  accept_new user c tick s ends newer h = elim (Bool-cases s.to_application.receiver_alive) [
    | inl alive ↦
        rw (lt→ltb s.last_tick_received tick newer, alive)
          (Increasing-snoc build 0 s.to_application.sent s.last_tick_received
            (record { author = user; payload = controller_sequence c }) tick h newer ends)
    | inr gone ↦
        rw (lt→ltb s.last_tick_received tick newer, gone)
          (Increasing-le build 0 s.to_application.sent s.last_tick_received tick h (omega arith))
  ]

  accept-Ordered :
      (user : Username) (c : ControllerSequence) (tick : ℕ)
      → Control.last_tick build c ≡ done tick
      → Ordered (accept build bincode bidir spmc user c tick)
  accept-Ordered user c tick ends s h = elim (inside_or_not s.last_tick_received tick) [
    | inl newer ↦ accept_new user c tick s ends newer h
    | inr stale ↦ unfold accept in rw (le→ltb_false s.last_tick_received tick stale) h
  ]

  acknowledge-Ordered : (user : Username) → Ordered (acknowledge build bincode bidir spmc user)
  unfolding acknowledge
  acknowledge-Ordered user s h =
      send_message-Ordered
        (record {
          to = user;
          payload = LowLatencyServerMessage.last_tick_received s.last_tick_received;
        })
        s h

  respond-Ordered :
      (user : Username) (c : ControllerSequence) → Ordered (respond build bincode bidir spmc user c)
  unfolding respond
  respond-Ordered user c s h = elim (Run-cases (Control.last_tick build c)) [
    | inl (tick, e) ↦ rw e (
        Post-continue IsOrdered (λ _. acknowledge build bincode bidir spmc user)
          (accept build bincode bidir spmc user c tick s) (λ _. acknowledge-Ordered user)
          (accept-Ordered user c tick e s h))
    | inr (inl e) ↦ rw e tt
    | inr (inr e) ↦ rw e tt
  ]

  handle_controller_input-Ordered :
      (fuel : ℕ) (src : SocketAddr) (input : CompressedControllerSequence)
      → Ordered (handle_controller_input build bincode bidir spmc fuel src input)
  unfolding handle_controller_input
  handle_controller_input-Ordered fuel src input s h =
      elim (Option-cases (bidir.get_by_first s.address_user src)) [
        | inl e ↦ rw e h
        | inr (user, e) ↦ elim (Run-cases (Control.to_controller_sequence build fuel input)) [
          | inl (none, read) ↦ rw (e, read) h
          | inl (some c, read) ↦ rw (e, read) (respond-Ordered user c s h)
          | inr (inl read) ↦ rw (e, read) tt
          | inr (inr read) ↦ rw (e, read) tt
        ]
      ]

  process_received-Ordered :
      (fuel : ℕ) (received : Option (List ℕ × SocketAddr))
      → Ordered (process_received build bincode bidir spmc fuel received)
  unfolding process_received process_udp handle_client_message
  process_received-Ordered fuel none s h = h
  process_received-Ordered fuel (some (buf, src)) s h =
      elim (Result-cases (bincode.low_latency_client.deserialize buf)) [
        | inl (controller_input input, e) ↦
            rw e (handle_controller_input-Ordered fuel src input s h)
        | inr (_, e) ↦ rw e h
      ]

  forward_from_client_to_server-Ordered :
      (fuel : ℕ) → Ordered (forward_from_client_to_server build bincode bidir spmc fuel)
  unfolding forward_from_client_to_server receive
  forward_from_client_to_server-Ordered fuel s h =
      Post-continue IsOrdered (process_received build bincode bidir spmc fuel)
        (receive build bincode bidir spmc s) (process_received-Ordered fuel) h

  send_option-Ordered : (m : Option ToClient) → Ordered (send_option build bincode bidir spmc m)
  unfolding send_option
  send_option-Ordered none s h = h
  send_option-Ordered (some m) s h = send_message-Ordered m s h

  parse-Ordered : (msgs : List ApplicationMessage) → Ordered (parse build bincode bidir spmc msgs)
  unfolding parse
  parse-Ordered msgs s h = h

  forward_from_server_to_client-Ordered :
      (rounds_left : ℕ)
      → Ordered (forward_from_server_to_client build bincode bidir spmc rounds_left)
  unfolding forward_from_server_to_client
  forward_from_server_to_client-Ordered rounds_left s h =
      elim (Run-cases (drain_spmc_receiver spmc rounds_left s.from_application)) [
        | inl ((ok msgs, receiver), e) ↦ rw e (
            Post-continue IsOrdered
              (λ outgoing.
                send_option build bincode bidir spmc outgoing.world
                >> send_option build bincode bidir spmc outgoing.last_tick)
              (parse build bincode bidir spmc msgs (record s { from_application = receiver }))
              (λ outgoing.
                Keeps-bind IsOrdered (send_option build bincode bidir spmc outgoing.world)
                  (λ _. send_option build bincode bidir spmc outgoing.last_tick)
                  (send_option-Ordered outgoing.world)
                  (λ _. send_option-Ordered outgoing.last_tick))
              (parse-Ordered msgs (record s { from_application = receiver }) h))
        | inl ((err d, receiver), e) ↦ rw e h
        | inr (inl e) ↦ rw e tt
        | inr (inr e) ↦ rw e tt
      ]

  -- A round of the servicer, however it ends, keeps the order of what it handed to the application
  -- thread.
  pub spin_once-IsOrdered :
      (rounds_left fuel : ℕ) → Ordered (spin_once build bincode bidir spmc rounds_left fuel)
  unfolding spin_once
  spin_once-IsOrdered rounds_left fuel =
      Keeps-bind IsOrdered (forward_from_server_to_client build bincode bidir spmc rounds_left)
        (λ _. forward_from_client_to_server build bincode bidir spmc fuel >> λ s. done (ok tt, s))
        (forward_from_server_to_client-Ordered rounds_left)
        (λ _.
          Keeps-bind IsOrdered (forward_from_client_to_server build bincode bidir spmc fuel)
            (λ _ s. done (ok tt, s)) (forward_from_client_to_server-Ordered fuel) (λ _ s h. h))

  -- If what arrives between the rounds does not disturb the order, and the order holds before the
  -- first round, then it holds whenever `spin` is between rounds or has stopped: the controller
  -- sequences handed to the application thread end at strictly later ticks each than those before
  -- them, and the newest tick received is at least the last of them.
  pub spin-IsOrdered :
      (rounds_left fuel : ℕ) (arrivals : List (Servicer bidir spmc → Servicer bidir spmc))
      → All (λ arrive. (s : Servicer bidir spmc) → IsOrdered s → IsOrdered (arrive s)) arrivals
      → (s : Servicer bidir spmc) → IsOrdered s
      → PostLoop IsOrdered (spin build bincode bidir spmc rounds_left fuel arrivals s)
  unfolding spin
  spin-IsOrdered rounds_left fuel =
      rounds-Keeps IsOrdered (goes_on build bincode bidir spmc)
        (spin_once build bincode bidir spmc rounds_left fuel) (spin_once-IsOrdered rounds_left fuel)

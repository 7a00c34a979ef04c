-- ===== src/Server/LowLatency/UnitTests.antt =====
-- The tests in src/server/low_latency.rs of `parse_application_messages`, statement by statement.
use game_network.Prelude.{
  not, ap, ◌↔◌, ◌∙◌, Bool-cases, inl, inr, ◌≡◌, refl, ◌==◌, ◌&&◌, Bool, true, false, Option, none,
  some, List, [], ◌∷◌, Run, done, assert, ◌>>◌,
}
use game_network.Std.{SocketAddr, eq_addr, eq_host, eq_bytes}
use game_network.Msg.{ClientData, eq_user, LowLatencyServerMessage, world_state, last_tick_received}
use game_network.Server.Bidir.{IsBidirectional, unless, BidirMap}
use game_network.Server.LowLatency.{
  ToClient, ApplicationMessage, to_client, new_client, client_disconnect,
  parse_application_messages, parse_loop, store,
}
use game_network.Samples.{address, bidir}

-- The derived `==` of the messages.
abbrev eq_payload : LowLatencyServerMessage → LowLatencyServerMessage → Bool
eq_payload (world_state a) (world_state b) = eq_bytes a b
eq_payload (world_state a) (last_tick_received t) = false
eq_payload (last_tick_received s) (world_state b) = false
eq_payload (last_tick_received s) (last_tick_received t) = s == t

abbrev eq_message : Option ToClient → Option ToClient → Bool
eq_message none none = true
eq_message none (some n) = false
eq_message (some m) none = false
eq_message (some m) (some n) = eq_user m.to n.to && eq_payload m.payload n.payload

abbrev for_client : LowLatencyServerMessage → ToClient
for_client payload = record { to = record { name = "to_client" }; payload = payload }

module _ (bidir : BidirMap) where
  test_parse_app_msgs_repeated : Run (Unit {0})
  test_parse_app_msgs_repeated =
      let msg_vec : List ApplicationMessage =
        to_client (for_client (world_state (127 ∷ [])))
        ∷ to_client (for_client (last_tick_received 2))
        ∷ to_client (for_client (last_tick_received 3))
        ∷ to_client (for_client (world_state (123 ∷ [])))
        ∷ [] in
      let (outgoing_msgs, address_user) = parse_application_messages bidir msg_vec bidir.new in
      (do
        assert (eq_message (some (for_client (world_state (123 ∷ [])))) outgoing_msgs.world)
        assert (eq_message (some (for_client (last_tick_received 3))) outgoing_msgs.last_tick))

repeated_passes : test_parse_app_msgs_repeated bidir ≡ done tt
unfolding test_parse_app_msgs_repeated parse_application_messages parse_loop store eq_user
repeated_passes = refl

abbrev client_data : ClientData
client_data = record { username = record { name = "client_data" }; udp_addr = address 12345 }

abbrev is_none : Option ToClient → Bool
is_none none = true
is_none (some m) = false

-- The crate's test for an empty map.
module _ (bidir : BidirMap) (is_empty : bidir.Map → Bool) where
  test_parse_app_msgs : Run (Unit {0})
  test_parse_app_msgs =
      let msg_vec : List ApplicationMessage =
        to_client (for_client (world_state (127 ∷ []))) ∷ new_client client_data ∷ [] in
      let (outgoing_msgs, address_user) = parse_application_messages bidir msg_vec bidir.new in
      (do
        assert (not (is_none outgoing_msgs.world))
        assert (is_none outgoing_msgs.last_tick)
        assert (not (is_empty address_user)))

  test_parse_app_msgs_disconnect : Run (Unit {0})
  test_parse_app_msgs_disconnect =
      let msg_vec : List ApplicationMessage =
        new_client client_data ∷ client_disconnect client_data.username ∷ [] in
      let (outgoing_msgs, address_user) = parse_application_messages bidir msg_vec bidir.new in
      (do
        assert (is_none outgoing_msgs.world)
        assert (is_none outgoing_msgs.last_tick)
        assert (is_empty address_user))

  -- A map is empty when no address has a user.
  module _ (laws : IsBidirectional bidir)
      (on_empty : (m : bidir.Map)
        → (is_empty m ≡ true) ↔ ((a : SocketAddr) → bidir.get_by_first m a ≡ none)) where
    joined_map : is_empty (bidir.insert bidir.new (address 12345) client_data.username) ≡ false
    unfolding eq_addr eq_host
    joined_map =
        let map = bidir.insert bidir.new (address 12345) client_data.username in
        elim (Bool-cases (is_empty map)) [
          | inl e ↦ absurd (
              let found =
                laws.first-insert bidir.new (address 12345) (address 12345) client_data.username in
              let gone = (on_empty map).0 e (address 12345) in cc)
          | inr e ↦ e
        ]

    left_map :
        is_empty (
          bidir.remove_by_second
            (bidir.insert bidir.new (address 12345) client_data.username)
            client_data.username)
        ≡ true
    unfolding eq_user
    left_map = (on_empty _).1 λ a.
        let u = client_data.username in
        laws.first-remove (bidir.insert bidir.new (address 12345) u) u a
        ∙ ap (unless (eq_user u)) (laws.first-insert bidir.new (address 12345) a u)
        ∙ elim (Bool-cases (eq_addr (address 12345) a)) [
          | inl same ↦ rw same refl
          | inr other ↦ rw (other, laws.first-new a) refl
        ]

    joins_pass : test_parse_app_msgs ≡ done tt
    unfolding test_parse_app_msgs parse_application_messages parse_loop store
    joins_pass = rw joined_map refl

    disconnect_passes : test_parse_app_msgs_disconnect ≡ done tt
    unfolding test_parse_app_msgs_disconnect parse_application_messages parse_loop store
    disconnect_passes = rw left_map refl

-- ===== src/Server/LowLatency/Tests.antt =====
-- The servicer of src/server/low_latency.rs with one client, ann, in its address book.
use game_network.Server.LowLatency.{
  Servicer, ToClient, ApplicationMessage, to_client, new_client, parse_application_messages,
  handle_controller_input, spin,
}
use game_network.Prelude.{panic, ◌≡◌, refl, ℕ, [], ◌∷◌, ◌++◌, arith, done, debug, some, none}
use game_network.Std.{err, eq_addr, eq_host, datagram}
use game_network.Msg.{Username, ClientData, world_state, warning, unknown_source}
use game_network.Server.LowLatency.Parse.{parse_application_messages_lem, joined_stays}
use game_network.Server.LowLatency.Malformed.{malformed_input_panics}
use game_network.Control.{CompressedControllerSequence}
use game_network.Util.Drain.{mpsc_queue}
use game_network.Server.LowLatency.Input.{input_unknown}
use game_network.Samples.{
  bincode, bidir, bidir-IsBidirectional, spmc, ann, bob, address, server, compressed_kept,
}

abbrev empty_book : bidir.Map
empty_book = bidir.new

abbrev world_for : Username → ℕ → ToClient
world_for user n = record { to = user; payload = world_state (n ∷ []) }

parse_application_messages_lem_example :
    parse_application_messages bidir
      (new_client (record { username = ann; udp_addr = address 1 }) ∷ [])
      empty_book
    ≡ (record { world = none; last_tick = none }, bidir.insert empty_book (address 1) ann)
parse_application_messages_lem_example =
    parse_application_messages_lem bidir
      (new_client (record { username = ann; udp_addr = address 1 }) ∷ []) empty_book

abbrev ann_joins : ClientData
ann_joins = record { username = ann; udp_addr = address 1 }

joined_stays_example :
    let map =
      (parse_application_messages bidir
        ([] ++ new_client ann_joins ∷ (to_client (world_for bob 2) ∷ []))
        empty_book).1 in
    (bidir.get_by_second map ann ≡ some (address 1))
    × (bidir.get_by_first map (address 1) ≡ some ann)
joined_stays_example =
    joined_stays bidir bidir-IsBidirectional [] (to_client (world_for bob 2) ∷ []) ann_joins
      empty_book (tt, tt)

unknown_is_refused :
    handle_controller_input debug bincode bidir
      (spmc ApplicationMessage)
      5
      (address 2)
      compressed_kept
      server
    ≡ done (err (warning (unknown_source (address 2))), server)
unfolding eq_addr eq_host
unknown_is_refused =
    input_unknown debug bincode bidir (spmc ApplicationMessage) 5 (address 2) compressed_kept server
      refl

-- A datagram of ann with a bit vector of no words.
abbrev malformed_arrives :
    Servicer bidir (spmc ApplicationMessage) → Servicer bidir (spmc ApplicationMessage)
malformed_arrives s = record server {
  udp_socket = record server.udp_socket { inbox = datagram (0 ∷ 4 ∷ 3 ∷ []) (address 1) ∷ [] };
}

abbrev no_bits : CompressedControllerSequence
no_bits = record {
  start_tick = 0;
  comp_seq = record { bits = record { storage = []; len_of_last = 4 }; element_size = 3 };
}

malformed_input_panics_example :
    spin debug bincode bidir (spmc ApplicationMessage) 2 9 (malformed_arrives ∷ []) server ≡ panic
unfolding eq_addr eq_host
malformed_input_panics_example =
    malformed_input_panics bincode bidir (spmc ApplicationMessage) (mpsc_queue ApplicationMessage) 2
      8 (address 1) ann no_bits (0 ∷ 4 ∷ 3 ∷ []) [] malformed_arrives [] server refl refl
      (omega arith) refl refl refl (omega arith) refl

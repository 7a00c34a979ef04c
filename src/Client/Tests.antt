-- ===== src/Client/Tests.antt =====
-- The object of src/client/mod.rs, with messages of both servicers in its queues.
use game_network.Prelude.{◌≡◌, refl, List, ℕ, [], ◌∷◌, arith, done, debug, false}
use game_network.Std.{ok, err}
use game_network.Msg.{CommError, ChatMessage}
use game_network.Client.{
  Client, take_world_state, take_chat_history, send_controller_input, send_chat_message,
}
use game_network.Client.Reliable
use game_network.Client.Start.{Answers, connect}
use game_network.Client.Start.Unread.{client_connect-Fails}
use game_network.Client.Mailbox.{history_complete, taken_behind, IsIdle}
use game_network.Client.Shutdown.{Latches, Absorbs, methods_shut_down}
use game_network.Client.LowLatency.{Servicer, spin}
use game_network.Client.Quit.{abandoned, quit_stops}
use game_network.Samples.{address, socket, ann, bob, three_bits, client}
use game_network.Samples.Wire.{reliable_client, bincode, quiet, object}

-- Every call of the system works.
abbrev answers : Answers
answers = record {
  bind = ok socket;
  local_addr = ok (address 7);
  tcp_connect = ok quiet;
  udp_connect = ok tt;
  timeout_set = ok tt;
  udp_local_addr = ok (address 8);
}

client_connect-Fails_example :
    (e : CommError ℕ) × (connect bincode 3 "ann" "secret" (address 9) answers ≡ done (err e))
client_connect-Fails_example = client_connect-Fails bincode 2 "ann" "secret" (address 9) answers

abbrev from_ann : ChatMessage
from_ann = record { author = ann; message = "hello" }

abbrev from_bob : ChatMessage
from_bob = record { author = bob; message = "hello, ann" }

abbrev batches : List (List Reliable.ServicerMessage)
batches =
    (Reliable.ServicerMessage.chat_message from_ann ∷ [])
    ∷ []
    ∷ (Reliable.ServicerMessage.chat_message from_bob
        ∷ Reliable.ServicerMessage.chat_message from_ann
        ∷ [])
    ∷ []

history_complete_example :
    (s' : Client) × (taken_behind 3 batches object
      ≡ done (ok (from_ann ∷ from_bob ∷ from_ann ∷ []), s'))
    × IsIdle s'
history_complete_example =
    history_complete 3 batches object (omega arith, (omega arith, (omega arith, tt)))
      (refl, refl, refl, refl)

methods_shut_down_example :
    (Latches (send_controller_input three_bits) × Absorbs (send_controller_input three_bits))
    × (Latches (send_chat_message "hello") × Absorbs (send_chat_message "hello"))
    × (Latches (take_world_state 3) × Absorbs (take_world_state 3))
    × (Latches (take_chat_history 3) × Absorbs (take_chat_history 3))
methods_shut_down_example = methods_shut_down three_bits "hello" 3

-- Nothing arrives after the object is gone.
quit_stops_example :
    (s' : Servicer) × (spin debug bincode
        ((λ s. s) ∷ (λ s. s) ∷ [])
        (abandoned reliable_client client)
      ≡ done (false, s'))
quit_stops_example =
    quit_stops debug bincode reliable_client client (λ s. s) ((λ s. s) ∷ []) refl refl

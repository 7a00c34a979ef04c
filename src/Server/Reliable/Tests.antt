-- ===== src/Server/Reliable/Tests.antt =====
-- The servicer of src/server/reliable.rs for the client ann, whose join request has come in a second time.
use game_network.Prelude.{ℕ, ◌≡◌, refl, true, false, [], ◌∷◌, arith, done, none}
use game_network.Std.{Result, ok}
use game_network.Std.Tcp.{bytes}
use game_network.Msg.{eq_user, CommError, join_response, confirmation, authentication_error}
use game_network.Util.{Spmc}
use game_network.Util.Drain.{mpsc_queue}
use game_network.Server.Messages as Messages
use game_network.Server.Reliable.{ApplicationMessage, to_client, Servicer, spin_once, spin, process}
use game_network.Server.Reliable.Forward.{spin_once_sends}
use game_network.Server.Reliable.Spin.{spin-silent, spin_stops, spin_deserted}
use game_network.Server.Reliable.Chat.{chat_forwarded}
use game_network.Server.Reliable.Admit.{serve}
use game_network.Server.Reliable.Admit.Unread.{serve_ends}
use game_network.Samples.{spmc, ann, bob, live_sender, live_receiver}
use game_network.Samples.Wire.{bincode, requests-IsLawful, reliable_server, stream}

abbrev channel : Spmc ApplicationMessage
channel = spmc ApplicationMessage

-- Two messages for ann around one for bob.
abbrev busy : Servicer channel
busy = record reliable_server {
  from_application = record {
    queue =
        to_client (record { to = ann; payload = join_response (confirmation 5) })
        ∷ to_client (record { to = bob; payload = join_response (confirmation 6) })
        ∷ to_client (record { to = ann; payload = join_response authentication_error })
        ∷ [];
    sender_alive = true;
  };
}

-- An application thread that is gone.
abbrev orphan : Servicer channel
orphan = record reliable_server { from_application = record { queue = []; sender_alive = false } }

abbrev nothing_happens : Servicer channel → Servicer channel
nothing_happens s = s

abbrev join_comes_in : Servicer channel → Servicer channel
join_comes_in s = record s {
  tcp_stream = record s.tcp_stream { incoming = bytes (1 ∷ 7 ∷ []) ∷ [] };
}

abbrev switched_off : Servicer channel → Servicer channel
switched_off s = record s { server_running = false }

-- The message for bob is taken from the queue and goes nowhere.
spin_once_sends_example :
    (answer : Result (Unit {0}) (CommError ℕ)) × (s' : Servicer channel) × (spin_once bincode
        channel 4 busy
      ≡ done (answer, s'))
    × (s'.tcp_stream.outgoing ≡ 0 ∷ 5 ∷ 1 ∷ [])
    × (s'.from_application.queue ≡ [])
unfolding eq_user
spin_once_sends_example =
    spin_once_sends bincode channel requests-IsLawful (mpsc_queue ApplicationMessage) 4 busy
      (0 ∷ 5 ∷ 1 ∷ []) (omega arith) refl tt
      (0 ∷ 5 ∷ [], 1 ∷ [], refl, refl, (1 ∷ [], [], refl, refl, refl))

spin-silent_example :
    (s' : Servicer channel) × (spin bincode channel 1
        (join_comes_in ∷ join_comes_in ∷ [])
        reliable_server
      ≡ done s')
    × (s'.to_application ≡ reliable_server.to_application)
spin-silent_example =
    spin-silent bincode channel requests-IsLawful (mpsc_queue ApplicationMessage) 1
      (join_comes_in ∷ join_comes_in ∷ [])
      (
        (λ s drained. rw drained (omega arith), λ s. refl),
        ((λ s drained. rw drained (omega arith), λ s. refl), tt),
      )
      reliable_server refl

spin_stops_example :
    (s' : Servicer channel) × (spin bincode channel 1
        (nothing_happens ∷ switched_off ∷ join_comes_in ∷ [])
        reliable_server
      ≡ done s')
    × (s'.shutting_down ≡ true)
spin_stops_example =
    spin_stops bincode channel requests-IsLawful (mpsc_queue ApplicationMessage) 1
      (nothing_happens ∷ []) switched_off (join_comes_in ∷ [])
      (λ s drained. rw drained (omega arith), tt) (λ s drained. rw drained (omega arith))
      (λ s. refl) reliable_server refl

spin_deserted_example :
    (s' : Servicer channel) × (spin bincode channel 1 (nothing_happens ∷ join_comes_in ∷ []) orphan
      ≡ done s')
    × (s'.shutting_down ≡ false)
spin_deserted_example =
    spin_deserted bincode channel requests-IsLawful (mpsc_queue ApplicationMessage) 1 0
      (nothing_happens ∷ join_comes_in ∷ []) (λ s h. h, (λ s h. h, tt)) orphan
      (refl, refl, refl, refl)

-- The join request of ann has come in, and her thread ends.
serve_ends_example :
    serve bincode channel 2 (nothing_happens ∷ []) stream true live_sender live_receiver 5
    ≡ done none
serve_ends_example =
    serve_ends bincode channel requests-IsLawful 2 stream true live_sender live_receiver 5
      (nothing_happens ∷ []) (omega arith)

forwards_hello :
    process bincode channel (0 ∷ []) reliable_server
    ≡ done (
      ok tt,
      record reliable_server {
        to_application = record reliable_server.to_application {
          sent =
              record { author = ann; payload = Messages.ServicerPayload.chat_message "hello" } ∷ [];
        };
      },
    )
forwards_hello =
    chat_forwarded bincode channel requests-IsLawful (0 ∷ []) reliable_server "hello" refl

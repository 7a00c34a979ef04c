-- ===== src/Server/Tests.antt =====
-- The object of src/server/mod.rs, and the listener of src/server/reliable.rs on three connections.
use game_network.Samples.{live_receiver, bidir, spmc, ann, server, live_sender}
use game_network.Prelude.{some, timeout, arith, ◌≡◌, refl, true, false, [], ◌∷◌, done, Bool, debug}
use game_network.Std.{next_message, ok, err, IoError, interrupted, Result, Sender, send}
use game_network.Std.Tcp.{TcpStream}
use game_network.Msg.{ApplicationError, last_tick_received, join_response, confirmation}
use game_network.Util.{SpmcSender}
use game_network.Util.Drain.{IsChannel, mpsc_queue}
use game_network.Server.Quit.{threads_stop}
use game_network.Server.Listener.Threads.{listen_and_serve}
use game_network.Server.{quit, Channels, send_low_latency, send_reliable, receive_iter, Server}
use game_network.Server.Messages.{chat_message}
use game_network.Server.LowLatency
use game_network.Server.Reliable
use game_network.Server.Shutdown.{Latches, Absorbs, sends_shut_down}
use game_network.Samples.Wire.{reliable_server, bincode, requests-IsLawful, stream}

abbrev interruption : IoError
interruption = record { kind = interrupted; message = "" }

abbrev failed : Result TcpStream IoError
failed = err interruption

-- The sending end of a queue that others read.
abbrev spmc_sender : (M : Type 0) → SpmcSender M
spmc_sender M = record { State = Sender M; send = send; close = λ s. s }

abbrev channels : Channels
channels = record {
  low_latency = spmc LowLatency.ApplicationMessage;
  to_low_latency = spmc_sender LowLatency.ApplicationMessage;
  reliable = spmc Reliable.ApplicationMessage;
  to_reliable = spmc_sender Reliable.ApplicationMessage;
}

abbrev tick_message : LowLatency.ApplicationMessage
tick_message = LowLatency.to_client (record { to = ann; payload = last_tick_received 3 })

abbrev port_message : Reliable.ApplicationMessage
port_message = Reliable.to_client (record { to = ann; payload = join_response (confirmation 5) })

sends_shut_down_example :
    (Latches bidir channels (send_low_latency bidir channels tick_message)
      × Absorbs bidir channels (send_low_latency bidir channels tick_message))
    × (Latches bidir channels (send_reliable bidir channels port_message)
        × Absorbs bidir channels (send_reliable bidir channels port_message))
sends_shut_down_example = sends_shut_down bidir channels tick_message port_message

abbrev object : Server bidir channels
object = record {
  listener_kill_switch = true;
  low_latency_servicer = server;
  from_servicer = record {
    queue = record { author = ann; payload = chat_message "hello" } ∷ [];
    sender_alive = true;
  };
  to_low_latency_servicer = live_sender;
  to_reliable_servicer = record { sent = []; receiver_alive = false };
  shutdown = false;
}

abbrev emptied : Server bidir channels
emptied = record object { from_servicer = record { queue = []; sender_alive = true } }

-- The message that has come in is yielded, and then the iterator waits.
yields_once :
    (receive_iter bidir channels object
      ≡ done (some (record { author = ann; payload = chat_message "hello" }), emptied))
    × (receive_iter bidir channels emptied ≡ timeout)
unfolding receive_iter next_message
yields_once = (refl, refl)

-- A refused message shuts the object down.
refused :
    (send_reliable bidir channels port_message object)
    ≡ done (err ApplicationError.shutdown, record object { shutdown = true })
unfolding send_reliable send
refused = refl

-- A sending end that knows only whether it was dropped.
abbrev open_sender : (M : Type 0) → SpmcSender M
open_sender M = record { State = Bool; send = λ m t. (ok tt, t); close = λ t. false }

abbrev open_channels : Channels
open_channels = record {
  low_latency = spmc LowLatency.ApplicationMessage;
  to_low_latency = open_sender LowLatency.ApplicationMessage;
  reliable = spmc Reliable.ApplicationMessage;
  to_reliable = open_sender Reliable.ApplicationMessage;
}

abbrev joined_ends :
    IsChannel
      (open_sender LowLatency.ApplicationMessage)
      (spmc LowLatency.ApplicationMessage)
      (mpsc_queue LowLatency.ApplicationMessage)
joined_ends = record { Joined = λ t r. r.sender_alive ≡ t; on_close = λ t r e. e }

abbrev open_object : Server bidir open_channels
open_object = record {
  listener_kill_switch = true;
  low_latency_servicer = server;
  from_servicer = live_receiver;
  to_low_latency_servicer = true;
  to_reliable_servicer = true;
  shutdown = false;
}

-- What the threads see once the object is gone.
abbrev loses_sender :
    LowLatency.Servicer bidir (spmc LowLatency.ApplicationMessage)
    → LowLatency.Servicer bidir (spmc LowLatency.ApplicationMessage)
loses_sender l = record l {
  from_application = record { queue = tick_message ∷ []; sender_alive = false };
}

abbrev sees_flag :
    Reliable.Servicer (spmc Reliable.ApplicationMessage)
    → Reliable.Servicer (spmc Reliable.ApplicationMessage)
sees_flag r = record r { server_running = false }

threads_stop_example :
    (listen_and_serve bincode
        (spmc Reliable.ApplicationMessage)
        2
        live_sender
        live_receiver
        5
        (λ s. [])
        (ok tt)
        ((ok stream, true) ∷ (failed, false) ∷ (ok stream, true) ∷ [])
      ≡ done (ok (stream ∷ [])))
    × ((r : Reliable.Servicer (spmc Reliable.ApplicationMessage)) × (Reliable.spin bincode
            (spmc Reliable.ApplicationMessage)
            2
            ((λ r. r) ∷ sees_flag ∷ [])
            reliable_server
          ≡ done r)
        × (r.shutting_down ≡ true))
    × ((l : LowLatency.Servicer bidir (spmc LowLatency.ApplicationMessage)) × (LowLatency.spin debug
            bincode bidir
            (spmc LowLatency.ApplicationMessage)
            2
            5
            (loses_sender ∷ [])
            server
          ≡ done (false, l)))
unfolding quit
threads_stop_example =
    threads_stop debug bincode bidir open_channels requests-IsLawful 2 5 open_object live_sender
      live_receiver 5 (λ s. []) ((ok stream, true) ∷ []) failed ((ok stream, true) ∷ []) (refl, tt)
      (omega arith, tt) (mpsc_queue Reliable.ApplicationMessage) ((λ r. r) ∷ []) sees_flag []
      reliable_server (λ s drained. rw drained (omega arith), tt)
      (λ s drained. rw drained (omega arith)) (λ r. refl) refl
      (mpsc_queue LowLatency.ApplicationMessage) joined_ends loses_sender [] server refl
      (omega arith)

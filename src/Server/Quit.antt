-- ===== src/Server/Quit.antt =====
-- What `quit` of src/server/mod.rs does to the listener and the servicers.
use game_network.Prelude.{Bool, ℕ, ◌≡◌, ◌<◌, true, false, List, ◌∷◌, ◌++◌, length, done, Build, All}
use game_network.Std.{Result, ok, IoError, Sender}
use game_network.Std.Tcp.{TcpStream}
use game_network.Msg.{Bincode, IsLawful}
use game_network.Util.Drain.{IsQueue, IsChannel}
use game_network.Server.{Channels, Server, quit}
use game_network.Server.Bidir.{BidirMap}
use game_network.Server.Messages.{ServicerMessage}
use game_network.Server.Listener.Accepts.{accepted, stream_of}
use game_network.Server.Listener.Threads.{listen_and_serve, listen_and_serve_lem}
use game_network.Server.LowLatency as LowLatency
use game_network.Server.LowLatency.Quiet.{gone_stops}
use game_network.Server.Reliable as Reliable
use game_network.Server.Reliable.Spin.{IsDrained, IsBounded, spin_stops}

module _ (build : Build) (bincode : Bincode) (bidir : BidirMap) (channels : Channels)
    (lawful : IsLawful bincode.reliable_client) (rounds_left fuel : ℕ)
    (s : Server bidir channels) where
  abbrev LowServicer : Type 0
  LowServicer = LowLatency.Servicer bidir channels.low_latency

  abbrev ReServicer : Type 0
  ReServicer = Reliable.Servicer channels.reliable

  -- After `quit` of the server's object, with a lawful wire form of the requests and enough rounds
  -- for the streams and the queues: the listener ends with the first connection behind which it
  -- sees the flag as `quit` left it, having started a thread for each connection that came about up
  -- to then, in order, and joins these threads without a panic; the loop of a reliable servicer
  -- returns shut down, at the latest with the first round before which it sees that flag; and the
  -- loop of the low-latency servicer ends with the first round before which its end of the channel
  -- is joined to the one that `quit` dropped, whatever comes later.
  pub threads_stop :
      (to_application : Sender ServicerMessage) (from_application : channels.reliable.State)
      (udp_port : ℕ) (arrivals : TcpStream → List (ReServicer → ReServicer))
      (before : List (Result TcpStream IoError × Bool)) (last : Result TcpStream IoError)
      (after : List (Result TcpStream IoError × Bool))
      → All (λ c. c.1 ≡ true) before
      → All (λ stream. length stream.incoming < rounds_left) (accepted before ++ stream_of last)
      → (q : IsQueue channels.reliable.try_recv) (turns : List (ReServicer → ReServicer))
        (stop : ReServicer → ReServicer) (later : List (ReServicer → ReServicer)) (re : ReServicer)
      → All (IsBounded bincode channels.reliable lawful q rounds_left) turns
      → IsBounded bincode channels.reliable lawful q rounds_left stop
      → ((r : ReServicer) → (stop r).server_running ≡ (quit bidir channels s).listener_kill_switch)
      → IsDrained bincode channels.reliable lawful q rounds_left re
      → (p : IsQueue channels.low_latency.try_recv)
        (channel : IsChannel channels.to_low_latency channels.low_latency p)
        (arrive : LowServicer → LowServicer) (rest : List (LowServicer → LowServicer))
        (ll : LowServicer)
      → channel.Joined (quit bidir channels s).to_low_latency_servicer (arrive ll).from_application
      → length (p.pending (arrive ll).from_application) < rounds_left
      → (listen_and_serve bincode channels.reliable rounds_left to_application from_application
            udp_port arrivals
            (ok tt)
            (before ++ (last, (quit bidir channels s).listener_kill_switch) ∷ after)
          ≡ done (ok (accepted before ++ stream_of last)))
        × ((r : ReServicer) × (Reliable.spin bincode channels.reliable rounds_left
                (turns ++ stop ∷ later)
                re
              ≡ done r)
            × (r.shutting_down ≡ true))
        × ((l : LowServicer) × (LowLatency.spin build bincode bidir channels.low_latency rounds_left
                fuel
                (arrive ∷ rest)
                ll
              ≡ done (false, l)))
  unfolding quit
  threads_stop to_application from_application udp_port arrivals before last after running enough q
        turns stop later re bounded bounded' stops drained p channel arrive rest ll joined few =
      (
        listen_and_serve_lem bincode channels.reliable rounds_left to_application from_application
            udp_port arrivals lawful before last after running enough,
        spin_stops bincode channels.reliable lawful q rounds_left turns stop later bounded bounded'
            stops re drained,
        gone_stops build bincode bidir channels.low_latency p rounds_left fuel arrive rest ll
            (channel.on_close s.to_low_latency_servicer (arrive ll).from_application joined) few,
      )

-- ===== src/Exchange/World.antt =====
-- The way of a world state: from src/server/low_latency.rs through src/client/low_latency.rs to the object
-- of src/client/mod.rs.
use game_network.Prelude.{
  ℕ, ◌≡◌, ◌≤◌, ◌<◌, refl, ap, ◌∙◌, arith, true, false, none, some, List, [], ◌∷◌, ◌++◌, length,
  done, Build,
}
use game_network.Std.{ok, SocketAddr, datagram}
use game_network.Msg.{Username, LowLatencyServerMessage, Bincode, IsLawful}
use game_network.Util.{Spmc, max_packet_size}
use game_network.Util.Drain.{IsQueue}
use game_network.Server.Bidir.{BidirMap}
use game_network.Server.LowLatency as Server
use game_network.Server.LowLatency.Parse.{is_world, is_tick, newest, book}
use game_network.Server.LowLatency.Delivery.{world_sent}
use game_network.Client
use game_network.Client.LowLatency as Servicer
use game_network.Client.LowLatency.Receive.{world_received}
use game_network.Client.Mailbox.{take_world_state_lem}
use game_network.Msg.Wire.{bytes_of_message}

-- The client's servicer with a datagram before it, and the client's object with what the servicer sent.
abbrev pub reached : Servicer.Servicer → List ℕ → SocketAddr → Servicer.Servicer
reached s bytes src = record s {
  udp_socket = record s.udp_socket { inbox = datagram bytes src ∷ s.udp_socket.inbox };
}

abbrev pub supplied : Client.Client → Servicer.Servicer → Client.Client
supplied c s = record c {
  from_low_latency_servicer = record {
    queue = c.from_low_latency_servicer.queue ++ s.to_application.sent;
    sender_alive = true;
  };
}

module _ (build : Build) (bincode : Bincode) (bidir : BidirMap)
    (spmc : Spmc Server.ApplicationMessage) (lawful : IsLawful bincode.low_latency_server)
    (q : IsQueue spmc.try_recv) where
  -- A world state that is the last one in the queue of the server's low-latency servicer, which has
  -- more rounds than messages, a living application thread, no tick to send and a working socket,
  -- and that is for a user with a known address, goes out lawfully serialised in one datagram of at
  -- most 1500 bytes to this address; when that datagram is the next to reach the client's servicer,
  -- `take_world_state` of the client's object, up and with nothing queued before, returns exactly
  -- that state.
  pub world_state_delivered :
      (rounds_left : ℕ) (server : Server.Servicer bidir spmc) (servicer : Servicer.Servicer)
      (client : Client.Client) (user : Username) (address src : SocketAddr) (state bytes : List ℕ)
      → let msgs = q.pending server.from_application in
        length msgs < rounds_left
        → q.alive server.from_application ≡ true
        → newest is_world msgs
          ≡ some (record { to = user; payload = LowLatencyServerMessage.world_state state })
        → newest is_tick msgs ≡ none
        → bidir.get_by_second (book bidir msgs server.address_user) user ≡ some address
        → server.udp_socket.send_faults ≡ []
        → bincode.low_latency_server.serialize (LowLatencyServerMessage.world_state state)
          ≡ ok bytes
        → length bytes ≤ max_packet_size
        → servicer.to_application.receiver_alive ≡ true
        → servicer.to_application.sent ≡ []
        → client.shutdown ≡ false
        → client.from_low_latency_servicer.queue ≡ []
        → (server' : Server.Servicer bidir spmc) × (servicer' : Servicer.Servicer)
          × (client' : Client.Client) × (Server.forward_from_server_to_client build bincode bidir
                spmc rounds_left server
              ≡ done (ok tt, server'))
          × (server'.udp_socket.outbox ≡ server.udp_socket.outbox ++ (bytes, address) ∷ [])
          × (Servicer.forward_from_server_to_client build bincode (reached servicer bytes src)
              ≡ done (ok tt, servicer'))
          × (Client.take_world_state 2 (supplied client servicer') ≡ done (ok state, client'))
  world_state_delivered rounds_left server servicer client user address src state bytes enough alive
        world no_tick known no_fault encoded small app_alive none_sent up none_queued =
      let m : LowLatencyServerMessage = LowLatencyServerMessage.world_state state in
      let (r, sends, none_left) =
        world_sent build bincode bidir spmc q rounds_left server (record { to = user; payload = m })
          address bytes enough alive world no_tick known encoded no_fault in
      let receives =
        world_received build bincode (reached servicer bytes src) state bytes src
          servicer.udp_socket.inbox refl
          (bytes_of_message bincode.low_latency_server lawful m bytes encoded) small
          (lawful.round_trip m bytes encoded) app_alive in
      let one : List Servicer.ServicerMessage = Servicer.world_state state ∷ [] in
      let hold = λ (queue : List Servicer.ServicerMessage). record client {
        from_low_latency_servicer = record { queue = queue; sender_alive = true };
      } in
      (
        _,
        _,
        _,
        sends,
        refl,
        receives,
        ap (λ l. Client.take_world_state 2 (hold (l ++ (servicer.to_application.sent ++ one))))
              none_queued
            ∙ ap (λ l. Client.take_world_state 2 (hold (l ++ one))) none_sent
            ∙ take_world_state_lem 2 (hold one) (up, refl, omega arith),
      )

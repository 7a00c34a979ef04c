-- ===== src/Server/LowLatency/Delivery.antt =====
-- What `forward_from_server_to_client` of src/server/low_latency.rs sends.
use game_network.Prelude.{ℕ, ◌≡◌, ◌<◌, true, none, some, List, [], ◌∷◌, ◌++◌, length, done, Build}
use game_network.Std.{ok, SocketAddr, send_to}
use game_network.Msg.{Bincode}
use game_network.Util.{Spmc}
use game_network.Util.Drain.{IsQueue, drain_spmc_receiver_lem}
use game_network.Server.Bidir.{BidirMap}
use game_network.Server.LowLatency.{
  ToClient, ApplicationMessage, Servicer, send_message, forward_from_server_to_client,
}
use game_network.Server.LowLatency.Parse.{
  is_world, is_tick, newest, book, parse_application_messages_lem,
}

module _ (build : Build) (bincode : Bincode) (bidir : BidirMap)
    (spmc : Spmc ApplicationMessage) where
  -- With nothing pending and a living application thread only the receiving end may change.
  pub quiet_queue :
      (q : IsQueue spmc.try_recv) (rounds_left : ℕ) (s : Servicer bidir spmc)
      → q.pending s.from_application ≡ []
      → q.alive s.from_application ≡ true
      → 0 < rounds_left
      → (r : spmc.State) × (forward_from_server_to_client build bincode bidir spmc rounds_left s
          ≡ done (ok tt, record s { from_application = r }))
  unfolding forward_from_server_to_client
  quiet_queue q rounds_left s none_left alive enough =
      let (r, runs, _) =
        drain_spmc_receiver_lem spmc q rounds_left s.from_application (rw none_left enough) in
      (r, simp (runs, alive, none_left, parse_application_messages_lem bidir [] s.address_user))

  pub send_message-Sends :
      (m : ToClient) (address : SocketAddr) (bytes : List ℕ) (s : Servicer bidir spmc)
      → bidir.get_by_second s.address_user m.to ≡ some address
      → bincode.low_latency_server.serialize m.payload ≡ ok bytes
      → s.udp_socket.send_faults ≡ []
      → send_message build bincode bidir spmc m s
        ≡ done (
          ok tt,
          record s {
            udp_socket = record s.udp_socket {
              outbox = s.udp_socket.outbox ++ (bytes, address) ∷ [];
            };
          },
        )
  unfolding send_message send_to
  send_message-Sends m address bytes s known encoded no_fault = rw (known, encoded, no_fault)

  pub world_sent :
      (q : IsQueue spmc.try_recv) (rounds_left : ℕ) (s : Servicer bidir spmc) (m : ToClient)
      (address : SocketAddr) (bytes : List ℕ)
      → let msgs = q.pending s.from_application in
        length msgs < rounds_left
        → q.alive s.from_application ≡ true
        → newest is_world msgs ≡ some m
        → newest is_tick msgs ≡ none
        → bidir.get_by_second (book bidir msgs s.address_user) m.to ≡ some address
        → bincode.low_latency_server.serialize m.payload ≡ ok bytes
        → s.udp_socket.send_faults ≡ []
        → (r : spmc.State) × (forward_from_server_to_client build bincode bidir spmc rounds_left s
            ≡ done (
              ok tt,
              record s {
                from_application = r;
                address_user = book bidir msgs s.address_user;
                udp_socket = record s.udp_socket {
                  outbox = s.udp_socket.outbox ++ (bytes, address) ∷ [];
                };
              },
            ))
          × (q.pending r ≡ [])
  unfolding forward_from_server_to_client
  world_sent q rounds_left s m address bytes enough alive world no_tick known encoded no_fault =
      let msgs = q.pending s.from_application in
      let (r, runs, none_left) =
        drain_spmc_receiver_lem spmc q rounds_left s.from_application enough in
      let s1 : Servicer bidir spmc = record s {
        from_application = r;
        address_user = book bidir msgs s.address_user;
      } in
      (
        r,
        simp (
          runs,
          alive,
          parse_application_messages_lem bidir msgs s.address_user,
          world,
          no_tick,
          send_message-Sends m address bytes s1 known encoded no_fault,
        ),
        none_left,
      )

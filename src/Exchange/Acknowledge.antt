-- ===== src/Exchange/Acknowledge.antt =====
-- The way of a controller sequence to src/server/low_latency.rs and of its acknowledgement back to
-- src/client/low_latency.rs.
use Prim.Native.Nat.{max}
use game_network.Prelude.{
  ℕ, ◌+◌, ◌*◌, ◌<◌, ◌≤◌, ◌≡◌, refl, true, some, List, [], ◌∷◌, ◌++◌, length, done, Build, usize_mod,
}
use game_network.Std.{ok, SocketAddr, Arrival, datagram}
use game_network.Compressed.Format.{AreSized}
use game_network.Control.{
  ControllerSequence, CompressedControllerSequence, to_compressed, remove_till_tick,
}
use game_network.Control.Ticks.{last_tick_of_lt}
use game_network.Msg.{Username, controller_input, last_tick_received, Bincode, IsLawful}
use game_network.Util.{Spmc, max_packet_size}
use game_network.Util.Drain.{IsQueue}
use game_network.Server.Bidir.{BidirMap}
use game_network.Server.LowLatency as Server
use game_network.Server.LowLatency.Answers.{handed, input_round}
use game_network.Client.LowLatency as Client
use game_network.Client.LowLatency.Receive.{tick_received}
use game_network.Exchange.{read_back}
use game_network.Exchange.World.{reached}
use game_network.Msg.Wire.{bytes_of_message}

module _ (build : Build) (fuel size : ℕ) (c : ControllerSequence) (sized : AreSized size c.seq)
    (fits : length c.seq * (size + 1) + size < usize_mod)
    (enough : length c.seq * (size + 1) < fuel) (ticks : c.start_tick + length c.seq < usize_mod)
    (sent : CompressedControllerSequence) (compressed : to_compressed build c ≡ done (some sent))
    (bincode : Bincode) (requests : IsLawful bincode.low_latency_client)
    (replies : IsLawful bincode.low_latency_server) (bidir : BidirMap)
    (spmc : Spmc Server.ApplicationMessage) (q : IsQueue spmc.try_recv) where
  -- A whole round of the server's low-latency servicer, with a round for the drain, no message
  -- pending, an application thread that holds both of its channel ends and a working socket, whose
  -- next datagram, of at most 1500 bytes, carries a client's compressed and lawfully serialised
  -- sequence of `n` well-formed states that all have `size` bits, where `n * (size + 1) + size` and
  -- the last tick are a `usize` and `n * (size + 1)` is below the fuel, from an address of a user
  -- with a known address: the round ends with the greater of the sequence's last tick and the
  -- newest tick received before, from any client, as the newest; it has handed the sequence over
  -- with the user's name if it ends later, and nothing otherwise; and it has sent exactly one
  -- datagram, the lawfully serialised acknowledgement of the newest tick, to the user's address.
  -- When that datagram, of at most 1500 bytes, is the next to reach the servicer of a client, on
  -- whose sequence `remove_till_tick` of the newest tick returns, that servicer's sequence becomes
  -- what it returns.
  pub acknowledgement_arrives :
      (rounds_left : ℕ) (server : Server.Servicer bidir spmc) (client : Client.Servicer)
      (user : Username) (src back address : SocketAddr) (bytes reply : List ℕ) (rest : List Arrival)
      (kept : ControllerSequence)
      → let old = server.last_tick_received in
        let tick = c.start_tick + length c.seq in
        q.pending server.from_application ≡ []
        → q.alive server.from_application ≡ true
        → 0 < rounds_left
        → bidir.get_by_first server.address_user src ≡ some user
        → bidir.get_by_second server.address_user user ≡ some back
        → server.to_application.receiver_alive ≡ true
        → server.udp_socket.send_faults ≡ []
        → bincode.low_latency_client.serialize (controller_input sent) ≡ ok bytes
        → length bytes ≤ max_packet_size
        → server.udp_socket.inbox ≡ datagram bytes src ∷ rest
        → bincode.low_latency_server.serialize (last_tick_received (max old tick)) ≡ ok reply
        → length reply ≤ max_packet_size
        → remove_till_tick build client.controller_seq (max old tick) ≡ done kept
        → (server' : Server.Servicer bidir spmc) × (client' : Client.Servicer) × (Server.spin_once
              build bincode bidir spmc rounds_left fuel server
            ≡ done (ok tt, server'))
          × (server'.last_tick_received ≡ max old tick)
          × (server'.to_application.sent ≡ server.to_application.sent ++ handed user c old tick)
          × (server'.udp_socket.outbox ≡ server.udp_socket.outbox ++ (reply, back) ∷ [])
          × (Client.forward_from_server_to_client build bincode (reached client reply address)
              ≡ done (ok tt, client'))
          × (client'.controller_seq ≡ kept)
  acknowledgement_arrives rounds_left server client user src back address bytes reply rest kept
        none_left up some_round known reachable alive no_fault encoded small arrived answer small'
        removed =
      let old = server.last_tick_received in
      let tick = c.start_tick + length c.seq in
      let (server', runs, newest, hands, sends) =
        input_round build bincode bidir spmc fuel user src back sent c tick
          (read_back build fuel size c sized fits enough sent compressed)
          (last_tick_of_lt build c ticks) q rounds_left server bytes reply rest none_left up
          some_round arrived small (requests.round_trip (controller_input sent) bytes encoded) known
          reachable alive no_fault answer in
      (
        server',
        _,
        runs,
        newest,
        hands,
        sends,
        tick_received build bincode (reached client reply address) (max old tick) kept reply address
            client.udp_socket.inbox refl
            (bytes_of_message bincode.low_latency_server replies (last_tick_received (max old tick))
              reply answer)
            small' (replies.round_trip (last_tick_received (max old tick)) reply answer) removed,
        refl,
      )

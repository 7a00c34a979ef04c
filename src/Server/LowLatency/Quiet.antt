-- ===== src/Server/LowLatency/Quiet.antt =====
-- A round of src/server/low_latency.rs once the application thread is gone.
use game_network.Prelude.{ℕ, ◌≡◌, ◌<◌, false, List, ◌∷◌, length, done, Build}
use game_network.Std.{err}
use game_network.Msg.{exit, Bincode}
use game_network.Exec.{rounds, next_round}
use game_network.Util.{Spmc}
use game_network.Util.Drain.{IsQueue, drain_spmc_receiver_lem}
use game_network.Server.Bidir.{BidirMap}
use game_network.Server.LowLatency.{
  ApplicationMessage, Servicer, drain, forward_from_server_to_client, spin_once, goes_on, spin,
}

module _ (build : Build) (bincode : Bincode) (bidir : BidirMap) (spmc : Spmc ApplicationMessage)
    (q : IsQueue spmc.try_recv) (rounds_left fuel : ℕ) where
  gone_round :
      (s : Servicer bidir spmc)
      → q.alive s.from_application ≡ false
      → length (q.pending s.from_application) < rounds_left
      → (s' : Servicer bidir spmc) × (spin_once build bincode bidir spmc rounds_left fuel s
          ≡ done (err exit, s'))
  unfolding spin_once forward_from_server_to_client drain
  gone_round s gone enough =
      let (r, runs, none_left) =
        drain_spmc_receiver_lem spmc q rounds_left s.from_application enough in
      (record s { from_application = r }, rw (runs, gone))

  -- The loop ends with such a round, and what was still queued is lost.
  pub gone_stops :
      (arrive : Servicer bidir spmc → Servicer bidir spmc)
      (rest : List (Servicer bidir spmc → Servicer bidir spmc)) (s : Servicer bidir spmc)
      → q.alive (arrive s).from_application ≡ false
      → length (q.pending (arrive s).from_application) < rounds_left
      → (s' : Servicer bidir spmc) × (spin build bincode bidir spmc rounds_left fuel
            (arrive ∷ rest)
            s
          ≡ done (false, s'))
  unfolding spin rounds next_round goes_on
  gone_stops arrive rest s gone enough =
      let (s', exits) = gone_round (arrive s) gone enough in (s', rw exits)

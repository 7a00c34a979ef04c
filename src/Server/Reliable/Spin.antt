-- ===== src/Server/Reliable/Spin.antt =====
-- The loop of the servicer of src/server/reliable.rs, round after round, while the queue takes in no more
-- than a drain can empty.
use game_network.Prelude.{
  ℕ, suc, ◌≡◌, ◌<◌, refl, ap, ◌∙◌, Bool, true, false, Bool-cases, inl, inr, List, [], ◌∷◌, ◌++◌,
  Run, done, length, All,
}
use game_network.Std.{Result, ok, err}
use game_network.Msg.{CommError, warning, dropped, exit, Bincode, IsLawful}
use game_network.Util.{Spmc}
use game_network.Util.Drain.{IsQueue, drain_spmc_receiver_gone}
use game_network.Server.Reliable.{
  ApplicationMessage, Servicer, shutdown, after_round, check_running, next_round, spin_once, spin,
}
use game_network.Server.Reliable.Round.{spin_once_frame}

module _ (bincode : Bincode) (spmc : Spmc ApplicationMessage)
    (lawful : IsLawful bincode.reliable_client) (q : IsQueue spmc.try_recv) (rounds_left : ℕ) where
  abbrev pub IsDrained : Servicer spmc → Type 0
  IsDrained s = q.pending s.from_application ≡ []

  -- What happens before a round leaves fewer messages than a drain has rounds, when none were queued.
  abbrev pub IsBounded : (Servicer spmc → Servicer spmc) → Type 0
  IsBounded arrive =
      (s : Servicer spmc)
      → IsDrained s
      → length (q.pending (arrive s).from_application) < rounds_left

  abbrev Settled : Servicer spmc → Servicer spmc → Type 0
  Settled s s' =
      (b : Bool) × (s' ≡ record s { shutting_down = b }) × (s.server_running ≡ false → b ≡ true)

  check_running_lem : (s : Servicer spmc) → Settled s (check_running bincode spmc s)
  unfolding check_running shutdown
  check_running_lem s = elim (Bool-cases s.server_running) [
    | inl e ↦ (s.shutting_down, rw e, λ h. cc)
    | inr e ↦ (true, rw e, λ h. refl)
  ]

  -- The end of a round decides only whether the servicer shuts down, as it does when the flag is off.
  settled :
      (a : Result (Unit {0}) (CommError bincode.Error)) (s : Servicer spmc)
      → Settled s (check_running bincode spmc (after_round bincode spmc a s))
  unfolding after_round shutdown
  settled (err exit) s = check_running_lem (record s { shutting_down = true })
  settled (err (warning w)) s = check_running_lem s
  settled (err (dropped d)) s = check_running_lem s
  settled (ok _) s = check_running_lem s

  -- The state that a round leaves to the next one.
  abbrev Left : Servicer spmc → Servicer spmc → Type 0
  Left s s' =
      IsDrained s'
      × (s'.to_application ≡ s.to_application)
      × (s.server_running ≡ false → s'.shutting_down ≡ true)

  round_lem :
      (again : Servicer spmc → Run (Servicer spmc)) (s : Servicer spmc)
      → length (q.pending s.from_application) < rounds_left
      → (s' : Servicer spmc) × Left s s'
        × (next_round bincode spmc again (spin_once bincode spmc rounds_left s) ≡ again s')
  unfolding next_round
  round_lem again s enough =
      let (e, t, r, runs, none_left) = spin_once_frame bincode spmc lawful q rounds_left s enough in
      let s1 : Servicer spmc = record s { tcp_stream = t; from_application = r } in
      let (b, settles, stops) = settled (err e) s1 in
      (record s1 { shutting_down = b }, (none_left, refl, stops), rw (runs, settles))

  abbrev turn :
      ℕ
      → (Servicer spmc → Servicer spmc)
      → List (Servicer spmc → Servicer spmc)
      → Servicer spmc
      → Bool
      → Run (Servicer spmc)
  turn fuel arrive rest s true = done s
  turn fuel arrive rest s false =
      next_round bincode spmc (spin bincode spmc fuel rest) (spin_once bincode spmc fuel (arrive s))

  -- One round of the loop, if it goes on.
  spin_step :
      (arrive : Servicer spmc → Servicer spmc) (rest : List (Servicer spmc → Servicer spmc))
      (s : Servicer spmc)
      → IsBounded arrive
      → IsDrained s
      → s.shutting_down ≡ false
      → (s' : Servicer spmc) × Left (arrive s) s'
        × (spin bincode spmc rounds_left (arrive ∷ rest) s ≡ spin bincode spmc rounds_left rest s')
  unfolding spin
  spin_step arrive rest s bounded drained on =
      let (s', left, runs) =
        round_lem (spin bincode spmc rounds_left rest) (arrive s) (bounded s drained) in
      (s', left, ap (turn rounds_left arrive rest s) on ∙ runs)

  spin_off :
      (arrivals : List (Servicer spmc → Servicer spmc)) (s : Servicer spmc)
      → s.shutting_down ≡ true
      → spin bincode spmc rounds_left arrivals s ≡ done s
  unfolding spin
  spin_off [] s off = refl
  spin_off (arrive ∷ rest) s off = ap (turn rounds_left arrive rest s) off

  -- While each round's queue can be drained, and nothing else writes to the channel of the
  -- application thread, the loop of a reliable servicer returns and has passed nothing on to the
  -- application thread, whatever the client sent: chat messages are read into a vector without
  -- places.
  pub spin-silent :
      (arrivals : List (Servicer spmc → Servicer spmc))
      → All
          (λ arrive.
            IsBounded arrive × ((s : Servicer spmc) → (arrive s).to_application ≡ s.to_application))
          arrivals
      → (s : Servicer spmc) → IsDrained s
      → (s' : Servicer spmc) × (spin bincode spmc rounds_left arrivals s ≡ done s')
        × (s'.to_application ≡ s.to_application)
  spin-silent [] kept s drained = (s, unfold spin in refl, refl)
  spin-silent (arrive ∷ rest) kept s drained = elim (Bool-cases s.shutting_down) [
    | inl off ↦ (s, spin_off (arrive ∷ rest) s off, refl)
    | inr on ↦
        let (s', left, runs) = spin_step arrive rest s kept.0.0 drained on in
        let (s2, ends, same) = spin-silent rest kept.1 s' left.0 in
        (s2, runs ∙ ends, same ∙ left.1 ∙ kept.0.1 s)
  ]

  -- The loop of a reliable servicer whose queue is drained, and takes in fewer messages before each
  -- round than a drain has rounds, returns shut down, at the latest with the first round before
  -- which the shared flag was switched off, whatever was to come after that round.
  pub spin_stops :
      (before : List (Servicer spmc → Servicer spmc)) (stop : Servicer spmc → Servicer spmc)
      (after : List (Servicer spmc → Servicer spmc))
      → All IsBounded before
      → IsBounded stop
      → ((s : Servicer spmc) → (stop s).server_running ≡ false)
      → (s : Servicer spmc) → IsDrained s
      → (s' : Servicer spmc) × (spin bincode spmc rounds_left (before ++ stop ∷ after) s ≡ done s')
        × (s'.shutting_down ≡ true)
  spin_stops [] stop after kept bounded stops s drained = elim (Bool-cases s.shutting_down) [
    | inl off ↦ (s, spin_off (stop ∷ after) s off, off)
    | inr on ↦
        let (s', left, runs) = spin_step stop after s bounded drained on in
        (s', runs ∙ spin_off after s' (left.2 (stops s)), left.2 (stops s))
  ]
  spin_stops (arrive ∷ before) stop after kept bounded stops s drained =
      elim (Bool-cases s.shutting_down) [
        | inl off ↦ (s, spin_off (arrive ∷ (before ++ stop ∷ after)) s off, off)
        | inr on ↦
            let (s', left, runs) = spin_step arrive (before ++ stop ∷ after) s kept.0 drained on in
            let (s2, ends, down) = spin_stops before stop after kept.1 bounded stops s' left.0 in
            (s2, runs ∙ ends, down)
      ]

  -- An object whose application thread is gone, though nobody switched the flag off.
  abbrev pub IsDeserted : Servicer spmc → Type 0
  IsDeserted s =
      IsDrained s
      × (q.alive s.from_application ≡ false)
      × (s.server_running ≡ true)
      × (s.shutting_down ≡ false)

  IsDeserted-round :
      (again : Servicer spmc → Run (Servicer spmc)) (fuel : ℕ) (s : Servicer spmc)
      → IsDeserted s
      → (s' : Servicer spmc) × IsDeserted s'
        × (next_round bincode spmc again (spin_once bincode spmc (suc fuel) s) ≡ again s')
  unfolding next_round after_round check_running spin_once
  IsDeserted-round again fuel s (drained, gone, running, on) =
      let (r, runs, drained', gone') =
        drain_spmc_receiver_gone spmc q fuel s.from_application drained gone in
      (record s { from_application = r }, (drained', gone', running, on), simp (runs, running))

  -- The loop of a reliable servicer does not shut down because its application thread is gone: with
  -- the queue drained, its sender gone and the flag on, before each round, it is still not shutting
  -- down after any number of rounds of nonzero fuel.
  pub spin_deserted :
      (fuel : ℕ) (arrivals : List (Servicer spmc → Servicer spmc))
      → All (λ arrive. (s : Servicer spmc) → IsDeserted s → IsDeserted (arrive s)) arrivals
      → (s : Servicer spmc) → IsDeserted s
      → (s' : Servicer spmc) × (spin bincode spmc (suc fuel) arrivals s ≡ done s')
        × (s'.shutting_down ≡ false)
  unfolding spin
  spin_deserted fuel [] kept s deserted = (s, refl, deserted.3)
  spin_deserted fuel (arrive ∷ rest) kept s deserted =
      let (s', deserted', runs) =
        IsDeserted-round (spin bincode spmc (suc fuel) rest) fuel (arrive s) (kept.0 s deserted) in
      let (s2, ends, up) = spin_deserted fuel rest kept.1 s' deserted' in
      (s2, ap (turn (suc fuel) arrive rest s) deserted.3 ∙ runs ∙ ends, up)

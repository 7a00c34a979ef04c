-- ===== src/Server/Shutdown.antt =====
-- How the object of src/server/mod.rs shuts down.
use game_network.Prelude.{◌≡◌, refl, true, Bool-cases, inl, inr, Run, done, panic, timeout}
use game_network.Std.{Result, ok, err}
use game_network.Msg.{ApplicationError}
use game_network.Server.Bidir.{BidirMap}
use game_network.Server.LowLatency
use game_network.Server.Reliable
use game_network.Server.{
  Channels, Server, Method, guarded, answered, send_low_latency, send_reliable,
}

module _ (bidir : BidirMap) (channels : Channels) where
  -- An error leaves the object shut down.
  abbrev pub DownOnError : Run (Result (Unit {0}) ApplicationError × Server bidir channels) → Type 0
  DownOnError (done (ok _, s)) = Unit {0}
  DownOnError (done (err e, s)) = s.shutdown ≡ true
  DownOnError panic = ⊥
  DownOnError timeout = ⊥

  abbrev pub Latches : Method bidir channels (Unit {0}) → Type 0
  Latches m = (s : Server bidir channels) → DownOnError (m s)

  -- When the object is shut down the method reports it and does nothing.
  abbrev pub Absorbs : Method bidir channels (Unit {0}) → Type 0
  Absorbs m =
      (s : Server bidir channels)
      → s.shutdown ≡ true
      → m s ≡ done (err ApplicationError.shutdown, s)

  guarded-Latches :
      (m : Method bidir channels (Unit {0})) → Latches m → Latches (guarded bidir channels m)
  unfolding guarded
  guarded-Latches m latches s = elim (Bool-cases s.shutdown) [
    | inl down ↦ simp down refl
    | inr up ↦ simp up (latches s)
  ]

  answered-Latches :
      {M : Type 0} (answer : Result (Unit {0}) M) → Latches (answered bidir channels answer)
  unfolding answered
  answered-Latches (ok _) s = tt
  answered-Latches (err m) s = refl

  guarded-Absorbs : (m : Method bidir channels (Unit {0})) → Absorbs (guarded bidir channels m)
  unfolding guarded
  guarded-Absorbs m s down = simp down

  -- Both sending methods of the server's object always return; when one answers with an error the
  -- object is shut down, and when the object is shut down it answers with the shutdown and changes
  -- nothing.
  pub sends_shut_down :
      (ll : LowLatency.ApplicationMessage) (re : Reliable.ApplicationMessage)
      → (Latches (send_low_latency bidir channels ll)
          × Absorbs (send_low_latency bidir channels ll))
        × (Latches (send_reliable bidir channels re) × Absorbs (send_reliable bidir channels re))
  unfolding send_low_latency send_reliable
  sends_shut_down ll re = (
    (guarded-Latches _ (λ s. answered-Latches _ _), guarded-Absorbs _),
    (guarded-Latches _ (λ s. answered-Latches _ _), guarded-Absorbs _),
  )

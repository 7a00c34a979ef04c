-- ===== src/Client/Shutdown.antt =====
-- How the object of src/client/mod.rs shuts down.
use Prim.Native.String.{String}
use game_network.Prelude.{
  ℕ, ◌≡◌, refl, true, Bool-cases, Run-cases, inl, inr, List, Option, none, some, Run, done, panic,
  timeout,
}
use game_network.Std.{Result, ok, err, send}
use game_network.BitVec.{BitVec}
use game_network.Msg.{ApplicationError}
use game_network.Util.{drain_mpsc_receiver}
use game_network.Client.{
  Client, Method, guarded, send_controller_input, send_chat_message, give_world_state,
  take_world_state, take_chat_history,
}

-- An error leaves the object shut down.
abbrev pub DownOnError : {A : Type 0} → Run (Result A ApplicationError × Client) → Type 0
DownOnError (done (ok a, s)) = Unit {0}
DownOnError (done (err e, s)) = s.shutdown ≡ true
DownOnError panic = Unit {0}
DownOnError timeout = Unit {0}

abbrev pub Latches : {A : Type 0} → Method A → Type 0
Latches m = (s : Client) → DownOnError (m s)

-- When the object is shut down the method reports it and does nothing.
abbrev pub Absorbs : {A : Type 0} → Method A → Type 0
Absorbs m = (s : Client) → s.shutdown ≡ true → m s ≡ done (err ApplicationError.shutdown, s)

module _ {A : Type 0} (m : Method A) where
  guarded-Latches : Latches m → Latches (guarded m)
  unfolding guarded
  guarded-Latches latches s = elim (Bool-cases s.shutdown) [
    | inl down ↦ simp down refl
    | inr up ↦ simp up (latches s)
  ]

  guarded-Absorbs : Absorbs (guarded m)
  unfolding guarded
  guarded-Absorbs s down = simp down

send_controller_input-Latches : (b : BitVec) → Latches (send_controller_input b)
unfolding send_controller_input send
send_controller_input-Latches b = guarded-Latches _ λ s.
    elim (Bool-cases s.to_low_latency_servicer.receiver_alive) [
      | inl alive ↦ simp alive tt
      | inr gone ↦ simp gone refl
    ]

send_chat_message-Latches : (msg : String) → Latches (send_chat_message msg)
unfolding send_chat_message send
send_chat_message-Latches msg = guarded-Latches _ λ s.
    elim (Bool-cases s.to_reliable_servicer.receiver_alive) [
      | inl alive ↦ simp alive tt
      | inr gone ↦ simp gone refl
    ]

give_world_state-Latches : (w : Option (List ℕ)) → Latches (give_world_state w)
unfolding give_world_state
give_world_state-Latches (some w) s = tt
give_world_state-Latches none s = tt

take_world_state-Latches : (rounds_left : ℕ) → Latches (take_world_state rounds_left)
unfolding take_world_state
take_world_state-Latches rounds_left = guarded-Latches _ λ s.
    elim (Run-cases (drain_mpsc_receiver rounds_left s.from_low_latency_servicer)) [
      | inl ((ok msgs, r), e) ↦ rw e (give_world_state-Latches _ _)
      | inl ((err d, r), e) ↦ rw e refl
      | inr (inl e) ↦ rw e tt
      | inr (inr e) ↦ rw e tt
    ]

take_chat_history-Latches : (rounds_left : ℕ) → Latches (take_chat_history rounds_left)
unfolding take_chat_history
take_chat_history-Latches rounds_left = guarded-Latches _ λ s.
    elim (Run-cases (drain_mpsc_receiver rounds_left s.from_reliable_servicer)) [
      | inl ((ok msgs, r), e) ↦ rw e tt
      | inl ((err d, r), e) ↦ rw e refl
      | inr (inl e) ↦ rw e tt
      | inr (inr e) ↦ rw e tt
    ]

-- For each of the four methods of the client's object: when it answers with an error the object is
-- shut down, and when the object is shut down it answers with the shutdown and changes nothing.
pub methods_shut_down :
    (b : BitVec) (msg : String) (rounds_left : ℕ)
    → (Latches (send_controller_input b) × Absorbs (send_controller_input b))
      × (Latches (send_chat_message msg) × Absorbs (send_chat_message msg))
      × (Latches (take_world_state rounds_left) × Absorbs (take_world_state rounds_left))
      × (Latches (take_chat_history rounds_left) × Absorbs (take_chat_history rounds_left))
unfolding send_controller_input send_chat_message take_world_state take_chat_history
methods_shut_down b msg rounds_left = (
  (send_controller_input-Latches b, guarded-Absorbs _),
  (send_chat_message-Latches msg, guarded-Absorbs _),
  (take_world_state-Latches rounds_left, guarded-Absorbs _),
  (take_chat_history-Latches rounds_left, guarded-Absorbs _),
)

-- ===== src/Client/Inputs.antt =====
-- The way of controller states from the game to src/client/low_latency.rs.
use game_network.Prelude.{
  ◌≡◌, refl, ap, sym, ◌∙◌, true, false, List, [], ◌∷◌, ◌++◌, append_assoc, append-nil, done,
}
use game_network.Std.{ok, send}
use game_network.Exec.{pure, ◌>>◌}
use game_network.BitVec.{BitVec}
use game_network.Client.LowLatency
use game_network.Client.LowLatency.{control}
use game_network.Client.LowLatency.Messages.{states}
use game_network.Client.{Client, Method, send_controller_input}

abbrev pub send_each : List BitVec → Method (Unit {0})
send_each [] = pure tt
send_each (b ∷ bs) = send_controller_input b >> send_each bs

abbrev pub controls : List BitVec → List LowLatency.ApplicationMessage
controls [] = []
controls (b ∷ bs) = control b ∷ controls bs

pub states_of_controls : (inputs : List BitVec) → states (controls inputs) ≡ inputs
states_of_controls [] = refl
states_of_controls (b ∷ bs) = ap (λ t. b ∷ t) (states_of_controls bs)

abbrev pub IsUp : Client → Type 0
IsUp s = (s.shutdown ≡ false) × (s.to_low_latency_servicer.receiver_alive ≡ true)

-- The object with more messages sent to the low-latency servicer.
abbrev pub sent_on : List LowLatency.ApplicationMessage → Client → Client
sent_on sent s = record s {
  to_low_latency_servicer = record s.to_low_latency_servicer { sent = sent };
}

send_controller_input_lem :
    (b : BitVec) (s : Client)
    → IsUp s
    → send_controller_input b s
      ≡ done (ok tt, sent_on (s.to_low_latency_servicer.sent ++ control b ∷ []) s)
unfolding send_controller_input send
send_controller_input_lem b s (up, alive) = simp (up, alive)

-- An object that is up sends all states to a living low-latency servicer.
pub send_each_lem :
    (inputs : List BitVec) (s : Client)
    → IsUp s
    → send_each inputs s
      ≡ done (ok tt, sent_on (s.to_low_latency_servicer.sent ++ controls inputs) s)
send_each_lem [] s up =
    ap (λ t. done (ok tt, sent_on t s)) (sym (append-nil s.to_low_latency_servicer.sent))
send_each_lem (b ∷ bs) s up = simp (send_controller_input_lem b s up) (
    send_each_lem bs (sent_on (s.to_low_latency_servicer.sent ++ control b ∷ []) s) up
    ∙ ap (λ t. done (ok tt, sent_on t s))
        (append_assoc s.to_low_latency_servicer.sent (control b ∷ []) (controls bs)))

-- The low-latency servicer with what the object has sent in its queue.
abbrev pub supplied : Client → LowLatency.Servicer → LowLatency.Servicer
supplied s servicer = record servicer {
  from_application = record { queue = s.to_low_latency_servicer.sent; sender_alive = true };
}

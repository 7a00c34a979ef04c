-- ===== src/Client/Quit.antt =====
-- What `quit` of src/client/mod.rs does to the low-latency servicer.
use game_network.Prelude.{◌≡◌, ap, false, List, [], ◌∷◌, done, Build}
use game_network.Msg.{Bincode}
use game_network.Client.{quit}
use game_network.Client.Reliable
use game_network.Client.LowLatency.{Servicer, spin}
use game_network.Client.LowLatency.Quiet.{gone_stops}

-- The servicer with the channel ends that `quit` leaves it.
abbrev pub abandoned : Reliable.Servicer → Servicer → Servicer
abandoned re ll = record ll {
  to_application = (quit re ll).low_latency.0;
  from_application = (quit re ll).low_latency.1;
}

-- After `quit` of the client's object, when no datagram arrives before the next round and nobody
-- else changes the servicer's receiving end, the loop of the low-latency servicer ends with that
-- round, whatever comes after it.
pub quit_stops :
    (build : Build) (bincode : Bincode) (re : Reliable.Servicer) (ll : Servicer)
    (arrive : Servicer → Servicer) (rest : List (Servicer → Servicer))
    → (arrive (abandoned re ll)).udp_socket.inbox ≡ []
    → (arrive (abandoned re ll)).from_application ≡ (abandoned re ll).from_application
    → (s' : Servicer) × (spin build bincode (arrive ∷ rest) (abandoned re ll) ≡ done (false, s'))
unfolding quit
quit_stops build bincode re ll arrive rest quiet same =
    gone_stops build bincode arrive rest (abandoned re ll) quiet (ap (λ r. r.sender_alive) same)

-- ===== src/Server/Listener/UnitTests.antt =====
-- The tests in src/server/reliable.rs of `listen`, with threads that do nothing. What the listener sees
-- before it reads that the flag is off, and then, is an argument: the tests only wait for it.
use game_network.Prelude.{
  ◌≡◌, refl, sym, append_assoc, All-append, Bool, true, false, List, [], ◌∷◌, ◌++◌, Run, done,
  assert, ◌>>=◌, All,
}
use game_network.Std.{Result, ok, err, IoError}
use game_network.Std.Tcp.{TcpStream}
use game_network.Server.Listener.{listen}
use game_network.Server.Listener.Accepts.{accepted, stream_of, Ends, listen_lem}

abbrev is_ok : {A E : Type 0} → Result A E → Bool
is_ok (ok a) = true
is_ok (err e) = false

-- `|_| std::thread::spawn(|| {})`
abbrev idle_thread : TcpStream → Run (Unit {0})
idle_thread stream = done tt

-- Nobody connects: every `accept` fails.
abbrev refusals : List IoError → List (Result TcpStream IoError × Bool)
refusals [] = []
refusals (e ∷ es) = (err e, true) ∷ refusals es

module _ (waits : List IoError) (last : IoError) where
  listener_start_stop : Run (Unit {0})
  listener_start_stop = do
    joined ← listen idle_thread (ok tt) (refusals waits ++ (err last, false) ∷ [])
    assert (is_ok joined)

  -- The connection comes after some waits, and more may follow before the flag is off.
  listener_connect_nonblocking : TcpStream → List IoError → Run (Unit {0})
  listener_connect_nonblocking tcp_stream more = do
    joined ←
        listen idle_thread (ok tt)
          (refusals waits ++ (ok tcp_stream, true) ∷ (refusals more ++ (err last, false) ∷ []))
    assert (is_ok joined)

idle-Ends : (streams : List TcpStream) → All (Ends idle_thread) streams
idle-Ends [] = tt
idle-Ends (stream ∷ rest) = ((tt, refl), idle-Ends rest)

refusals-run : (es : List IoError) → All (λ c. c.1 ≡ true) (refusals es)
refusals-run [] = tt
refusals-run (e ∷ es) = (refl, refusals-run es)

-- The tests pass however long they wait.
listener_start_stop_passes :
    (waits : List IoError) (last : IoError) → listener_start_stop waits last ≡ done tt
unfolding listener_start_stop
listener_start_stop_passes waits last =
    rw
      (listen_lem idle_thread (refusals waits) (err last) [] (refusals-run waits)
        (idle-Ends (accepted (refusals waits) ++ stream_of (err last))))
      refl

listener_connect_nonblocking_passes :
    (waits more : List IoError) (last : IoError) (tcp_stream : TcpStream)
    → listener_connect_nonblocking waits last tcp_stream more ≡ done tt
unfolding listener_connect_nonblocking
listener_connect_nonblocking_passes waits more last tcp_stream =
    let before = refusals waits ++ (ok tcp_stream, true) ∷ refusals more in
    rw
      (
        sym (
            append_assoc (refusals waits) ((ok tcp_stream, true) ∷ refusals more)
              ((err last, false) ∷ [])),
        listen_lem idle_thread before (err last) []
            (All-append (λ c. c.1 ≡ true) (refusals waits) ((ok tcp_stream, true) ∷ refusals more)
              (refusals-run waits) (refl, refusals-run more))
            (idle-Ends (accepted before ++ stream_of (err last))),
      )
      refl

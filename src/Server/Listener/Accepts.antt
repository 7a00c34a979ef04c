-- ===== src/Server/Listener/Accepts.antt =====
-- Which connections `listen` of src/server/reliable.rs gives to threads.
use game_network.Prelude.{
  Run, ◌≡◌, refl, ap, sym, ◌∙◌, Bool, true, false, List, [], ◌∷◌, ◌++◌, append_assoc, append-nil,
  done, All,
}
use game_network.Std.{Result, ok, err, IoError}
use game_network.Std.Tcp.{TcpStream}
use game_network.Server.Listener.{listen_loop, join_all, join_each, listen}

abbrev Connections : Type 0
Connections = List (Result TcpStream IoError × Bool)

abbrev pub stream_of : Result TcpStream IoError → List TcpStream
stream_of (ok stream) = stream ∷ []
stream_of (err e) = []

-- The streams of the connections that came about.
abbrev pub accepted : List (Result TcpStream IoError × Bool) → List TcpStream
accepted [] = []
accepted ((connection, running) ∷ rest) = stream_of connection ++ accepted rest

listen_loop_lem :
    (before : Connections) (last : Result TcpStream IoError) (after : Connections)
    (threads : List TcpStream)
    → All (λ c. c.1 ≡ true) before
    → listen_loop (before ++ (last, false) ∷ after) threads
      ≡ done (threads ++ (accepted before ++ stream_of last))
unfolding listen_loop
listen_loop_lem [] (ok stream) after threads running = refl
listen_loop_lem [] (err e) after threads running = ap done (sym (append-nil threads))
listen_loop_lem ((ok stream, true) ∷ before) last after threads running =
    listen_loop_lem before last after (threads ++ stream ∷ []) running.1
    ∙ ap done (append_assoc threads (stream ∷ []) (accepted before ++ stream_of last))
listen_loop_lem ((err e, true) ∷ before) last after threads running =
    listen_loop_lem before last after threads running.1
listen_loop_lem ((c, false) ∷ before) last after threads running = cc

module _ {T : Type 0} (fun : TcpStream → Run T) where
  -- The thread for a stream ends, without a panic.
  abbrev pub Ends : TcpStream → Type 0
  Ends stream = (t : T) × (fun stream ≡ done t)

  join_all_lem : (threads : List TcpStream) → All Ends threads → join_all fun threads ≡ done tt
  unfolding join_all
  join_all_lem [] all = refl
  join_all_lem (stream ∷ rest) all =
      let (t, ends) = all.0 in rw (join_all, ends) (join_all_lem rest all.1)

  -- With threads that end, `listen` ends with the first connection behind which the flag is off, whatever
  -- comes later. It has started a thread for each connection up to then that came about, in order.
  pub listen_lem :
      (before : List (Result TcpStream IoError × Bool)) (last : Result TcpStream IoError)
      (after : List (Result TcpStream IoError × Bool))
      → All (λ c. c.1 ≡ true) before
      → All Ends (accepted before ++ stream_of last)
      → listen fun (ok tt) (before ++ (last, false) ∷ after)
        ≡ done (ok (accepted before ++ stream_of last))
  unfolding listen join_each
  listen_lem before last after running all = rw (
    listen_loop_lem before last after [] running,
    join_each,
    join_all_lem (accepted before ++ stream_of last) all,
  )

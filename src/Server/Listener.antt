-- ===== src/Server/Listener.antt =====
-- `listen` of src/server/reliable.rs: the loop that gives each TCP connection to a thread until the server
-- stops running. The pauses of the loop are left out.
pub mod Accepts
pub mod Threads
mod UnitTests
use game_network.Prelude.{Bool, true, false, List, [], ◌∷◌, ◌++◌, Run, done, panic, timeout}
use game_network.Std.{Result, ok, err, IoError}
use game_network.Std.Tcp.{TcpStream}

-- The loop of `listen`: each connection with the flag as it is after it. The result has the streams that
-- were given to a thread, in order.
listen_loop : List (Result TcpStream IoError × Bool) → List TcpStream → Run (List TcpStream)
listen_loop [] servicer_threads = timeout
listen_loop ((ok stream, true) ∷ rest) servicer_threads =
    listen_loop rest (servicer_threads ++ stream ∷ [])
listen_loop ((ok stream, false) ∷ rest) servicer_threads = done (servicer_threads ++ stream ∷ [])
listen_loop ((err e, true) ∷ rest) servicer_threads = listen_loop rest servicer_threads
listen_loop ((err e, false) ∷ rest) servicer_threads = done servicer_threads

-- What the closure `fun` makes of a stream is the run of the thread that it starts.
module _ {T : Type 0} (fun : TcpStream → Run T) where
  -- `servicer_thread.join().unwrap()` for each thread: it waits for the thread, and panics when that did.
  join_all : List TcpStream → Run (Unit {0})
  join_all [] = done tt
  join_all (stream ∷ rest) = elim (fun stream) [
    | done _ ↦ join_all rest
    | panic ↦ panic
    | timeout ↦ timeout
  ]

  join_each : Run (List TcpStream) → Run (Result (List TcpStream) IoError)
  unfolding join_all
  join_each (done threads) = elim (join_all threads) [
    | done _ ↦ done (ok threads)
    | panic ↦ panic
    | timeout ↦ timeout
  ]
  join_each panic = panic
  join_each timeout = timeout

  -- The first argument is the answer of `set_nonblocking`.
  pub listen :
      Result (Unit {0}) IoError
      → List (Result TcpStream IoError × Bool)
      → Run (Result (List TcpStream) IoError)
  unfolding listen_loop join_each
  listen (err e) connections = done (err e)
  listen (ok _) connections = join_each (listen_loop connections [])

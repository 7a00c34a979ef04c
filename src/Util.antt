-- ===== src/Util.antt =====
-- src/util.rs: draining a channel, and one read of a UDP socket. `spmc` is a crate, so the end of its
-- channel is an interface.
pub mod Drain
pub mod Udp
mod Tests
mod UnitTests
use game_network.Prelude.{ℕ, zero, suc, List, [], ◌∷◌, ◌++◌, Option, none, some, Run, done, timeout}
use game_network.Std.{
  Result, ok, err, ErrorKind, IoError, would_block, timed_out, SocketAddr, UdpSocket, recv_from,
  resize, TryRecv, message, empty, disconnected, Receiver, try_recv,
}
use game_network.Msg.{Dropped, application_thread_disconnected, CommError, warning, Warning}

abbrev pub max_packet_size : ℕ
max_packet_size = 1500

-- The end of an `spmc` channel: its state and its `try_recv`.
pub record Spmc (M : Type 0) : Type 1 where
  pub State : Type 0
  pub try_recv : State → TryRecv M × State

-- The sending end of an `spmc` channel; `close` is its drop.
pub record SpmcSender (M : Type 0) : Type 1 where
  pub State : Type 0
  pub send : M → State → Result (Unit {0}) M × State
  pub close : State → State

-- The loop of `drain_spmc_receiver` and `drain_mpsc_receiver`, on fuel, over the `try_recv` of either.
module _ {M R : Type 0} (receive : R → TryRecv M × R) where
  -- The `match` on the answer; `again` is the next round.
  drain_match :
      (R → List M → Run (Result (List M) Dropped × R))
      → List M
      → TryRecv M × R
      → Run (Result (List M) Dropped × R)
  drain_match again msgs (message m, receiver) = again receiver (msgs ++ m ∷ [])
  drain_match again msgs (empty, receiver) = done (ok msgs, receiver)
  drain_match again msgs (disconnected, receiver) =
      done (err application_thread_disconnected, receiver)

  unfoldable pub drain_loop : ℕ → R → List M → Run (Result (List M) Dropped × R)
  unfolding drain_match
  drain_loop zero receiver msgs = timeout
  drain_loop (suc fuel) receiver msgs = drain_match (drain_loop fuel) msgs (receive receiver)

module _ {M : Type 0} where
  unfoldable pub drain_spmc_receiver :
      (spmc : Spmc M) → ℕ → spmc.State → Run (Result (List M) Dropped × spmc.State)
  unfolding drain_loop
  drain_spmc_receiver spmc fuel receiver = drain_loop spmc.try_recv fuel receiver []

  unfoldable pub drain_mpsc_receiver : ℕ → Receiver M → Run (Result (List M) Dropped × Receiver M)
  unfolding drain_loop
  drain_mpsc_receiver fuel receiver = drain_loop try_recv fuel receiver []

module _ {E : Type 0} where
  -- The inner `match` on the kind of a receive error; `quiet` is the answer to a mere timeout.
  unfoldable pub received_nothing : {A : Type 0} → A → ErrorKind → IoError → Result A (CommError E)
  received_nothing quiet would_block e = ok quiet
  received_nothing quiet timed_out e = ok quiet
  received_nothing quiet _ e = err (warning (Warning.io_failure e))

  unfoldable pub from_answer :
      Result (List ℕ × ℕ × SocketAddr) IoError → Result (Option (List ℕ × SocketAddr)) (CommError E)
  from_answer (ok (buf, size, src)) = ok (some (resize size buf, src))
  from_answer (err e) = received_nothing none e.kind e

  unfoldable pub maybe_receive_from_udp :
      UdpSocket → Result (Option (List ℕ × SocketAddr)) (CommError E) × UdpSocket
  unfolding from_answer received_nothing
  maybe_receive_from_udp socket =
      let (answer, socket') = recv_from max_packet_size socket in (from_answer answer, socket')

  -- `recv` on a connected socket: the answer without the source.
  unfoldable pub bytes_of : Result (List ℕ × ℕ × SocketAddr) IoError → Result (List ℕ) (CommError E)
  bytes_of (ok (buf, size, src)) = ok (resize size buf)
  bytes_of (err e) = received_nothing [] e.kind e

  unfoldable pub maybe_receive_udp : UdpSocket → Result (List ℕ) (CommError E) × UdpSocket
  unfolding bytes_of received_nothing
  maybe_receive_udp socket =
      let (answer, socket') = recv_from max_packet_size socket in (bytes_of answer, socket')

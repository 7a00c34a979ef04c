-- ===== src/Util/UnitTests.antt =====
-- The tests in src/util.rs, statement by statement.
use game_network.Prelude.{
  arith, ℕ, ◌≡◌, refl, ◌==◌, ◌&&◌, Bool, true, false, Option, none, some, List, [], ◌∷◌, length,
  get_elem?, map, Run, done, panic, assert, unwrap, ◌>>=◌, ◌>>◌,
}
use game_network.Std.{
  eq_bytes, Result, ok, err, SocketAddr, eq_addr, eq_host, UdpSocket, datagram, resize, arrive,
  recv_from, send_to, Sender, Receiver, send, try_recv,
}
use game_network.Util.Drain.{IsQueue, drain_spmc_receiver_lem}
use game_network.Util.{
  Spmc, SpmcSender, drain_spmc_receiver, drain_mpsc_receiver, drain_loop, maybe_receive_from_udp,
  from_answer, maybe_receive_udp, bytes_of, received_nothing,
}
use game_network.Samples.{address}

-- `unwrap` and `expect` on a `Result`
abbrev expect : {A E : Type 0} → Result A E → Run A
expect (ok a) = done a
expect (err e) = panic

abbrev is_err : {A E : Type 0} → Result A E → Bool
is_err (ok a) = false
is_err (err e) = true

-- The two ends of a new `mpsc` channel; the receiver has queued what was sent.
abbrev new_sender : Sender Bool
new_sender = record { sent = []; receiver_alive = true }

abbrev receiver_of : Bool → Sender Bool → Receiver Bool
receiver_of alive to = record { queue = to.sent; sender_alive = alive }

drain_mpsc_receiver_empty : Run (Unit {0})
drain_mpsc_receiver_empty = do
  (drained, from) ← drain_mpsc_receiver 2 (receiver_of true new_sender)
  msgs ← expect drained
  assert (0 == length msgs)

drain_mpsc_receiver_nonempty : Run (Unit {0})
drain_mpsc_receiver_nonempty =
    let (answer, to) = send true new_sender in
    (do
      expect answer
      (drained, from) ← drain_mpsc_receiver 2 (receiver_of true to)
      msgs ← expect drained
      assert (1 == length msgs)
      first ← unwrap (get_elem? msgs 0)
      assert first)

drain_mpsc_receiver_disconnected : Run (Unit {0})
drain_mpsc_receiver_disconnected =
    let (answer, to) = send true new_sender in
    (do
      expect answer
      (drained, from) ← drain_mpsc_receiver 2 (receiver_of false to)
      assert (is_err drained))

-- The channels of the crate `spmc`: its sending end, and the receiving end as the test finds it.
module _ (to_spmc : SpmcSender Bool) (spmc : Spmc Bool) (to : to_spmc.State)
    (from : spmc.State) where
  drain_receiver_empty : Run (Unit {0})
  drain_receiver_empty = do
    (drained, from') ← drain_spmc_receiver spmc 2 from
    msgs ← expect drained
    assert (0 == length msgs)

  drain_receiver_nonempty : Run (Unit {0})
  drain_receiver_nonempty = do
    expect (to_spmc.send true to).0
    (drained, from') ← drain_spmc_receiver spmc 2 from
    msgs ← expect drained
    assert (1 == length msgs)
    first ← unwrap (get_elem? msgs 0)
    assert first

  drain_receiver_disconnected : Run (Unit {0})
  drain_receiver_disconnected = do
    expect (to_spmc.send true to).0
    (drained, from') ← drain_spmc_receiver spmc 2 from
    assert (is_err drained)

  -- The tests pass with a queue that holds what was sent, and a send that works.
  module _ (q : IsQueue spmc.try_recv) where
    empty_passes : q.pending from ≡ [] → q.alive from ≡ true → drain_receiver_empty ≡ done tt
    unfolding drain_receiver_empty
    empty_passes queued alive =
        let (r, runs, _) = drain_spmc_receiver_lem spmc q 2 from (rw queued (omega arith)) in
        rw (runs, alive, queued)

    nonempty_passes :
        (to_spmc.send true to).0 ≡ ok tt
        → q.pending from ≡ true ∷ []
        → q.alive from ≡ true
        → drain_receiver_nonempty ≡ done tt
    unfolding drain_receiver_nonempty
    nonempty_passes sent queued alive =
        let (r, runs, _) = drain_spmc_receiver_lem spmc q 2 from (rw queued (omega arith)) in
        rw (sent, runs, alive, queued)

    disconnected_passes :
        (to_spmc.send true to).0 ≡ ok tt
        → q.pending from ≡ true ∷ []
        → q.alive from ≡ false
        → drain_receiver_disconnected ≡ done tt
    unfolding drain_receiver_disconnected
    disconnected_passes sent queued gone =
        let (r, runs, _) = drain_spmc_receiver_lem spmc q 2 from (rw queued (omega arith)) in
        rw (sent, runs, gone)

abbrev bound : UdpSocket
bound = record { inbox = []; outbox = []; send_faults = [] }

-- What a socket has sent arrives at the other.
abbrev delivered : SocketAddr → UdpSocket → UdpSocket
delivered src sender = record bound { inbox = map (λ p. datagram p.0 src) sender.outbox }

abbrev eq_received : Option (List ℕ × SocketAddr) → Option (List ℕ × SocketAddr) → Bool
eq_received none none = true
eq_received none (some q) = false
eq_received (some p) none = false
eq_received (some (bs, a)) (some (cs, b)) = eq_bytes bs cs && eq_addr a b

abbrev buf : List ℕ
buf = 0 ∷ 1 ∷ 2 ∷ 3 ∷ 4 ∷ []

maybe_receive_from_no_data_test : Run (Unit {0})
maybe_receive_from_no_data_test = do
  actual ← expect (maybe_receive_from_udp {E = ℕ} bound).0
  assert (eq_received none actual)

maybe_receive_no_data_test : Run (Unit {0})
maybe_receive_no_data_test = do
  actual ← expect (maybe_receive_udp {E = ℕ} bound).0
  assert (eq_bytes [] actual)

-- The addresses of the two sockets, of which the system chooses the ports.
module _ (socket_a socket_b : SocketAddr) where
  maybe_receive_from_udp_test : Run (Unit {0})
  maybe_receive_from_udp_test =
      let (answer, sender) = send_to buf socket_a bound in
      (do
        expect answer
        actual ← expect (maybe_receive_from_udp {E = ℕ} (delivered socket_b sender)).0
        assert (eq_received (some (buf, socket_b)) actual))

  maybe_receive_udp_test : Run (Unit {0})
  maybe_receive_udp_test =
      let (answer, sender) = send_to buf socket_a bound in
      (do
        expect answer
        actual ← expect (maybe_receive_udp {E = ℕ} (delivered socket_b sender)).0
        assert (eq_bytes buf actual))

drains_pass :
    (drain_mpsc_receiver_empty ≡ done tt)
    × (drain_mpsc_receiver_nonempty ≡ done tt)
    × (drain_mpsc_receiver_disconnected ≡ done tt)
unfolding drain_mpsc_receiver_empty drain_mpsc_receiver_nonempty drain_mpsc_receiver_disconnected
    send drain_mpsc_receiver drain_loop try_recv
drains_pass = (refl, refl, refl)

reads_pass :
    (maybe_receive_from_no_data_test ≡ done tt)
    × (maybe_receive_no_data_test ≡ done tt)
    × (maybe_receive_from_udp_test (address 1) (address 2) ≡ done tt)
    × (maybe_receive_udp_test (address 1) (address 2) ≡ done tt)
unfolding maybe_receive_from_no_data_test maybe_receive_no_data_test maybe_receive_from_udp_test
    maybe_receive_udp_test send_to maybe_receive_from_udp maybe_receive_udp from_answer bytes_of
    received_nothing recv_from arrive resize eq_addr eq_host
reads_pass = (refl, refl, refl, refl)

-- ===== src/Util/Udp.antt =====
-- What `maybe_receive_from_udp` and `maybe_receive_udp` of src/util.rs return.
use game_network.Prelude.{
  All-append, All, ◌∙◌, ℕ, zero, suc, ◌-◌, ◌≡◌, refl, ap, List, [], ◌∷◌, ◌++◌, length, take, Option,
  none, some, Bool, true, false, if◌then◌else◌, drop,
}
use game_network.Std.{
  send_to, arrive, Result, ok, err, ErrorKind, IoError, would_block, timed_out, SocketAddr,
  UdpSocket, Arrival, datagram, failure, recv_from, resize, replicate,
}
use game_network.Msg.{CommError, warning, Warning}
use game_network.Util.{
  max_packet_size, from_answer, received_nothing, bytes_of, maybe_receive_from_udp,
  maybe_receive_udp,
}

-- Padding a buffer and cutting it back to the bytes received leaves those bytes.
take-length-take :
    (n : ℕ) (bytes zeros more : List ℕ)
    → take (length (take n bytes)) (take n (bytes ++ zeros) ++ more) ≡ take n bytes
take-length-take zero bytes zeros more = refl
take-length-take (suc n) [] zeros more = refl
take-length-take (suc n) (b ∷ bytes) zeros more =
    ap (λ t. b ∷ t) (take-length-take n bytes zeros more)

resize_received :
    (n : ℕ) (bytes : List ℕ)
    → resize (length (take n bytes)) (take n (bytes ++ replicate (n - length bytes) 0))
      ≡ take n bytes
unfolding resize
resize_received n bytes = take-length-take n bytes (replicate (n - length bytes) 0) _

-- What `maybe_receive_from_udp` is to return.
abbrev pub Received : Type 0 → Type 0
Received E = Result (Option (List ℕ × SocketAddr)) (CommError E)

-- Whether an error only says that nothing was there to receive.
abbrev pub is_quiet : ErrorKind → Bool
is_quiet would_block = true
is_quiet timed_out = true
is_quiet _ = false

module _ {E : Type 0} where
  -- The answer to the next arrival: at most a packet's bytes of a datagram, nothing where nothing
  -- arrives, and a warning for an error.
  abbrev pub expected : List Arrival → Received E
  expected [] = ok none
  expected (datagram bytes src ∷ rest) = ok (some (take max_packet_size bytes, src))
  expected (failure e ∷ rest) =
      if is_quiet e.kind then ok none else err (warning (Warning.io_failure e))

  -- The answer without the source, where no bytes stand for no datagram.
  abbrev pub without_source : Received E → Result (List ℕ) (CommError E)
  without_source (ok none) = ok []
  without_source (ok (some (bytes, src))) = ok bytes
  without_source (err e) = err e

  on_failure :
      {A : Type 0} (quiet : A) (kind : ErrorKind) (e : IoError)
      → received_nothing {E = E} quiet kind e
        ≡ (if is_quiet kind then ok quiet else err (warning (Warning.io_failure e)))
  unfolding received_nothing
  on_failure quiet would_block e = refl
  on_failure quiet _ e = refl

  on_arrival :
      (inbox : List Arrival)
      → let (answer, rest) = arrive max_packet_size inbox in
        (from_answer {E = E} answer ≡ expected inbox) × (rest ≡ drop 1 inbox)
  unfolding arrive from_answer
  on_arrival [] = (on_failure none would_block _, refl)
  on_arrival (datagram bytes src ∷ rest) =
      (ap (λ t. ok (some (t, src))) (resize_received max_packet_size bytes), refl)
  on_arrival (failure e ∷ rest) = (on_failure none e.kind e, refl)

  -- `maybe_receive_from_udp` takes the next arrival off the socket and changes nothing else. It
  -- returns the first 1500 bytes of a datagram with its source, `None` if nothing arrives or the
  -- receive times out or would block, and a warning for any other error.
  pub maybe_receive_from_udp_lem :
      (s : UdpSocket)
      → maybe_receive_from_udp {E = E} s ≡ (expected s.inbox, record s { inbox = drop 1 s.inbox })
  unfolding maybe_receive_from_udp recv_from
  maybe_receive_from_udp_lem s =
      let (answer, rest) = on_arrival s.inbox in λ i. (answer i, record s { inbox = rest i })

  quiet_without_source :
      (kind : ErrorKind) (e : IoError)
      → received_nothing {E = E} [] kind e ≡ without_source (received_nothing none kind e)
  unfolding received_nothing
  quiet_without_source would_block e = refl
  quiet_without_source _ e = refl

  on_answer :
      (a : Result (List ℕ × ℕ × SocketAddr) IoError)
      → bytes_of {E = E} a ≡ without_source (from_answer a)
  unfolding bytes_of from_answer
  on_answer (ok (buf, size, src)) = refl
  on_answer (err e) = quiet_without_source e.kind e

  -- `maybe_receive_udp` returns what `maybe_receive_from_udp` does, less the source, and leaves the
  -- same socket; an empty datagram and no datagram are the same to it.
  pub maybe_receive_udp_lem :
      (s : UdpSocket)
      → let (r, s') = maybe_receive_from_udp {E = E} s in
        maybe_receive_udp s ≡ (without_source r, s')
  unfolding maybe_receive_udp maybe_receive_from_udp
  maybe_receive_udp_lem s =
      let (answer, s') = recv_from max_packet_size s in λ i. (on_answer answer i, s')

-- A send adds at most its own datagram to what was sent.
pub send_to-All :
    (Q : List ℕ × SocketAddr → Type 0) (bytes : List ℕ) (address : SocketAddr) (s : UdpSocket)
    → All Q s.outbox
    → Q (bytes, address)
    → All Q (send_to bytes address s).1.outbox
unfolding send_to
send_to-All Q bytes address s h new = by_faults s.send_faults refl
  where
    by_faults :
        (faults : List (Option IoError))
        → s.send_faults ≡ faults
        → All Q (send_to bytes address s).1.outbox
    by_faults [] e = rw e (All-append Q s.outbox ((bytes, address) ∷ []) h (new, tt))
    by_faults (none ∷ rest) e = rw e (All-append Q s.outbox ((bytes, address) ∷ []) h (new, tt))
    by_faults (some x ∷ rest) e = rw e h

-- A read sends nothing.
pub outbox_received :
    (E : Type 0) (s : UdpSocket) → (maybe_receive_udp {E = E} s).1.outbox ≡ s.outbox
outbox_received E s =
    ap (λ (p : Result (List ℕ) (CommError E) × UdpSocket). p.1.outbox)
      (maybe_receive_udp_lem {E = E} s)
    ∙ ap (λ (p : Received E × UdpSocket). p.1.outbox) (maybe_receive_from_udp_lem {E = E} s)

-- A send leaves what is to be received.
pub inbox_sent :
    (bytes : List ℕ) (address : SocketAddr) (s : UdpSocket)
    → (send_to bytes address s).1.inbox ≡ s.inbox
unfolding send_to
inbox_sent bytes address s = by_faults s.send_faults refl
  where
    by_faults :
        (faults : List (Option IoError))
        → s.send_faults ≡ faults
        → (send_to bytes address s).1.inbox ≡ s.inbox
    by_faults [] e = rw e refl
    by_faults (none ∷ rest) e = rw e refl
    by_faults (some x ∷ rest) e = rw e refl

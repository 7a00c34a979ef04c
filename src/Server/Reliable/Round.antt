-- ===== src/Server/Reliable/Round.antt =====
-- What a round of the servicer of src/server/reliable.rs changes. It reads the client's messages into a new vector, which has no places.
use game_network.Prelude.{
  ℕ, ◌≡◌, ◌<◌, refl, ◌∙◌, true, false, Bool-cases, inl, inr, List, [], ◌∷◌, Run, done, length,
}
use game_network.Std.{Result, Result-cases, ok, err}
use game_network.Std.Tcp.{TcpStream, Segment, write_all}
use game_network.Std.Tcp.Laws.{read_none}
use game_network.Msg.{
  ReliableServerMessage, CommError, warning, dropped, failed_to_serialize, failed_to_deserialize,
  application_thread_disconnected, from, Bincode, IsLawful, eq_user,
}
use game_network.Exec.{◌>>=◌, ◌>>◌}
use game_network.Util.{Spmc}
use game_network.Util.Drain.{IsQueue, drain_spmc_receiver_lem}
use game_network.Server.Reliable.{
  ToClient, ApplicationMessage, to_client, Servicer, send_message, write_failure, forward,
  forward_all, receive, process, spin_once,
}

module _ (bincode : Bincode) (spmc : Spmc ApplicationMessage) where
  -- The answer of a method that changes at most the stream.
  abbrev OnStream :
      Servicer spmc → Run (Result (Unit {0}) (CommError bincode.Error) × Servicer spmc) → Type 0
  OnStream s r =
      (a : Result (Unit {0}) (CommError bincode.Error)) × (t : TcpStream) × (r
        ≡ done (a, record s { tcp_stream = t }))

  send_message_lem :
      (m : ReliableServerMessage) (s : Servicer spmc) → OnStream s (send_message bincode spmc m s)
  unfolding send_message
  send_message_lem m s = elim (Result-cases (bincode.reliable_server.serialize m)) [
    | inl (encoded, e) ↦
        let (answer, t) = write_all encoded s.tcp_stream in
        let a : Result (Unit {0}) (CommError bincode.Error) = elim answer [
          | ok _ ↦ ok tt
          | err x ↦ write_failure bincode spmc (from x)
        ] in
        (a, t, rw e)
    | inr (x, e) ↦ (err (warning (failed_to_serialize x)), s.tcp_stream, rw e)
  ]

  forward_lem : (m : ToClient) (s : Servicer spmc) → OnStream s (forward bincode spmc m s)
  unfolding forward
  forward_lem m s = elim (Bool-cases (eq_user m.to s.user)) [
    | inl e ↦ rw e (send_message_lem m.payload s)
    | inr e ↦ (ok tt, s.tcp_stream, rw e)
  ]

  forward_all_lem :
      (msgs : List ApplicationMessage) (s : Servicer spmc)
      → OnStream s (forward_all bincode spmc msgs s)
  unfolding forward_all
  forward_all_lem [] s = (ok tt, s.tcp_stream, refl)
  forward_all_lem (to_client m ∷ msgs) s = next (forward_lem m s) (forward_all_lem msgs)
    where
      next :
          OnStream s (forward bincode spmc m s)
          → ((s' : Servicer spmc) → OnStream s' (forward_all bincode spmc msgs s'))
          → OnStream s (forward_all bincode spmc (to_client m ∷ msgs) s)
      next (ok _, t, e) ih = let (a, t', e') = ih (record s { tcp_stream = t }) in (a, t', rw e e')
      next (err x, t, e) ih = (err x, t, rw e)

  module _ (lawful : IsLawful bincode.reliable_client) where
    -- No bytes are no message of the client.
    process_nothing :
        (e : CommError bincode.Error) × ((s : Servicer spmc)
          → process bincode spmc [] s ≡ done (err e, s))
    unfolding process
    process_nothing =
        let (e, none_read) = lawful.no_bytes in
        (warning (failed_to_deserialize e), λ s. rw none_read)

    abbrev Fails :
        Servicer spmc → Run (Result (Unit {0}) (CommError bincode.Error) × Servicer spmc) → Type 0
    Fails s r =
        (e : CommError bincode.Error) × (t : TcpStream) × (r
          ≡ done (err e, record s { tcp_stream = t }))

    pub read_and_process :
        Servicer spmc → Run (Result (Unit {0}) (CommError bincode.Error) × Servicer spmc)
    read_and_process = do buf ← receive bincode spmc; process bincode spmc buf

    -- The read fails or reads nothing, which is no message.
    pub read_fails :
        (s : Servicer spmc)
        → (e : CommError bincode.Error) × (l : List Segment) × (read_and_process s
            ≡ done (err e, record s { tcp_stream = record s.tcp_stream { incoming = l } }))
    unfolding read_and_process receive
    read_fails s =
        let (l, answer) = read_none s.tcp_stream in
        let t : TcpStream = record s.tcp_stream { incoming = l } in
        let (x, refused) = process_nothing in
        elim answer [
          | inl e ↦ (x, l, rw e (refused (record s { tcp_stream = t })))
          | inr (y, e) ↦ (from y, l, rw e)
        ]

    -- What `spin_once` does with the messages that it drained.
    unfoldable pub exchange :
        List ApplicationMessage
        → Servicer spmc
        → Run (Result (Unit {0}) (CommError bincode.Error) × Servicer spmc)
    exchange msgs = forward_all bincode spmc msgs >> read_and_process

    exchange-Fails :
        (msgs : List ApplicationMessage) (s : Servicer spmc) → Fails s (exchange msgs s)
    unfolding exchange
    exchange-Fails msgs s = next (forward_all_lem msgs s)
      where
        next : OnStream s (forward_all bincode spmc msgs s) → Fails s (exchange msgs s)
        next (ok _, t, e) =
            let (x, l, e') = read_fails (record s { tcp_stream = t }) in
            (x, record t { incoming = l }, rw e e')
        next (err x, t, e) = (x, t, rw e)

    -- A round is the drain of the queue and the exchange of what it gave.
    pub spin_once_alive :
        (q : IsQueue spmc.try_recv) (rounds_left : ℕ) (s : Servicer spmc)
        → length (q.pending s.from_application) < rounds_left
        → q.alive s.from_application ≡ true
        → (r : spmc.State) × (spin_once bincode spmc rounds_left s
            ≡ exchange (q.pending s.from_application) (record s { from_application = r }))
          × (q.pending r ≡ [])
    unfolding spin_once exchange read_and_process
    spin_once_alive q rounds_left s enough alive =
        let (r, runs, none_left) =
          drain_spmc_receiver_lem spmc q rounds_left s.from_application enough in
        (r, simp (runs, alive), none_left)

    spin_once_gone :
        (q : IsQueue spmc.try_recv) (rounds_left : ℕ) (s : Servicer spmc)
        → length (q.pending s.from_application) < rounds_left
        → q.alive s.from_application ≡ false
        → (r : spmc.State) × (spin_once bincode spmc rounds_left s
            ≡ done
                (err (dropped application_thread_disconnected), record s { from_application = r }))
          × (q.pending r ≡ [])
    unfolding spin_once
    spin_once_gone q rounds_left s enough gone =
        let (r, runs, none_left) =
          drain_spmc_receiver_lem spmc q rounds_left s.from_application enough in
        (r, simp (runs, gone), none_left)

    -- Whatever was queued, whether the application thread lives or not, a round answers with an error and
    -- changes at most the stream and the queue, which it empties.
    pub spin_once_frame :
        (q : IsQueue spmc.try_recv) (rounds_left : ℕ) (s : Servicer spmc)
        → length (q.pending s.from_application) < rounds_left
        → (e : CommError bincode.Error) × (t : TcpStream) × (r : spmc.State) × (spin_once bincode
              spmc rounds_left s
            ≡ done (err e, record s { tcp_stream = t; from_application = r }))
          × (q.pending r ≡ [])
    spin_once_frame q rounds_left s enough = elim (Bool-cases (q.alive s.from_application)) [
      | inl alive ↦
          let (r, runs, none_left) = spin_once_alive q rounds_left s enough alive in
          let (x, t, e) =
            exchange-Fails (q.pending s.from_application) (record s { from_application = r }) in
          (x, t, r, runs ∙ e, none_left)
      | inr gone ↦
          let (r, runs, none_left) = spin_once_gone q rounds_left s enough gone in
          (dropped application_thread_disconnected, s.tcp_stream, r, runs, none_left)
    ]

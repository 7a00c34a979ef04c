-- ===== src/Client/Reliable/Join.antt =====
-- What becomes of a join in src/client/reliable.rs: the servicer reads the answer of the server into a new
-- vector, which has no places.
use game_network.Msg.{
  failed_to_serialize, warning, join_request, Credentials, CommError, exit, from, Bincode,
}
use game_network.Std.Tcp.{write, TcpStream}
use game_network.Prelude.{ℕ, suc, ◌≡◌, refl, inl, inr, done}
use game_network.Std.{Result-cases, Result, ok, err, SocketAddr, Sender, Receiver}
use game_network.Std.Tcp.Laws.{read_none}
use game_network.Client.Reliable.{
  ServicerMessage, ApplicationMessage, Servicer, receive_server_message, spin_once, send_request,
  wait_for_join, joining, connect,
}

module _ (bincode : Bincode) where
  abbrev Fails : Servicer → Type 0
  Fails s =
      (e : CommError bincode.Error) × (t : TcpStream) × (spin_once bincode s
        ≡ done (err e, record s { tcp_stream = t }))

  -- A round changes nothing but the stream, and ends in an error.
  pub spin_once-Fails : (s : Servicer) → Fails s
  unfolding spin_once receive_server_message
  spin_once-Fails s =
      let (l, answer) = read_none s.tcp_stream in
      let t : TcpStream = record s.tcp_stream { incoming = l } in
      elim answer [ inl e ↦ (exit, t, rw e) | inr (x, e) ↦ (from x, t, rw e) ]

  wait_for_join_fails :
      (rounds_left : ℕ) (s : Servicer)
      → (e : CommError bincode.Error) × (wait_for_join bincode (suc rounds_left) s ≡ done (err e))
  unfolding wait_for_join
  wait_for_join_fails rounds_left s = let (e, t, runs) = spin_once-Fails s in (e, rw runs)

  joining_fails :
      (rounds_left : ℕ) (to_application : Sender ServicerMessage)
      (from_application : Receiver ApplicationMessage)
      (r : Result (Unit {0}) (CommError bincode.Error)) (t : TcpStream)
      → (e : CommError bincode.Error) × (joining bincode
            (suc rounds_left)
            to_application
            from_application
            (done (r, t))
          ≡ done (err e))
  unfolding joining
  joining_fails rounds_left to_application from_application (ok _) t =
      wait_for_join_fails rounds_left _
  joining_fails rounds_left to_application from_application (err e) t = (e, refl)

  send_request_ends :
      (cred : Credentials) (s : TcpStream)
      → (r : Result (Unit {0}) (CommError bincode.Error)) × (t : TcpStream) × (send_request bincode
            cred s
          ≡ done (r, t))
  unfolding send_request
  send_request_ends cred s =
      elim (Result-cases (bincode.reliable_client.serialize (join_request cred))) [
        | inl (encoded, e) ↦
            let r : Result (Unit {0}) (CommError bincode.Error) = elim (write encoded s).0 [
              | ok n ↦ ok tt
              | err x ↦ err (from x)
            ] in
            (r, (write encoded s).1, rw e)
        | inr (x, e) ↦ (err (warning (failed_to_serialize x)), s, rw e)
      ]

  pub connect_fails :
      (rounds_left : ℕ) (cred : Credentials) (server_addr : SocketAddr) (tcp_stream : TcpStream)
      (to_application : Sender ServicerMessage) (from_application : Receiver ApplicationMessage)
      → (e : CommError bincode.Error) × (connect bincode
            (suc rounds_left)
            cred
            server_addr
            tcp_stream
            to_application
            from_application
          ≡ done (err e))
  unfolding connect
  connect_fails rounds_left cred server_addr tcp_stream to_application from_application =
      let (r, t, e) = send_request_ends cred tcp_stream in
      rw e (joining_fails rounds_left to_application from_application r t)

-- ===== src/Server/Join/Unread.antt =====
-- The servicer of src/server/reliable.rs reads the join request into a new vector, which has no places.
use game_network.Std.{Result-cases, Result, err}
use game_network.Prelude.{
  ℕ, zero, suc, ◌≡◌, ◌<◌, refl, inl, inr, List, [], ◌∷◌, Run, done, arith, length,
}
use game_network.Std.Tcp.{TcpStream, Segment, bytes, failure, read}
use game_network.Msg.{
  Credentials, CommError, warning, failed_to_deserialize, from, Bincode, IsLawful,
}
use game_network.Msg.Kinds.{from-cases}
use game_network.Server.Join.{
  expect_join_request, wait_match, refused, wait_for_join_request, negotiate,
}

module _ (bincode : Bincode) (lawful : IsLawful bincode.reliable_client) where
  abbrev Fails : Run (Result Credentials (CommError bincode.Error) × TcpStream) → Type 0
  Fails r = (e : CommError bincode.Error) × (t : TcpStream) × (r ≡ done (err e, t))

  -- No bytes are no join request.
  pub expect_nothing : (e : CommError bincode.Error) × (expect_join_request bincode [] ≡ err e)
  unfolding expect_join_request
  expect_nothing =
      let (e, none_read) = lawful.no_bytes in (warning (failed_to_deserialize e), rw none_read)

  wait-Fails :
      (rounds_left : ℕ) (stream : TcpStream) (incoming : List Segment)
      → stream.incoming ≡ incoming
      → length incoming < rounds_left
      → Fails (wait_for_join_request bincode rounds_left stream)
  unfolding wait_for_join_request wait_match refused read
  wait-Fails zero stream incoming h enough = absurd (omega arith)
  wait-Fails (suc rounds_left) stream [] h enough =
      let (e, refused') = expect_nothing in (e, record stream { incoming = [] }, rw (h, refused'))
  wait-Fails (suc rounds_left) stream (bytes bs ∷ rest) h enough =
      let (e, refused') = expect_nothing in (e, (read 0 stream).1, rw (h, refused'))
  wait-Fails (suc rounds_left) stream (failure x ∷ rest) h enough =
      let (e, t, runs) =
        wait-Fails rounds_left (record stream { incoming = rest }) rest refl (omega arith) in
      elim (from-cases {E = bincode.Error} x) [
        | inl k ↦ (e, t, rw (h, k) runs)
        | inr k ↦ (from x, record stream { incoming = rest }, rw (h, k))
      ]

  pub negotiate_fails :
      (rounds_left server_udp_port : ℕ) (stream : TcpStream)
      → length stream.incoming < rounds_left
      → (e : CommError bincode.Error) × (t : TcpStream) × (negotiate bincode rounds_left
            server_udp_port stream
          ≡ done (err e, t))
  unfolding negotiate
  negotiate_fails rounds_left server_udp_port stream enough =
      let (e, t, runs) = wait-Fails rounds_left stream stream.incoming refl enough in
      elim (Result-cases stream.peer) [
        | inl (address, k) ↦ (e, t, simp (k, runs))
        | inr (x, k) ↦ (from x, stream, simp k)
      ]

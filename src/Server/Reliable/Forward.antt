-- ===== src/Server/Reliable/Forward.antt =====
-- What a round of the servicer of src/server/reliable.rs sends to its client.
use game_network.Prelude.{
  Run, ℕ, ◌≡◌, ◌<◌, refl, ap, sym, ◌∙◌, true, Bool-cases, inl, inr, List, [], ◌∷◌, ◌++◌,
  append_assoc, append-nil, done, length, if◌then◌else◌,
}
use game_network.Std.{Result, ok, err}
use game_network.Std.Tcp.{Writing}
use game_network.Std.Tcp.Laws.{IsWilling, written, write_all_lem}
use game_network.Msg.{Username, eq_user, ReliableServerMessage, CommError, Bincode, IsLawful}
use game_network.Util.{Spmc}
use game_network.Util.Drain.{IsQueue}
use game_network.Server.Reliable.{
  ToClient, ApplicationMessage, to_client, Servicer, send_message, forward, forward_all, spin_once,
}
use game_network.Server.Reliable.Round.{spin_once_alive, exchange, read_fails}

-- The payloads of the messages for a user.
abbrev pub addressed : Username → List ApplicationMessage → List ReliableServerMessage
addressed user [] = []
addressed user (to_client m ∷ msgs) =
    if eq_user m.to user then m.payload ∷ addressed user msgs else addressed user msgs

module _ (bincode : Bincode) where
  -- The wire forms of messages, one behind the other.
  abbrev pub Encoded : List ReliableServerMessage → List ℕ → Type 0
  Encoded [] out = out ≡ []
  Encoded (m ∷ ms) out =
      (bytes : List ℕ) × (rest : List ℕ) × (bincode.reliable_server.serialize m ≡ ok bytes)
      × (out ≡ bytes ++ rest)
      × Encoded ms rest

  module _ (spmc : Spmc ApplicationMessage) where
    -- The stream behind these bytes, which goes on taking more.
    abbrev Sends :
        Servicer spmc
        → List ℕ
        → Run (Result (Unit {0}) (CommError bincode.Error) × Servicer spmc)
        → Type 0
    Sends s out r =
        (ws : List Writing) × (r
          ≡ done (ok tt, record s { tcp_stream = written s.tcp_stream out ws }))
        × IsWilling ws

    abbrev stored :
        Servicer spmc
        → List ℕ
        → List Writing
        → Run (Result (Unit {0}) (CommError bincode.Error) × Servicer spmc)
    stored s o ws =
        done (ok tt, record s { tcp_stream = record s.tcp_stream { outgoing = o; writings = ws } })

    send_message-Sends :
        (m : ReliableServerMessage) (bytes : List ℕ) (s : Servicer spmc)
        → bincode.reliable_server.serialize m ≡ ok bytes
        → IsWilling s.tcp_stream.writings
        → Sends s bytes (send_message bincode spmc m s)
    unfolding send_message
    send_message-Sends m bytes s e willing =
        let (ws, runs, willing') = write_all_lem bytes s.tcp_stream willing in
        (ws, rw (e, runs), willing')

    mine-Sends :
        (m : ToClient) (msgs : List ApplicationMessage) (out : List ℕ) (s : Servicer spmc)
        → eq_user m.to s.user ≡ true
        → Encoded (m.payload ∷ addressed s.user msgs) out
        → IsWilling s.tcp_stream.writings
        → ((rest : List ℕ) (s' : Servicer spmc)
            → Encoded (addressed s'.user msgs) rest
            → IsWilling s'.tcp_stream.writings
            → Sends s' rest (forward_all bincode spmc msgs s'))
        → Sends s out (forward_all bincode spmc (to_client m ∷ msgs) s)
    unfolding forward_all forward
    mine-Sends m msgs out s mine (bytes, rest, e, parts, enc) willing ih =
        let (ws, runs, willing') = send_message-Sends m.payload bytes s e willing in
        let s1 : Servicer spmc = record s { tcp_stream = written s.tcp_stream bytes ws } in
        let (ws', runs', willing2) = ih rest s1 enc willing' in
        (
          ws',
          simp (mine, runs)
              (runs'
                ∙ ap (λ o. stored s o ws')
                    (append_assoc s.tcp_stream.outgoing bytes rest
                      ∙ ap (λ t. s.tcp_stream.outgoing ++ t) (sym parts))),
          willing2,
        )

    forward_all-Sends :
        (msgs : List ApplicationMessage) (out : List ℕ) (s : Servicer spmc)
        → Encoded (addressed s.user msgs) out
        → IsWilling s.tcp_stream.writings
        → Sends s out (forward_all bincode spmc msgs s)
    unfolding forward_all forward
    forward_all-Sends [] out s enc willing = (
      s.tcp_stream.writings,
      ap (λ o. stored s o s.tcp_stream.writings)
          (sym (append-nil s.tcp_stream.outgoing) ∙ ap (λ t. s.tcp_stream.outgoing ++ t) (sym enc)),
      willing,
    )
    forward_all-Sends (to_client m ∷ msgs) out s enc willing =
        elim (Bool-cases (eq_user m.to s.user)) [
          | inl mine ↦
              mine-Sends m msgs out s mine (rw mine at enc) willing (forward_all-Sends msgs)
          | inr other ↦
              let (ws, runs, willing') = forward_all-Sends msgs out s (rw other at enc) willing in
              (ws, simp other runs, willing')
        ]

    -- A round of a reliable servicer whose application thread lives, whose stream takes at least
    -- one byte with each write, and which has more rounds than messages: it writes exactly the
    -- serialised payloads of the messages for its own user, in order and complete, and it also
    -- takes the messages for all other users off the queue.
    pub spin_once_sends :
        (lawful : IsLawful bincode.reliable_client) (q : IsQueue spmc.try_recv) (rounds_left : ℕ)
        (s : Servicer spmc) (out : List ℕ)
        → length (q.pending s.from_application) < rounds_left
        → q.alive s.from_application ≡ true
        → IsWilling s.tcp_stream.writings
        → Encoded (addressed s.user (q.pending s.from_application)) out
        → (answer : Result (Unit {0}) (CommError bincode.Error)) × (s' : Servicer spmc) × (spin_once
              bincode spmc rounds_left s
            ≡ done (answer, s'))
          × (s'.tcp_stream.outgoing ≡ s.tcp_stream.outgoing ++ out)
          × (q.pending s'.from_application ≡ [])
    unfolding exchange
    spin_once_sends lawful q rounds_left s out enough alive willing enc =
        let (r, runs, none_left) =
          spin_once_alive bincode spmc lawful q rounds_left s enough alive in
        let s1 : Servicer spmc = record s { from_application = r } in
        let (ws, forwards, willing') =
          forward_all-Sends (q.pending s.from_application) out s1 enc willing in
        let s2 : Servicer spmc = record s1 { tcp_stream = written s.tcp_stream out ws } in
        let (e, l, reads) = read_fails bincode spmc lawful s2 in
        (
          err e,
          record s2 { tcp_stream = record s2.tcp_stream { incoming = l } },
          runs ∙ rw forwards reads,
          refl,
          none_left,
        )

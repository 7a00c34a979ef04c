-- ===== src/Server/Reliable/Chat.antt =====
-- What the servicer of src/server/reliable.rs does with bytes of its client that it has read.
use game_network.Prelude.{◌≡◌, Bool-cases, inl, inr, List, [], ◌∷◌, ◌++◌, ℕ, done, if◌then◌else◌}
use Prim.Native.String.{String}
use game_network.Std.{ok, err, send}
use game_network.Msg.{
  Credentials, dropped, already_connected, application_thread_disconnected, chat_message,
  join_request, Bincode, IsLawful,
}
use game_network.Util.{Spmc}
use game_network.Server.Messages as Messages
use game_network.Server.Reliable.{ApplicationMessage, Servicer, handle_chat_message, process}

module _ (bincode : Bincode) (spmc : Spmc ApplicationMessage)
    (lawful : IsLawful bincode.reliable_client) (bytes : List ℕ) (s : Servicer spmc) where
  -- A chat message goes to the application thread under the name of the user; without that thread the
  -- servicer drops it.
  pub chat_forwarded :
      (msg : String)
      → bincode.reliable_client.serialize (chat_message msg) ≡ ok bytes
      → process bincode spmc bytes s ≡ (
          if s.to_application.receiver_alive
          then done (
            ok tt,
            record s {
              to_application = record s.to_application {
                sent =
                    s.to_application.sent
                    ++ record {
                      author = s.user;
                      payload = Messages.ServicerPayload.chat_message msg;
                    }
                      ∷ [];
              };
            },
          )
          else done (err (dropped application_thread_disconnected), s))
  unfolding process handle_chat_message send
  chat_forwarded msg encoded =
      rw (lawful.round_trip (chat_message msg) bytes encoded)
        (elim (Bool-cases s.to_application.receiver_alive) [ inl e ↦ rw e | inr e ↦ rw e ])

  -- A client that asks to join again is told off, and nothing changes.
  pub join_again :
      (cred : Credentials)
      → bincode.reliable_client.serialize (join_request cred) ≡ ok bytes
      → process bincode spmc bytes s ≡ done (err (dropped already_connected), s)
  unfolding process
  join_again cred encoded = rw (lawful.round_trip (join_request cred) bytes encoded)

-- ===== src/Client/Reliable/Messages.antt =====
-- What src/client/reliable.rs makes of bytes that it has read.
use game_network.Client.Reliable.{
  ServicerMessage, handle_chat_message, Servicer, understand, handle_server_message,
}
use game_network.Prelude.{◌++◌, true, ℕ, ◌≡◌, ◌≢◌, refl, List, [], ◌∷◌, done}
use game_network.Std.{ok, send}
use game_network.Msg.{ReliableServerMessage, Bincode, ChatMessage}

module _ (bincode : Bincode) where
  pub understand_lem :
      (m : ReliableServerMessage) (bytes : List ℕ)
      → bytes ≢ []
      → bincode.reliable_server.deserialize bytes ≡ ok m
      → understand bincode bytes ≡ ok m
  unfolding understand
  understand_lem m [] some_bytes read = absurd (some_bytes refl)
  understand_lem m (b ∷ bs) some_bytes read = rw read

  -- A chat message goes to the application thread while that is there.
  pub handle_chat_message_lem :
      (chat : ChatMessage) (s : Servicer)
      → s.to_application.receiver_alive ≡ true
      → handle_server_message bincode (ReliableServerMessage.chat_message chat) s
        ≡ done (
          ok tt,
          record s {
            to_application = record s.to_application {
              sent = s.to_application.sent ++ ServicerMessage.chat_message chat ∷ [];
            };
          },
        )
  unfolding handle_server_message handle_chat_message send
  handle_chat_message_lem chat s alive = simp alive

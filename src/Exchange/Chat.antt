-- ===== src/Exchange/Chat.antt =====
-- The way of a chat message, but for the read: from src/server/reliable.rs through src/client/reliable.rs to
-- the object of src/client/mod.rs.
use game_network.Prelude.{true}
use game_network.Server.Reliable as Server
use game_network.Client
use game_network.Client.Reliable as Servicer

-- The client's object with what its reliable servicer sent.
abbrev pub supplied : Client.Client → Servicer.Servicer → Client.Client
supplied c s = record c {
  from_reliable_servicer = record { queue = s.to_application.sent; sender_alive = true };
}

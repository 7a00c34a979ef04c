-- ===== src/Server/Messages.antt =====
-- src/server/mod.rs: the messages from the servicers to the application thread.
use Prim.Native.String.{String}
use game_network.Control.{ControllerSequence}
use game_network.Msg.{Username, ClientData}

pub data ServicerPayload : Type 0 where
  chat_message : String → ServicerPayload
  controller_sequence : ControllerSequence → ServicerPayload
  client_data : ClientData → ServicerPayload

pub record ServicerMessage : Type 0 where
  pub author : Username
  pub payload : ServicerPayload

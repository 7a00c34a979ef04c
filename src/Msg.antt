-- ===== src/Msg.antt =====
-- src/msg.rs: the messages and errors that the parts of the program exchange. `BincodeError` stands
-- for `Box<bincode::ErrorKind>`.
pub mod Kinds
pub mod Genuine
pub mod Wire
use Prim.Native.String.{String}
use text.Mathlib.Text.{◌==◌ as str_eq}
use game_network.Prelude.{ℕ, Bool, List, [], ◌≡◌}
use game_network.Std.{
  Result, ok, err, IoError, ErrorKind, SocketAddr, not_found, permission_denied, connection_refused,
  connection_reset, connection_aborted, not_connected, addr_in_use, addr_not_available, broken_pipe,
  already_exists, would_block, invalid_input, invalid_data, timed_out, write_zero, interrupted,
  other, unexpected_eof, unlisted,
}
use game_network.Control.{CompressedControllerSequence}

pub record Username : Type 0 where
  pub name : String

unfoldable pub eq_user : Username → Username → Bool
eq_user a b = str_eq a.name b.name

pub record ClientData : Type 0 where
  pub username : Username
  pub udp_addr : SocketAddr

pub record Credentials : Type 0 where
  pub username : Username
  pub password : String
  pub udp_port : ℕ

pub data Warning (BincodeError : Type 0) : Type 0 where
  failed_to_compress failed_to_decompress wrong_message_type : Warning BincodeError
  failed_to_deserialize failed_to_serialize failed_to_serialize_ack :
      BincodeError → Warning BincodeError
  io_failure : IoError → Warning BincodeError
  unknown_source : SocketAddr → Warning BincodeError

-- `Drop`
pub data Dropped : Type 0 where
  already_connected application_thread_disconnected servicer_thread_disconnected : Dropped
  failed_to_authenticate : Credentials → Dropped
  failed_to_bind failed_to_connect io_failure : IoError → Dropped

pub data CommError (BincodeError : Type 0) : Type 0 where
  warning : Warning BincodeError → CommError BincodeError
  dropped : Dropped → CommError BincodeError
  exit : CommError BincodeError

pub data ApplicationError : Type 0 where
  shutdown : ApplicationError

module _ {E : Type 0} where
  -- The `match` of `CommError::from`, on the kind of the error.
  from_kind : ErrorKind → IoError → CommError E
  from_kind not_found e = warning (Warning.io_failure e)
  from_kind connection_reset e = warning (Warning.io_failure e)
  from_kind would_block e = warning (Warning.io_failure e)
  from_kind invalid_input e = warning (Warning.io_failure e)
  from_kind invalid_data e = warning (Warning.io_failure e)
  from_kind write_zero e = warning (Warning.io_failure e)
  from_kind interrupted e = warning (Warning.io_failure e)
  from_kind other e = warning (Warning.io_failure e)
  from_kind unexpected_eof e = warning (Warning.io_failure e)
  from_kind permission_denied e = dropped (Dropped.io_failure e)
  from_kind connection_refused e = dropped (Dropped.io_failure e)
  from_kind connection_aborted e = dropped (Dropped.io_failure e)
  from_kind not_connected e = dropped (Dropped.io_failure e)
  from_kind addr_in_use e = dropped (Dropped.io_failure e)
  from_kind addr_not_available e = dropped (Dropped.io_failure e)
  from_kind broken_pipe e = dropped (Dropped.io_failure e)
  from_kind already_exists e = dropped (Dropped.io_failure e)
  from_kind timed_out e = dropped (Dropped.io_failure e)
  from_kind (unlisted n) e = dropped (Dropped.io_failure e)

  pub from : IoError → CommError E
  unfolding from_kind
  from e = from_kind e.kind e

-- mod reliable
pub data JoinResponse : Type 0 where
  confirmation : ℕ → JoinResponse
  authentication_error : JoinResponse

pub data ReliableClientMessage : Type 0 where
  chat_message : String → ReliableClientMessage
  join_request : Credentials → ReliableClientMessage

pub record ChatMessage : Type 0 where
  pub author : Username
  pub message : String

pub data ReliableServerMessage : Type 0 where
  join_response : JoinResponse → ReliableServerMessage
  chat_message : ChatMessage → ReliableServerMessage

-- mod low_latency
pub data LowLatencyClientMessage : Type 0 where
  controller_input : CompressedControllerSequence → LowLatencyClientMessage

pub data LowLatencyServerMessage : Type 0 where
  world_state : List ℕ → LowLatencyServerMessage
  last_tick_received : ℕ → LowLatencyServerMessage

-- The wire form of one type of message, which the `bincode` crate makes from its `Serialize` and
-- `Deserialize`.
pub record Codec (E : Type 0) (A : Type 0) : Type 0 where
  pub serialize : A → Result (List ℕ) E
  pub deserialize : List ℕ → Result A E

-- What `bincode` documents of it: what was serialised is read back, and no message is read from no
-- bytes at all.
pub record IsLawful {E A : Type 0} (codec : Codec E A) : Type 0 where
  pub round_trip :
      (a : A) (bytes : List ℕ) → codec.serialize a ≡ ok bytes → codec.deserialize bytes ≡ ok a
  pub no_bytes : (e : E) × (codec.deserialize [] ≡ err e)

-- The `bincode` crate: its errors and the wire forms of the four types of message.
pub record Bincode : Type 1 where
  pub Error : Type 0
  pub reliable_client : Codec Error ReliableClientMessage
  pub reliable_server : Codec Error ReliableServerMessage
  pub low_latency_client : Codec Error LowLatencyClientMessage
  pub low_latency_server : Codec Error LowLatencyServerMessage

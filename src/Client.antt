-- ===== src/Client.antt =====
-- src/client/mod.rs: the object that a game holds for its connection to the server. Each method may
-- find that a servicer is gone, and then every later call reports the shutdown.
pub mod LowLatency
pub mod Reliable
pub mod Mailbox
pub mod Shutdown
pub mod Inputs
pub mod Quit
pub mod Start
mod Tests
use Prim.Native.String.{String}
use game_network.Prelude.{
  ℕ, Bool, true, false, Option, none, some, List, [], ◌∷◌, ◌++◌, if◌then◌else◌, done,
}
use game_network.Std.{Result, ok, err, Sender, send, Receiver}
use game_network.Exec.{Exec, pure, gets, call, ◌>>=◌, ◌>>◌}
use game_network.BitVec.{BitVec}
use game_network.Control
use game_network.Control.{ControllerSequence}
use game_network.Msg.{Dropped, ApplicationError, ChatMessage}
use game_network.Util.{drain_mpsc_receiver}
use game_network.Client.LowLatency
use game_network.Client.Reliable

pub record Client : Type 0 where
  pub seq : ControllerSequence
  pub chat_history : List ChatMessage
  pub world_state : Option (List ℕ)
  pub shutdown : Bool
  pub from_reliable_servicer : Receiver Reliable.ServicerMessage
  pub to_reliable_servicer : Sender Reliable.ApplicationMessage
  pub from_low_latency_servicer : Receiver LowLatency.ServicerMessage
  pub to_low_latency_servicer : Sender LowLatency.ApplicationMessage

abbrev pub Method : Type 0 → Type 0
Method = Exec Client ApplicationError

stop : {A : Type 0} → Method A
stop s = done (err ApplicationError.shutdown, record s { shutdown = true })

-- `if self.shutdown { return Err(Shutdown) }` before the rest of a method.
guarded : {A : Type 0} → Method A → Method A
guarded rest s = if s.shutdown then done (err ApplicationError.shutdown, s) else rest s

to_low_latency :
    LowLatency.ApplicationMessage → Method (Result (Unit {0}) LowLatency.ApplicationMessage)
to_low_latency msg s =
    let (answer, sender) = send msg s.to_low_latency_servicer in
    done (ok answer, record s { to_low_latency_servicer = sender })

to_reliable : Reliable.ApplicationMessage → Method (Result (Unit {0}) Reliable.ApplicationMessage)
to_reliable msg s =
    let (answer, sender) = send msg s.to_reliable_servicer in
    done (ok answer, record s { to_reliable_servicer = sender })

pub send_controller_input : BitVec → Method (Unit {0})
unfolding guarded to_low_latency stop
send_controller_input controller_input = guarded (do
  answer ← to_low_latency (LowLatency.control controller_input)
  elim answer [ ok _ ↦ pure tt | err _ ↦ stop ])

pub send_chat_message : String → Method (Unit {0})
unfolding guarded to_reliable stop
send_chat_message chat_msg = guarded (do
  answer ← to_reliable (Reliable.ApplicationMessage.chat_message chat_msg)
  elim answer [ ok _ ↦ pure tt | err _ ↦ stop ])

drain_low_latency : ℕ → Method (Result (List LowLatency.ServicerMessage) Dropped)
drain_low_latency rounds_left s =
    call (λ receiver s. record s { from_low_latency_servicer = receiver })
      (drain_mpsc_receiver rounds_left s.from_low_latency_servicer) s

drain_reliable : ℕ → Method (Result (List Reliable.ServicerMessage) Dropped)
drain_reliable rounds_left s =
    call (λ receiver s. record s { from_reliable_servicer = receiver })
      (drain_mpsc_receiver rounds_left s.from_reliable_servicer) s

-- The loop of `take_world_state` over the messages.
keep_newest : Option (List ℕ) → List LowLatency.ServicerMessage → Option (List ℕ)
keep_newest state [] = state
keep_newest state (LowLatency.world_state w ∷ msgs) = keep_newest (some w) msgs

-- The swap with `None`, and the answer.
give_world_state : Option (List ℕ) → Method (List ℕ)
give_world_state (some w) s = done (ok w, record s { world_state = none })
give_world_state none s = done (ok [], record s { world_state = none })

pub take_world_state : ℕ → Method (List ℕ)
unfolding guarded drain_low_latency keep_newest give_world_state stop
take_world_state rounds_left = guarded (do
  answer ← drain_low_latency rounds_left
  elim answer [
    | ok msg_vec ↦ (do
      kept ← gets (λ s. s.world_state)
      give_world_state (keep_newest kept msg_vec))
    | err _ ↦ stop
  ])

-- The loop of `take_chat_history` over the messages.
push_chats : List ChatMessage → List Reliable.ServicerMessage → List ChatMessage
push_chats history [] = history
push_chats history (Reliable.ServicerMessage.chat_message chat ∷ msgs) =
    push_chats (history ++ chat ∷ []) msgs

give_chat_history : List ChatMessage → Method (List ChatMessage)
give_chat_history history s = done (ok history, record s { chat_history = [] })

pub take_chat_history : ℕ → Method (List ChatMessage)
unfolding guarded drain_reliable push_chats give_chat_history stop
take_chat_history rounds_left = guarded (do
  answer ← drain_reliable rounds_left
  elim answer [
    | ok msg_vec ↦ (do
      history ← gets (λ s. s.chat_history)
      give_chat_history (push_chats history msg_vec))
    | err _ ↦ stop
  ])

-- The ends that the servicers are left with when `quit` has dropped the client's.
pub record Abandoned : Type 0 where
  pub reliable : Sender Reliable.ServicerMessage × Receiver Reliable.ApplicationMessage
  pub low_latency : Sender LowLatency.ServicerMessage × Receiver LowLatency.ApplicationMessage

pub quit : Reliable.Servicer → LowLatency.Servicer → Abandoned
quit re ll = record {
  reliable = (
    record re.to_application { receiver_alive = false },
    record re.from_application { sender_alive = false },
  );
  low_latency = (
    record ll.to_application { receiver_alive = false },
    record ll.from_application { sender_alive = false },
  );
}

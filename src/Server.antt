-- ===== src/Server.antt =====
-- src/server/mod.rs: the object that a game server holds. `spmc` is a crate, so the sending ends of its
-- channels are an interface, and both ends of a new channel are arguments of `new`.
pub mod Bidir
pub mod Messages
pub mod LowLatency
pub mod Join
pub mod Listener
pub mod Reliable
pub mod Shutdown
pub mod Quit
mod Tests
use game_network.Prelude.{
  ℕ, Bool, true, false, [], if◌then◌else◌, Run, done, panic, timeout, Option,
}
use game_network.Std.{
  Result, ok, err, IoError, SocketAddr, UdpSocket, Sender, Receiver, next_message,
}
use game_network.Msg.{ApplicationError}
use game_network.Util.{Spmc, SpmcSender}
use game_network.Exec.{Exec}
use game_network.Server.Bidir.{BidirMap}
use game_network.Server.Messages.{ServicerMessage}
use game_network.Server.LowLatency
use game_network.Server.Reliable

-- The `spmc` channels of the server.
pub record Channels : Type 1 where
  pub low_latency : Spmc LowLatency.ApplicationMessage
  pub to_low_latency : SpmcSender LowLatency.ApplicationMessage
  pub reliable : Spmc Reliable.ApplicationMessage
  pub to_reliable : SpmcSender Reliable.ApplicationMessage

module _ (bidir : BidirMap) (channels : Channels) where
  open channels use {low_latency, to_low_latency, reliable, to_reliable}

  -- The handle of the listener's thread is left out: no method uses it.
  pub record Server : Type 0 where
    pub listener_kill_switch : Bool
    pub low_latency_servicer : LowLatency.Servicer bidir low_latency
    pub from_servicer : Receiver ServicerMessage
    pub to_low_latency_servicer : to_low_latency.State
    pub to_reliable_servicer : to_reliable.State
    pub shutdown : Bool

  -- What `reliable::Servicer::listen` is given.
  pub record Listening : Type 0 where
    pub to_application : Sender ServicerMessage
    pub from_application : reliable.State
    pub udp_port : ℕ
    pub server_running : Bool

  -- The first argument is the answer of `udp_socket.local_addr()`, which is unwrapped.
  pub new :
      Result SocketAddr IoError
      → UdpSocket
      → to_low_latency.State × low_latency.State
      → to_reliable.State × reliable.State
      → Run (Server × Listening)
  new (err e) udp_socket ll re = panic
  new (ok local_addr) udp_socket (to_ll, ll_from_application) (to_re, re_from_application) =
      let to_application : Sender ServicerMessage = record { sent = []; receiver_alive = true } in
      done (
        record {
          listener_kill_switch = true;
          low_latency_servicer =
              LowLatency.new bidir low_latency udp_socket to_application ll_from_application;
          from_servicer = record { queue = []; sender_alive = true };
          to_low_latency_servicer = to_ll;
          to_reliable_servicer = to_re;
          shutdown = false;
        },
        record {
          to_application = to_application;
          from_application = re_from_application;
          udp_port = local_addr.port;
          server_running = true;
        },
      )

  abbrev pub Method : Type 0 → Type 0
  Method = Exec Server ApplicationError

  -- `if self.shutdown { return Err(Shutdown) }` before the rest of a method.
  guarded : {A : Type 0} → Method A → Method A
  guarded rest s = if s.shutdown then done (err ApplicationError.shutdown, s) else rest s

  -- The answer of a channel: an error shuts the object down.
  answered : {M : Type 0} → Result (Unit {0}) M → Method (Unit {0})
  answered (ok _) s = done (ok tt, s)
  answered (err m) s = done (err ApplicationError.shutdown, record s { shutdown = true })

  pub send_low_latency : LowLatency.ApplicationMessage → Method (Unit {0})
  unfolding guarded answered
  send_low_latency msg = guarded λ s.
      let (answer, sender) = to_low_latency.send msg s.to_low_latency_servicer in
      answered answer (record s { to_low_latency_servicer = sender })

  pub send_reliable : Reliable.ApplicationMessage → Method (Unit {0})
  unfolding guarded answered
  send_reliable msg = guarded λ s.
      let (answer, sender) = to_reliable.send msg s.to_reliable_servicer in
      answered answer (record s { to_reliable_servicer = sender })

  -- The iterator stands for the receiving end of the object: this is one `next` of it.
  pub receive_iter : Server → Run (Option ServicerMessage × Server)
  receive_iter s = elim (next_message s.from_servicer) [
    | done (answer, receiver) ↦ done (answer, record s { from_servicer = receiver })
    | panic ↦ panic
    | timeout ↦ timeout
  ]

  -- What the servicers and the listener still see of the object: the flag, and the ends that it dropped.
  pub quit : Server → Server
  quit s = record s {
    listener_kill_switch = false;
    to_low_latency_servicer = to_low_latency.close s.to_low_latency_servicer;
    to_reliable_servicer = to_reliable.close s.to_reliable_servicer;
  }

-- ===== src/Samples.antt =====
-- Concrete values for the tests: bit vectors, and small versions of what stands outside the program.
pub mod Wire
use game_network.Prelude.{
  ℕ, ◌≡◌, refl, true, false, Option, none, some, List, [], ◌∷◌, arith, if◌then◌else◌, ap, sym,
  debug, done, add_u8, add_usize, sub_usize, mul_usize,
}
use game_network.Std.{
  Result, ok, err, SocketAddr, v4, eq_addr, UdpSocket, Sender, Receiver, try_recv,
}
use game_network.Prelude.Word.{word_bits}
use game_network.BitVec.{BitVec, append, push, get, len, one_shl, or_last}
use game_network.Compressed.{compress, compress_bits, compress_step, is_fresh}
use game_network.Compressed.Format.{AreSized}
use game_network.Control.{ControllerSequence, CompressedControllerSequence, to_compressed}
use game_network.Client.LowLatency as Client
use game_network.Msg.{
  Username, eq_user, Codec, IsLawful, Bincode, LowLatencyClientMessage, LowLatencyServerMessage,
  controller_input, world_state, last_tick_received,
}
use game_network.Util.{Spmc}
use game_network.Server.Bidir.{BidirMap, IsBidirectional, unless}
use game_network.Server.LowLatency as Server

-- true, true, false
abbrev pub three_bits : BitVec
three_bits = record { storage = 3 ∷ []; len_of_last = 3 }

-- false, true, false
abbrev pub other_three : BitVec
other_three = record { storage = 2 ∷ []; len_of_last = 3 }

abbrev pub one_bit : BitVec
one_bit = record { storage = 1 ∷ []; len_of_last = 1 }

-- A full word: 32 ones.
abbrev pub full_word : BitVec
full_word = record { storage = 4294967295 ∷ []; len_of_last = 32 }

abbrev pub address : ℕ → SocketAddr
address port = record { host = v4 2130706433; port = port }

abbrev pub ann : Username
ann = record { name = "ann" }

abbrev pub bob : Username
bob = record { name = "bob" }

-- A wire form that lists the fields of a message.
abbrev pub read_input : List ℕ → Result LowLatencyClientMessage ℕ
read_input [] = err 0
read_input (a ∷ []) = err 1
read_input (a ∷ b ∷ []) = err 2
read_input (start ∷ last ∷ size ∷ words) = ok (
    controller_input (record {
      start_tick = start;
      comp_seq = record {
        bits = record { storage = words; len_of_last = last };
        element_size = size;
      };
    }))

abbrev pub write_input : LowLatencyClientMessage → Result (List ℕ) ℕ
write_input (controller_input c) =
    ok (
      c.start_tick ∷ c.comp_seq.bits.len_of_last ∷ c.comp_seq.element_size
      ∷ c.comp_seq.bits.storage)

abbrev pub input_codec : Codec ℕ LowLatencyClientMessage
input_codec = record { serialize = write_input; deserialize = read_input }

bytes_of : List ℕ → Result (List ℕ) ℕ → List ℕ
bytes_of other (ok bytes) = bytes
bytes_of other (err e) = other

bytes_of_ok :
    (bytes other : List ℕ) → ◌≡◌ {A = Result (List ℕ) ℕ} (ok bytes) (ok other) → bytes ≡ other
unfolding bytes_of
bytes_of_ok bytes other h = ap (bytes_of []) h

read_input-write_input :
    (m : LowLatencyClientMessage) (bytes : List ℕ)
    → write_input m ≡ ok bytes
    → read_input bytes ≡ ok m
read_input-write_input (controller_input c) bytes h = ap read_input (sym (bytes_of_ok _ bytes h))

pub input_codec-IsLawful : IsLawful input_codec
input_codec-IsLawful = record { round_trip = read_input-write_input; no_bytes = (0, refl) }

abbrev pub write_answer : LowLatencyServerMessage → Result (List ℕ) ℕ
write_answer (world_state bytes) = ok (0 ∷ bytes)
write_answer (last_tick_received tick) = ok (1 ∷ tick ∷ [])

-- No reliable message is written or read in the tests.
abbrev pub no_codec : {A : Type 0} → Codec ℕ A
no_codec = record { serialize = λ _. err 0; deserialize = λ _. err 0 }

abbrev pub answer_codec : Codec ℕ LowLatencyServerMessage
answer_codec = record { serialize = write_answer; deserialize = λ _. err 0 }

abbrev pub bincode : Bincode
bincode = record {
  Error = ℕ;
  reliable_client = no_codec;
  reliable_server = no_codec;
  low_latency_client = input_codec;
  low_latency_server = answer_codec;
}

-- Both directions of the map as functions.
pub record Book : Type 0 where
  pub users : SocketAddr → Option Username
  pub addresses : Username → Option SocketAddr

abbrev pub bidir : BidirMap
bidir = record {
  Map = Book;
  new = record { users = λ _. none; addresses = λ _. none };
  insert = λ m a u. record {
    users = λ b. if eq_addr a b then some u else unless (eq_user u) (m.users b);
    addresses = λ v. if eq_user u v then some a else unless (eq_addr a) (m.addresses v);
  };
  remove_by_second = λ m u. record {
    users = λ a. unless (eq_user u) (m.users a);
    addresses = λ v. if eq_user u v then none else m.addresses v;
  };
  get_by_first = λ m a. m.users a;
  get_by_second = λ m u. m.addresses u;
}

pub bidir-IsBidirectional : IsBidirectional bidir
bidir-IsBidirectional = record {
  first-new = λ a. refl;
  second-new = λ u. refl;
  first-insert = λ t a b u. refl;
  second-insert = λ t a u v. refl;
  first-remove = λ t u a. refl;
  second-remove = λ t u v. refl;
}

-- A queue that no other thread reads.
abbrev pub spmc : (M : Type 0) → Spmc M
spmc M = record { State = Receiver M; try_recv = try_recv }

abbrev pub socket : UdpSocket
socket = record { inbox = []; outbox = []; send_faults = [] }

abbrev pub live_sender : {M : Type 0} → Sender M
live_sender = record { sent = []; receiver_alive = true }

abbrev pub live_receiver : {M : Type 0} → Receiver M
live_receiver = record { queue = []; sender_alive = true }

-- A server that knows ann at port 1.
abbrev pub server : Server.Servicer bidir (spmc Server.ApplicationMessage)
server = record {
  udp_socket = socket;
  to_application = live_sender;
  from_application = live_receiver;
  address_user = bidir.insert bidir.new (address 1) ann;
  last_tick_received = 0;
  shutting_down = false;
}

-- A client's sequence of one state, and its compressed form.
abbrev pub kept : ControllerSequence
kept = record { start_tick = 4; seq = three_bits ∷ [] }

abbrev pub compressed_kept : CompressedControllerSequence
compressed_kept = record {
  start_tick = 4;
  comp_seq = record { bits = record { storage = 7 ∷ []; len_of_last = 4 }; element_size = 3 };
}

-- The datagram with it.
abbrev pub kept_bytes : List ℕ
kept_bytes = 4 ∷ 4 ∷ 3 ∷ 7 ∷ []

abbrev pub client : Client.Servicer
client = record {
  receive_buf = [];
  udp_socket = socket;
  server_addr = address 9;
  self_addr = address 1;
  controller_seq = kept;
  to_application = live_sender;
  from_application = live_receiver;
}

pub to_compressed-kept : to_compressed debug kept ≡ done (some compressed_kept)
unfolding to_compressed compress compress_bits compress_step is_fresh append push get len one_shl
    or_last add_u8 add_usize sub_usize mul_usize
to_compressed-kept = refl

pub kept-AreSized : AreSized 3 kept.seq
unfolding word_bits
kept-AreSized = (((omega arith, omega arith), refl), tt)

-- ===== src/Samples/Wire.antt =====
-- A wire form of all messages for the tests, and what stands at both ends of a TCP connection.
use Prim.Native.String.{String}
use text.Mathlib.Text.{◌==◌ as str_eq}
use text.Mathlib.TextEquality.{eq_iff}
use game_network.Prelude.{
  ℕ, zero, suc, ◌≡◌, refl, ap, sym, ◌∙◌, true, false, Bool-cases, inl, inr, none, List, [], ◌∷◌,
  if◌then◌else◌,
}
use game_network.Std.{Result, ok, err}
use game_network.Std.Tcp.{TcpStream, bytes, takes}
use game_network.Msg.{
  ChatMessage, Credentials, IsLawful, Bincode, ReliableClientMessage, chat_message, join_request,
  ReliableServerMessage, join_response, confirmation, authentication_error, LowLatencyServerMessage,
  world_state, last_tick_received,
}
use game_network.Client as Client
use game_network.Client.Reliable as Reliable
use game_network.Server.Reliable as Servicer
use game_network.Control
use game_network.Samples.{address, ann, spmc, live_sender, live_receiver, input_codec}

abbrev pub cred : Credentials
cred = record { username = ann; password = "secret"; udp_port = 7 }

abbrev pub write_request : ReliableClientMessage → Result (List ℕ) ℕ
write_request (chat_message msg) = if str_eq msg "hello" then ok (0 ∷ []) else err 0
write_request (join_request c) =
    if str_eq c.username.name "ann"
    then (if str_eq c.password "secret" then ok (1 ∷ c.udp_port ∷ []) else err 0)
    else err 0

abbrev pub read_request : List ℕ → Result ReliableClientMessage ℕ
read_request [] = err 0
read_request (a ∷ []) = ok (chat_message "hello")
read_request (a ∷ port ∷ rest) = ok (join_request (record cred { udp_port = port }))

bytes_in : Result (List ℕ) ℕ → List ℕ
bytes_in (ok bs) = bs
bytes_in (err e) = []

bytes_in_ok : (bs cs : List ℕ) → ◌≡◌ {A = Result (List ℕ) ℕ} (ok bs) (ok cs) → bs ≡ cs
unfolding bytes_in
bytes_in_ok bs cs h = ap bytes_in h

read_request-write_request :
    (m : ReliableClientMessage) (bs : List ℕ) → write_request m ≡ ok bs → read_request bs ≡ ok m
read_request-write_request (chat_message msg) bs h = elim (Bool-cases (str_eq msg "hello")) [
  | inl e ↦
      ap read_request (sym (bytes_in_ok _ bs (rw e at h)))
      ∙ ap (λ t. ok (ReliableClientMessage.chat_message t)) (sym ((eq_iff msg "hello").0 e))
  | inr e ↦ absurd (let h' = rw e at h in cc)
]
read_request-write_request (join_request c) bs h =
    elim (Bool-cases (str_eq c.username.name "ann")) [
      | inl e ↦ elim (Bool-cases (str_eq c.password "secret")) [
        | inl e' ↦
            ap read_request (sym (bytes_in_ok _ bs (rw (e, e') at h)))
            ∙ ap
                (λ (p : String × String). ok (
                  join_request (record {
                    username = record { name = p.0 };
                    password = p.1;
                    udp_port = c.udp_port;
                  })))
                (sym (λ i.
                  ((eq_iff c.username.name "ann").0 e i, (eq_iff c.password "secret").0 e' i)))
        | inr e' ↦ absurd (let h' = rw (e, e') at h in cc)
      ]
      | inr e ↦ absurd (let h' = rw e at h in cc)
    ]

abbrev pub hello : ChatMessage
hello = record { author = ann; message = "hello" }

abbrev pub write_reply : ReliableServerMessage → Result (List ℕ) ℕ
write_reply (join_response (confirmation port)) = ok (0 ∷ port ∷ [])
write_reply (join_response authentication_error) = ok (1 ∷ [])
write_reply (chat_message chat) =
    if str_eq chat.author.name "ann"
    then (if str_eq chat.message "hello" then ok (2 ∷ 0 ∷ 0 ∷ []) else err 0)
    else err 0

abbrev pub read_reply : List ℕ → Result ReliableServerMessage ℕ
read_reply [] = err 0
read_reply (a ∷ []) = ok (join_response authentication_error)
read_reply (a ∷ port ∷ []) = ok (join_response (confirmation port))
read_reply (a ∷ b ∷ c ∷ rest) = ok (ReliableServerMessage.chat_message hello)

read_reply-write_reply :
    (m : ReliableServerMessage) (bs : List ℕ) → write_reply m ≡ ok bs → read_reply bs ≡ ok m
read_reply-write_reply (join_response (confirmation port)) bs h =
    ap read_reply (sym (bytes_in_ok _ bs h))
read_reply-write_reply (join_response authentication_error) bs h =
    ap read_reply (sym (bytes_in_ok _ bs h))
read_reply-write_reply (chat_message chat) bs h =
    elim (Bool-cases (str_eq chat.author.name "ann")) [
      | inl e ↦ elim (Bool-cases (str_eq chat.message "hello")) [
        | inl e' ↦
            ap read_reply (sym (bytes_in_ok _ bs (rw (e, e') at h)))
            ∙ ap
                (λ (p : String × String). ok (
                  ReliableServerMessage.chat_message
                    (record { author = record { name = p.0 }; message = p.1 })))
                (sym (λ i.
                  ((eq_iff chat.author.name "ann").0 e i, (eq_iff chat.message "hello").0 e' i)))
        | inr e' ↦ absurd (let h' = rw (e, e') at h in cc)
      ]
      | inr e ↦ absurd (let h' = rw e at h in cc)
    ]

abbrev pub write_state : LowLatencyServerMessage → Result (List ℕ) ℕ
write_state (world_state bs) = ok (0 ∷ bs)
write_state (last_tick_received tick) = ok (1 ∷ tick ∷ [])

abbrev pub read_state : List ℕ → Result LowLatencyServerMessage ℕ
read_state [] = err 0
read_state (zero ∷ bs) = ok (world_state bs)
read_state (suc a ∷ []) = err 1
read_state (suc a ∷ tick ∷ rest) = ok (last_tick_received tick)

read_state-write_state :
    (m : LowLatencyServerMessage) (bs : List ℕ) → write_state m ≡ ok bs → read_state bs ≡ ok m
read_state-write_state (world_state state) bs h = ap read_state (sym (bytes_in_ok _ bs h))
read_state-write_state (last_tick_received tick) bs h = ap read_state (sym (bytes_in_ok _ bs h))

abbrev pub bincode : Bincode
bincode = record {
  Error = ℕ;
  reliable_client = record { serialize = write_request; deserialize = read_request };
  reliable_server = record { serialize = write_reply; deserialize = read_reply };
  low_latency_client = input_codec;
  low_latency_server = record { serialize = write_state; deserialize = read_state };
}

pub requests-IsLawful : IsLawful bincode.reliable_client
requests-IsLawful = record { round_trip = read_request-write_request; no_bytes = (0, refl) }

pub replies-IsLawful : IsLawful bincode.reliable_server
replies-IsLawful = record { round_trip = read_reply-write_reply; no_bytes = (0, refl) }

pub states-IsLawful : IsLawful bincode.low_latency_server
states-IsLawful = record { round_trip = read_state-write_state; no_bytes = (0, refl) }

-- A join request of ann comes in, and the system takes what is written byte by byte at first.
abbrev pub stream : TcpStream
stream = record {
  peer = ok (address 1);
  incoming = bytes (1 ∷ 7 ∷ []) ∷ [];
  outgoing = [];
  writings = takes 1 ∷ [];
}

-- Nothing more to come, and room for all that is written.
abbrev pub quiet : TcpStream
quiet = record { peer = ok (address 1); incoming = []; outgoing = []; writings = [] }

abbrev pub reliable_client : Reliable.Servicer
reliable_client = record {
  tcp_stream = quiet;
  to_application = live_sender;
  from_application = live_receiver;
  server_udp_port = none;
}

abbrev pub reliable_server : Servicer.Servicer (spmc Servicer.ApplicationMessage)
reliable_server = record {
  tcp_stream = stream;
  server_running = true;
  to_application = live_sender;
  from_application = live_receiver;
  user = ann;
  shutting_down = false;
}

abbrev pub object : Client.Client
object = record {
  seq = Control.new;
  chat_history = [];
  world_state = none;
  shutdown = false;
  from_reliable_servicer = live_receiver;
  to_reliable_servicer = live_sender;
  from_low_latency_servicer = live_receiver;
  to_low_latency_servicer = live_sender;
}

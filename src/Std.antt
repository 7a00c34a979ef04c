-- ===== src/Std.antt =====
-- What the program uses of the Rust standard library: `Result`, I/O errors, socket addresses, UDP
-- sockets and `mpsc` channels. A socket or channel end is the record of what it will deliver and of
-- what was sent through it.
pub mod Tcp
pub mod Address
use game_network.Prelude.{
  ◌≡◌, refl, ◌⊎◌, inl, inr, ◌&&◌, ◌==◌, ℕ, zero, suc, ◌-◌, Bool, true, false, Option, none, some,
  List, [], ◌∷◌, ◌++◌, length, take, Run, done, panic, timeout, if◌then◌else◌,
}
use Prim.Native.String.{String}

pub data Result {ℓ} (A : Type ℓ) (E : Type ℓ) : Type ℓ where
  ok : A → Result A E
  err : E → Result A E

pub Result-cases {ℓ} :
    {A E : Type ℓ} (r : Result A E) → ((a : A) × (r ≡ ok a)) ⊎ ((e : E) × (r ≡ err e))
Result-cases (ok a) = inl (a, refl)
Result-cases (err e) = inr (e, refl)

abbrev pub map_err {ℓ} : {A E F : Type ℓ} → (E → F) → Result A E → Result A F
map_err f (ok a) = ok a
map_err f (err e) = err (f e)

-- `Option::ok_or`
abbrev pub ok_or {ℓ} : {A E : Type ℓ} → E → Option A → Result A E
ok_or e (some a) = ok a
ok_or e none = err e

-- The kinds that the program names; `unlisted` is any other.
pub data ErrorKind : Type 0 where
  not_found permission_denied connection_refused connection_reset connection_aborted : ErrorKind
  not_connected addr_in_use addr_not_available broken_pipe already_exists : ErrorKind
  would_block invalid_input invalid_data timed_out write_zero interrupted other : ErrorKind
  unexpected_eof : ErrorKind
  unlisted : ℕ → ErrorKind

pub record IoError : Type 0 where
  pub kind : ErrorKind
  pub message : String

pub data Host : Type 0 where
  v4 : ℕ → Host
  v6 : ℕ → ℕ → ℕ → Host

pub record SocketAddr : Type 0 where
  pub host : Host
  pub port : ℕ

unfoldable pub eq_host : Host → Host → Bool
eq_host (v4 a) (v4 b) = a == b
eq_host (v4 a) (v6 b f s) = false
eq_host (v6 a f s) (v4 b) = false
eq_host (v6 a f s) (v6 b g t) = a == b && f == g && s == t

-- The derived `==` of `SocketAddr`.
unfoldable pub eq_addr : SocketAddr → SocketAddr → Bool
eq_addr a b = eq_host a.host b.host && a.port == b.port

unfoldable pub set_port : SocketAddr → ℕ → SocketAddr
set_port a p = record a { port = p }

abbrev pub replicate {ℓ} : {A : Type ℓ} → ℕ → A → List A
replicate zero a = []
replicate (suc n) a = a ∷ replicate n a

-- `Vec::resize` with zeros.
unfoldable pub resize : ℕ → List ℕ → List ℕ
resize n l = take n (l ++ replicate (n - length l) 0)

-- `==` on `Vec<u8>`
abbrev pub eq_bytes : List ℕ → List ℕ → Bool
eq_bytes [] [] = true
eq_bytes [] (b ∷ bs) = false
eq_bytes (a ∷ xs) [] = false
eq_bytes (a ∷ xs) (b ∷ bs) = a == b && eq_bytes xs bs

-- What a socket delivers next: a datagram with its sender, or an error of the system.
pub data Arrival : Type 0 where
  datagram : List ℕ → SocketAddr → Arrival
  failure : IoError → Arrival

-- `send_faults` tells, for each of the next sends, whether it fails.
pub record UdpSocket : Type 0 where
  pub inbox : List Arrival
  pub outbox : List (List ℕ × SocketAddr)
  pub send_faults : List (Option IoError)

abbrev timeout_error : IoError
timeout_error = record { kind = would_block; message = "Resource temporarily unavailable" }

-- `recv_from` into a buffer of `n` zeros: the buffer, the number of bytes received and their source.
-- A longer datagram is cut off.
pub receive : ℕ → Arrival → Result (List ℕ × ℕ × SocketAddr) IoError
receive n (datagram bytes src) =
    ok (take n (bytes ++ replicate (n - length bytes) 0), length (take n bytes), src)
receive n (failure e) = err e

unfoldable pub arrive : ℕ → List Arrival → Result (List ℕ × ℕ × SocketAddr) IoError × List Arrival
unfolding receive
arrive n [] = (err timeout_error, [])
arrive n (a ∷ rest) = (receive n a, rest)

unfoldable pub recv_from : ℕ → UdpSocket → Result (List ℕ × ℕ × SocketAddr) IoError × UdpSocket
unfolding arrive
recv_from n s = let (r, rest) = arrive n s.inbox in (r, record s { inbox = rest })

send_with :
    List ℕ → SocketAddr → UdpSocket → List (Option IoError) → Result (Unit {0}) IoError × UdpSocket
send_with bytes to s [] = (ok tt, record s { outbox = s.outbox ++ (bytes, to) ∷ [] })
send_with bytes to s (none ∷ rest) =
    (ok tt, record s { outbox = s.outbox ++ (bytes, to) ∷ []; send_faults = rest })
send_with bytes to s (some e ∷ rest) = (err e, record s { send_faults = rest })

unfoldable pub send_to : List ℕ → SocketAddr → UdpSocket → Result (Unit {0}) IoError × UdpSocket
unfolding send_with
send_to bytes to s = send_with bytes to s s.send_faults

-- The sending end of a channel, with what went through it and whether the receiver still exists.
pub record Sender {ℓ} (M : Type ℓ) : Type ℓ where
  pub sent : List M
  pub receiver_alive : Bool

unfoldable pub send {ℓ} : {M : Type ℓ} → M → Sender M → Result (Unit {ℓ}) M × Sender M
send m s = if s.receiver_alive then (ok tt, record s { sent = s.sent ++ m ∷ [] }) else (err m, s)

pub data TryRecv {ℓ} (M : Type ℓ) : Type ℓ where
  message : M → TryRecv M
  empty disconnected : TryRecv M

-- The receiving end: what is queued, and whether a sender still exists.
pub record Receiver {ℓ} (M : Type ℓ) : Type ℓ where
  pub queue : List M
  pub sender_alive : Bool

next_queue : {M : Type 0} → Bool → List M → Run (Option M × List M)
next_queue alive (m ∷ ms) = done (some m, ms)
next_queue true [] = timeout
next_queue false [] = done (none, [])

-- One `next` of `iter`: the next message, or the end when all senders are gone. With a sender and no
-- message it waits, which is `timeout` here.
unfoldable pub next_message : {M : Type 0} → Receiver M → Run (Option M × Receiver M)
unfolding next_queue
next_message r = elim (next_queue r.sender_alive r.queue) [
  | done (answer, rest) ↦ done (answer, record r { queue = rest })
  | panic ↦ panic
  | timeout ↦ timeout
]

try_queue {ℓ} : {M : Type ℓ} → Bool → List M → TryRecv M × List M
try_queue alive (m ∷ ms) = (message m, ms)
try_queue true [] = (empty, [])
try_queue false [] = (disconnected, [])

unfoldable pub try_recv {ℓ} : {M : Type ℓ} → Receiver M → TryRecv M × Receiver M
unfolding try_queue
try_recv r =
    let (answer, rest) = try_queue r.sender_alive r.queue in (answer, record r { queue = rest })

-- ===== src/Std/Tcp.antt =====
-- TCP streams of the Rust standard library: a stream is the record of what the peer will send and of
-- what was written to it.
pub mod Laws
use game_network.Prelude.{ℕ, zero, suc, Bool, true, false, List, [], ◌∷◌, ◌++◌, length, take, drop}
use game_network.Std.{Result, ok, err, ErrorKind, IoError, write_zero, interrupted, SocketAddr}

-- What the peer's end does next: bytes that arrive together, or an error of the system.
pub data Segment : Type 0 where
  bytes : List ℕ → Segment
  failure : IoError → Segment

-- How the system takes a write: so many of its bytes, at least one of them where there are any, or none
-- and an error.
pub data Writing : Type 0 where
  takes : ℕ → Writing
  fails : IoError → Writing

-- `peer` answers `peer_addr`; `writings` are the answers to the next writes, all later ones take
-- everything. When `incoming` is used up the peer has closed its end.
pub record TcpStream : Type 0 where
  pub peer : Result SocketAddr IoError
  pub incoming : List Segment
  pub outgoing : List ℕ
  pub writings : List Writing

-- What stays of a segment behind the bytes that were read.
abbrev leave : List ℕ → List Segment → List Segment
leave [] rest = rest
leave (b ∷ bs) rest = bytes (b ∷ bs) ∷ rest

-- A read into a buffer of `n` places. Into no places it reads no bytes, and says so by 0.
abbrev fetch : ℕ → List Segment → Result (List ℕ) IoError × List Segment
fetch n [] = (ok [], [])
fetch n (failure e ∷ rest) = (err e, rest)
fetch n (bytes bs ∷ rest) = (ok (take n bs), leave (drop n bs) rest)

-- `read`: the bytes that were put into the buffer, as many as it returns.
unfoldable pub read : ℕ → TcpStream → Result (List ℕ) IoError × TcpStream
read n s = let (answer, rest) = fetch n s.incoming in (answer, record s { incoming = rest })

-- The bytes behind the `n` that were taken.
write_with : List ℕ → List Writing → TcpStream → Result ℕ IoError × TcpStream
write_with bs [] s = (ok (length bs), record s { outgoing = s.outgoing ++ bs; writings = [] })
write_with bs (takes n ∷ rest) s =
    (ok (length (take n bs)), record s { outgoing = s.outgoing ++ take n bs; writings = rest })
write_with bs (fails e ∷ rest) s = (err e, record s { writings = rest })

-- `write` may take only the first of the bytes.
unfoldable pub write : List ℕ → TcpStream → Result ℕ IoError × TcpStream
unfolding write_with
write bs s = write_with bs s.writings s

abbrev zero_error : IoError
zero_error = record { kind = write_zero; message = "failed to write whole buffer" }

abbrev is_interrupted : ErrorKind → Bool
is_interrupted interrupted = true
is_interrupted _ = false

-- `write_all` writes on until all bytes are taken, also after an interruption.
write_rest : List ℕ → List Writing → TcpStream → Result (Unit {0}) IoError × TcpStream
write_rest [] ws s = (ok tt, record s { writings = ws })
write_rest (b ∷ bs) [] s = (ok tt, record s { outgoing = s.outgoing ++ b ∷ bs; writings = [] })
write_rest (b ∷ bs) (takes zero ∷ ws) s = (err zero_error, record s { writings = ws })
write_rest (b ∷ bs) (takes (suc n) ∷ ws) s =
    write_rest (drop n bs) ws (record s { outgoing = s.outgoing ++ b ∷ take n bs })
write_rest (b ∷ bs) (fails e ∷ ws) s = elim (is_interrupted e.kind) [
  | true ↦ write_rest (b ∷ bs) ws s
  | false ↦ (err e, record s { writings = ws })
]

unfoldable pub write_all : List ℕ → TcpStream → Result (Unit {0}) IoError × TcpStream
unfolding write_rest
write_all bs s = write_rest bs s.writings s

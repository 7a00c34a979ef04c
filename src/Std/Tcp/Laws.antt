-- ===== src/Std/Tcp/Laws.antt =====
-- What a read into no buffer gives, and what `write` and `write_all` leave on a stream.
use game_network.Prelude.{
  ℕ, zero, suc, ◌≡◌, refl, ap, sym, ◌∙◌, ◌⊎◌, inl, inr, List, [], ◌∷◌, ◌++◌, append_assoc,
  append-nil, length, take, drop,
}
use game_network.Std.{Result, ok, err, IoError}
use game_network.Std.Tcp.{
  TcpStream, Segment, bytes, failure, Writing, takes, fails, fetch, read, write, write_all,
  write_rest,
}

-- A read into no buffer reports no bytes, or an error, and leaves what was written alone.
pub read_none :
    (s : TcpStream)
    → (l : List Segment) × ((read 0 s ≡ (ok [], record s { incoming = l }))
        ⊎ ((e : IoError) × (read 0 s ≡ (err e, record s { incoming = l }))))
unfolding read
read_none s = answer s.incoming
  where
    answer :
        (l : List Segment)
        → let (a, rest) = fetch 0 l in
          (m : List Segment) × ((◌≡◌ {A = Result (List ℕ) IoError × TcpStream}
              (a, record s { incoming = rest })
              (ok [], record s { incoming = m }))
            ⊎ ((e : IoError) × (◌≡◌ {A = Result (List ℕ) IoError × TcpStream}
                  (a, record s { incoming = rest })
                  (err e, record s { incoming = m }))))
    answer [] = ([], inl refl)
    answer (bytes bs ∷ rest) = (_, inl refl)
    answer (failure e ∷ rest) = (rest, inr (e, refl))

-- Writes that each take at least one byte.
abbrev pub IsWilling : List Writing → Type 0
IsWilling [] = Unit {0}
IsWilling (takes zero ∷ ws) = ⊥
IsWilling (takes (suc n) ∷ ws) = IsWilling ws
IsWilling (fails e ∷ ws) = ⊥

take-drop : (n : ℕ) (l : List ℕ) → take n l ++ drop n l ≡ l
take-drop zero l = refl
take-drop (suc n) [] = refl
take-drop (suc n) (x ∷ l) = ap (λ t. x ∷ t) (take-drop n l)

-- The stream behind bytes that were written.
abbrev pub written : TcpStream → List ℕ → List Writing → TcpStream
written s bs ws = record s { outgoing = s.outgoing ++ bs; writings = ws }

write_rest_lem :
    (bs : List ℕ) (ws : List Writing) (s : TcpStream)
    → IsWilling ws
    → (ws' : List Writing) × (write_rest bs ws s ≡ (ok tt, written s bs ws')) × IsWilling ws'
unfolding write_rest
write_rest_lem [] ws s h = (
  ws,
  ap (λ t. (ok tt, record s { outgoing = t; writings = ws })) (sym (append-nil s.outgoing)),
  h,
)
write_rest_lem (b ∷ bs) [] s h = ([], refl, tt)
write_rest_lem (b ∷ bs) (takes zero ∷ ws) s h = absurd h
write_rest_lem (b ∷ bs) (takes (suc n) ∷ ws) s h =
    let (ws', e, h') =
      write_rest_lem (drop n bs) ws (record s { outgoing = s.outgoing ++ b ∷ take n bs }) h in
    (
      ws',
      e
          ∙ ap (λ t. (ok tt, record s { outgoing = t; writings = ws' }))
              (append_assoc s.outgoing (b ∷ take n bs) (drop n bs)
                ∙ ap (λ t. s.outgoing ++ b ∷ t) (take-drop n bs)),
      h',
    )
write_rest_lem (b ∷ bs) (fails e ∷ ws) s h = absurd h

-- `write_all` writes every byte, in however small parts the system takes them.
pub write_all_lem :
    (bs : List ℕ) (s : TcpStream)
    → IsWilling s.writings
    → (ws : List Writing) × (write_all bs s ≡ (ok tt, written s bs ws)) × IsWilling ws
unfolding write_all
write_all_lem bs s h = write_rest_lem bs s.writings s h

-- `write` takes all bytes when the system is not short of room.
pub write_lem :
    (bs : List ℕ) (s : TcpStream) → s.writings ≡ [] → write bs s ≡ (ok (length bs), written s bs [])
unfolding write
write_lem bs s h = rw h

-- ===== src/Compressed.antt =====
-- src/bitvec.rs: `CompressedBitVec`, `compress` and `decompress`. A `VecDeque` is a list.
pub mod Format
pub mod Encode
pub mod Step
pub mod Readings
pub mod Decode
pub mod RoundTrip
pub mod Oversized
pub mod Malformed
pub mod Sizes
mod UnitTests
mod Tests
use game_network.Prelude.{
  ℕ, zero, suc, ◌+◌, Bool, true, false, not, Option, none, some, List, [], ◌∷◌, ◌++◌, ltb, ◌==◌,
  if◌then◌else◌, Run, done, timeout, ◌>>=◌, Build, add_usize,
}
use game_network.BitVec.{BitVec, new, eq, len, push, append, get, range}

pub record CompressedBitVec : Type 0 where
  pub bits : BitVec
  pub element_size : ℕ

-- `previous.is_none() || *element != *previous.unwrap()`
unfoldable pub is_fresh : Option BitVec → BitVec → Bool
is_fresh none element = true
is_fresh (some previous) element = not (eq element previous)

-- `*element == *previous.unwrap()`, reached only where there is a previous element.
unfoldable pub is_repeat : Option BitVec → BitVec → Bool
is_repeat none element = false
is_repeat (some previous) element = eq element previous

module _ (build : Build) where
  -- The body of the loop of `compress` behind the length test: the new `previous` and `payload`.
  unfoldable pub compress_step : Option BitVec → BitVec → BitVec → Run (Option BitVec × BitVec)
  compress_step previous payload element =
      if is_fresh previous element
      then (do
        marked ← push build payload true
        stored ← append build marked element
        done (some element, stored))
      else if is_repeat previous element
      then (do marked ← push build payload false; done (previous, marked))
      else done (previous, payload)

  pub compress_loop : ℕ → Option BitVec → BitVec → List BitVec → Run (Option BitVec)
  compress_loop element_size previous payload [] = done (some payload)
  compress_loop element_size previous payload (element ∷ seq) = do
    size ← len build element
    if not (size == element_size) then done none else (do
      (previous', payload') ← compress_step previous payload element
      compress_loop element_size previous' payload' seq)

  unfoldable pub compress_bits : ℕ → List BitVec → Run (Option BitVec)
  unfolding compress_loop
  compress_bits element_size seq = compress_loop element_size none new seq

  -- `seq.front().map_or(0, |element| element.len())`
  pub front_len : List BitVec → Run ℕ
  front_len [] = done 0
  front_len (element ∷ seq) = len build element

  unfoldable pub compress : List BitVec → Run (Option CompressedBitVec)
  unfolding front_len
  compress seq = do
    element_size ← front_len seq
    bits ← compress_bits element_size seq
    done (elim bits [
      | some payload ↦ some (record { bits = payload; element_size = element_size })
      | none ↦ none
    ])

  -- The `while` loop of `decompress`, on fuel.
  unfoldable pub decompress_loop :
      ℕ → ℕ → BitVec → ℕ → Option BitVec → List BitVec → Run (Option (List BitVec))
  decompress_loop zero element_size payload idx previous seq = timeout
  decompress_loop (suc fuel) element_size payload idx previous seq = do
    size ← len build payload
    if ltb idx size
        then (do
          item ← get build payload idx
          elim item [
            | some true ↦ (do
              start ← add_usize build idx 1
              past ← add_usize build idx element_size
              end ← add_usize build past 1
              found ← range build payload start end
              elim found [
                | some element ↦ (do
                  width ← add_usize build element_size 1
                  idx' ← add_usize build idx width
                  decompress_loop fuel element_size payload idx' (some element)
                      (seq ++ element ∷ []))
                | none ↦ done none
              ])
            | some false ↦ elim previous [
              | some element ↦ (do
                idx' ← add_usize build idx 1
                decompress_loop fuel element_size payload idx' (some element) (seq ++ element ∷ []))
              | none ↦ done none
            ]
            | none ↦ done none
          ])
        else done (some seq)

  unfoldable pub decompress_bits : ℕ → ℕ → BitVec → Run (Option (List BitVec))
  unfolding decompress_loop
  decompress_bits fuel element_size payload = decompress_loop fuel element_size payload 0 none []

  unfoldable pub decompress : ℕ → CompressedBitVec → Run (Option (List BitVec))
  decompress fuel c = decompress_bits fuel c.element_size c.bits

-- ===== src/Compressed/UnitTests.antt =====
-- The tests in src/bitvec.rs of `compress` and `decompress`, statement by statement.
use game_network.Prelude.{
  ◌≡◌, refl, ◌&&◌, Bool, true, false, List, [], ◌∷◌, Run, done, assert, unwrap, ◌>>=◌, Build, debug,
  release, add_u8, add_usize, sub_usize, mul_usize,
}
use game_network.BitVec.{BitVec, from_slice, push, get, len, range, append, eq, one_shl, or_last}
use game_network.Compressed.{
  compress, compress_bits, compress_step, compress_loop, front_len, is_fresh, is_repeat, decompress,
  decompress_bits, decompress_loop,
}

-- `==` on `VecDeque<BitVec>`
abbrev eq_seq : List BitVec → List BitVec → Bool
eq_seq [] [] = true
eq_seq [] (c ∷ cs) = false
eq_seq (b ∷ bs) [] = false
eq_seq (b ∷ bs) (c ∷ cs) = eq b c && eq_seq bs cs

-- `decompress` is given fuel for a payload of five bits.
module _ (build : Build) where
  compress_twice : Run (Unit {0})
  compress_twice = do
    bits ← from_slice build (true ∷ true ∷ false ∷ [])
    compressed ← compress_bits build 3 (bits ∷ bits ∷ [])
    comp ← unwrap compressed
    expected ← from_slice build (true ∷ true ∷ true ∷ false ∷ false ∷ [])
    assert (eq expected comp)

  decompress_twice : Run (Unit {0})
  decompress_twice = do
    comp ← from_slice build (true ∷ true ∷ true ∷ false ∷ false ∷ [])
    bits ← from_slice build (true ∷ true ∷ false ∷ [])
    decompressed ← decompress_bits build 6 3 comp
    decomp ← unwrap decompressed
    assert (eq_seq (bits ∷ bits ∷ []) decomp)

  round_trip_twice : Run (Unit {0})
  round_trip_twice = do
    bits ← from_slice build (true ∷ true ∷ false ∷ [])
    compressed ← compress build (bits ∷ bits ∷ [])
    obj ← unwrap compressed
    decompressed ← decompress build 6 obj
    decomp ← unwrap decompressed
    assert (eq_seq (bits ∷ bits ∷ []) decomp)

compress_twice_passes : (compress_twice debug ≡ done tt) × (compress_twice release ≡ done tt)
unfolding compress_twice from_slice compress_bits compress_step compress_loop is_fresh is_repeat
    append range eq len get push one_shl or_last add_u8 add_usize sub_usize mul_usize
compress_twice_passes = (refl, refl)

decompress_twice_passes : (decompress_twice debug ≡ done tt) × (decompress_twice release ≡ done tt)
unfolding decompress_twice from_slice decompress_bits decompress_loop append range eq len get push
    one_shl or_last add_u8 add_usize sub_usize mul_usize
decompress_twice_passes = (refl, refl)

round_trip_twice_passes : (round_trip_twice debug ≡ done tt) × (round_trip_twice release ≡ done tt)
unfolding round_trip_twice from_slice compress compress_bits compress_step compress_loop front_len
    is_fresh is_repeat decompress decompress_bits decompress_loop append range eq len get push
    one_shl or_last add_u8 add_usize sub_usize mul_usize
round_trip_twice_passes = (refl, refl)

-- ===== src/Compressed/Tests.antt =====
-- Compression and decompression at concrete values; the list is that of the round trip test of
-- src/bitvec.rs.
use game_network.Prelude.{
  ◌≡◌, refl, none, some, [], ◌∷◌, arith, length, done, timeout, debug, release, ◌≤◌, ◌+◌, ◌*◌,
  panic, ◌↔◌, ◌≢◌, List, Option,
}
use game_network.Prelude.Word.{word_bits}
use game_network.Samples.{three_bits, other_three, one_bit}
use game_network.BitVec.View.{bits, IsValid}
use game_network.Compressed.{CompressedBitVec, compress, decompress}
use game_network.Compressed.Format.{AreSized, Encodes}
use game_network.Compressed.Readings.{Decides}
use game_network.Compressed.Encode.{compress-Encodes}
use game_network.Compressed.Decode.{decompress-Decides}
use game_network.Compressed.RoundTrip.{decompress-compress}
use game_network.Compressed.Malformed.{decompress_panics_iff}
use game_network.BitVec.{BitVec}
use game_network.Compressed.Oversized.{usize_max, decompress_never_returns}

three_bits-IsValid : IsValid three_bits
three_bits-IsValid = (omega arith, omega arith)

other_three-IsValid : IsValid other_three
other_three-IsValid = (omega arith, omega arith)

one_bit-IsValid : IsValid one_bit
one_bit-IsValid = (omega arith, omega arith)

twice : AreSized 3 (three_bits ∷ three_bits ∷ [])
unfolding word_bits
twice = ((three_bits-IsValid, refl), ((three_bits-IsValid, refl), tt))

-- `true` with three bits, and `false`
abbrev packed : CompressedBitVec
packed = record { bits = record { storage = 7 ∷ []; len_of_last = 5 }; element_size = 3 }

decompress-compress_example :
    (c : CompressedBitVec) × (compress debug (three_bits ∷ three_bits ∷ []) ≡ done (some c))
    × (decompress debug 9 c ≡ done (some (three_bits ∷ three_bits ∷ [])))
decompress-compress_example =
    decompress-compress debug 9 3 (three_bits ∷ three_bits ∷ []) twice (omega arith) (omega arith)

decompress-Decides_example :
    Decides packed.element_size none (bits packed.bits) [] (decompress release 6 packed)
unfolding word_bits
decompress-Decides_example =
    decompress-Decides release 6 packed (omega arith, omega arith) (omega arith) (omega arith)

compress-Encodes_example :
    (c : CompressedBitVec) × (compress debug (three_bits ∷ three_bits ∷ []) ≡ done (some c))
    × IsValid c.bits
    × AreSized c.element_size (three_bits ∷ three_bits ∷ [])
    × Encodes c.element_size none (bits c.bits) (three_bits ∷ three_bits ∷ [])
    × (length (bits c.bits) ≤ length (three_bits ∷ three_bits ∷ []) * (3 + 1))
    × (c.element_size ≤ 3)
compress-Encodes_example =
    compress-Encodes debug 3 (three_bits ∷ three_bits ∷ []) twice (omega arith)

-- The element size of a message that anyone may send.
decompress_never_returns_example :
    decompress release 100 (record { bits = one_bit; element_size = usize_max }) ≡ timeout
unfolding word_bits
decompress_never_returns_example =
    decompress_never_returns one_bit one_bit-IsValid (omega arith) [] refl 100

abbrev wordless : CompressedBitVec
wordless = record { bits = record { storage = []; len_of_last = 5 }; element_size = 3 }

-- A payload without words can be deserialised, though no method makes it.
decompress_panics_iff_example :
    ((decompress debug 6 wordless ≡ panic) ↔ (wordless.bits.storage ≡ []))
    × ((wordless.bits.storage ≢ [])
        → (o : Option (List BitVec)) × (decompress debug 6 wordless ≡ done o))
decompress_panics_iff_example = decompress_panics_iff wordless 6 (omega arith) (omega arith)

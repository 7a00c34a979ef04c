-- ===== src/Compressed/RoundTrip.antt =====
-- `decompress` of src/bitvec.rs after `compress`.
use game_network.Prelude.{
  ℕ, ◌+◌, ◌*◌, ◌<◌, ◌≡◌, ◌∙◌, ap, inl, inr, none, some, List, arith, length, done, Build, usize_mod,
}
use game_network.BitVec.{BitVec}
use game_network.BitVec.View.{bits, IsValid}
use game_network.Compressed.{CompressedBitVec, compress, decompress}
use game_network.Compressed.Format.{Encodes, AreSized}
use game_network.Compressed.Encode.{compress-Encodes}
use game_network.Compressed.Readings.{Encodes-unique}
use game_network.Compressed.Decode.{decompress-Decides}

-- A well-formed payload that encodes these elements is decompressed to them, once the fuel exceeds
-- its length and its sizes fit a `usize`.
pub decompress-Encodes :
    (build : Build) (fuel : ℕ) (c : CompressedBitVec) (elements : List BitVec)
    → IsValid c.bits
    → length (bits c.bits) + c.element_size < usize_mod
    → length (bits c.bits) < fuel
    → Encodes c.element_size none (bits c.bits) elements
    → decompress build fuel c ≡ done (some elements)
decompress-Encodes build fuel c elements v fits enough enc =
    elim (decompress-Decides build fuel c v fits enough) [
      | inl (found, runs, enc') ↦
          runs
          ∙ ap (λ t. done (some t))
              (Encodes-unique c.element_size none (bits c.bits) found elements enc' enc)
      | inr (runs, never) ↦ absurd (never elements enc)
    ]

-- For a list of well-formed `BitVec`s that all have `size` bits, whose compressed bits (at most
-- `length seq * (size + 1)`) plus `size` are a `usize` and fewer than the fuel, `compress` returns
-- a value in either build, and `decompress` of that value ends and returns exactly the list.
pub decompress-compress :
    (build : Build) (fuel size : ℕ) (seq : List BitVec)
    → AreSized size seq
    → length seq * (size + 1) + size < usize_mod
    → length seq * (size + 1) < fuel
    → (c : CompressedBitVec) × (compress build seq ≡ done (some c))
      × (decompress build fuel c ≡ done (some seq))
decompress-compress build fuel size seq sized fits enough =
    let (c, runs, v, sized', enc, small, bound) =
      compress-Encodes build size seq sized (omega arith) in
    (c, runs, decompress-Encodes build fuel c seq v (omega arith) (omega arith) enc)

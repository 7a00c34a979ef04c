-- ===== src/Control/Transfer.antt =====
-- A controller sequence of src/control.rs sent in its compressed form.
use game_network.BitVec.View.{bits}
use game_network.Compressed.Sizes.{IsShort, first_size, compress-cases}
use game_network.Prelude.{
  none, suc, ◌⊎◌, inl, inr, All, ℕ, ◌+◌, ◌*◌, ◌<◌, ◌≡◌, length, some, done, Build, usize_mod,
}
use game_network.Compressed.Format.{AreSized}
use game_network.Compressed.RoundTrip.{decompress-compress}
use game_network.Control.{
  ControllerSequence, CompressedControllerSequence, to_compressed, to_controller_sequence,
}

-- For a controller sequence of well-formed states that all have `size` bits, where
-- `length c.seq * (size + 1)` plus `size` is a `usize` and the product is below the fuel,
-- `to_compressed` returns a value, and `to_controller_sequence` returns from it the sequence, start
-- tick and all.
pub to_controller_sequence-to_compressed :
    (build : Build) (fuel size : ℕ) (c : ControllerSequence)
    → AreSized size c.seq
    → length c.seq * (size + 1) + size < usize_mod
    → length c.seq * (size + 1) < fuel
    → (sent : CompressedControllerSequence) × (to_compressed build c ≡ done (some sent))
      × (to_controller_sequence build fuel sent ≡ done (some c))
unfolding to_compressed to_controller_sequence
to_controller_sequence-to_compressed build fuel size c sized fits enough =
    let (comp, runs, back) = decompress-compress build fuel size c.seq sized fits enough in
    (record { start_tick = c.start_tick; comp_seq = comp }, rw runs, rw back)

-- For a controller sequence of well-formed states of whatever lengths, each a `usize`, where
-- `length c.seq * (n + 1) + n` is a `usize` for the first state's number of bits `n`: either all
-- states have `n` bits, then `to_compressed` returns a value, and `to_controller_sequence`, with
-- any fuel above the number of bits of its payload, returns from it the sequence, start tick and
-- all; or not all have, then `to_compressed` returns `None`.
pub to_compressed-cases :
    (build : Build) (more : ℕ) (c : ControllerSequence)
    → All IsShort c.seq
    → length c.seq * (first_size c.seq + 1) + first_size c.seq < usize_mod
    → (AreSized (first_size c.seq) c.seq
        × (sent : CompressedControllerSequence) × (to_compressed build c ≡ done (some sent))
        × (to_controller_sequence build (suc (length (bits sent.comp_seq.bits) + more)) sent
            ≡ done (some c)))
      ⊎ ((¬ AreSized (first_size c.seq) c.seq) × (to_compressed build c ≡ done none))
unfolding to_compressed to_controller_sequence
to_compressed-cases build more c short fits = elim (compress-cases build more c.seq short fits) [
  | inl (sized, comp, runs, back) ↦
      inl (sized, record { start_tick = c.start_tick; comp_seq = comp }, rw runs, rw back)
  | inr (mixed, runs) ↦ inr (mixed, rw runs)
]

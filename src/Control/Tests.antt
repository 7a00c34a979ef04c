-- ===== src/Control/Tests.antt =====
-- The operations of src/control.rs at concrete sequences.
use game_network.Prelude.{
  none, suc, ◌⊎◌, ◌≡◌, some, [], ◌∷◌, ◌++◌, arith, length, done, debug, drop, ◌-◌, ◌+◌,
}
use game_network.Prelude.Word.{word_bits}
use game_network.Samples.{three_bits, other_three}
use game_network.Control.{
  ControllerSequence, CompressedControllerSequence, append, remove_till_tick, to_compressed,
  to_controller_sequence,
}
use game_network.Control.Ticks.{taken, append-taken, remove_till_tick_inside}
use game_network.Control.Transfer.{to_compressed-cases}
use game_network.BitVec.View.{bits}
use game_network.Compressed.Format.{AreSized}
use game_network.Compressed.Sizes.{IsShort, first_size}

abbrev first_two : ControllerSequence
first_two = record { start_tick = 0; seq = three_bits ∷ other_three ∷ [] }

abbrev next_three : ControllerSequence
next_three = record { start_tick = 2; seq = three_bits ∷ three_bits ∷ other_three ∷ [] }

append-taken_example :
    append debug first_two next_three
    ≡ done (record first_two { seq = first_two.seq ++ taken first_two next_three })
append-taken_example = append-taken debug first_two next_three (omega arith) (omega arith)

remove_till_tick_inside_example :
    (c : ControllerSequence) × (remove_till_tick debug next_three 3 ≡ done c)
    × (length c.seq ≡ 3 - next_three.start_tick)
    × (c.seq ≡ drop (next_three.start_tick + length next_three.seq - 3) next_three.seq)
    × (c.start_tick ≡ next_three.start_tick + length next_three.seq + 1)
remove_till_tick_inside_example =
    remove_till_tick_inside debug next_three 3 (omega arith) (omega arith) (omega arith)

-- Fuel for thirteen bits is enough for ten equal states; the worst case would be forty bits.
abbrev ten : ControllerSequence
ten = record {
  start_tick = 2;
  seq =
      three_bits ∷ three_bits ∷ three_bits ∷ three_bits ∷ three_bits ∷ three_bits ∷ three_bits
      ∷ three_bits ∷ three_bits ∷ three_bits ∷ [];
}

three_bits-IsShort : IsShort three_bits
unfolding word_bits
three_bits-IsShort = ((omega arith, omega arith), omega arith)

to_compressed-cases_example :
    (AreSized (first_size ten.seq) ten.seq
      × (sent : CompressedControllerSequence) × (to_compressed debug ten ≡ done (some sent))
      × (to_controller_sequence debug (suc (length (bits sent.comp_seq.bits) + 0)) sent
          ≡ done (some ten)))
    ⊎ ((¬ AreSized (first_size ten.seq) ten.seq) × (to_compressed debug ten ≡ done none))
unfolding word_bits
to_compressed-cases_example =
    let h = three_bits-IsShort in
    to_compressed-cases debug 0 ten (h, (h, (h, (h, (h, (h, (h, (h, (h, (h, tt))))))))))
      (omega arith)

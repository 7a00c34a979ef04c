-- ===== src/BitVec/Tests.antt =====
-- The theorems on `BitVec` of src/bitvec.rs at concrete values.
use game_network.BitVec.{from_slice, BitVec, push, append, range, get, eq}
use game_network.Prelude.{
  Bool, List, ◌≡◌, ◌↔◌, true, some, [], ◌∷◌, ◌++◌, arith, done, debug, release, take, drop,
  get_elem?, ◌-◌,
}
use game_network.Prelude.Word.{word_bits}
use game_network.Samples.{three_bits, other_three, full_word}
use game_network.BitVec.View.{bits, IsValid, Holds}
use game_network.BitVec.Push.{push_lem}
use game_network.BitVec.Get.{get_lem}
use game_network.BitVec.Loops.{append_lem, range_inside}
use game_network.BitVec.Lists.{WellFormed, listed, listed-IsEquiv}
use mathlib.Core.Equiv.{IsEquiv}
use game_network.BitVec.Built.{Built, Built_iff_IsValid}

three_bits-IsValid : IsValid three_bits
three_bits-IsValid = (omega arith, omega arith)

other_three-IsValid : IsValid other_three
other_three-IsValid = (omega arith, omega arith)

full_word-IsValid : IsValid full_word
full_word-IsValid = (omega arith, omega arith)

-- The 33rd bit goes into a second word.
push_lem_example : Holds (push debug full_word true) (bits full_word ++ true ∷ [])
push_lem_example = push_lem debug full_word true full_word-IsValid

get_lem_example : get debug three_bits 2 ≡ done (get_elem? (bits three_bits) 2)
unfolding word_bits
get_lem_example = get_lem debug three_bits 2 three_bits-IsValid (omega arith)

append_lem_example : Holds (append debug full_word three_bits) (bits full_word ++ bits three_bits)
unfolding word_bits
append_lem_example =
    append_lem debug three_bits three_bits-IsValid (omega arith) full_word full_word-IsValid

listed-IsEquiv_example :
    IsEquiv listed
    × ((xs : List Bool) → (b : WellFormed) × (from_slice release xs ≡ done b.0) × (listed b ≡ xs))
    × ((b c : WellFormed) → (eq b.0 c.0 ≡ true) ↔ (listed b ≡ listed c))
listed-IsEquiv_example = listed-IsEquiv release

Built_iff_IsValid_example : Built debug full_word ↔ IsValid full_word
Built_iff_IsValid_example = Built_iff_IsValid debug full_word

range_inside_example :
    (c : BitVec) × (range debug three_bits 1 3 ≡ done (some c))
    × IsValid c
    × (bits c ≡ take (3 - 1) (drop 1 (bits three_bits)))
unfolding word_bits
range_inside_example =
    range_inside debug three_bits three_bits-IsValid (omega arith) 1 3 (omega arith) (omega arith)

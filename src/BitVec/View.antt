-- ===== src/BitVec/View.antt =====
-- The list of bits that a `BitVec` of src/bitvec.rs stands for, and when it is well formed.
use game_network.Prelude.{
  ℕ, ◌+◌, ◌-◌, ◌*◌, ◌^◌, ◌≤◌, ◌<◌, ◌≡◌, Bool, List, [], ◌∷◌, ◌++◌, arith, length, length-append,
  Run, done,
}
use game_network.Prelude.Word.{word_bits, length-word_bits}
use game_network.BitVec.{BitVec}

abbrev pub bits_in : List ℕ → ℕ → List Bool
bits_in [] l = []
bits_in (w ∷ []) l = word_bits l w
bits_in (w ∷ v ∷ ws) l = word_bits 32 w ++ bits_in (v ∷ ws) l

abbrev pub bits : BitVec → List Bool
bits b = bits_in b.storage b.len_of_last

-- At least one word, all but the last full and the last with no bit set above those in use. Only
-- the first word may be empty.
abbrev pub IsPacked : List ℕ → ℕ → Type 0
IsPacked [] l = ⊥
IsPacked (w ∷ []) l = (l ≤ 32) × (w < 2 ^ l)
IsPacked (w ∷ v ∷ ws) l = (w < 2 ^ 32) × (1 ≤ l) × IsPacked (v ∷ ws) l

abbrev pub IsValid : BitVec → Type 0
IsValid b = IsPacked b.storage b.len_of_last

pub length-bits_in :
    (ws : List ℕ) (l : ℕ) → IsPacked ws l → length (bits_in ws l) ≡ 32 * (length ws - 1) + l
length-bits_in [] l v = absurd v
length-bits_in (w ∷ []) l v = omega (arith, length-word_bits l w)
length-bits_in (w ∷ x ∷ ws) l v = omega (
  arith,
  length-append (word_bits 32 w) (bits_in (x ∷ ws) l),
  length-word_bits 32 w,
  length-bits_in (x ∷ ws) l v.2,
)

-- The code returns a well-formed `BitVec` of these bits.
abbrev pub Holds : Run BitVec → List Bool → Type 0
Holds r xs = (b : BitVec) × (r ≡ done b) × IsValid b × (bits b ≡ xs)

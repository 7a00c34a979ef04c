-- ===== src/Compressed/Format.antt =====
-- The format of the payload of a `CompressedBitVec` of src/bitvec.rs, apart from the code that writes
-- and reads it.
use game_network.Prelude.{
  ℕ, ◌≡◌, ◌⊎◌, Bool, true, false, Option, some, List, [], ◌∷◌, ◌++◌, length, All,
}
use game_network.BitVec.{BitVec}
use game_network.BitVec.View.{bits, IsValid}

-- `elements` behind `previous` are written as `payload`: each is a one-bit with the element's `size`
-- bits, or a zero-bit if it is the one before it.
abbrev pub Encodes : ℕ → Option BitVec → List Bool → List BitVec → Type 0
Encodes size previous payload [] = payload ≡ []
Encodes size previous payload (element ∷ elements) =
    ((rest : List Bool) × IsValid element
      × (length (bits element) ≡ size)
      × (payload ≡ true ∷ (bits element ++ rest))
      × Encodes size (some element) rest elements)
    ⊎ ((rest : List Bool) × (previous ≡ some element)
        × (payload ≡ false ∷ rest)
        × Encodes size (some element) rest elements)

-- Well-formed elements that all have `size` bits.
abbrev pub AreSized : ℕ → List BitVec → Type 0
AreSized size = All (λ element. IsValid element × (length (bits element) ≡ size))

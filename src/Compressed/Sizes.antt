-- ===== src/Compressed/Sizes.antt =====
-- What `compress` of src/bitvec.rs does with well-formed elements of any lengths.
use native.Mathlib.Decide.{ℕ_discrete}
use mathlib.Core.Path.{subst}
use game_network.Prelude.{
  ℕ, suc, ◌+◌, ◌*◌, ◌<◌, ◌≡◌, ◌≢◌, ◌⊎◌, inl, inr, refl, ap, sym, ◌∙◌, length-append, none, some,
  List, [], ◌∷◌, ◌++◌, arith, length, done, Build, usize_mod, All,
}
use game_network.BitVec.{BitVec}
use game_network.BitVec.View.{bits, IsValid}
use game_network.Compressed.{CompressedBitVec, compress, decompress}
use game_network.Compressed.Format.{AreSized}
use game_network.Compressed.Encode.{compress-Encodes, compress_mixed}
use game_network.Compressed.RoundTrip.{decompress-Encodes}

-- Well-formed, with a number of bits that is a `usize`.
abbrev pub IsShort : BitVec → Type 0
IsShort b = IsValid b × (length (bits b) < usize_mod)

-- The number of bits of the first element.
abbrev pub first_size : List BitVec → ℕ
first_size [] = 0
first_size (b ∷ bs) = length (bits b)

-- The first element of another size than those before it.
abbrev HasOdd : ℕ → List BitVec → Type 0
HasOdd size seq =
    (before : List BitVec) × (odd : BitVec) × (after : List BitVec) × (seq ≡ before ++ odd ∷ after)
    × AreSized size before
    × IsShort odd
    × (length (bits odd) ≢ size)

sized_or_odd :
    (size : ℕ) (seq : List BitVec) → All IsShort seq → AreSized size seq ⊎ HasOdd size seq
sized_or_odd size [] short = inl tt
sized_or_odd size (b ∷ seq) ((v, fits), short) = elim (ℕ_discrete (length (bits b)) size) [
  | no differs ↦ inr ([], b, seq, refl, tt, (v, fits), differs)
  | yes same ↦ elim (sized_or_odd size seq short) [
    | inl sized ↦ inl ((v, same), sized)
    | inr (before, odd, after, e, sized, h, differs) ↦
        inr (b ∷ before, odd, after, ap (λ t. b ∷ t) e, ((v, same), sized), h, differs)
  ]
]

odd_not_sized :
    (size : ℕ) (before : List BitVec) (odd : BitVec) (after : List BitVec)
    → length (bits odd) ≢ size
    → ¬ AreSized size (before ++ odd ∷ after)
odd_not_sized size [] odd after differs sized = differs sized.0.1
odd_not_sized size (b ∷ before) odd after differs sized =
    odd_not_sized size before odd after differs sized.1

not_sized : (size : ℕ) (seq : List BitVec) → HasOdd size seq → ¬ AreSized size seq
not_sized size seq (before, odd, after, e, sized, h, differs) all =
    odd_not_sized size before odd after differs (subst (AreSized size) e all)

module _ (build : Build) where
  sized_back :
      (more size : ℕ) (seq : List BitVec)
      → AreSized size seq
      → length seq * (size + 1) + size < usize_mod
      → (c : CompressedBitVec) × (compress build seq ≡ done (some c))
        × (decompress build (suc (length (bits c.bits) + more)) c ≡ done (some seq))
  sized_back more size seq sized fits =
      let (c, runs, v, sized', enc, small, bound) =
        compress-Encodes build size seq sized (omega arith) in
      (
        c,
        runs,
        decompress-Encodes build (suc (length (bits c.bits) + more)) c seq v (omega arith)
            (omega arith) enc,
      )

  odd_fails :
      (seq : List BitVec)
      → All IsShort seq
      → HasOdd (first_size seq) seq
      → compress build seq ≡ done none
  odd_fails [] short (before, odd, after, e, sized, h, differs) =
      absurd (omega (arith, ap length e, length-append before (odd ∷ after)))
  odd_fails (b ∷ seq) short ([], odd, after, e, sized, h, differs) =
      absurd (differs (ap first_size (sym e)))
  odd_fails (b ∷ seq) short (c ∷ before, odd, after, e, sized, (v, fits), differs) =
      let same : length (bits b) ≡ length (bits c) = ap first_size e in
      ap (compress build) e
      ∙ compress_mixed build c before odd after (subst (λ n. AreSized n (c ∷ before)) same sized)
          (subst (λ n. n < usize_mod) same short.0.1) v fits (λ h. differs (h ∙ sym same))

  -- Well-formed elements whose worst case is a `usize`: if they all have as many bits as the first,
  -- they are compressed, and decompressed again with any fuel above the payload's length; otherwise
  -- `compress` is `None`.
  pub compress-cases :
      (more : ℕ) (seq : List BitVec)
      → All IsShort seq
      → length seq * (first_size seq + 1) + first_size seq < usize_mod
      → (AreSized (first_size seq) seq
          × (c : CompressedBitVec) × (compress build seq ≡ done (some c))
          × (decompress build (suc (length (bits c.bits) + more)) c ≡ done (some seq)))
        ⊎ ((¬ AreSized (first_size seq) seq) × (compress build seq ≡ done none))
  compress-cases more seq short fits = elim (sized_or_odd (first_size seq) seq short) [
    | inl sized ↦
        let (c, runs, back) = sized_back more (first_size seq) seq sized fits in
        inl (sized, c, runs, back)
    | inr odd ↦ inr (not_sized (first_size seq) seq odd, odd_fails seq short odd)
  ]

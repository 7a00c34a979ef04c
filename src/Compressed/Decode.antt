-- ===== src/Compressed/Decode.antt =====
-- `decompress` of src/bitvec.rs decides the format of `Encodes`.
use game_network.Prelude.{
  ℕ, zero, suc, ◌+◌, ◌≤◌, ◌<◌, ◌≡◌, sym, ap, ◌∙◌, inl, inr, Bool, true, false, Option, none, some,
  List, [], ◌∷◌, ◌++◌, append-nil, arith, length, get_elem?, get_elem?_of_lt, length-drop, drop,
  drop_of_get_elem?, drop_of_ge, done, Build, usize_mod,
}
use game_network.BitVec.{BitVec}
use game_network.BitVec.View.{bits, IsValid}
use game_network.BitVec.Get.{inside_or_not}
use game_network.Compressed.{CompressedBitVec, decompress_loop, decompress_bits, decompress}
use game_network.Compressed.Step.{
  loop_end, loop_orphan, loop_repeat, loop_fresh, loop_truncated, stored,
}
use game_network.Compressed.Readings.{Decides, Decides-fresh, Decides-repeat, truncated, orphan}

module _ (build : Build) (payload : BitVec) (v : IsValid payload) (size : ℕ)
    (fits : length (bits payload) + size < usize_mod) where
  abbrev Correct : ℕ → Type 0
  Correct fuel =
      (idx : ℕ) (previous : Option BitVec) (seq : List BitVec)
      → idx ≤ length (bits payload)
      → length (bits payload) < idx + fuel
      → Decides size previous (drop idx (bits payload)) seq
          (decompress_loop build fuel size payload idx previous seq)

  at_marker :
      (fuel idx : ℕ) (previous : Option BitVec) (seq : List BitVec)
      → Correct fuel
      → idx < length (bits payload)
      → length (bits payload) < idx + suc fuel
      → get_elem? (bits payload) idx ≡ some true
      → Decides size previous
          (true ∷ drop (suc idx) (bits payload))
          seq
          (decompress_loop build (suc fuel) size payload idx previous seq)
  at_marker fuel idx previous seq ih h enough at =
      elim (inside_or_not (idx + size) (length (bits payload))) [
        | inl inside ↦
            (let (element, found, w, sized, e) =
                stored build payload v size fits idx (omega arith) in
              rw (e, loop_fresh build payload v size fits fuel idx previous seq element h at found)
                (Decides-fresh size previous element (drop (idx + (size + 1)) (bits payload)) seq
                  (decompress_loop build fuel size payload (idx + (size + 1)) (some element)
                    (seq ++ element ∷ []))
                  w sized
                  (ih (idx + (size + 1)) (some element) (seq ++ element ∷ []) (omega arith)
                    (omega arith))))
        | inr past ↦ inr (
          loop_truncated build payload v size fits fuel idx previous seq h at (omega arith),
          λ elements.
              truncated size previous (drop (suc idx) (bits payload)) elements
                (omega (arith, length-drop (suc idx) (bits payload))),
        )
      ]

  at_zero :
      (fuel idx : ℕ) (previous : Option BitVec) (seq : List BitVec)
      → Correct fuel
      → idx < length (bits payload)
      → length (bits payload) < idx + suc fuel
      → get_elem? (bits payload) idx ≡ some false
      → Decides size previous
          (false ∷ drop (suc idx) (bits payload))
          seq
          (decompress_loop build (suc fuel) size payload idx previous seq)
  at_zero fuel idx none seq ih h enough at = inr (
    loop_orphan build payload v size fits fuel idx seq h at,
    λ elements. orphan size (drop (suc idx) (bits payload)) elements,
  )
  at_zero fuel idx (some element) seq ih h enough at =
      let next : suc idx ≡ idx + 1 = omega arith in
      rw (loop_repeat build payload v size fits fuel idx element seq h at, next)
        (Decides-repeat size element (drop (idx + 1) (bits payload)) seq
          (decompress_loop build fuel size payload (idx + 1) (some element) (seq ++ element ∷ []))
          (ih (idx + 1) (some element) (seq ++ element ∷ []) (omega arith) (omega arith)))

  at_bit :
      (fuel idx : ℕ) (previous : Option BitVec) (seq : List BitVec) (x : Bool)
      → Correct fuel
      → idx < length (bits payload)
      → length (bits payload) < idx + suc fuel
      → get_elem? (bits payload) idx ≡ some x
      → Decides size previous
          (x ∷ drop (suc idx) (bits payload))
          seq
          (decompress_loop build (suc fuel) size payload idx previous seq)
  at_bit fuel idx previous seq true ih h enough at = at_marker fuel idx previous seq ih h enough at
  at_bit fuel idx previous seq false ih h enough at = at_zero fuel idx previous seq ih h enough at

  loop-Correct : (fuel : ℕ) → Correct fuel
  loop-Correct zero idx previous seq le enough = absurd (omega arith)
  loop-Correct (suc fuel) idx previous seq le enough =
      elim (inside_or_not idx (length (bits payload))) [
        | inl h ↦
            (let (x, at) = get_elem?_of_lt (bits payload) idx h in
              rw (drop_of_get_elem? (bits payload) idx x at)
                (at_bit fuel idx previous seq x (loop-Correct fuel) h enough at))
        | inr end ↦ inl (
          [],
          loop_end build payload v size fits fuel idx previous seq end
              ∙ ap (λ t. done (some t)) (sym (append-nil seq)),
          drop_of_ge (bits payload) idx end,
        )
      ]

-- `decompress` of a well-formed payload, with a payload length plus element size that is a `usize`
-- and fuel above the payload's length, ends without a panic: it returns a list of elements that the
-- payload encodes, or it returns `None` and the payload encodes no list of elements.
pub decompress-Decides :
    (build : Build) (fuel : ℕ) (c : CompressedBitVec)
    → IsValid c.bits
    → length (bits c.bits) + c.element_size < usize_mod
    → length (bits c.bits) < fuel
    → Decides c.element_size none (bits c.bits) [] (decompress build fuel c)
unfolding decompress decompress_bits
decompress-Decides build fuel c v fits enough =
    loop-Correct build c.bits v c.element_size fits fuel 0 none [] (omega arith) (omega arith)

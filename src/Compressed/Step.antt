-- ===== src/Compressed/Step.antt =====
-- One round of the loop of `decompress` in src/bitvec.rs, on each branch.
use game_network.Prelude.{
  ℕ, suc, ◌+◌, ◌-◌, ◌≤◌, ◌<◌, ◌≡◌, sym, ap, ◌∙◌, true, false, Option, none, some, List, [], ◌∷◌,
  ◌++◌, arith, length, get_elem?, length-take, length-drop, take, drop, drop-drop, take-append-drop,
  lt→ltb, le→ltb_false, done, Build, usize_mod, add_usize_of_lt,
}
use game_network.BitVec.{BitVec, range}
use game_network.BitVec.View.{bits, IsValid}
use game_network.BitVec.Push.{len_lem}
use game_network.BitVec.Get.{get_lem}
use game_network.BitVec.Loops.{range_inside, range_outside}
use game_network.Compressed.{decompress_loop}

module _ (build : Build) (payload : BitVec) (v : IsValid payload) (size : ℕ)
    (fits : length (bits payload) + size < usize_mod) where
  short : length (bits payload) < usize_mod
  short = omega arith

  pub loop_end :
      (fuel idx : ℕ) (previous : Option BitVec) (seq : List BitVec)
      → length (bits payload) ≤ idx
      → decompress_loop build (suc fuel) size payload idx previous seq ≡ done (some seq)
  unfolding decompress_loop
  loop_end fuel idx previous seq h =
      rw (len_lem build payload v short, le→ltb_false idx (length (bits payload)) h)

  pub loop_orphan :
      (fuel idx : ℕ) (seq : List BitVec)
      → idx < length (bits payload)
      → get_elem? (bits payload) idx ≡ some false
      → decompress_loop build (suc fuel) size payload idx none seq ≡ done none
  unfolding decompress_loop
  loop_orphan fuel idx seq h at = rw (
    len_lem build payload v short,
    lt→ltb idx (length (bits payload)) h,
    get_lem build payload idx v short,
    at,
  )

  pub loop_repeat :
      (fuel idx : ℕ) (element : BitVec) (seq : List BitVec)
      → idx < length (bits payload)
      → get_elem? (bits payload) idx ≡ some false
      → decompress_loop build (suc fuel) size payload idx (some element) seq
        ≡ decompress_loop build fuel size payload (idx + 1) (some element) (seq ++ element ∷ [])
  unfolding decompress_loop
  loop_repeat fuel idx element seq h at = rw (
    len_lem build payload v short,
    lt→ltb idx (length (bits payload)) h,
    get_lem build payload idx v short,
    at,
    add_usize_of_lt build idx 1 (omega arith),
  )

  -- The element that is stored in full at an index: `range` finds it, between the marker and the
  -- index from which the loop goes on.
  pub stored :
      (idx : ℕ)
      → idx + size + 1 ≤ length (bits payload)
      → (element : BitVec) × (range build payload (idx + 1) (idx + size + 1) ≡ done (some element))
        × IsValid element
        × (length (bits element) ≡ size)
        × (drop (suc idx) (bits payload) ≡ bits element ++ drop (idx + (size + 1)) (bits payload))
  stored idx h =
      let (element, runs, w, e) =
        range_inside build payload v short (idx + 1) (idx + size + 1) (omega arith) h in
      let width : idx + size + 1 - (idx + 1) ≡ size = omega arith in
      let next : idx + 1 ≡ suc idx = omega arith in
      let past : idx + (size + 1) ≡ suc idx + size = omega arith in
      let cut : bits element ≡ take size (drop (suc idx) (bits payload)) =
        e
        ∙ ap (λ k. take k (drop (idx + 1) (bits payload))) width
        ∙ ap (λ k. take size (drop k (bits payload))) next in
      (
        element,
        runs,
        w,
        ap length cut
            ∙ length-take size (drop (suc idx) (bits payload))
            ∙ omega (arith, length-drop (suc idx) (bits payload)),
        rw (cut, past, ← drop-drop size (suc idx) (bits payload))
            (sym (take-append-drop size (drop (suc idx) (bits payload)))),
      )

  pub loop_fresh :
      (fuel idx : ℕ) (previous : Option BitVec) (seq : List BitVec) (element : BitVec)
      → idx < length (bits payload)
      → get_elem? (bits payload) idx ≡ some true
      → range build payload (idx + 1) (idx + size + 1) ≡ done (some element)
      → decompress_loop build (suc fuel) size payload idx previous seq
        ≡ decompress_loop build fuel size payload
            (idx + (size + 1))
            (some element)
            (seq ++ element ∷ [])
  unfolding decompress_loop
  loop_fresh fuel idx previous seq element h at found = rw (
    len_lem build payload v short,
    lt→ltb idx (length (bits payload)) h,
    get_lem build payload idx v short,
    at,
    add_usize_of_lt build idx 1 (omega arith),
    add_usize_of_lt build idx size (omega arith),
    add_usize_of_lt build (idx + size) 1 (omega arith),
    found,
    add_usize_of_lt build size 1 (omega arith),
    add_usize_of_lt build idx (size + 1) (omega arith),
  )

  pub loop_truncated :
      (fuel idx : ℕ) (previous : Option BitVec) (seq : List BitVec)
      → idx < length (bits payload)
      → get_elem? (bits payload) idx ≡ some true
      → length (bits payload) < idx + size + 1
      → decompress_loop build (suc fuel) size payload idx previous seq ≡ done none
  unfolding decompress_loop
  loop_truncated fuel idx previous seq h at past = rw (
    len_lem build payload v short,
    lt→ltb idx (length (bits payload)) h,
    get_lem build payload idx v short,
    at,
    add_usize_of_lt build idx 1 (omega arith),
    add_usize_of_lt build idx size (omega arith),
    add_usize_of_lt build (idx + size) 1 (omega arith),
    range_outside build payload v short (idx + 1) (idx + size + 1) (omega arith) (omega arith) past,
  )

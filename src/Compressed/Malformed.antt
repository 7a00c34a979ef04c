-- ===== src/Compressed/Malformed.antt =====
-- `decompress` of src/bitvec.rs on any value that can be deserialised, whether well-formed or not.
use game_network.Prelude.{
  ℕ, zero, suc, not, bit_and, ◌==◌, ◌^◌, ◌+◌, ◌-◌, ◌*◌, ◌/◌, ◌%◌, ◌<◌, ◌≤◌, ◌≡◌, ◌≢◌, ◌↔◌, refl,
  Bool, true, false, Option, none, some, List, [], ◌∷◌, ◌++◌, ◌⊎◌, inl, inr, Option-cases,
  Bool-cases, arith, length, get_elem?, lt→ltb, le→ltb_false, le→leb, lt→leb_false, panic, done,
  Build, debug, usize_mod, add_usize_of_lt, sub_usize_of_le, mul_usize_of_lt, sub_usize,
}
use game_network.BitVec.{BitVec, new, len, get, get_in, range, range_loop}
use game_network.BitVec.View.{IsValid}
use game_network.BitVec.Push.{one_shl_of_lt, push_lem}
use game_network.BitVec.Get.{inside_or_not}
use game_network.Compressed.{CompressedBitVec, decompress_loop, decompress_bits, decompress}

-- What `len` counts.
abbrev count : BitVec → ℕ
count b = 32 * (length b.storage - 1) + b.len_of_last

module _ (b : BitVec) (some_word : 1 ≤ length b.storage) where
  module _ (build : Build) (fits : count b < usize_mod) where
    len-count : len build b ≡ done (count b)
    unfolding len
    len-count = rw (
      sub_usize_of_le build (length b.storage) 1 some_word,
      mul_usize_of_lt build 32 (length b.storage - 1) (omega arith),
      add_usize_of_lt build (32 * (length b.storage - 1)) b.len_of_last fits,
    )

    get_in-done :
        (element : Option ℕ) (i : ℕ) → (o : Option Bool) × (get_in build element (i % 32) ≡ done o)
    unfolding get_in
    get_in-done none i = (none, refl)
    get_in-done (some element) i = (
      some (not (bit_and element (2 ^ (i % 32)) == 0)),
      rw (one_shl_of_lt (i % 32) (omega arith)),
    )

    get-done : (i : ℕ) → (o : Option Bool) × (get build b i ≡ done o)
    unfolding get
    get-done i = elim (inside_or_not i (count b)) [
      | inl h ↦
          let (o, reads) = get_in-done (get_elem? b.storage (i / 32)) i in
          (o, rw (len-count, lt→leb_false (count b) i h, reads))
      | inr h ↦ (none, rw (len-count, le→leb (count b) i h))
    ]

    range_loop-done :
        (left i : ℕ) (acc : BitVec)
        → IsValid acc
        → (o : Option BitVec) × (range_loop build b left i acc ≡ done o)
    unfolding range_loop
    range_loop-done zero i acc v = (some acc, refl)
    range_loop-done (suc left) i acc v =
        let (o, reads) = get-done i in
        elim (Option-cases o) [
          | inl past ↦ (none, rw (reads, past))
          | inr (bit, here) ↦
              let (acc', pushes, v', _) = push_lem build acc bit v in
              let (r, ends) = range_loop-done left (i + 1) acc' v' in
              (r, rw (reads, here, pushes, ends))
        ]

    range-done : (start end : ℕ) → (o : Option BitVec) × (range build b start end ≡ done o)
    unfolding range
    range-done start end = range_loop-done (end - start) start new (omega arith, omega arith)

  module _ (build : Build) (size : ℕ) (fits : count b + size + 1 < usize_mod) where
    -- A round of the loop, from what the rounds behind it return.
    abbrev Continues : ℕ → ℕ → Type 0
    Continues fuel i =
        (previous : Option BitVec) (seq : List BitVec)
        → (o : Option (List BitVec)) × (decompress_loop build fuel size b i previous seq ≡ done o)

    module _ (fuel i : ℕ) (inside : i < count b) where
      stored-done :
          (previous : Option BitVec) (seq : List BitVec)
          → get build b i ≡ done (some true)
          → Continues fuel (i + (size + 1))
          → (o : Option (List BitVec)) × (decompress_loop build (suc fuel) size b i previous seq
              ≡ done o)
      unfolding decompress_loop
      stored-done previous seq reads rest =
          let counted = len-count build (omega arith) in
          let tested = lt→ltb i (count b) inside in
          let start = add_usize_of_lt build i 1 (omega arith) in
          let past = add_usize_of_lt build i size (omega arith) in
          let end = add_usize_of_lt build (i + size) 1 (omega arith) in
          let (found, ranges) = range-done build (omega arith) (i + 1) (i + size + 1) in
          elim (Option-cases found) [
            | inl outside ↦ (none, rw (counted, tested, reads, start, past, end, ranges, outside))
            | inr (element, within) ↦
                let (o, ends) = rest (some element) (seq ++ element ∷ []) in
                let width = add_usize_of_lt build size 1 (omega arith) in
                let next = add_usize_of_lt build i (size + 1) (omega arith) in
                (
                  o,
                  rw (counted, tested, reads, start, past, end, ranges, within, width, next, ends),
                )
          ]

      repeated-done :
          (previous : Option BitVec) (seq : List BitVec)
          → get build b i ≡ done (some false)
          → Continues fuel (i + 1)
          → (o : Option (List BitVec)) × (decompress_loop build (suc fuel) size b i previous seq
              ≡ done o)
      unfolding decompress_loop
      repeated-done none seq reads rest =
          (none, rw (len-count build (omega arith), lt→ltb i (count b) inside, reads))
      repeated-done (some element) seq reads rest =
          let (o, ends) = rest (some element) (seq ++ element ∷ []) in
          (
            o,
            rw (
              len-count build (omega arith),
              lt→ltb i (count b) inside,
              reads,
              add_usize_of_lt build i 1 (omega arith),
              ends,
            ),
          )

    loop-done : (fuel i : ℕ) → count b - i < fuel → Continues fuel i
    unfolding decompress_loop
    loop-done zero i enough previous seq = absurd (omega arith)
    loop-done (suc fuel) i enough previous seq =
        let counted = len-count build (omega arith) in
        elim (inside_or_not i (count b)) [
          | inr past ↦ (some seq, rw (counted, le→ltb_false i (count b) past))
          | inl inside ↦
              let (item, reads) = get-done build (omega arith) i in
              elim (Option-cases item) [
                | inl nothing ↦ (none, rw (counted, lt→ltb i (count b) inside, reads, nothing))
                | inr (bit, here) ↦ elim (Bool-cases bit) [
                  | inl marked ↦
                      stored-done fuel i inside previous seq (rw (reads, here, marked) refl)
                        (loop-done fuel (i + (size + 1)) (omega arith))
                  | inr unmarked ↦
                      repeated-done fuel i inside previous seq (rw (reads, here, unmarked) refl)
                        (loop-done fuel (i + 1) (omega arith))
                ]
              ]
        ]

    decompress-done :
        (fuel : ℕ)
        → count b < fuel
        → (o : Option (List BitVec)) × (decompress build fuel
              (record { bits = b; element_size = size })
            ≡ done o)
    unfolding decompress decompress_bits
    decompress-done fuel enough = loop-done fuel 0 (omega arith) none []

-- In a debug build `len` subtracts one from the number of words.
no_words : (b : BitVec) → b.storage ≡ [] → len debug b ≡ panic
unfolding len sub_usize
no_words b empty = rw empty

pub empty_panics :
    (c : CompressedBitVec) (fuel : ℕ)
    → c.bits.storage ≡ []
    → 0 < fuel
    → decompress debug fuel c ≡ panic
unfolding decompress decompress_bits decompress_loop
empty_panics c zero empty h = absurd (omega arith)
empty_panics c (suc fuel) empty h = rw (no_words c.bits empty)

words-cases : (ws : List ℕ) → (ws ≡ []) ⊎ (1 ≤ length ws)
words-cases [] = inl refl
words-cases (w ∷ ws) = inr (omega arith)

-- In a debug build, for any compressed value that can be deserialised, well-formed or not, whose
-- count of bits by `len` and element size add up to less than the largest `usize`, and with fuel
-- above that count: `decompress` panics exactly if the payload has no words, and otherwise it ends
-- with an answer.
pub decompress_panics_iff :
    (c : CompressedBitVec) (fuel : ℕ)
    → count c.bits + c.element_size + 1 < usize_mod
    → count c.bits < fuel
    → ((decompress debug fuel c ≡ panic) ↔ (c.bits.storage ≡ []))
      × ((c.bits.storage ≢ []) → (o : Option (List BitVec)) × (decompress debug fuel c ≡ done o))
decompress_panics_iff c fuel fits enough = elim (words-cases c.bits.storage) [
  | inl empty ↦ (
    (λ _. empty, λ _. empty_panics c fuel empty (omega arith)),
    λ some_word. absurd (some_word empty),
  )
  | inr words ↦
      let (o, ends) = decompress-done c.bits words debug c.element_size fits fuel enough in
      (
        (λ h. absurd (cc), λ empty. absurd (let h = rw empty at words in omega arith)),
        λ _. (o, ends),
      )
]

-- ===== src/BitVec/Get.antt =====
-- `get`, the iterator, `append` and `range` of src/bitvec.rs against the list of bits.
use game_network.Prelude.{
  ℕ, suc, ◌+◌, ◌-◌, ◌/◌, ◌%◌, ◌^◌, ◌≤◌, ◌<◌, bit_and, ◌≡◌, ap, ◌∙◌, ◌⊎◌, inl, inr, not, some, List,
  [], ◌∷◌, ◌++◌, arith, length, length-append, get_elem?, get_elem?_of_ge, get_elem?-append_left,
  get_elem?-append_right, ◌==◌, le→leb, lt→leb_false, Bool-cases, ltb, done, Build, usize_mod,
}
use game_network.Prelude.Word.{word_bits, length-word_bits, get_elem?-word_bits}
use game_network.BitVec.{BitVec, get}
use game_network.BitVec.View.{bits_in, bits, IsPacked, IsValid}
use game_network.BitVec.Push.{one_shl_of_lt, len_lem}

-- The bit at an index is in the word that `get` reads, at the place that it tests.
abbrev InWord : List ℕ → ℕ → ℕ → Type 0
InWord ws l i =
    (element : ℕ) × (get_elem? ws (i / 32) ≡ some element)
    × (get_elem? (bits_in ws l) i ≡ some (not (bit_and element (2 ^ (i % 32)) == 0)))

in_first_word : (w l i : ℕ) → i < l → l ≤ 32 → InWord (w ∷ []) l i
in_first_word w l i h fits =
    let outer : i / 32 ≡ 0 = omega arith in
    let inner : i % 32 ≡ i = omega arith in (w, rw outer, rw inner (get_elem?-word_bits l w i h))

split_at : (i : ℕ) → (i < 32) ⊎ ((j : ℕ) × (i ≡ 32 + j))
split_at i = elim (Bool-cases (ltb i 32)) [
  | inl h ↦ inl (ground arith)
  | inr h ↦ inr (i - 32, ground arith)
]

pub inside_or_not : (i n : ℕ) → (i < n) ⊎ (n ≤ i)
inside_or_not i n = ground arith

in_later_word :
    (w x : ℕ) (ws : List ℕ) (l i j : ℕ) → i ≡ 32 + j → InWord (x ∷ ws) l j → InWord (w ∷ x ∷ ws) l i
in_later_word w x ws l i j e (element, stored, bit) =
    let outer : i / 32 ≡ suc (j / 32) = omega arith in
    let inner : i % 32 ≡ j % 32 = omega arith in
    let at : i ≡ length (word_bits 32 w) + j = omega (arith, length-word_bits 32 w) in
    (
      element,
      rw outer stored,
      rw inner (
          ap (get_elem? (word_bits 32 w ++ bits_in (x ∷ ws) l)) at
          ∙ get_elem?-append_right (word_bits 32 w) (bits_in (x ∷ ws) l) j
          ∙ bit),
    )

in_earlier_word :
    (w x : ℕ) (ws : List ℕ) (l i : ℕ) → i < 32 → InWord (w ∷ []) 32 i → InWord (w ∷ x ∷ ws) l i
in_earlier_word w x ws l i h (element, stored, bit) =
    let outer : i / 32 ≡ 0 = omega arith in
    (
      element,
      rw outer (rw outer at stored),
      get_elem?-append_left (word_bits 32 w) (bits_in (x ∷ ws) l) i
            (omega (arith, length-word_bits 32 w))
          ∙ bit,
    )

shorter :
    (w x : ℕ) (ws : List ℕ) (l i j : ℕ)
    → i ≡ 32 + j
    → i < length (bits_in (w ∷ x ∷ ws) l)
    → j < length (bits_in (x ∷ ws) l)
shorter w x ws l i j e h =
    omega (arith, length-word_bits 32 w, length-append (word_bits 32 w) (bits_in (x ∷ ws) l))

in_word : (ws : List ℕ) (l i : ℕ) → IsPacked ws l → i < length (bits_in ws l) → InWord ws l i
in_word [] l i v h = absurd v
in_word (w ∷ []) l i v h = in_first_word w l i (omega (arith, length-word_bits l w)) v.0
in_word (w ∷ x ∷ ws) l i v h =
    let later = λ (j : ℕ) (r : j < length (bits_in (x ∷ ws) l)). in_word (x ∷ ws) l j v.2 r in
    elim (split_at i) [
      | inl below ↦ in_earlier_word w x ws l i below (in_first_word w 32 i below (omega arith))
      | inr (j, e) ↦ in_later_word w x ws l i j e (later j (shorter w x ws l i j e h))
    ]

module _ (build : Build) where
  get_inside :
      (b : BitVec) (i : ℕ)
      → IsValid b
      → length (bits b) < usize_mod
      → i < length (bits b)
      → get build b i ≡ done (get_elem? (bits b) i)
  unfolding get
  get_inside b i v fits h =
      let (element, stored, bit) = in_word b.storage b.len_of_last i v h in
      rw (
        len_lem build b v fits,
        lt→leb_false (length (bits b)) i h,
        stored,
        one_shl_of_lt (i % 32) (omega arith),
        bit,
      )

  -- On a well-formed `BitVec` whose number of bits is a `usize`, `get` does not panic: it reads the
  -- bit at an index, and is `None` from the length on.
  pub get_lem :
      (b : BitVec) (i : ℕ)
      → IsValid b
      → length (bits b) < usize_mod
      → get build b i ≡ done (get_elem? (bits b) i)
  unfolding get
  get_lem b i v fits = elim (inside_or_not i (length (bits b))) [
    | inl h ↦ get_inside b i v fits h
    | inr h ↦
        rw (len_lem build b v fits, le→leb (length (bits b)) i h, get_elem?_of_ge (bits b) i h)
  ]

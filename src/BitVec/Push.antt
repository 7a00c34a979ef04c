-- ===== src/BitVec/Push.antt =====
-- `push`, `from_slice`, `len` and `is_empty` of src/bitvec.rs against the list of bits.
use game_network.Prelude.{
  ℕ, suc, ◌+◌, ◌-◌, ◌*◌, ◌^◌, ◌≤◌, ◌<◌, ◌≡◌, refl, sym, ap, ◌∙◌, ◌⊎◌, inl, inr, Bool, true, false,
  List, [], ◌∷◌, ◌++◌, append_assoc, append-nil, arith, length, ◌==◌, lt→ltb, done, Build,
  usize_mod, add_u8_of_lt, add_usize_of_lt, sub_usize_of_le, mul_usize_of_lt, ◌≢◌, ◌↔◌,
}
use game_network.Prelude.Word.{word_bits, word_bits_snoc, bit_or_above, bit_value}
use game_network.BitVec.{
  BitVec, new, is_empty, as_u32, one_shl, or_last, len, push, push_all, from_slice,
}
use game_network.BitVec.View.{bits_in, bits, IsPacked, IsValid, Holds, length-bits_in}
use native.Mathlib.Nat.{pow-suc}

pub one_shl_of_lt : (n : ℕ) → n < 32 → one_shl n ≡ done (2 ^ n)
unfolding one_shl
one_shl_of_lt n h = rw (lt→ltb n 32 h)

-- One more bit in use of the last word, left at zero.
snoc_false :
    (ws : List ℕ) (l : ℕ)
    → IsPacked ws l
    → l < 32
    → IsPacked ws (suc l) × (bits_in ws (suc l) ≡ bits_in ws l ++ false ∷ [])
snoc_false [] l v h = absurd v
snoc_false (w ∷ []) l v h =
    (omega (arith, pow-suc 2 l), ap (word_bits (suc l)) e ∙ word_bits_snoc l w false v.1)
  where
    e : w ≡ w + bit_value false * 2 ^ l
    e = omega arith
snoc_false (w ∷ x ∷ ws) l v h =
    let (packed, e) = snoc_false (x ∷ ws) l v.2 h in
    (
      (v.0, omega arith, packed),
      ap (λ t. word_bits 32 w ++ t) e
          ∙ sym (append_assoc (word_bits 32 w) (bits_in (x ∷ ws) l) (false ∷ [])),
    )

-- The bit behind those in use of the last word is set by `|`.
or_last_lem :
    (w : ℕ) (ws : List ℕ) (l : ℕ)
    → IsPacked (w ∷ ws) l
    → l < 32
    → (w' : ℕ) × (ws' : List ℕ) × (or_last (w ∷ ws) (2 ^ l) ≡ done (w' ∷ ws'))
      × IsPacked (w' ∷ ws') (suc l)
      × (bits_in (w' ∷ ws') (suc l) ≡ bits_in (w ∷ ws) l ++ true ∷ [])
unfolding or_last
or_last_lem w [] l v h = (
  w + 2 ^ l,
  [],
  rw (bit_or_above l w v.1),
  omega (arith, pow-suc 2 l),
  ap (word_bits (suc l)) e ∙ word_bits_snoc l w true v.1,
)
  where
    e : w + 2 ^ l ≡ w + bit_value true * 2 ^ l
    e = omega arith
or_last_lem w (x ∷ ws) l v h =
    let (x', ws', runs, packed, e) = or_last_lem x ws l v.2 h in
    (
      w,
      x' ∷ ws',
      rw runs,
      (v.0, omega arith, packed),
      ap (λ t. word_bits 32 w ++ t) e
          ∙ sym (append_assoc (word_bits 32 w) (bits_in (x ∷ ws) l) (true ∷ [])),
    )

-- When the last word is full the bit goes into a new word.
snoc_word :
    (ws : List ℕ) (bit : Bool)
    → IsPacked ws 32
    → IsPacked (ws ++ as_u32 bit ∷ []) 1
      × (bits_in (ws ++ as_u32 bit ∷ []) 1 ≡ bits_in ws 32 ++ bit ∷ [])
unfolding word_bits
snoc_word [] bit v = absurd v
snoc_word (w ∷ []) true v = (omega arith, refl)
snoc_word (w ∷ []) false v = (omega arith, refl)
snoc_word (w ∷ x ∷ ws) bit v =
    let (packed, e) = snoc_word (x ∷ ws) bit v.2 in
    (
      (v.0, omega arith, packed),
      ap (λ t. word_bits 32 w ++ t) e
          ∙ sym (append_assoc (word_bits 32 w) (bits_in (x ∷ ws) 32) (bit ∷ [])),
    )

pub IsPacked-le : (ws : List ℕ) (l : ℕ) → IsPacked ws l → l ≤ 32
IsPacked-le [] l v = absurd v
IsPacked-le (w ∷ []) l v = v.0
IsPacked-le (w ∷ x ∷ ws) l v = IsPacked-le (x ∷ ws) l v.2

==_false_of_ne : (a b : ℕ) → a ≢ b → (a == b) ≡ false
==_false_of_ne a b h = ground arith

le-cases : (l : ℕ) → l ≤ 32 → (l ≡ 32) ⊎ (l < 32)
le-cases l h = ground arith

pub length-storage_pos : (ws : List ℕ) (l : ℕ) → IsPacked ws l → 1 ≤ length ws
length-storage_pos [] l v = absurd v
length-storage_pos (w ∷ ws) l v = omega arith

module _ (build : Build) where
  push-true :
      (ws : List ℕ) (l : ℕ)
      → IsPacked ws l
      → l < 32
      → Holds
          (push build (record { storage = ws; len_of_last = l }) true)
          (bits_in ws l ++ true ∷ [])
  unfolding push
  push-true [] l v h = absurd v
  push-true (w ∷ ws) l v h =
      let (w', ws', runs, packed, e) = or_last_lem w ws l v h in
      let grown : BitVec = record { storage = w' ∷ ws'; len_of_last = suc l } in
      let more : l + 1 ≡ suc l = omega arith in
      (
        grown,
        rw (
          ==_false_of_ne l 32 (omega arith),
          one_shl_of_lt l h,
          runs,
          add_u8_of_lt build l 1 (omega arith),
          more,
        ),
        packed,
        e,
      )

  push-false :
      (ws : List ℕ) (l : ℕ)
      → IsPacked ws l
      → l < 32
      → Holds
          (push build (record { storage = ws; len_of_last = l }) false)
          (bits_in ws l ++ false ∷ [])
  unfolding push
  push-false ws l v h =
      let (packed, e) = snoc_false ws l v h in
      let more : l + 1 ≡ suc l = omega arith in
      (
        record { storage = ws; len_of_last = suc l },
        rw (==_false_of_ne l 32 (omega arith), add_u8_of_lt build l 1 (omega arith), more),
        packed,
        e,
      )

  push_full :
      (ws : List ℕ) (l : ℕ) (bit : Bool)
      → IsPacked ws l
      → l ≡ 32
      → Holds (push build (record { storage = ws; len_of_last = l }) bit) (bits_in ws l ++ bit ∷ [])
  unfolding push
  push_full ws l bit v h =
      let full : IsPacked ws 32 = rw h at v in
      let (packed, e) = snoc_word ws bit full in
      (record { storage = ws ++ as_u32 bit ∷ []; len_of_last = 1 }, rw h, packed, rw h e)

  -- `push` never panics on a well-formed `BitVec`, in either build: it returns a well-formed one
  -- that has the bit behind the old bits.
  pub push_lem :
      (b : BitVec) (bit : Bool) → IsValid b → Holds (push build b bit) (bits b ++ bit ∷ [])
  push_lem b bit v = elim (le-cases b.len_of_last (IsPacked-le b.storage b.len_of_last v)) [
    | inl e ↦ push_full b.storage b.len_of_last bit v e
    | inr h ↦ elim bit as (λ x. Holds (push build b x) (bits b ++ x ∷ [])) [
      | true ↦ push-true b.storage b.len_of_last v h
      | false ↦ push-false b.storage b.len_of_last v h
    ]
  ]

  push_all_lem :
      (b : BitVec) (xs : List Bool) → IsValid b → Holds (push_all build b xs) (bits b ++ xs)
  unfolding push_all
  push_all_lem b [] v = (b, refl, v, sym (append-nil (bits b)))
  push_all_lem b (x ∷ xs) v =
      let (b', runs, v', e) = push_lem b x v in
      let (c, runs', w, e') = push_all_lem b' xs v' in
      (c, rw runs runs', w, e' ∙ ap (λ t. t ++ xs) e ∙ append_assoc (bits b) (x ∷ []) xs)

  -- `from_slice` never panics and returns a well-formed `BitVec` of exactly the bits of the slice.
  pub from_slice_lem : (xs : List Bool) → Holds (from_slice build xs) xs
  unfolding from_slice word_bits
  from_slice_lem xs = push_all_lem new xs (omega arith)

  -- `len` of a well-formed `BitVec` counts its bits, as long as their number is a `usize`.
  pub len_lem :
      (b : BitVec) → IsValid b → length (bits b) < usize_mod → len build b ≡ done (length (bits b))
  unfolding len
  len_lem b v h =
      let total = length-bits_in b.storage b.len_of_last v in
      let pos = length-storage_pos b.storage b.len_of_last v in
      rw (
        sub_usize_of_le build (length b.storage) 1 pos,
        mul_usize_of_lt build 32 (length b.storage - 1) (omega arith),
        add_usize_of_lt build (32 * (length b.storage - 1)) b.len_of_last (omega arith),
        total,
      )

nil_iff {ℓ} : {A : Type ℓ} (xs : List A) → (length xs ≡ 0) ↔ (xs ≡ [])
nil_iff [] = (λ _. refl, λ _. refl)
nil_iff (x ∷ xs) = (λ h. absurd (omega arith), λ h. cc)

multi_word : (ws : List ℕ) (l : ℕ) → IsPacked ws l → l ≡ 0 → length ws ≡ 1
multi_word [] l v h = absurd v
multi_word (w ∷ []) l v h = refl
multi_word (w ∷ x ∷ ws) l v h = absurd (omega arith)

-- `is_empty` holds of a well-formed `BitVec` exactly when it has no bit.
pub is_empty_iff : (b : BitVec) → IsValid b → (is_empty b ≡ true) ↔ (bits b ≡ [])
unfolding is_empty
is_empty_iff b v = ground (
  arith,
  length-bits_in b.storage b.len_of_last v,
  nil_iff (bits b),
  multi_word b.storage b.len_of_last v,
)

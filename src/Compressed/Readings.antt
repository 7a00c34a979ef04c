-- ===== src/Compressed/Readings.antt =====
-- Reading the format of src/bitvec.rs's compressed payloads: a payload encodes at most one list, and
-- what it takes to decide which.
use game_network.Prelude.{
  ℕ, ◌<◌, arith, length-append, ◌≡◌, refl, sym, ap, ap₂, append_split, ◌∙◌, ◌⊎◌, inl, inr, Bool,
  true, false, Option, none, some, List, [], ◌∷◌, ◌++◌, append_assoc, length, drop, Run, done,
}
use game_network.BitVec.{BitVec}
use game_network.BitVec.View.{bits, IsValid}
use game_network.BitVec.Canonical.{bits-injective}
use game_network.Compressed.Format.{Encodes}

Encodes-cong :
    (size : ℕ) (x y : BitVec) (r r' : List Bool) (ys : List BitVec)
    → x ≡ y
    → r ≡ r'
    → Encodes size (some y) r' ys
    → Encodes size (some x) r ys
Encodes-cong size x y r r' ys p q enc = rw (p, q) enc

-- Two readings of a payload that begins with an element in full.
same_element :
    (size : ℕ) (x y : BitVec) (r r' : List Bool)
    → IsValid x
    → IsValid y
    → length (bits x) ≡ size
    → length (bits y) ≡ size
    → true ∷ (bits x ++ r) ≡ true ∷ (bits y ++ r')
    → (x ≡ y) × (r ≡ r')
same_element size x y r r' w w' s s' e =
    let tails : bits x ++ r ≡ bits y ++ r' = ap (drop 1) e in
    let (fronts, rests) = append_split (bits x) (bits y) r r' (s ∙ sym s') tails in
    (bits-injective x y w w' fronts, rests)

-- At most one list of elements is encoded by a payload.
pub Encodes-unique :
    (size : ℕ) (previous : Option BitVec) (payload : List Bool) (xs ys : List BitVec)
    → Encodes size previous payload xs
    → Encodes size previous payload ys
    → xs ≡ ys
Encodes-unique size previous payload [] [] p q = refl
Encodes-unique size previous payload [] (y ∷ ys) p (inl (rest, w, s, e, enc)) = cc
Encodes-unique size previous payload [] (y ∷ ys) p (inr (rest, h, e, enc)) = cc
Encodes-unique size previous payload (x ∷ xs) [] (inl (rest, w, s, e, enc)) q = cc
Encodes-unique size previous payload (x ∷ xs) [] (inr (rest, h, e, enc)) q = cc
Encodes-unique size previous payload (x ∷ xs) (y ∷ ys) (inl (r, w, s, e, p))
      (inl (r', w', s', e', q)) =
    let (same, rests) = same_element size x y r r' w w' s s' (sym e ∙ e') in
    ap₂ ◌∷◌ same
      (Encodes-unique size (some x) r xs ys p (Encodes-cong size x y r r' ys same rests q))
Encodes-unique size previous payload (x ∷ xs) (y ∷ ys) (inl (r, w, s, e, p)) (inr (r', h, e', q)) =
    cc
Encodes-unique size previous payload (x ∷ xs) (y ∷ ys) (inr (r, h, e, p)) (inl (r', w, s, e', q)) =
    cc
Encodes-unique size previous payload (x ∷ xs) (y ∷ ys) (inr (r, h, e, p)) (inr (r', h', e', q)) =
    let same : x ≡ y = cc in
    let rests : r ≡ r' = cc in
    ap₂ ◌∷◌ same
      (Encodes-unique size (some x) r xs ys p (Encodes-cong size x y r r' ys same rests q))

-- What the loop returns for a payload whose rest is to be read behind `previous`.
abbrev pub Decides :
    ℕ → Option BitVec → List Bool → List BitVec → Run (Option (List BitVec)) → Type 0
Decides size previous rest seq result =
    ((elements : List BitVec) × (result ≡ done (some (seq ++ elements)))
      × Encodes size previous rest elements)
    ⊎ ((result ≡ done none) × ((elements : List BitVec) → ¬ (Encodes size previous rest elements)))

pub Decides-fresh :
    (size : ℕ) (previous : Option BitVec) (element : BitVec) (rest : List Bool) (seq : List BitVec)
    (result : Run (Option (List BitVec)))
    → IsValid element
    → length (bits element) ≡ size
    → Decides size (some element) rest (seq ++ element ∷ []) result
    → Decides size previous (true ∷ (bits element ++ rest)) seq result
Decides-fresh size previous element rest seq result w sized (inl (elements, runs, enc)) = inl (
  element ∷ elements,
  runs ∙ ap (λ t. done (some t)) (append_assoc seq (element ∷ []) elements),
  inl (rest, w, sized, refl, enc),
)
Decides-fresh size previous element rest seq result w sized (inr (runs, never)) = inr (runs, absent)
  where
    absent :
        (elements : List BitVec)
        → ¬ (Encodes size previous (true ∷ (bits element ++ rest)) elements)
    absent [] e = cc
    absent (x ∷ xs) (inl (r, w', s, e, enc)) =
        let (same, rests) = same_element size element x rest r w w' sized s e in
        never xs (Encodes-cong size element x rest r xs same rests enc)
    absent (x ∷ xs) (inr (r, h, e, enc)) = cc

pub Decides-repeat :
    (size : ℕ) (element : BitVec) (rest : List Bool) (seq : List BitVec)
    (result : Run (Option (List BitVec)))
    → Decides size (some element) rest (seq ++ element ∷ []) result
    → Decides size (some element) (false ∷ rest) seq result
Decides-repeat size element rest seq result (inl (elements, runs, enc)) = inl (
  element ∷ elements,
  runs ∙ ap (λ t. done (some t)) (append_assoc seq (element ∷ []) elements),
  inr (rest, refl, refl, enc),
)
Decides-repeat size element rest seq result (inr (runs, never)) = inr (runs, absent)
  where
    absent : (elements : List BitVec) → ¬ (Encodes size (some element) (false ∷ rest) elements)
    absent [] e = cc
    absent (x ∷ xs) (inl (r, w', s, e, enc)) = cc
    absent (x ∷ xs) (inr (r, h, e, enc)) =
        let same : element ≡ x = cc in
        let rests : rest ≡ r = cc in never xs (Encodes-cong size element x rest r xs same rests enc)

-- A payload too short for the element that it announces encodes nothing.
pub truncated :
    (size : ℕ) (previous : Option BitVec) (tail : List Bool) (elements : List BitVec)
    → length tail < size
    → ¬ (Encodes size previous (true ∷ tail) elements)
truncated size previous tail [] h e = cc
truncated size previous tail (x ∷ xs) h (inl (r, w, s, e, enc)) =
    omega (arith, ap length e, length-append (bits x) r)
truncated size previous tail (x ∷ xs) h (inr (r, k, e, enc)) = cc

-- A repetition with nothing before it encodes nothing.
pub orphan :
    (size : ℕ) (tail : List Bool) (elements : List BitVec)
    → ¬ (Encodes size none (false ∷ tail) elements)
orphan size tail [] e = cc
orphan size tail (x ∷ xs) (inl (r, w, s, e, enc)) = cc
orphan size tail (x ∷ xs) (inr (r, k, e, enc)) = cc

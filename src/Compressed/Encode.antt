-- ===== src/Compressed/Encode.antt =====
-- `compress` of src/bitvec.rs writes the format of `Encodes`.
use game_network.Prelude.{
  ℕ, ◌+◌, ◌*◌, ◌≤◌, ◌<◌, ◌≡◌, ◌≢◌, refl, sym, ap, ◌∙◌, inl, inr, Bool, true, false, Option, none,
  some, List, [], ◌∷◌, ◌++◌, append_assoc, append-nil, arith, length, length-append, ◌==◌, ==_refl,
  Bool-cases, done, Build, usize_mod,
}
use game_network.Prelude.Word.{word_bits}
use game_network.BitVec.{BitVec, new, eq}
use game_network.BitVec.View.{bits, IsValid}
use game_network.BitVec.Push.{push_lem, len_lem}
use game_network.BitVec.Loops.{append_lem}
use game_network.BitVec.Canonical.{eq_lem}
use game_network.Compressed.{
  CompressedBitVec, is_fresh, is_repeat, compress_step, compress_loop, compress_bits, compress,
  front_len,
}
use game_network.Compressed.Format.{Encodes, AreSized}

new-IsValid : IsValid new
new-IsValid = omega arith

module _ (build : Build) where
  step_fresh :
      (previous : Option BitVec) (payload element : BitVec)
      → IsValid payload
      → IsValid element
      → length (bits element) < usize_mod
      → is_fresh previous element ≡ true
      → (payload' : BitVec) × (compress_step build previous payload element
          ≡ done (some element, payload'))
        × IsValid payload'
        × (bits payload' ≡ bits payload ++ true ∷ bits element)
  unfolding compress_step
  step_fresh previous payload element v w fits fresh =
      let (marked, runs, v', e) = push_lem build payload true v in
      let (stored, runs', v'', e') = append_lem build element w fits marked v' in
      (
        stored,
        rw (fresh, runs, runs'),
        v'',
        e' ∙ ap (λ t. t ++ bits element) e ∙ append_assoc (bits payload) (true ∷ []) (bits element),
      )

  step_repeat :
      (previous payload element : BitVec)
      → IsValid payload
      → eq element previous ≡ true
      → (payload' : BitVec) × (compress_step build (some previous) payload element
          ≡ done (some element, payload'))
        × IsValid payload'
        × (bits payload' ≡ bits payload ++ false ∷ [])
  unfolding compress_step is_fresh is_repeat
  step_repeat previous payload element v same =
      let (marked, runs, v', e) = push_lem build payload false v in
      (
        marked,
        rw (same, runs) (ap (λ p. done (some p, marked)) (sym ((eq_lem element previous).0 same))),
        v',
        e,
      )

  -- One round appends to the payload what `Encodes` asks for the element.
  abbrev StepEncodes : ℕ → Option BitVec → BitVec → BitVec → Type 0
  StepEncodes size previous payload element =
      (payload' : BitVec) × (compress_step build previous payload element
        ≡ done (some element, payload'))
      × IsValid payload'
      × (chunk : List Bool) × (bits payload' ≡ bits payload ++ chunk)
      × (length chunk ≤ size + 1)
      × ((rest : List Bool) (elements : List BitVec)
          → Encodes size (some element) rest elements
          → Encodes size previous (chunk ++ rest) (element ∷ elements))

  step_lem :
      (size : ℕ) (previous : Option BitVec) (payload element : BitVec)
      → IsValid payload
      → IsValid element
      → length (bits element) ≡ size
      → size < usize_mod
      → StepEncodes size previous payload element
  unfolding is_fresh
  step_lem size none payload element v w sized fits =
      let (payload', runs, v', e) = step_fresh none payload element v w (rw sized fits) refl in
      (
        payload',
        runs,
        v',
        true ∷ bits element,
        e,
        omega arith,
        λ rest elements enc. inl (rest, w, sized, refl, enc),
      )
  step_lem size (some previous) payload element v w sized fits =
      elim (Bool-cases (eq element previous)) [
        | inl same ↦
            (let (payload', runs, v', e) = step_repeat previous payload element v same in
              (
                payload',
                runs,
                v',
                false ∷ [],
                e,
                omega arith,
                λ rest elements enc.
                    inr (rest, ap some (sym ((eq_lem element previous).0 same)), refl, enc),
              ))
        | inr differs ↦
            (let (payload', runs, v', e) =
                step_fresh (some previous) payload element v w (rw sized fits) (rw differs) in
              (
                payload',
                runs,
                v',
                true ∷ bits element,
                e,
                omega arith,
                λ rest elements enc. inl (rest, w, sized, refl, enc),
              ))
      ]

  compress_loop_lem :
      (size : ℕ) (previous : Option BitVec) (payload : BitVec) (seq : List BitVec)
      → IsValid payload
      → AreSized size seq
      → size < usize_mod
      → (payload' : BitVec) × (compress_loop build size previous payload seq ≡ done (some payload'))
        × IsValid payload'
        × (written : List Bool) × (bits payload' ≡ bits payload ++ written)
        × (length written ≤ length seq * (size + 1))
        × Encodes size previous written seq
  unfolding compress_loop
  compress_loop_lem size previous payload [] v sized fits =
      (payload, refl, v, [], sym (append-nil (bits payload)), omega arith, refl)
  compress_loop_lem size previous payload (element ∷ seq) v sized fits =
      let (w, same) = sized.0 in
      let (payload', runs, v', chunk, e, small, encodes) =
        step_lem size previous payload element v w same fits in
      let (payload'', runs', v'', written, e', small', enc) =
        compress_loop_lem size (some element) payload' seq v' sized.1 fits in
      (
        payload'',
        rw (len_lem build element w (rw same fits), same, ==_refl size, runs) runs',
        v'',
        chunk ++ written,
        e' ∙ ap (λ t. t ++ written) e ∙ append_assoc (bits payload) chunk written,
        grind (arith, length-append chunk written),
        encodes written seq enc,
      )

  -- The loop gives up at the first element of another length.
  compress_loop_mixed :
      (size : ℕ) (previous : Option BitVec) (payload : BitVec) (before : List BitVec) (odd : BitVec)
      (after : List BitVec)
      → IsValid payload
      → AreSized size before
      → size < usize_mod
      → IsValid odd
      → length (bits odd) < usize_mod
      → length (bits odd) ≢ size
      → compress_loop build size previous payload (before ++ odd ∷ after) ≡ done none
  unfolding compress_loop
  compress_loop_mixed size previous payload [] odd after v sized fits w short differs =
      let test : (length (bits odd) == size) ≡ false = ground arith in
      rw (len_lem build odd w short, test)
  compress_loop_mixed size previous payload (element ∷ before) odd after v sized fits w short
        differs =
      let (x, same) = sized.0 in
      let (payload', runs, v', chunk, e, small, encodes) =
        step_lem size previous payload element v x same fits in
      rw (len_lem build element x (rw same fits), same, ==_refl size, runs)
        (compress_loop_mixed size (some element) payload' before odd after v' sized.1 fits w short
          differs)

  front_lem :
      (size : ℕ) (seq : List BitVec)
      → AreSized size seq
      → size < usize_mod
      → (front : ℕ) × (front_len build seq ≡ done front)
        × AreSized front seq
        × (front ≤ size)
        × (length seq * (front + 1) ≤ length seq * (size + 1))
  unfolding front_len
  front_lem size [] sized fits = (0, refl, tt, omega arith, omega arith)
  front_lem size (element ∷ seq) sized fits =
      let (w, same) = sized.0 in
      (size, rw (len_lem build element w (rw same fits), same), sized, omega arith, omega arith)

  -- `compress` of well-formed elements that all have `size` bits, `size` a `usize`, returns a
  -- well-formed payload of at most `length seq * (size + 1)` bits and an element size of at most
  -- `size` that all elements have; the payload encodes the elements in the format of `Encodes`.
  pub compress-Encodes :
      (size : ℕ) (seq : List BitVec)
      → AreSized size seq
      → size < usize_mod
      → (c : CompressedBitVec) × (compress build seq ≡ done (some c))
        × IsValid c.bits
        × AreSized c.element_size seq
        × Encodes c.element_size none (bits c.bits) seq
        × (length (bits c.bits) ≤ length seq * (size + 1))
        × (c.element_size ≤ size)
  unfolding compress compress_bits word_bits
  compress-Encodes size seq sized fits =
      let (front, found, sized', bound, less) = front_lem size seq sized fits in
      let (payload, runs, v, written, e, small, enc) =
        compress_loop_lem front none new seq (omega arith) sized' (omega arith) in
      (
        record { bits = payload; element_size = front },
        rw (found, runs),
        v,
        sized',
        rw e enc,
        omega (arith, ap length e),
        bound,
      )

  -- `compress` is `None` when well-formed elements of the first one's length, a `usize`, are
  -- followed by a well-formed one of another length that is a `usize`.
  pub compress_mixed :
      (first : BitVec) (before : List BitVec) (odd : BitVec) (after : List BitVec)
      → AreSized (length (bits first)) (first ∷ before)
      → length (bits first) < usize_mod
      → IsValid odd
      → length (bits odd) < usize_mod
      → length (bits odd) ≢ length (bits first)
      → compress build (first ∷ (before ++ odd ∷ after)) ≡ done none
  unfolding compress
  compress_mixed first before odd after sized fits w short differs =
      let gone : compress_bits build (length (bits first)) (first ∷ (before ++ odd ∷ after))
          ≡ done none =
        unfold compress_bits in
        compress_loop_mixed (length (bits first)) none new (first ∷ before) odd after new-IsValid
          sized fits w short differs in
      rw (len_lem build first sized.0.0 fits, gone)

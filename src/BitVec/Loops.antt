-- ===== src/BitVec/Loops.antt =====
-- `append` and `range` of src/bitvec.rs, the two loops over bits, against the list of bits.
use game_network.Prelude.{
  ℕ, zero, suc, ◌+◌, ◌-◌, ◌≤◌, ◌<◌, ◌≡◌, refl, sym, ap, ◌∙◌, inl, inr, Bool, none, some, List, [],
  ◌∷◌, ◌++◌, append_assoc, append-nil, arith, length, get_elem?, get_elem?_of_ge, get_elem?_of_lt,
  drop, take, drop_of_get_elem?, drop_of_ge, done, Build, usize_mod, add_usize_of_lt,
}
use game_network.Prelude.Word.{word_bits}
use game_network.BitVec.{
  BitVec, new, next, into_iter, append_loop, append, range_loop, range, iter_fuel,
}
use game_network.BitVec.View.{bits, IsValid, Holds, length-bits_in}
use game_network.BitVec.Push.{push_lem, IsPacked-le, length-storage_pos}
use game_network.BitVec.Get.{get_lem, inside_or_not}

bits_below_fuel : (b : BitVec) → IsValid b → length (bits b) < iter_fuel b
bits_below_fuel b v = omega (
  arith,
  length-bits_in b.storage b.len_of_last v,
  IsPacked-le b.storage b.len_of_last v,
  length-storage_pos b.storage b.len_of_last v,
)

-- One bit that moves from the rest of a source to the end of a result.
shift_bit {ℓ} :
    {A : Type ℓ} (out out' src : List A) (i n : ℕ) (x : A)
    → out' ≡ out ++ x ∷ []
    → get_elem? src i ≡ some x
    → out' ++ take n (drop (i + 1) src) ≡ out ++ take (suc n) (drop i src)
shift_bit out out' src i n x e at =
    let more : i + 1 ≡ suc i = omega arith in
    rw (e, more, drop_of_get_elem? src i x at)
      (append_assoc out (x ∷ []) (take n (drop (suc i) src)))

shift_rest {ℓ} :
    {A : Type ℓ} (out out' src : List A) (i : ℕ) (x : A)
    → out' ≡ out ++ x ∷ []
    → get_elem? src i ≡ some x
    → out' ++ drop (i + 1) src ≡ out ++ drop i src
shift_rest out out' src i x e at =
    let more : i + 1 ≡ suc i = omega arith in
    rw (e, more, drop_of_get_elem? src i x at) (append_assoc out (x ∷ []) (drop (suc i) src))

module _ (build : Build) (b : BitVec) (v : IsValid b) (fits : length (bits b) < usize_mod) where
  next-some :
      (i : ℕ) (x : Bool)
      → i < length (bits b)
      → get_elem? (bits b) i ≡ some x
      → next build (record { bitvec = b; bit_counter = i })
        ≡ done (some x, record { bitvec = b; bit_counter = i + 1 })
  unfolding next
  next-some i x h e = rw (get_lem build b i v fits, e, add_usize_of_lt build i 1 (omega arith))

  next-none :
      (i : ℕ)
      → length (bits b) ≤ i
      → next build (record { bitvec = b; bit_counter = i })
        ≡ done (none, record { bitvec = b; bit_counter = i })
  unfolding next
  next-none i h = rw (get_lem build b i v fits, get_elem?_of_ge (bits b) i h)

  append_loop_lem :
      (fuel i : ℕ) (acc : BitVec)
      → IsValid acc
      → i ≤ length (bits b)
      → length (bits b) < i + fuel
      → Holds
          (append_loop build fuel (record { bitvec = b; bit_counter = i }) acc)
          (bits acc ++ drop i (bits b))
  unfolding append_loop
  append_loop_lem zero i acc w le h = absurd (omega arith)
  append_loop_lem (suc fuel) i acc w le h = elim (inside_or_not i (length (bits b))) [
    | inl below ↦
        (let (x, at) = get_elem?_of_lt (bits b) i below in
          let (acc', runs, w', e) = push_lem build acc x w in
          let (c, runs', u, e') =
            append_loop_lem fuel (i + 1) acc' w' (omega arith) (omega arith) in
          (
            c,
            rw (next-some i x below at, runs) runs',
            u,
            e' ∙ shift_rest (bits acc) (bits acc') (bits b) i x e at,
          ))
    | inr above ↦ (
      acc,
      rw (next-none i above),
      w,
      sym (ap (λ t. bits acc ++ t) (drop_of_ge (bits b) i above) ∙ append-nil (bits acc)),
    )
  ]

  range_loop-some :
      (left idx : ℕ) (acc : BitVec)
      → IsValid acc
      → idx + left ≤ length (bits b)
      → (c : BitVec) × (range_loop build b left idx acc ≡ done (some c))
        × IsValid c
        × (bits c ≡ bits acc ++ take left (drop idx (bits b)))
  unfolding range_loop
  range_loop-some zero idx acc w h = (acc, refl, w, sym (append-nil (bits acc)))
  range_loop-some (suc left) idx acc w h =
      let (x, at) = get_elem?_of_lt (bits b) idx (omega arith) in
      let (acc', runs, w', e) = push_lem build acc x w in
      let (c, runs', u, e') = range_loop-some left (idx + 1) acc' w' (omega arith) in
      (
        c,
        rw (get_lem build b idx v fits, at, runs) runs',
        u,
        e' ∙ shift_bit (bits acc) (bits acc') (bits b) idx left x e at,
      )

  range_loop-none :
      (left idx : ℕ) (acc : BitVec)
      → IsValid acc
      → idx ≤ length (bits b)
      → length (bits b) < idx + left
      → range_loop build b left idx acc ≡ done none
  unfolding range_loop
  range_loop-none zero idx acc w at h = absurd (omega arith)
  range_loop-none (suc left) idx acc w le h = elim (inside_or_not idx (length (bits b))) [
    | inl below ↦
        (let (x, at) = get_elem?_of_lt (bits b) idx below in
          let (acc', runs, w', e) = push_lem build acc x w in
          rw (get_lem build b idx v fits, at, runs)
            (range_loop-none left (idx + 1) acc' w' (omega arith) (omega arith)))
    | inr above ↦ rw (get_lem build b idx v fits, get_elem?_of_ge (bits b) idx above)
  ]

  -- `append` of a well-formed `BitVec`, whose number of bits is a `usize`, to a well-formed one
  -- never panics: its loop over the other `BitVec` ends within the fuel and leaves a well-formed
  -- `BitVec` of the bits of both, in order.
  pub append_lem : (a : BitVec) → IsValid a → Holds (append build a b) (bits a ++ bits b)
  unfolding append into_iter
  append_lem a w =
      append_loop_lem (iter_fuel b) 0 a w (omega arith) (omega (arith, bits_below_fuel b v))

  -- On a well-formed `BitVec` whose number of bits is a `usize`, `range` over indices inside it
  -- returns a well-formed `BitVec` of the bits there.
  pub range_inside :
      (start end : ℕ)
      → start ≤ end
      → end ≤ length (bits b)
      → (c : BitVec) × (range build b start end ≡ done (some c))
        × IsValid c
        × (bits c ≡ take (end - start) (drop start (bits b)))
  unfolding range word_bits
  range_inside start end h le = range_loop-some (end - start) start new (omega arith) (omega arith)

  -- On a well-formed `BitVec` whose number of bits is a `usize`, a nonempty `range` that starts
  -- inside it or at its end, and runs past the end, is `None`.
  pub range_outside :
      (start end : ℕ)
      → start ≤ length (bits b)
      → start < end
      → length (bits b) < end
      → range build b start end ≡ done none
  unfolding range
  range_outside start end le h past =
      range_loop-none (end - start) start new (omega arith) le (omega arith)

-- A range that ends before it starts is empty.
pub range_backwards :
    (build : Build) (b : BitVec) (start end : ℕ)
    → end ≤ start
    → range build b start end ≡ done (some new)
unfolding range range_loop
range_backwards build b start end h = let none_left : end - start ≡ 0 = omega arith in rw none_left

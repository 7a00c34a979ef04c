-- ===== src/BitVec/Built.antt =====
-- What the methods of src/bitvec.rs can make: no other module of the program can set the fields.
use game_network.Prelude.{
  ℕ, zero, suc, ◌+◌, ◌-◌, ◌<◌, ◌≡◌, ◌↔◌, sym, ◌∙◌, done-injective, some-done-injective, Bool, some,
  List, inl, inr, Option-cases, arith, length, get_elem?, Run, done, Build, usize_mod,
}
use mathlib.Core.Path.{subst}
use game_network.BitVec.{BitVec, new, from_slice, push, append, range, range_loop}
use game_network.BitVec.View.{bits, IsValid, Holds}
use game_network.BitVec.Push.{push_lem, from_slice_lem}
use game_network.BitVec.Get.{get_lem}
use game_network.BitVec.Canonical.{from_slice-bits}
use game_network.BitVec.Loops.{append_lem}

module _ (build : Build) where
  -- The values of `BitVec` that calls of its methods can return. A vector that is read bit by bit fits
  -- into the memory.
  pub data Built : BitVec → Type 0 where
    made : Built new
    sliced : (xs : List Bool) (b : BitVec) → from_slice build xs ≡ done b → Built b
    pushed : (b c : BitVec) (bit : Bool) → Built b → push build b bit ≡ done c → Built c
    appended :
        (a b c : BitVec)
        → Built a
        → Built b
        → length (bits b) < usize_mod
        → append build a b ≡ done c
        → Built c
    ranged :
        (b c : BitVec) (start end : ℕ)
        → Built b
        → length (bits b) < usize_mod
        → range build b start end ≡ done (some c)
        → Built c

  Holds-IsValid :
      (r : Run BitVec) (xs : List Bool) (b : BitVec) → Holds r xs → r ≡ done b → IsValid b
  Holds-IsValid r xs b (c, runs, v, e) returns =
      subst IsValid (done-injective (sym runs ∙ returns)) v

  range_loop-IsValid :
      (b : BitVec)
      → IsValid b
      → length (bits b) < usize_mod
      → (left idx : ℕ) (acc c : BitVec) → IsValid acc
      → range_loop build b left idx acc ≡ done (some c)
      → IsValid c
  unfolding range_loop
  range_loop-IsValid b v fits zero idx acc c w runs = subst IsValid (some-done-injective runs) w
  range_loop-IsValid b v fits (suc left) idx acc c w runs =
      let got = get_lem build b idx v fits in
      elim (Option-cases (get_elem? (bits b) idx)) [
        | inl past ↦ absurd (let h = rw (got, past) at runs in cc)
        | inr (bit, here) ↦
            let (acc', pushes, w', e) = push_lem build acc bit w in
            range_loop-IsValid b v fits left (idx + 1) acc' c w' (rw (got, here, pushes) at runs)
      ]

  Built-IsValid : {b : BitVec} → Built b → IsValid b
  unfolding range
  Built-IsValid made = (omega arith, omega arith)
  Built-IsValid (sliced xs b runs) =
      Holds-IsValid (from_slice build xs) xs b (from_slice_lem build xs) runs
  Built-IsValid (pushed b c bit h runs) =
      Holds-IsValid (push build b bit) _ c (push_lem build b bit (Built-IsValid h)) runs
  Built-IsValid (appended a b c h k fits runs) =
      Holds-IsValid (append build a b) _ c
        (append_lem build b (Built-IsValid k) fits a (Built-IsValid h)) runs
  Built-IsValid (ranged b c start end h fits runs) =
      range_loop-IsValid b (Built-IsValid h) fits (end - start) start new c
        (omega arith, omega arith) runs

  -- The values that calls of `new`, `from_slice`, `push`, `append` and `range` can return, in
  -- either build and on vectors whose number of bits is a `usize` where they read them, are exactly
  -- the well-formed ones: those with at least one word, all words but the last full, and no bit set
  -- behind those in use.
  pub Built_iff_IsValid : (b : BitVec) → Built b ↔ IsValid b
  Built_iff_IsValid b = (Built-IsValid, λ v. sliced (bits b) b (from_slice-bits build b v))

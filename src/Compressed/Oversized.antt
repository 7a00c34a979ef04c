-- ===== src/Compressed/Oversized.antt =====
-- `decompress` of src/bitvec.rs on an element size that no `compress` writes and that a peer can send.
use game_network.Prelude.{
  ℕ, zero, suc, ◌-◌, ◌<◌, ◌^◌, ◌≡◌, refl, Bool, true, Option, none, some, List, [], ◌∷◌, ◌++◌,
  arith, length, get_elem?, lt→ltb, panic, timeout, debug, release, usize_mod, add_usize_of_lt,
  add_usize_wraps, add_usize_panics,
}
use game_network.BitVec.{BitVec, new}
use game_network.BitVec.View.{bits, IsValid}
use game_network.BitVec.Push.{len_lem}
use game_network.BitVec.Loops.{range_backwards}
use game_network.BitVec.Get.{get_lem}
use game_network.Compressed.{decompress_loop, decompress_bits, decompress}

-- `usize::MAX`
abbrev pub usize_max : ℕ
usize_max = 2 ^ 64 - 1

module _ (payload : BitVec) (v : IsValid payload) (fits : length (bits payload) < usize_mod)
    (tail : List Bool) (marked : bits payload ≡ true ∷ tail) where
  nonempty : 0 < length (bits payload)
  nonempty = rw marked (omega arith)

  first : get_elem? (bits payload) 0 ≡ some true
  first = rw marked

  spins :
      (fuel : ℕ) (previous : Option BitVec) (seq : List BitVec)
      → decompress_loop release fuel usize_max payload 0 previous seq ≡ timeout
  unfolding decompress_loop
  spins zero previous seq = refl
  spins (suc fuel) previous seq =
      rw
        (
          len_lem release payload v fits,
          lt→ltb 0 (length (bits payload)) nonempty,
          get_lem release payload 0 v fits,
          first,
          add_usize_of_lt release 0 1 (omega arith),
          add_usize_of_lt release 0 usize_max (omega arith),
          add_usize_wraps usize_max 1 (omega arith),
          range_backwards release payload 1 0 (omega arith),
          add_usize_wraps usize_max 1 (omega arith),
          add_usize_of_lt release 0 0 (omega arith),
        )
        (spins fuel (some new) (seq ++ new ∷ []))

  -- In a release build `decompress` does not return, whatever the fuel, when the element size is
  -- the largest `usize` and the payload is well-formed, of a length that is a `usize`, and starts
  -- with a one: the index wraps around to where it was.
  pub decompress_never_returns :
      (fuel : ℕ)
      → decompress release fuel (record { bits = payload; element_size = usize_max }) ≡ timeout
  unfolding decompress decompress_bits
  decompress_never_returns fuel = spins fuel none []

  -- In a debug build, with any fuel but none, `decompress` panics when the element size is the
  -- largest `usize` and the payload is well-formed, of a length that is a `usize`, and starts with
  -- a one.
  pub decompress_panics :
      (fuel : ℕ)
      → decompress debug (suc fuel) (record { bits = payload; element_size = usize_max }) ≡ panic
  unfolding decompress decompress_bits decompress_loop
  decompress_panics fuel = rw (
    len_lem debug payload v fits,
    lt→ltb 0 (length (bits payload)) nonempty,
    get_lem debug payload 0 v fits,
    first,
    add_usize_of_lt debug 0 1 (omega arith),
    add_usize_of_lt debug 0 usize_max (omega arith),
    add_usize_panics usize_max 1 (omega arith),
  )

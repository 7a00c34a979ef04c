-- ===== src/BitVec.antt =====
-- src/bitvec.rs: `BitVec`, its methods and its iterator. A `u32` or `u8` is a number, with its range
-- in `View.IsValid`; a value that was deserialised need not be in range, so every index, shift and
-- sum that can fail is a `Run`.
pub mod View
pub mod Push
pub mod Get
pub mod Loops
pub mod Canonical
pub mod Built
pub mod Lists
mod UnitTests
mod Tests
use game_network.Prelude.{
  ℕ, zero, suc, ◌+◌, ◌-◌, ◌*◌, ◌/◌, ◌%◌, ◌^◌, bit_and, bit_or, Bool, true, false, not, ◌&&◌, Option,
  none, some, List, [], ◌∷◌, ◌++◌, length, get_elem?, ltb, leb, ◌==◌, if◌then◌else◌, Run, done,
  panic, timeout, ◌>>=◌, Build, add_usize, sub_usize, mul_usize, add_u8,
}

pub record BitVec : Type 0 where
  pub storage : List ℕ
  pub len_of_last : ℕ

pub record BitVecIter : Type 0 where
  pub bitvec : BitVec
  pub bit_counter : ℕ

abbrev pub new : BitVec
new = record { storage = 0 ∷ []; len_of_last = 0 }

pub is_empty : BitVec → Bool
is_empty b = b.len_of_last == 0

-- `bit as u32`
abbrev pub as_u32 : Bool → ℕ
as_u32 true = 1
as_u32 false = 0

-- `0x01u32.checked_shl(n).unwrap()`
unfoldable pub one_shl : ℕ → Run ℕ
one_shl n = if ltb n 32 then done (2 ^ n) else panic

-- `*storage.last_mut().unwrap() = storage.last().unwrap() | new_bit`
unfoldable pub or_last : List ℕ → ℕ → Run (List ℕ)
or_last [] new_bit = panic
or_last (w ∷ []) new_bit = done (bit_or w new_bit ∷ [])
or_last (w ∷ v ∷ ws) new_bit = do rest ← or_last (v ∷ ws) new_bit; done (w ∷ rest)

-- The derived `PartialEq`, field by field.
pub eq_storage : List ℕ → List ℕ → Bool
eq_storage [] [] = true
eq_storage [] (w ∷ ws) = false
eq_storage (v ∷ vs) [] = false
eq_storage (v ∷ vs) (w ∷ ws) = v == w && eq_storage vs ws

unfoldable pub eq : BitVec → BitVec → Bool
unfolding eq_storage
eq b c = eq_storage b.storage c.storage && b.len_of_last == c.len_of_last

pub into_iter : BitVec → BitVecIter
into_iter b = record { bitvec = b; bit_counter = 0 }

-- Rounds that are enough for a loop over the bits of `b`: no bit is read behind its storage.
abbrev pub iter_fuel : BitVec → ℕ
iter_fuel b = suc (32 * length b.storage)

module _ (build : Build) where
  unfoldable pub len : BitVec → Run ℕ
  len b = do
    words ← sub_usize build (length b.storage) 1
    full ← mul_usize build 32 words
    add_usize build full b.len_of_last

  unfoldable pub push : BitVec → Bool → Run BitVec
  push b bit =
      if b.len_of_last == 32
      then done (record { storage = b.storage ++ as_u32 bit ∷ []; len_of_last = 1 })
      else if bit
      then (do
        new_bit ← one_shl b.len_of_last
        words ← or_last b.storage new_bit
        used ← add_u8 build b.len_of_last 1
        done (record { storage = words; len_of_last = used }))
      else (do used ← add_u8 build b.len_of_last 1; done (record b { len_of_last = used }))

  push_all : BitVec → List Bool → Run BitVec
  push_all b [] = done b
  push_all b (bit ∷ bits) = do b' ← push b bit; push_all b' bits

  unfoldable pub from_slice : List Bool → Run BitVec
  unfolding push_all
  from_slice slice = push_all new slice

  unfoldable pub get_in : Option ℕ → ℕ → Run (Option Bool)
  get_in none inner_idx = done none
  get_in (some element) inner_idx = do
    bit ← one_shl inner_idx
    done (some (not (bit_and element bit == 0)))

  unfoldable pub get : BitVec → ℕ → Run (Option Bool)
  unfolding get_in
  get b index = do
    n ← len b
    if leb n index then done none else get_in (get_elem? b.storage (index / 32)) (index % 32)

  next : BitVecIter → Run (Option Bool × BitVecIter)
  next it = do
    item ← get it.bitvec it.bit_counter
    elim item [
      | some b ↦ (do
        counter ← add_usize build it.bit_counter 1
        done (some b, record it { bit_counter = counter }))
      | none ↦ done (none, it)
    ]

  -- `for bit in other { self.push(bit) }`
  append_loop : ℕ → BitVecIter → BitVec → Run BitVec
  append_loop zero it acc = timeout
  append_loop (suc fuel) it acc = do
    (item, it') ← next it
    elim item [ some bit ↦ (do acc' ← push acc bit; append_loop fuel it' acc') | none ↦ done acc ]

  unfoldable pub append : BitVec → BitVec → Run BitVec
  unfolding append_loop next into_iter
  append b other = append_loop (iter_fuel other) (into_iter other) b

  -- `for idx in range`, with the rounds left: the index stays below the end, so its step is exact.
  unfoldable pub range_loop : BitVec → ℕ → ℕ → BitVec → Run (Option BitVec)
  range_loop b zero idx bitvec = done (some bitvec)
  range_loop b (suc left) idx bitvec = do
    item ← get b idx
    elim item [
      | some bit ↦ (do bitvec' ← push bitvec bit; range_loop b left (idx + 1) bitvec')
      | none ↦ done none
    ]

  unfoldable pub range : BitVec → ℕ → ℕ → Run (Option BitVec)
  unfolding range_loop
  range b start end = range_loop b (end - start) start new

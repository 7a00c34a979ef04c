-- ===== src/Control.antt =====
-- src/control.rs: sequences of controller states, and their compressed form.
pub mod Ticks
pub mod Transfer
mod Tests
use Prim.Native.Nat.{min}
use game_network.Prelude.{
  ℕ, zero, suc, ◌-◌, Bool, true, false, Option, none, some, List, [], ◌∷◌, ◌++◌, length, drop, ltb,
  if◌then◌else◌, Run, done, ◌>>=◌, Build, add_usize,
}
use game_network.Prelude.Int.{ℤ, pos, negsuc, as_i64, sub_i64}
use game_network.BitVec.{BitVec}
use game_network.Compressed
use game_network.Compressed.{CompressedBitVec}

pub record ControllerSequence : Type 0 where
  pub start_tick : ℕ
  pub seq : List BitVec

pub record CompressedControllerSequence : Type 0 where
  pub start_tick : ℕ
  pub comp_seq : CompressedBitVec

abbrev pub new : ControllerSequence
new = record { start_tick = 0; seq = [] }

unfoldable pub push : ControllerSequence → BitVec → ControllerSequence
push c bitvec = record c { seq = c.seq ++ bitvec ∷ [] }

push_each : ControllerSequence → List BitVec → ControllerSequence
unfolding push
push_each c [] = c
push_each c (bitvec ∷ rest) = push_each (push c bitvec) rest

-- The test `tick_delta > 0` with the loop behind it; only a positive delta is cast to `usize`.
append_delta : ControllerSequence → ℤ → List BitVec → ControllerSequence
append_delta c (pos zero) seq = c
append_delta c (pos (suc n)) seq = push_each c (drop (suc n) seq)
append_delta c (negsuc n) seq = c

pub no_element : List BitVec → Bool
no_element [] = true
no_element (x ∷ xs) = false

unfoldable pub is_empty : ControllerSequence → Bool
unfolding no_element
is_empty c = no_element c.seq

-- What `drain(0..end)` leaves.
remaining : ControllerSequence → ℕ → ℕ → List BitVec
remaining c last tick =
    if ltb tick last then drop (min (last - tick) (length c.seq)) c.seq else c.seq

module _ (build : Build) where
  pub append : ControllerSequence → ControllerSequence → Run ControllerSequence
  unfolding append_delta
  append c cont_seq = do
    tick_delta ← sub_i64 build (as_i64 cont_seq.start_tick) (as_i64 c.start_tick)
    done (append_delta c tick_delta cont_seq.seq)

  unfoldable pub to_compressed : ControllerSequence → Run (Option CompressedControllerSequence)
  to_compressed c = do
    comp ← Compressed.compress build c.seq
    done (elim comp [
      | some comp_seq ↦ some (record { start_tick = c.start_tick; comp_seq = comp_seq })
      | none ↦ none
    ])

  unfoldable pub last_tick : ControllerSequence → Run ℕ
  last_tick c = add_usize build c.start_tick (length c.seq)

  pub remove_till_tick : ControllerSequence → ℕ → Run ControllerSequence
  unfolding last_tick remaining
  remove_till_tick c tick = do
    last ← last_tick c
    start ← add_usize build last 1
    done (record { start_tick = start; seq = remaining c last tick })

  -- `decompress` loops on fuel.
  unfoldable pub to_controller_sequence :
      ℕ → CompressedControllerSequence → Run (Option ControllerSequence)
  to_controller_sequence fuel c = do
    found ← Compressed.decompress build fuel c.comp_seq
    done (elim found [
      | some seq ↦ some (record { start_tick = c.start_tick; seq = seq })
      | none ↦ none
    ])

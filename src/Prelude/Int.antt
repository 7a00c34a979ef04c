-- ===== src/Prelude/Int.antt =====
-- Signed 64-bit integers: the difference of two `i64` that stand for `usize` values.
use Prim.Native.Nat.{ℕ, suc, ◌+◌, ◌-◌, ◌%◌, ◌^◌, ◌<◌}
use mathlib.Core.Path.{◌≡◌}
use mathlib.Core.Bool.{Bool}
use native.Mathlib.Omega.{arith}
use game_network.Prelude.Tests.{ltb, leb, if◌then◌else◌}
use game_network.Prelude.Outcome.{Run, done, panic, Build, debug, release}

-- `negsuc n` is -(n + 1).
pub data ℤ : Type 0 where
  pos : ℕ → ℤ
  negsuc : ℕ → ℤ

abbrev pub pos_part : ℤ → ℕ
pos_part (pos n) = n
pos_part (negsuc n) = 0

abbrev pub neg_part : ℤ → ℕ
neg_part (pos n) = 0
neg_part (negsuc n) = suc n

-- a - b, as an integer.
abbrev pub sub_ℕ : ℕ → ℕ → ℤ
sub_ℕ a b = if leb b a then pos (a - b) else negsuc (b - a - 1)

-- `n as i64` of a `usize`, which keeps the bits.
unfoldable pub as_i64 : ℕ → ℤ
as_i64 n = if ltb n (2 ^ 63) then pos n else negsuc (2 ^ 64 - n - 1)

-- The bits of an integer, modulo 2^64.
abbrev to_bits : ℤ → ℕ
to_bits (pos n) = n % 2 ^ 64
to_bits (negsuc n) = (2 ^ 64 - 1 - n % 2 ^ 64) % 2 ^ 64

abbrev fits_i64 : ℤ → Bool
fits_i64 (pos n) = ltb n (2 ^ 63)
fits_i64 (negsuc n) = ltb n (2 ^ 63)

abbrev checked : Build → ℤ → Run ℤ
checked debug d = if fits_i64 d then done d else panic
checked release d = if fits_i64 d then done d else done (as_i64 (to_bits d))

-- `a - b` of two `i64`.
unfoldable pub sub_i64 : Build → ℤ → ℤ → Run ℤ
sub_i64 build a b = checked build (sub_ℕ (pos_part a + neg_part b) (neg_part a + pos_part b))

-- Two ticks below 2^63 have their difference.
pub sub_i64-as_i64 :
    (build : Build) (a b : ℕ)
    → a < 2 ^ 63
    → b < 2 ^ 63
    → sub_i64 build (as_i64 a) (as_i64 b) ≡ done (sub_ℕ a b)
unfolding sub_i64 as_i64
sub_i64-as_i64 debug a b h k = ground arith
sub_i64-as_i64 release a b h k = ground arith

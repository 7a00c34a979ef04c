-- ===== src/BitVec/UnitTests.antt =====
-- The tests in src/bitvec.rs of `BitVec`, statement by statement, each of which ends in both builds.
use game_network.Prelude.{
  ℕ, zero, suc, ◌+◌, ◌%◌, ◌≡◌, refl, ◌==◌, Bool, true, false, not, Option, none, some, [], ◌∷◌, Run,
  done, assert, unwrap, ◌>>=◌, ◌>>◌, Build, debug, release, add_u8, add_usize, sub_usize, mul_usize,
}
use game_network.BitVec.{
  BitVec, new, len, is_empty, push, get, from_slice, range, append, eq, one_shl, or_last,
}

-- `==` on `Option<bool>`
abbrev eq_bit : Option Bool → Option Bool → Bool
eq_bit none none = true
eq_bit none (some b) = false
eq_bit (some a) none = false
eq_bit (some true) (some b) = b
eq_bit (some false) (some b) = not b

-- `==` on `Option<BitVec>`, with `None` on the left
abbrev is_none : Option BitVec → Bool
is_none none = true
is_none (some b) = false

module _ (build : Build) where
  bitvec_empty : Run (Unit {0})
  bitvec_empty = do n ← len build new; assert (0 == n); assert (is_empty new)

  bitvec_not_empty : Run (Unit {0})
  bitvec_not_empty = do
    bitvec ← push build new true
    n ← len build bitvec
    assert (1 == n)
    assert (not (is_empty bitvec))

  -- `for i in 0..33 { bitvec.push((i % 2) == 1); }`, with the rounds left.
  push_odd : ℕ → ℕ → BitVec → Run BitVec
  push_odd zero i bitvec = done bitvec
  push_odd (suc left) i bitvec = do
    bitvec' ← push build bitvec (i % 2 == 1)
    push_odd left (i + 1) bitvec'

  -- `for i in 0..33 { assert_eq!(Some((i % 2) == 1), bitvec.get(i)); }`, with the rounds left.
  check_odd : ℕ → ℕ → BitVec → Run (Unit {0})
  check_odd zero i bitvec = done tt
  check_odd (suc left) i bitvec = do
    bit ← get build bitvec i
    assert (eq_bit (some (i % 2 == 1)) bit)
    check_odd left (i + 1) bitvec

  bitvec_gt_32 : Run (Unit {0})
  unfolding push_odd check_odd
  bitvec_gt_32 = do
    bitvec ← push_odd 33 0 new
    check_odd 33 0 bitvec
    n ← len build bitvec
    assert (33 == n)
    bit ← get build bitvec 33
    assert (eq_bit none bit)

  -- `assert_eq!(expected, bitvec.get(i));`
  check_get : Option Bool → BitVec → ℕ → Run (Unit {0})
  check_get expected bitvec i = do bit ← get build bitvec i; assert (eq_bit expected bit)

  bitvec_push_get : Run (Unit {0})
  unfolding check_get
  bitvec_push_get = do
    check_get none new 0
    check_get none new 1
    first ← push build new true
    check_get (some true) first 0
    check_get none first 1
    second ← push build first false
    check_get (some true) second 0
    check_get (some false) second 1
    check_get none second 2

  bitvec_range : Run (Unit {0})
  bitvec_range = do
    first ← from_slice build (false ∷ true ∷ false ∷ [])
    inside ← range build first 0 3
    same ← unwrap inside
    assert (eq first same)
    past ← range build first 0 4
    assert (is_none past)

  bitvec_append : Run (Unit {0})
  bitvec_append = do
    first ← from_slice build (false ∷ true ∷ false ∷ [])
    one ← push build new true
    second ← append build one first
    behind ← range build second 1 4
    same ← unwrap behind
    assert (eq first same)
    before ← range build second 0 3
    other ← unwrap before
    assert (not (eq first other))
    part ← range build second 1 3
    short ← unwrap part
    assert (not (eq first short))

bitvec_empty_passes : (bitvec_empty debug ≡ done tt) × (bitvec_empty release ≡ done tt)
unfolding bitvec_empty len is_empty add_usize sub_usize mul_usize
bitvec_empty_passes = (refl, refl)

bitvec_not_empty_passes : (bitvec_not_empty debug ≡ done tt) × (bitvec_not_empty release ≡ done tt)
unfolding bitvec_not_empty len is_empty push one_shl or_last add_u8 add_usize sub_usize mul_usize
bitvec_not_empty_passes = (refl, refl)

bitvec_gt_32_passes : (bitvec_gt_32 debug ≡ done tt) × (bitvec_gt_32 release ≡ done tt)
unfolding bitvec_gt_32 len get push one_shl or_last add_u8 add_usize sub_usize mul_usize
bitvec_gt_32_passes = (refl, refl)

bitvec_push_get_passes : (bitvec_push_get debug ≡ done tt) × (bitvec_push_get release ≡ done tt)
unfolding bitvec_push_get len get push one_shl or_last add_u8 add_usize sub_usize mul_usize
bitvec_push_get_passes = (refl, refl)

bitvec_range_passes : (bitvec_range debug ≡ done tt) × (bitvec_range release ≡ done tt)
unfolding bitvec_range from_slice range eq len get push one_shl or_last add_u8 add_usize sub_usize
    mul_usize
bitvec_range_passes = (refl, refl)

bitvec_append_passes : (bitvec_append debug ≡ done tt) × (bitvec_append release ≡ done tt)
unfolding bitvec_append append from_slice range eq len get push one_shl or_last add_u8 add_usize
    sub_usize mul_usize
bitvec_append_passes = (refl, refl)

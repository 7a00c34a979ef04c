-- ===== src/BitVec/Lists.antt =====
-- The well-formed values of src/bitvec.rs as lists of bits.
use native.Mathlib.Bridge.{le_prop}
use mathlib.Core.Equiv.{IsEquiv, Iso, iso_to_equiv}
use mathlib.Core.HLevel.{Σ_prop_path}
use game_network.Prelude.{ℕ, ◌≡◌, ◌↔◌, true, Bool, List, [], ◌∷◌, done, Build}
use game_network.BitVec.{BitVec, from_slice, eq}
use game_network.BitVec.View.{bits, IsValid, IsPacked}
use game_network.BitVec.Push.{from_slice_lem}
use game_network.BitVec.Canonical.{bits-injective, eq_iff_bits}

IsPacked-IsProp : (ws : List ℕ) (l : ℕ) → IsProp (IsPacked ws l)
IsPacked-IsProp [] l = hlevel
IsPacked-IsProp (w ∷ []) l = hlevel (le_prop)
IsPacked-IsProp (w ∷ v ∷ ws) l = hlevel (le_prop, IsPacked-IsProp (v ∷ ws) l)

-- A value with a proof that it is well-formed, of which there is at most one.
abbrev pub WellFormed : Type 0
WellFormed = (b : BitVec) × IsValid b

abbrev pub listed : WellFormed → List Bool
listed (b, v) = bits b

module _ (build : Build) where
  stored : List Bool → WellFormed
  stored xs = let (b, _, v, _) = from_slice_lem build xs in (b, v)

  WellFormed-Iso : Iso WellFormed (List Bool)
  unfolding stored
  WellFormed-Iso = record {
    fun = listed;
    inv = stored;
    rinv = λ xs. (from_slice_lem build xs).3;
    linv = λ b.
        let (c, _, w, e) = from_slice_lem build (bits b.0) in
        Σ_prop_path (λ b. IsPacked-IsProp b.storage b.len_of_last) (bits-injective c b.0 w b.1 e);
  }

  -- Reading off the bits is an equivalence between the well-formed `BitVec`s and the lists of bits;
  -- `from_slice` of a list always returns the well-formed value with its bits, and `==` of two
  -- well-formed values holds exactly when they have the same bits.
  pub listed-IsEquiv :
      IsEquiv listed
      × ((xs : List Bool) → (b : WellFormed) × (from_slice build xs ≡ done b.0) × (listed b ≡ xs))
      × ((b c : WellFormed) → (eq b.0 c.0 ≡ true) ↔ (listed b ≡ listed c))
  unfolding WellFormed-Iso
  listed-IsEquiv = (
    (iso_to_equiv WellFormed-Iso).1,
    λ xs. let (b, runs, v, e) = from_slice_lem build xs in ((b, v), runs, e),
    λ b c. eq_iff_bits b.0 c.0 b.1 c.1,
  )

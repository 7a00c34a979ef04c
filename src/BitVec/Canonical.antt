-- ===== src/BitVec/Canonical.antt =====
-- A well-formed `BitVec` of src/bitvec.rs is determined by its bits, so the derived `==` compares
-- bits.
use game_network.Prelude.{
  ℕ, ◌≡◌, refl, sym, ap, ap₂, ◌∙◌, ◌↔◌, true, List, [], ◌∷◌, arith, length, append_split, ==_iff,
  done, Build,
}
use game_network.Prelude.Word.{word_bits, length-word_bits, word_bits-injective}
use game_network.BitVec.{BitVec, eq_storage, eq, from_slice}
use game_network.BitVec.View.{bits_in, bits, IsPacked, IsValid, length-bits_in}
use game_network.BitVec.Push.{from_slice_lem}

SameLast : List ℕ → List ℕ → ℕ → ℕ → Type 0
SameLast vs ws k l = (vs ≡ ws) × (k ≡ l)

bits_in-injective :
    (vs ws : List ℕ) (k l : ℕ)
    → IsPacked vs k
    → IsPacked ws l
    → bits_in vs k ≡ bits_in ws l
    → SameLast vs ws k l
unfolding SameLast
bits_in-injective [] ws k l p q e = absurd p
bits_in-injective (v ∷ vs) [] k l p q e = absurd q
bits_in-injective (v ∷ []) (w ∷ []) k l p q e =
    let same : k ≡ l = sym (length-word_bits k v) ∙ ap length e ∙ length-word_bits l w in
    (
      ap (λ t. t ∷ [])
          (word_bits-injective k v w p.1 (rw same q.1) (e ∙ ap (λ t. word_bits t w) (sym same))),
      same,
    )
bits_in-injective (v ∷ []) (w ∷ y ∷ ws) k l p q e =
    absurd
      (omega (arith, ap length e, length-bits_in (v ∷ []) k p, length-bits_in (w ∷ y ∷ ws) l q))
bits_in-injective (v ∷ x ∷ vs) (w ∷ []) k l p q e =
    absurd
      (omega (arith, ap length e, length-bits_in (v ∷ x ∷ vs) k p, length-bits_in (w ∷ []) l q))
bits_in-injective (v ∷ x ∷ vs) (w ∷ y ∷ ws) k l p q e =
    let (fronts, rests) =
      append_split (word_bits 32 v) (word_bits 32 w) (bits_in (x ∷ vs) k) (bits_in (y ∷ ws) l)
        (length-word_bits 32 v ∙ sym (length-word_bits 32 w)) e in
    let (tails, lasts) = bits_in-injective (x ∷ vs) (y ∷ ws) k l p.2 q.2 rests in
    (ap₂ ◌∷◌ (word_bits-injective 32 v w p.0 q.0 fronts) tails, lasts)

-- Two well-formed `BitVec`s with the same bits are the same value, field by field.
pub bits-injective : (b c : BitVec) → IsValid b → IsValid c → bits b ≡ bits c → b ≡ c
unfolding SameLast
bits-injective b c v w e =
    let (stores, lasts) = bits_in-injective b.storage c.storage b.len_of_last c.len_of_last v w e in
    λ i. record { storage = stores i; len_of_last = lasts i }

eq_storage_iff : (vs ws : List ℕ) → (eq_storage vs ws ≡ true) ↔ (vs ≡ ws)
unfolding eq_storage
eq_storage_iff [] [] = (λ _. refl, λ _. refl)
eq_storage_iff [] (w ∷ ws) = (λ h. cc, λ h. cc)
eq_storage_iff (v ∷ vs) [] = (λ h. cc, λ h. cc)
eq_storage_iff (v ∷ vs) (w ∷ ws) = ground (arith, ==_iff v w, eq_storage_iff vs ws)

pub eq_lem : (b c : BitVec) → (eq b c ≡ true) ↔ (b ≡ c)
unfolding eq
eq_lem b c = ground (arith, eq_storage_iff b.storage c.storage)

-- `==` on well-formed `BitVec`s holds exactly when they have the same bits.
pub eq_iff_bits : (b c : BitVec) → IsValid b → IsValid c → (eq b c ≡ true) ↔ (bits b ≡ bits c)
eq_iff_bits b c v w =
    (λ h. ap bits ((eq_lem b c).0 h), λ h. (eq_lem b c).1 (bits-injective b c v w h))

-- `from_slice` of the bits of a well-formed `BitVec` gives that `BitVec` back.
pub from_slice-bits : (build : Build) (b : BitVec) → IsValid b → from_slice build (bits b) ≡ done b
from_slice-bits build b v =
    let (c, runs, w, e) = from_slice_lem build (bits b) in runs ∙ ap done (bits-injective c b w v e)

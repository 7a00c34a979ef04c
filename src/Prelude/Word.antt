-- ===== src/Prelude/Word.antt =====
-- The bits of a word, lowest first, and what `|` and `&` with a single bit do to them.
use Prim.Native.Nat.{
  ℕ, zero, suc, ◌+◌, ◌-◌, ◌*◌, ◌/◌, ◌%◌, ◌^◌, ◌≤◌, ◌<◌, min, max, digits, bitwise, bit_and, bit_or,
  bit_and-bitwise, bit_or-bitwise,
}
use mathlib.Core.Path.{◌≡◌, refl, ap, ap₂, ◌∙◌}
use mathlib.Core.Bool.{Bool, true, false, not}
use mathlib.Core.Option.{some}
use mathlib.Core.List.{List, [], ◌∷◌, ◌++◌}
use native.Mathlib.Nat.{le_refl, pow-suc}
use native.Mathlib.Omega.{arith}
use game_network.Prelude.Tests.{◌==◌}
use game_network.Prelude.Lists.{length, get_elem?}

-- `|` and `&` stand for a recursion that counts down from the first number. A count that is larger than
-- the number changes nothing.
module _ (rest : ℕ → ℕ) (join : ℕ → ℕ → ℕ) where
  one_more : (n a b : ℕ) → a ≤ n → digits rest join (suc n) a b ≡ digits rest join n a b
  one_more zero zero b h = refl
  one_more zero (suc a) b h = absurd (omega arith)
  one_more (suc n) zero b h = refl
  one_more (suc n) (suc a) b h =
      ap (λ high. high * 2 + join (suc a % 2) (b % 2))
        (one_more n (suc a / 2) (b / 2) (omega arith))

  spare : (k n m a b : ℕ) → m ≡ k + n → a ≤ n → digits rest join m a b ≡ digits rest join n a b
  spare zero n m a b e h = ap (λ t. digits rest join t a b) (omega arith)
  spare (suc k) n m a b e h =
      let larger : m ≡ suc (k + n) = omega arith in
      ap (λ t. digits rest join t a b) larger
      ∙ one_more (k + n) a b (omega arith)
      ∙ spare k n (k + n) a b refl h

  lowest_digit :
      (a b : ℕ)
      → bitwise rest join (suc a) b
        ≡ bitwise rest join (suc a / 2) (b / 2) * 2 + join (suc a % 2) (b % 2)
  lowest_digit a b =
      let half : ℕ = suc a / 2 in
      ap (λ high. high * 2 + join (suc a % 2) (b % 2))
        (spare (a - half) half a half (b / 2) (omega arith) (le_refl half))

-- The lowest digit of `|` and of `&`, and the rest.
or_digit : (v w : ℕ) → bit_or v w ≡ bit_or (v / 2) (w / 2) * 2 + max (v % 2) (w % 2)
or_digit zero w = rw (bit_or-bitwise, bit_or-bitwise) (omega arith)
or_digit (suc v) w = rw (bit_or-bitwise, bit_or-bitwise) (lowest_digit (λ y. y) max v w)

and_digit : (v w : ℕ) → bit_and v w ≡ bit_and (v / 2) (w / 2) * 2 + min (v % 2) (w % 2)
and_digit zero w = rw (bit_and-bitwise, bit_and-bitwise) (omega arith)
and_digit (suc v) w = rw (bit_and-bitwise, bit_and-bitwise) (lowest_digit (λ y. 0) min v w)

no_digits : (n v : ℕ) → digits (λ y. 0) min n v 0 ≡ 0
no_digits zero v = refl
no_digits (suc n) zero = refl
no_digits (suc n) (suc v) = omega (arith, no_digits n (suc v / 2))

and_nothing : (v : ℕ) → bit_and v 0 ≡ 0
and_nothing v = rw bit_and-bitwise (no_digits v v)

-- Setting the bit just above a word adds its value.
pub bit_or_above : (k w : ℕ) → w < 2 ^ k → bit_or w (2 ^ k) ≡ w + 2 ^ k
bit_or_above zero zero h = refl
bit_or_above zero (suc w) h = absurd (omega arith)
bit_or_above (suc k) w h = omega (
  arith,
  pow-suc 2 k,
  or_digit w (2 ^ suc k),
  ap (λ t. bit_or (w / 2) t) half,
  bit_or_above k (w / 2) (omega (arith, pow-suc 2 k)),
)
  where
    half : 2 ^ suc k / 2 ≡ 2 ^ k
    half = omega (arith, pow-suc 2 k)

-- The lowest `n` bits of a word.
unfoldable pub word_bits : ℕ → ℕ → List Bool
word_bits zero w = []
word_bits (suc n) w = (w % 2 == 1) ∷ word_bits n (w / 2)

abbrev pub bit_value : Bool → ℕ
bit_value true = 1
bit_value false = 0

pub length-word_bits : (n w : ℕ) → length (word_bits n w) ≡ n
unfolding word_bits
length-word_bits zero w = refl
length-word_bits (suc n) w = ap suc (length-word_bits n (w / 2))

-- Testing one bit of a word with `&` reads it off its list of bits.
pub get_elem?-word_bits :
    (n w i : ℕ) → i < n → get_elem? (word_bits n w) i ≡ some (not (bit_and w (2 ^ i) == 0))
unfolding word_bits
get_elem?-word_bits zero w i h = absurd (omega arith)
get_elem?-word_bits (suc n) w zero h = ground (arith, and_digit w 1, and_nothing (w / 2))
get_elem?-word_bits (suc n) w (suc i) h =
    get_elem?-word_bits n (w / 2) i (omega arith) ∙ ap (λ t. some (not t)) same
  where
    half : 2 ^ suc i / 2 ≡ 2 ^ i
    half = omega (arith, pow-suc 2 i)

    doubled : bit_and w (2 ^ suc i) ≡ bit_and (w / 2) (2 ^ i) * 2
    doubled = omega (arith, pow-suc 2 i, and_digit w (2 ^ suc i), ap (λ t. bit_and (w / 2) t) half)

    same : (bit_and (w / 2) (2 ^ i) == 0) ≡ (bit_and w (2 ^ suc i) == 0)
    same = ground (arith, doubled)

-- A word of `n` bits with the bit above them set to `b` has `b` behind its bits.
pub word_bits_snoc :
    (n w : ℕ) (b : Bool)
    → w < 2 ^ n
    → word_bits (suc n) (w + bit_value b * 2 ^ n) ≡ word_bits n w ++ b ∷ []
unfolding word_bits
word_bits_snoc zero zero true h = refl
word_bits_snoc zero zero false h = refl
word_bits_snoc zero (suc w) b h = absurd (omega arith)
word_bits_snoc (suc n) w b h =
    ap₂ ◌∷◌ (ap (λ t. t == 1) low)
      (ap (word_bits (suc n)) high ∙ word_bits_snoc n (w / 2) b (omega (arith, pow-suc 2 n)))
  where
    low : (w + bit_value b * 2 ^ suc n) % 2 ≡ w % 2
    low = grind (arith, pow-suc 2 n)

    high : (w + bit_value b * 2 ^ suc n) / 2 ≡ w / 2 + bit_value b * 2 ^ n
    high = grind (arith, pow-suc 2 n)

-- A word is determined by its bits.
pub word_bits-injective :
    (n v w : ℕ) → v < 2 ^ n → w < 2 ^ n → word_bits n v ≡ word_bits n w → v ≡ w
unfolding word_bits
word_bits-injective zero v w hv hw e = omega arith
word_bits-injective (suc n) v w hv hw e = omega (
  arith,
  low,
  word_bits-injective n (v / 2) (w / 2) (omega (arith, pow-suc 2 n)) (omega (arith, pow-suc 2 n))
      tails,
)
  where
    heads : (v % 2 == 1) ≡ (w % 2 == 1)
    heads = cc

    tails : word_bits n (v / 2) ≡ word_bits n (w / 2)
    tails = cc

    low : v % 2 ≡ w % 2
    low = ground (arith, heads)

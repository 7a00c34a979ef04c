-- ===== src/Prelude/Outcome.antt =====
-- The outcome of Rust code: a value, a panic, or a loop that used up its fuel; and the checked or
-- wrapping arithmetic on `usize` and `u8`. `usize` has 64 bits.
use Prim.Native.Nat.{ℕ, ◌+◌, ◌-◌, ◌*◌, ◌%◌, ◌^◌, ◌≤◌, ◌<◌}
use mathlib.Core.Path.{◌≡◌, refl}
use mathlib.Core.Option.{Option, none, some}
use mathlib.Core.Bool.{Bool, true, false}
use mathlib.Core.Logic.{◌⊎◌, inl, inr}
use game_network.Prelude.Tests.{ltb, leb, if◌then◌else◌, lt→ltb, le→leb, le→ltb_false}

pub data Run {ℓ} (A : Type ℓ) : Type ℓ where
  done : A → Run A
  panic : Run A
  timeout : Run A

infixl 5 ◌>>=◌ ◌>>◌
abbrev pub ◌>>=◌ {ℓ κ} : {A : Type ℓ} {B : Type κ} → Run A → (A → Run B) → Run B
done a >>= f = f a
panic >>= f = panic
timeout >>= f = timeout

abbrev pub ◌>>◌ {ℓ κ} : {A : Type ℓ} {B : Type κ} → Run A → Run B → Run B
m >> k = m >>= λ _. k

-- The two profiles that Cargo builds: `debug` checks arithmetic for overflow and panics, `release`
-- lets it wrap.
pub data Build : Type 0 where
  debug release : Build

abbrev pub overflow : Build → ℕ → Run ℕ
overflow debug wrapped = panic
overflow release wrapped = done wrapped

abbrev pub usize_mod : ℕ
usize_mod = 2 ^ 64

module _ (build : Build) where
  unfoldable pub add_usize : ℕ → ℕ → Run ℕ
  add_usize x y =
      if ltb (x + y) usize_mod then done (x + y) else overflow build ((x + y) % usize_mod)

  unfoldable pub sub_usize : ℕ → ℕ → Run ℕ
  sub_usize x y = if leb y x then done (x - y) else overflow build ((x + usize_mod - y) % usize_mod)

  unfoldable pub mul_usize : ℕ → ℕ → Run ℕ
  mul_usize x y = if ltb (x * y) usize_mod then done (x * y) else overflow build (x * y % usize_mod)

  unfoldable pub add_u8 : ℕ → ℕ → Run ℕ
  add_u8 x y = if ltb (x + y) 256 then done (x + y) else overflow build ((x + y) % 256)

  pub add_usize_of_lt : (x y : ℕ) → x + y < usize_mod → add_usize x y ≡ done (x + y)
  unfolding add_usize
  add_usize_of_lt x y h = rw (lt→ltb (x + y) usize_mod h)

  pub sub_usize_of_le : (x y : ℕ) → y ≤ x → sub_usize x y ≡ done (x - y)
  unfolding sub_usize
  sub_usize_of_le x y h = rw (le→leb y x h)

  pub mul_usize_of_lt : (x y : ℕ) → x * y < usize_mod → mul_usize x y ≡ done (x * y)
  unfolding mul_usize
  mul_usize_of_lt x y h = rw (lt→ltb (x * y) usize_mod h)

  pub add_u8_of_lt : (x y : ℕ) → x + y < 256 → add_u8 x y ≡ done (x + y)
  unfolding add_u8
  add_u8_of_lt x y h = rw (lt→ltb (x + y) 256 h)

pub add_usize_wraps :
    (x y : ℕ) → usize_mod ≤ x + y → add_usize release x y ≡ done ((x + y) % usize_mod)
unfolding add_usize
add_usize_wraps x y h = rw (le→ltb_false (x + y) usize_mod h)

pub add_usize_panics : (x y : ℕ) → usize_mod ≤ x + y → add_usize debug x y ≡ panic
unfolding add_usize
add_usize_panics x y h = rw (le→ltb_false (x + y) usize_mod h)

pub done-injective {ℓ} : {A : Type ℓ} {a b : A} → done a ≡ done b → a ≡ b
done-injective h = cc

pub some-done-injective {ℓ} : {A : Type ℓ} {a b : A} → done (some a) ≡ done (some b) → a ≡ b
some-done-injective h = cc

pub Run-cases {ℓ} :
    {A : Type ℓ} (r : Run A) → ((a : A) × (r ≡ done a)) ⊎ ((r ≡ panic) ⊎ (r ≡ timeout))
Run-cases (done a) = inl (a, refl)
Run-cases panic = inr (inl refl)
Run-cases timeout = inr (inr refl)

-- `assert!`
abbrev pub assert : Bool → Run (Unit {0})
assert true = done tt
assert false = panic

-- `unwrap` on an `Option`
abbrev pub unwrap {ℓ} : {A : Type ℓ} → Option A → Run A
unwrap none = panic
unwrap (some a) = done a

-- In a release build no addition panics.
pub add_usize_release : (x y : ℕ) → (n : ℕ) × (add_usize release x y ≡ done n)
unfolding add_usize
add_usize_release x y =
    elim (ltb (x + y) usize_mod)
      as (λ b. (n : ℕ) × ((if b then done (x + y) else done ((x + y) % usize_mod)) ≡ done n)) [
        | true ↦ (x + y, refl)
        | false ↦ ((x + y) % usize_mod, refl)
      ]

-- ===== src/Exec.antt =====
-- Methods that change their object and may return an error or panic. What was changed before an error
-- stays changed, so the object comes back beside it.
pub mod Keeps
use game_network.Prelude.{Bool, true, false, List, [], ◌∷◌, Run, done, panic, timeout}
use game_network.Std.{Result, ok, err}

abbrev pub Exec : Type 0 → Type 0 → Type 0 → Type 0
Exec S E A = S → Run (Result A E × S)

module _ {S E A : Type 0} where
  abbrev pub pure : A → Exec S E A
  pure a s = done (ok a, s)

  abbrev pub raise : E → Exec S E A
  raise e s = done (err e, s)

  -- A computation that can panic but returns a plain value.
  abbrev pub run : Run A → Exec S E A
  run (done a) s = done (ok a, s)
  run panic s = panic
  run timeout s = timeout

  abbrev pub lift : Result A E → Exec S E A
  lift r s = done (r, s)

  abbrev pub gets : (S → A) → Exec S E A
  gets f s = done (ok (f s), s)

abbrev pub put : {S E : Type 0} → S → Exec S E (Unit {0})
put s' s = done (ok tt, s')

module _ {S E A B : Type 0} where
  abbrev pub continue : (A → Exec S E B) → Run (Result A E × S) → Run (Result B E × S)
  continue f (done (ok a, s)) = f a s
  continue f (done (err e, s)) = done (err e, s)
  continue f panic = panic
  continue f timeout = timeout

  infixl 5 ◌>>=◌ ◌>>◌
  abbrev pub ◌>>=◌ : Exec S E A → (A → Exec S E B) → Exec S E B
  ◌>>=◌ m f s = continue f (m s)

  abbrev pub ◌>>◌ : Exec S E A → Exec S E B → Exec S E B
  ◌>>◌ m k s = continue (λ _. k) (m s)

-- A call on a part of the object, which is put back changed.
abbrev pub call : {S E A R : Type 0} → (R → S → S) → Run (A × R) → Exec S E A
call set (done (a, r)) s = done (ok a, set r s)
call set panic s = panic
call set timeout s = timeout

-- A method of a part of the object.
abbrev pub put_back : {S T E A : Type 0} → (T → S) → Run (Result A E × T) → Run (Result A E × S)
put_back set (done (a, t)) = done (a, set t)
put_back set panic = panic
put_back set timeout = timeout

abbrev pub within : {S T E A : Type 0} → (S → T) → (T → S → S) → Exec T E A → Exec S E A
within part set m s = put_back (λ t. set t s) (m (part s))

module _ {S E : Type 0} (goes_on : Result (Unit {0}) E → Bool) where
  unfoldable pub next_round : (S → Run (Bool × S)) → Run (Result (Unit {0}) E × S) → Run (Bool × S)
  next_round again (done (r, s)) = elim (goes_on r) [ true ↦ again s | false ↦ done (false, s) ]
  next_round again panic = panic
  next_round again timeout = timeout

  -- `loop { match once() … }`, with what the other threads and the network do before each round. The
  -- result says whether the loop still runs when these steps are used up.
  unfoldable pub rounds : Exec S E (Unit {0}) → List (S → S) → S → Run (Bool × S)
  unfolding next_round
  rounds once [] s = done (true, s)
  rounds once (arrive ∷ rest) s = next_round (rounds once rest) (once (arrive s))

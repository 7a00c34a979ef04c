-- ===== src/Exec/Keeps.antt =====
-- Properties of the object that a method keeps, however it ends, with a rule for each way to build one.
use game_network.Prelude.{
  ◌≡◌, refl, Bool, inl, inr, Bool-cases, List, [], ◌∷◌, Run, done, panic, timeout, All,
}
use game_network.Std.{Result, ok, err}
use game_network.Exec.{Exec, run, continue, ◌>>=◌, rounds, next_round}

-- The object has the property behind a method that ends.
abbrev pub Post : {S E A : Type 0} → (S → Type 0) → Run (Result A E × S) → Type 0
Post P (done (r, s)) = P s
Post P panic = Unit {0}
Post P timeout = Unit {0}

abbrev pub Keeps : {S E A : Type 0} → (S → Type 0) → Exec S E A → Type 0
Keeps P m = (s : _) → P s → Post P (m s)

module _ {S E A B : Type 0} (P : S → Type 0) where
  pub Post-continue :
      (f : A → Exec S E B) (r : Run (Result A E × S))
      → ((a : A) → Keeps P (f a))
      → Post P r
      → Post P (continue f r)
  Post-continue f (done (ok a, s)) k h = k a s h
  Post-continue f (done (err e, s)) k h = h
  Post-continue f panic k h = tt
  Post-continue f timeout k h = tt

  pub Keeps-bind :
      (m : Exec S E A) (f : A → Exec S E B)
      → Keeps P m
      → ((a : A) → Keeps P (f a))
      → Keeps P (m >>= f)
  Keeps-bind m f km kf s h = Post-continue f (m s) kf (km s h)

module _ {S A : Type 0} (E : Type 0) (P : S → Type 0) where
  pub Keeps-run : (r : Run A) → Keeps P (run {E = E} r)
  Keeps-run (done a) s h = h
  Keeps-run panic s h = tt
  Keeps-run timeout s h = tt

-- The method neither panics nor runs out of fuel.
abbrev pub Ends : {S E A : Type 0} → Run (Result A E × S) → Type 0
Ends (done r) = Unit {0}
Ends panic = ⊥
Ends timeout = ⊥

-- Nothing is asked of the object.
pub Post-any : {S E A : Type 0} (r : Run (Result A E × S)) → Post (λ _. Unit {0}) r
Post-any (done (a, s)) = tt
Post-any panic = tt
Post-any timeout = tt

-- From objects with the property the method ends.
abbrev pub Total : {S E A : Type 0} → (S → Type 0) → Exec S E A → Type 0
Total P m = (s : _) → P s → Ends (m s)

pub Ends-done :
    {S E A : Type 0} (r : Run (Result A E × S))
    → Ends r
    → (a : Result A E) × (s : S) × (r ≡ done (a, s))
Ends-done (done (a, s)) h = (a, s, refl)
Ends-done panic h = absurd h
Ends-done timeout h = absurd h

module _ {S E A B : Type 0} (P : S → Type 0) where
  pub Ends-continue :
      (f : A → Exec S E B) (r : Run (Result A E × S))
      → ((a : A) → Total P (f a))
      → Post P r
      → Ends r
      → Ends (continue f r)
  Ends-continue f (done (ok a, s)) k h e = k a s h
  Ends-continue f (done (err x, s)) k h e = tt
  Ends-continue f panic k h e = e
  Ends-continue f timeout k h e = e

  pub Total-bind :
      (m : Exec S E A) (f : A → Exec S E B)
      → Keeps P m
      → Total P m
      → ((a : A) → Total P (f a))
      → Total P (m >>= f)
  Total-bind m f keeps total k s h = Ends-continue f (m s) k (keeps s h) (total s h)

-- The object has the property behind a loop that ends.
abbrev pub PostLoop : {S : Type 0} → (S → Type 0) → Run (Bool × S) → Type 0
PostLoop P (done (b, s)) = P s
PostLoop P panic = Unit {0}
PostLoop P timeout = Unit {0}

module _ {S E : Type 0} (P : S → Type 0) (goes_on : Result (Unit {0}) E → Bool) where
  next_round-Post :
      (again : S → Run (Bool × S)) (r : Run (Result (Unit {0}) E × S))
      → ((s : S) → P s → PostLoop P (again s))
      → Post P r
      → PostLoop P (next_round goes_on again r)
  unfolding next_round
  next_round-Post again (done (r, s)) k h = elim (Bool-cases (goes_on r)) [
    | inl e ↦ rw (e, next_round, PostLoop) (k s h)
    | inr e ↦ rw (e, next_round, PostLoop) h
  ]
  next_round-Post again panic k h = tt
  next_round-Post again timeout k h = tt

  -- A loop keeps what its round and the steps between the rounds keep.
  pub rounds-Keeps :
      (once : Exec S E (Unit {0}))
      → Keeps P once
      → (arrivals : List (S → S)) → All (λ arrive. (s : S) → P s → P (arrive s)) arrivals
      → (s : S) → P s
      → PostLoop P (rounds goes_on once arrivals s)
  unfolding rounds
  rounds-Keeps once k [] kept s h = h
  rounds-Keeps once k (arrive ∷ rest) kept s h =
      next_round-Post (rounds goes_on once rest) (once (arrive s)) (rounds-Keeps once k rest kept.1)
        (k (arrive s) (kept.0 s h))

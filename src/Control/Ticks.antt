-- ===== src/Control/Ticks.antt =====
-- Which ticks `append` and `remove_till_tick` of src/control.rs keep.
use game_network.Prelude.{
  done-injective, release, add_usize_release, All-drop, add_usize, inr, inl, Bool-cases, Run-cases,
  All, ℕ, ◌+◌, ◌-◌, ◌^◌, ◌≤◌, ◌<◌, ◌≡◌, refl, sym, ap, ◌∙◌, List, [], ◌∷◌, ◌++◌, append_assoc,
  append-nil, arith, length, length-drop, drop, ltb, lt→ltb, le→ltb_false, if◌then◌else◌, done,
  Build, usize_mod, add_usize_of_lt,
}
use game_network.Control.{
  last_tick, ControllerSequence, push_each, append_delta, append, remaining, remove_till_tick,
}
use Prim.Native.Nat.{min}
use game_network.Prelude.Int.{sub_ℕ, sub_i64-as_i64}
use game_network.BitVec.{BitVec}

push_each_lem :
    (c : ControllerSequence) (rest : List BitVec)
    → push_each c rest ≡ record c { seq = c.seq ++ rest }
unfolding push_each
push_each_lem c [] = λ i. record c { seq = sym (append-nil c.seq) i }
push_each_lem c (x ∷ rest) = push_each_lem (record c { seq = c.seq ++ x ∷ [] }) rest ∙ λ i.
    record c { seq = append_assoc c.seq (x ∷ []) rest i }

-- The states of a second sequence that `append` takes over.
abbrev pub taken : ControllerSequence → ControllerSequence → List BitVec
taken c other =
    if ltb c.start_tick other.start_tick
    then drop (other.start_tick - c.start_tick) other.seq
    else []

append_delta_lem :
    (c : ControllerSequence) (a b : ℕ) (seq : List BitVec)
    → append_delta c (sub_ℕ b a) seq
      ≡ record c { seq = c.seq ++ (if ltb a b then drop (b - a) seq else []) }
unfolding append_delta
append_delta_lem c a b seq = ground (arith, push_each_lem c (drop (b - a) seq), append-nil c.seq)

-- For start ticks below 2^63, `append` keeps the start tick and the states, and adds the states of
-- the other sequence but for as many of its first as it starts later; it adds none when the other
-- starts no later.
pub append-taken :
    (build : Build) (c other : ControllerSequence)
    → c.start_tick < 2 ^ 63
    → other.start_tick < 2 ^ 63
    → append build c other ≡ done (record c { seq = c.seq ++ taken c other })
unfolding append
append-taken build c other h k =
    rw (sub_i64-as_i64 build other.start_tick c.start_tick k h)
      (ap done (append_delta_lem c c.start_tick other.start_tick other.seq))

-- A sequence that follows a nonempty one without a gap, at a start tick below 2^63, loses its first
-- states in `append`: as many as the first sequence has.
pub append_adjacent :
    (build : Build) (c other : ControllerSequence)
    → other.start_tick ≡ c.start_tick + length c.seq
    → 0 < length c.seq
    → other.start_tick < 2 ^ 63
    → append build c other ≡ done (record c { seq = c.seq ++ drop (length c.seq) other.seq })
append_adjacent build c other h some_state k =
    append-taken build c other (omega arith) k
    ∙ ap (λ t. done (record c { seq = c.seq ++ t })) later
  where
    delta : other.start_tick - c.start_tick ≡ length c.seq
    delta = omega arith

    later : taken c other ≡ drop (length c.seq) other.seq
    later = rw (lt→ltb c.start_tick other.start_tick (omega arith), delta)

remaining-All :
    (P : BitVec → Type 0) (c : ControllerSequence) (last tick : ℕ)
    → All P c.seq
    → All P (remaining c last tick) × (length (remaining c last tick) ≤ length c.seq)
unfolding remaining
remaining-All P c last tick h = elim (Bool-cases (ltb tick last)) [
  | inl e ↦ rw e (
    All-drop P (min (last - tick) (length c.seq)) c.seq h,
    omega (arith, length-drop (min (last - tick) (length c.seq)) c.seq),
  )
  | inr e ↦ rw e (h, omega arith)
]

-- What `remove_till_tick` returns, when no tick overflows.
remove_till_tick_lem :
    (build : Build) (c : ControllerSequence) (tick : ℕ)
    → c.start_tick + length c.seq + 1 < usize_mod
    → remove_till_tick build c tick
      ≡ done (record {
        start_tick = c.start_tick + length c.seq + 1;
        seq = remaining c (c.start_tick + length c.seq) tick;
      })
unfolding remove_till_tick
remove_till_tick_lem build c tick h = rw (
  add_usize_of_lt build c.start_tick (length c.seq) (omega arith),
  add_usize_of_lt build (c.start_tick + length c.seq) 1 (omega arith),
)

-- For a tick inside a sequence whose ticks are all a `usize`, `remove_till_tick` keeps as many
-- states as there are before the tick, though from the end of the sequence, and sets the start tick
-- to one past the last tick.
pub remove_till_tick_inside :
    (build : Build) (c : ControllerSequence) (tick : ℕ)
    → c.start_tick + length c.seq + 1 < usize_mod
    → c.start_tick ≤ tick
    → tick < c.start_tick + length c.seq
    → (c' : ControllerSequence) × (remove_till_tick build c tick ≡ done c')
      × (length c'.seq ≡ tick - c.start_tick)
      × (c'.seq ≡ drop (c.start_tick + length c.seq - tick) c.seq)
      × (c'.start_tick ≡ c.start_tick + length c.seq + 1)
remove_till_tick_inside build c tick fits h k =
    let last : ℕ = c.start_tick + length c.seq in
    let least : min (last - tick) (length c.seq) ≡ last - tick = omega arith in
    let rest : remaining c last tick ≡ drop (last - tick) c.seq =
      unfold remaining in rw (lt→ltb tick last k, least) in
    (
      record { start_tick = last + 1; seq = remaining c last tick },
      remove_till_tick_lem build c tick fits,
      ap length rest ∙ omega (arith, length-drop (last - tick) c.seq),
      rest,
      refl,
    )

-- For a tick at or past the last one of a sequence whose ticks are all a `usize`,
-- `remove_till_tick` removes no state and moves the start tick to one past the last tick.
pub remove_till_tick_past :
    (build : Build) (c : ControllerSequence) (tick : ℕ)
    → c.start_tick + length c.seq + 1 < usize_mod
    → c.start_tick + length c.seq ≤ tick
    → remove_till_tick build c tick
      ≡ done (record c { start_tick = c.start_tick + length c.seq + 1 })
unfolding remaining
remove_till_tick_past build c tick fits h =
    remove_till_tick_lem build c tick fits ∙ rw (le→ltb_false tick (c.start_tick + length c.seq) h)

pub last_tick_of_lt :
    (build : Build) (c : ControllerSequence)
    → c.start_tick + length c.seq < usize_mod
    → last_tick build c ≡ done (c.start_tick + length c.seq)
unfolding last_tick
last_tick_of_lt build c h = add_usize_of_lt build c.start_tick (length c.seq) h

-- Whatever the ticks, the states that `remove_till_tick` leaves are some of those that were there.
pub remove_till_tick-All :
    (P : BitVec → Type 0) (build : Build) (c c' : ControllerSequence) (tick : ℕ)
    → remove_till_tick build c tick ≡ done c'
    → All P c.seq
    → All P c'.seq × (length c'.seq ≤ length c.seq)
unfolding remove_till_tick last_tick
remove_till_tick-All P build c c' tick runs h =
    elim (Run-cases (add_usize build c.start_tick (length c.seq))) [
      | inl (last, e) ↦ elim (Run-cases (add_usize build last 1)) [
        | inl (start, e') ↦
            rw (sym (done-injective (rw (e, e') at runs))) (remaining-All P c last tick h)
        | inr (inl e') ↦ absurd (let r = rw (e, e') at runs in cc)
        | inr (inr e') ↦ absurd (let r = rw (e, e') at runs in cc)
      ]
      | inr (inl e) ↦ absurd (let r = rw e at runs in cc)
      | inr (inr e) ↦ absurd (let r = rw e at runs in cc)
    ]

pub last_tick_release : (c : ControllerSequence) → (n : ℕ) × (last_tick release c ≡ done n)
unfolding last_tick
last_tick_release c = add_usize_release c.start_tick (length c.seq)

-- In a release build `remove_till_tick` always returns, on ticks that wrap around too.
pub remove_till_tick_release :
    (c : ControllerSequence) (tick : ℕ)
    → (c' : ControllerSequence) × (remove_till_tick release c tick ≡ done c')
unfolding remove_till_tick
remove_till_tick_release c tick =
    let (last, e) = last_tick_release c in
    let (start, e') = add_usize_release last 1 in
    (record { start_tick = start; seq = remaining c last tick }, rw (e, e') refl)

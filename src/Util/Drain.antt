-- ===== src/Util/Drain.antt =====
-- What `drain_spmc_receiver` and `drain_mpsc_receiver` of src/util.rs return.
use game_network.Prelude.{
  Run, panic, timeout, All, All-append, inr, inl, Bool-cases, ℕ, zero, suc, ◌<◌, ◌≡◌, refl, ap, ◌∙◌,
  Bool, true, false, List, [], ◌∷◌, ◌++◌, append_assoc, append-nil, arith, length, done,
  if◌then◌else◌,
}
use game_network.Std.{Result, ok, err, TryRecv, message, empty, disconnected, Receiver, try_recv}
use game_network.Msg.{Dropped, application_thread_disconnected}
use game_network.Util.{Spmc, SpmcSender, drain_loop, drain_spmc_receiver, drain_mpsc_receiver}

-- A channel end of which it is known what is queued and whether a sender exists, while no other thread
-- works on the channel.
pub record IsQueue {M R : Type 0} (receive : R → TryRecv M × R) : Type 0 where
  pub pending : R → List M
  pub alive : R → Bool
  pub on_message :
      (r : R) (m : M) (ms : List M)
      → pending r ≡ m ∷ ms
      → (r' : R) × (receive r ≡ (message m, r')) × (pending r' ≡ ms) × (alive r' ≡ alive r)
  pub on_empty :
      (r : R)
      → pending r ≡ []
      → alive r ≡ true
      → (r' : R) × (receive r ≡ (empty, r')) × (pending r' ≡ [])
  pub on_disconnected :
      (r : R)
      → pending r ≡ []
      → alive r ≡ false
      → (r' : R) × (receive r ≡ (disconnected, r')) × (pending r' ≡ []) × (alive r' ≡ false)

-- The two ends of a channel with one sender, at the same time: once the sender is dropped, the receiver
-- knows of it.
pub record IsChannel {M : Type 0} (to : SpmcSender M) (spmc : Spmc M) (q : IsQueue spmc.try_recv)
    : Type 1 where
  pub Joined : to.State → spmc.State → Type 0
  pub on_close : (t : to.State) (r : spmc.State) → Joined (to.close t) r → q.alive r ≡ false

-- The answer to a drain: every queued message in order, or the error that loses them.
abbrev pub drained : {M : Type 0} → Bool → List M → Result (List M) Dropped
drained alive ms = if alive then ok ms else err application_thread_disconnected

module _ {M R : Type 0} (receive : R → TryRecv M × R) (q : IsQueue receive) where
  drain_end :
      (fuel : ℕ) (r : R) (acc : List M) (alive : Bool)
      → q.pending r ≡ []
      → q.alive r ≡ alive
      → (r' : R) × (drain_loop receive (suc fuel) r acc ≡ done (drained alive acc, r'))
        × (q.pending r' ≡ [])
  unfolding drain_loop
  drain_end fuel r acc true none_left e =
      let (r', answer, done') = q.on_empty r none_left e in (r', rw answer, done')
  drain_end fuel r acc false none_left e =
      let (r', answer, done', gone) = q.on_disconnected r none_left e in (r', rw answer, done')

  drain_loop_lem :
      (fuel : ℕ) (r : R) (acc ms : List M) (alive : Bool)
      → q.pending r ≡ ms
      → q.alive r ≡ alive
      → length ms < fuel
      → (r' : R) × (drain_loop receive fuel r acc ≡ done (drained alive (acc ++ ms), r'))
        × (q.pending r' ≡ [])
  unfolding drain_loop
  drain_loop_lem zero r acc ms alive p e h = absurd (omega arith)
  drain_loop_lem (suc fuel) r acc [] alive p e h =
      rw (append-nil acc) (drain_end fuel r acc alive p e)
  drain_loop_lem (suc fuel) r acc (m ∷ ms) alive p e h =
      let (r', answer, p', e') = q.on_message r m ms p in
      let (r'', runs, none_left) =
        drain_loop_lem fuel r' (acc ++ m ∷ []) ms alive p' (e' ∙ e) (omega arith) in
      (
        r'',
        rw answer (runs ∙ ap (λ t. done (drained alive t, r'')) (append_assoc acc (m ∷ []) ms)),
        none_left,
      )

-- For a channel end that behaves as a queue, with more fuel than messages are pending,
-- `drain_spmc_receiver` ends and leaves none pending. It returns those that were, in order, while
-- the sender exists; afterwards it returns `ApplicationThreadDisconnected`, and the pending
-- messages are lost.
pub drain_spmc_receiver_lem :
    {M : Type 0} (spmc : Spmc M) (q : IsQueue spmc.try_recv) (fuel : ℕ) (r : spmc.State)
    → length (q.pending r) < fuel
    → (r' : spmc.State) × (drain_spmc_receiver spmc fuel r
        ≡ done (drained (q.alive r) (q.pending r), r'))
      × (q.pending r' ≡ [])
unfolding drain_spmc_receiver
drain_spmc_receiver_lem spmc q fuel r h =
    drain_loop_lem spmc.try_recv q fuel r [] (q.pending r) (q.alive r) refl refl h

-- The `mpsc` channel keeps its messages in such a queue.
pub mpsc_message :
    {M : Type 0} (r : Receiver M) (m : M) (ms : List M)
    → r.queue ≡ m ∷ ms
    → try_recv r ≡ (message m, record r { queue = ms })
unfolding try_recv
mpsc_message r m ms e = rw e

pub mpsc_empty :
    {M : Type 0} (r : Receiver M)
    → r.queue ≡ []
    → r.sender_alive ≡ true
    → try_recv r ≡ (empty, record r { queue = [] })
unfolding try_recv
mpsc_empty r e h = rw (e, h)

pub mpsc_disconnected :
    {M : Type 0} (r : Receiver M)
    → r.queue ≡ []
    → r.sender_alive ≡ false
    → try_recv r ≡ (disconnected, record r { queue = [] })
unfolding try_recv
mpsc_disconnected r e h = rw (e, h)

abbrev pub mpsc_queue : (M : Type 0) → IsQueue {M = M} try_recv
mpsc_queue M = record {
  pending = λ r. r.queue;
  alive = λ r. r.sender_alive;
  on_message = λ r m ms e. (record r { queue = ms }, mpsc_message r m ms e, refl, refl);
  on_empty = λ r e h. (record r { queue = [] }, mpsc_empty r e h, refl);
  on_disconnected = λ r e h. (record r { queue = [] }, mpsc_disconnected r e h, refl, h);
}

-- With more fuel than messages are queued `drain_mpsc_receiver` ends and leaves the queue empty. It
-- returns the queue while the sender exists; afterwards it returns `ApplicationThreadDisconnected`,
-- and the queued messages are lost.
pub drain_mpsc_receiver_lem :
    {M : Type 0} (fuel : ℕ) (r : Receiver M)
    → length r.queue < fuel
    → (r' : Receiver M) × (drain_mpsc_receiver fuel r ≡ done (drained r.sender_alive r.queue, r'))
      × (r'.queue ≡ [])
unfolding drain_mpsc_receiver
drain_mpsc_receiver_lem {M} fuel r h =
    drain_loop_lem try_recv (mpsc_queue M) fuel r [] r.queue r.sender_alive refl refl h

-- A drain of an empty queue without a sender, and what it leaves.
pub drain_spmc_receiver_gone :
    {M : Type 0} (spmc : Spmc M) (q : IsQueue spmc.try_recv) (fuel : ℕ) (r : spmc.State)
    → q.pending r ≡ []
    → q.alive r ≡ false
    → (r' : spmc.State) × (drain_spmc_receiver spmc (suc fuel) r
        ≡ done (err application_thread_disconnected, r'))
      × (q.pending r' ≡ [])
      × (q.alive r' ≡ false)
unfolding drain_spmc_receiver drain_loop
drain_spmc_receiver_gone spmc q fuel r none_left gone =
    let (r', answer, none_left', gone') = q.on_disconnected r none_left gone in
    (r', rw answer, none_left', gone')

mpsc_loop :
    {M : Type 0} (ms : List M) (fuel : ℕ) (r : Receiver M) (acc : List M)
    → r.queue ≡ ms
    → length ms < fuel
    → drain_loop try_recv fuel r acc
      ≡ done (drained r.sender_alive (acc ++ ms), record r { queue = [] })
unfolding drain_loop
mpsc_loop ms zero r acc e h = absurd (omega arith)
mpsc_loop [] (suc fuel) r acc e h = elim (Bool-cases r.sender_alive) [
  | inl alive ↦ simp (mpsc_empty r e alive, alive, append-nil acc)
  | inr gone ↦ simp (mpsc_disconnected r e gone, gone)
]
mpsc_loop (m ∷ ms) (suc fuel) r acc e h = rw (mpsc_message r m ms e) (
    mpsc_loop ms fuel (record r { queue = ms }) (acc ++ m ∷ []) refl (omega arith)
    ∙ rw (append_assoc acc (m ∷ []) ms))

-- The receiver that a drain leaves differs only in its queue.
pub drain_mpsc_receiver_left :
    {M : Type 0} (fuel : ℕ) (r : Receiver M)
    → length r.queue < fuel
    → drain_mpsc_receiver fuel r ≡ done (drained r.sender_alive r.queue, record r { queue = [] })
unfolding drain_mpsc_receiver
drain_mpsc_receiver_left fuel r h = mpsc_loop r.queue fuel r [] refl h

-- Messages that are all of a kind, however far the drain comes.
abbrev pub DrainPost :
    {M R : Type 0} → (M → Type 0) → (R → List M) → Run (Result (List M) Dropped × R) → Type 0
DrainPost P pending (done (ok ms, r)) = All P ms × All P (pending r)
DrainPost P pending (done (err d, r)) = All P (pending r)
DrainPost P pending panic = Unit {0}
DrainPost P pending timeout = Unit {0}

module _ {M R : Type 0} (receive : R → TryRecv M × R) (q : IsQueue receive) (P : M → Type 0) where
  drain_step :
      (fuel : ℕ) (r : R) (acc ms : List M) (alive : Bool)
      → q.pending r ≡ ms
      → q.alive r ≡ alive
      → All P acc
      → All P ms
      → DrainPost P q.pending (drain_loop receive fuel r acc)
  unfolding drain_loop
  drain_step zero r acc ms alive p e h k = tt
  drain_step (suc fuel) r acc [] true p e h k =
      let (r', answer, none_left) = q.on_empty r p e in rw answer (h, rw none_left tt)
  drain_step (suc fuel) r acc [] false p e h k =
      let (r', answer, none_left, gone) = q.on_disconnected r p e in rw answer (rw none_left tt)
  drain_step (suc fuel) r acc (m ∷ ms) alive p e h k =
      let (r', answer, p', e') = q.on_message r m ms p in
      rw answer (
        drain_step fuel r' (acc ++ m ∷ []) ms alive p' (e' ∙ e)
          (All-append P acc (m ∷ []) h (k.0, tt)) k.1)

-- With however little fuel, a drain returns and leaves only messages that were queued.
pub drain_spmc_receiver-All :
    {M : Type 0} (spmc : Spmc M) (q : IsQueue spmc.try_recv) (P : M → Type 0) (fuel : ℕ)
    (r : spmc.State)
    → All P (q.pending r)
    → DrainPost P q.pending (drain_spmc_receiver spmc fuel r)
unfolding drain_spmc_receiver
drain_spmc_receiver-All spmc q P fuel r h =
    drain_step spmc.try_recv q P fuel r [] (q.pending r) (q.alive r) refl refl tt h

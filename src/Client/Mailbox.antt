-- ===== src/Client/Mailbox.antt =====
-- What the object of src/client/mod.rs hands to the game: each world state and chat message that the
-- servicers passed on, while they are there.
use game_network.Prelude.{
  ℕ, ◌≡◌, ◌<◌, refl, ap, sym, ◌∙◌, true, false, Option, none, some, List, [], ◌∷◌, ◌++◌,
  append_assoc, append-nil, length, Run, done, All,
}
use game_network.Std.{Result, ok, Receiver}
use game_network.Msg.{ChatMessage, ApplicationError}
use game_network.Exec.{pure, ◌>>=◌}
use game_network.Util.Drain.{drain_mpsc_receiver_left}
use game_network.Client.LowLatency
use game_network.Client.Reliable
use game_network.Client.{
  Client, keep_newest, give_world_state, take_world_state, push_chats, take_chat_history,
}

-- The object is not shut down, the servicer has its end of the queue, and a drain can empty it.
abbrev pub Hears : {M : Type 0} → Client → Receiver M → ℕ → Type 0
Hears s r rounds_left =
    (s.shutdown ≡ false) × (r.sender_alive ≡ true) × (length r.queue < rounds_left)

-- The world states of the messages.
abbrev pub worlds : List LowLatency.ServicerMessage → List (List ℕ)
worlds [] = []
worlds (LowLatency.world_state w ∷ ms) = w ∷ worlds ms

-- The last of a list, or the first argument.
abbrev pub last_or : Option (List ℕ) → List (List ℕ) → Option (List ℕ)
last_or kept [] = kept
last_or kept (w ∷ []) = some w
last_or kept (w ∷ v ∷ ws) = last_or kept (v ∷ ws)

last_or-cons :
    (kept : Option (List ℕ)) (w : List ℕ) (ws : List (List ℕ))
    → last_or (some w) ws ≡ last_or kept (w ∷ ws)
last_or-cons kept w [] = refl
last_or-cons kept w (v ∷ []) = refl
last_or-cons kept w (v ∷ u ∷ ws) = last_or-cons kept w (u ∷ ws)

keep_newest_lem :
    (kept : Option (List ℕ)) (ms : List LowLatency.ServicerMessage)
    → keep_newest kept ms ≡ last_or kept (worlds ms)
unfolding keep_newest
keep_newest_lem kept [] = refl
keep_newest_lem kept (LowLatency.world_state w ∷ ms) =
    keep_newest_lem (some w) ms ∙ last_or-cons kept w (worlds ms)

abbrev pub or_empty : Option (List ℕ) → List ℕ
or_empty (some w) = w
or_empty none = []

give_world_state_lem :
    (state : Option (List ℕ)) (s : Client)
    → give_world_state state s ≡ done (ok (or_empty state), record s { world_state = none })
unfolding give_world_state
give_world_state_lem (some w) s = refl
give_world_state_lem none s = refl

-- `take_world_state` of an object that is up, with a living low-latency servicer and more rounds
-- than messages, answers with the last world state queued, else with the one that was kept, else
-- with no bytes; it empties the queue and keeps none.
pub take_world_state_lem :
    (rounds_left : ℕ) (s : Client)
    → Hears s s.from_low_latency_servicer rounds_left
    → take_world_state rounds_left s
      ≡ done (
        ok (or_empty (last_or s.world_state (worlds s.from_low_latency_servicer.queue))),
        record s {
          from_low_latency_servicer = record s.from_low_latency_servicer { queue = [] };
          world_state = none;
        },
      )
unfolding take_world_state
take_world_state_lem rounds_left s (up, alive, enough) = simp (
  up,
  drain_mpsc_receiver_left rounds_left s.from_low_latency_servicer enough,
  alive,
  keep_newest_lem s.world_state s.from_low_latency_servicer.queue,
  give_world_state_lem,
)

-- The chat messages of the messages.
abbrev pub chats : List Reliable.ServicerMessage → List ChatMessage
chats [] = []
chats (Reliable.ServicerMessage.chat_message chat ∷ ms) = chat ∷ chats ms

push_chats_lem :
    (history : List ChatMessage) (ms : List Reliable.ServicerMessage)
    → push_chats history ms ≡ history ++ chats ms
unfolding push_chats
push_chats_lem history [] = sym (append-nil history)
push_chats_lem history (Reliable.ServicerMessage.chat_message chat ∷ ms) =
    push_chats_lem (history ++ chat ∷ []) ms ∙ append_assoc history (chat ∷ []) (chats ms)

-- All chat messages are given away, in the order in which they came, and none is kept.
pub take_chat_history_lem :
    (rounds_left : ℕ) (s : Client)
    → Hears s s.from_reliable_servicer rounds_left
    → take_chat_history rounds_left s
      ≡ done (
        ok (s.chat_history ++ chats s.from_reliable_servicer.queue),
        record s {
          from_reliable_servicer = record s.from_reliable_servicer { queue = [] };
          chat_history = [];
        },
      )
unfolding take_chat_history
take_chat_history_lem rounds_left s (up, alive, enough) = simp (
  up,
  drain_mpsc_receiver_left rounds_left s.from_reliable_servicer enough,
  alive,
  push_chats_lem s.chat_history s.from_reliable_servicer.queue,
)

-- More messages from the reliable servicer.
abbrev pub deliver : List Reliable.ServicerMessage → Client → Client
deliver ms s = record s {
  from_reliable_servicer = record s.from_reliable_servicer {
    queue = s.from_reliable_servicer.queue ++ ms;
  };
}

-- All answers of the calls of `take_chat_history`, one behind each batch of messages, as one list.
abbrev pub taken_behind :
    ℕ
    → List (List Reliable.ServicerMessage)
    → Client
    → Run (Result (List ChatMessage) ApplicationError × Client)
taken_behind rounds_left [] = pure []
taken_behind rounds_left (ms ∷ batches) = do
  chats ← λ s. take_chat_history rounds_left (deliver ms s)
  more ← taken_behind rounds_left batches
  pure (chats ++ more)

-- An object that is up, with a living servicer, that has given away all chat messages.
abbrev pub IsIdle : Client → Type 0
IsIdle s =
    (s.shutdown ≡ false)
    × (s.from_reliable_servicer.sender_alive ≡ true)
    × (s.from_reliable_servicer.queue ≡ [])
    × (s.chat_history ≡ [])

abbrev pub joined_batches : List (List Reliable.ServicerMessage) → List Reliable.ServicerMessage
joined_batches [] = []
joined_batches (ms ∷ batches) = ms ++ joined_batches batches

chats-append : (ms ns : List Reliable.ServicerMessage) → chats (ms ++ ns) ≡ chats ms ++ chats ns
chats-append [] ns = refl
chats-append (Reliable.ServicerMessage.chat_message chat ∷ ms) ns =
    ap (λ t. chat ∷ t) (chats-append ms ns)

-- An object that is up, with a living reliable servicer and nothing queued or kept, refines a list:
-- when batches of messages that a drain can empty come in, with a call of `take_chat_history`
-- behind each, the answers together are all chat messages of the batches, each once and in order,
-- and the object is as it was at first.
pub history_complete :
    (rounds_left : ℕ) (batches : List (List Reliable.ServicerMessage)) (s : Client)
    → All (λ ms. length ms < rounds_left) batches
    → IsIdle s
    → (s' : Client) × (taken_behind rounds_left batches s
        ≡ done (ok (chats (joined_batches batches)), s'))
      × IsIdle s'
history_complete rounds_left [] s small idle = (s, refl, idle)
history_complete rounds_left (ms ∷ batches) s small (up, alive, empty, given) =
    let next : Client = record s {
      from_reliable_servicer = record s.from_reliable_servicer { queue = [] };
      chat_history = [];
    } in
    let (s', runs, idle) =
      history_complete rounds_left batches next small.1 (up, alive, refl, refl) in
    let first : take_chat_history rounds_left (deliver ms s) ≡ done (ok (chats ms), next) =
      take_chat_history_lem rounds_left (deliver ms s) (up, alive, rw empty small.0)
      ∙ simp (empty, given) in
    (s', simp (first, runs, chats-append ms (joined_batches batches)), idle)

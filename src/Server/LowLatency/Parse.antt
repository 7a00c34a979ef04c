-- ===== src/Server/LowLatency/Parse.antt =====
-- `parse_application_messages` of src/server/low_latency.rs: what it picks for sending, and what it
-- does to the address book.
use text.Mathlib.TextPositions.{eq_refl}
use game_network.Prelude.{
  ℕ, ◌≡◌, refl, sym, ap, ◌∙◌, Bool, true, false, Option, none, some, List, [], ◌∷◌, ◌++◌,
  if◌then◌else◌, ==_refl, All,
}
use game_network.Std.{SocketAddr, eq_addr, Host, eq_host, v4, v6}
use game_network.Msg.{
  Username, eq_user, ClientData, LowLatencyServerMessage, world_state, last_tick_received,
}
use game_network.Server.Bidir.{BidirMap, IsBidirectional}
use game_network.Server.LowLatency.{
  ToClient, ApplicationMessage, to_client, new_client, client_disconnect, Outgoing, no_outgoing,
  store, parse_loop, parse_application_messages,
}

eq_user_refl : (u : Username) → eq_user u u ≡ true
unfolding eq_user
eq_user_refl u = eq_refl u.name

eq_host_refl : (h : Host) → eq_host h h ≡ true
unfolding eq_host
eq_host_refl (v4 a) = ==_refl a
eq_host_refl (v6 a f s) = rw (==_refl a, ==_refl f, ==_refl s)

eq_addr_refl : (a : SocketAddr) → eq_addr a a ≡ true
unfolding eq_addr
eq_addr_refl a = rw (eq_host_refl a.host, ==_refl a.port)

abbrev pub is_world : LowLatencyServerMessage → Bool
is_world (world_state state) = true
is_world (last_tick_received tick) = false

abbrev pub is_tick : LowLatencyServerMessage → Bool
is_tick (world_state state) = false
is_tick (last_tick_received tick) = true

abbrev or_else {ℓ} : {A : Type ℓ} → Option A → Option A → Option A
or_else (some a) other = some a
or_else none other = other

-- The last message to a client whose payload passes a test, searched from the end.
abbrev pub newest : (LowLatencyServerMessage → Bool) → List ApplicationMessage → Option ToClient
newest test [] = none
newest test (to_client m ∷ msgs) =
    or_else (newest test msgs) (if test m.payload then some m else none)
newest test (new_client joined ∷ msgs) = newest test msgs
newest test (client_disconnect user ∷ msgs) = newest test msgs

or_else_assoc {ℓ} :
    {A : Type ℓ} (a b c : Option A) → or_else (or_else a b) c ≡ or_else a (or_else b c)
or_else_assoc (some x) b c = refl
or_else_assoc none b c = refl

or_else-none {ℓ} : {A : Type ℓ} (a : Option A) → or_else a none ≡ a
or_else-none (some x) = refl
or_else-none none = refl

store_step :
    (msgs : List ApplicationMessage) (m : ToClient) (payload : LowLatencyServerMessage)
    (outgoing found : Outgoing)
    → found.world ≡ or_else (newest is_world msgs) (store outgoing m payload).world
    → found.last_tick ≡ or_else (newest is_tick msgs) (store outgoing m payload).last_tick
    → (found.world
        ≡ or_else
            (or_else (newest is_world msgs) (if is_world payload then some m else none))
            outgoing.world)
      × (found.last_tick
          ≡ or_else
              (or_else (newest is_tick msgs) (if is_tick payload then some m else none))
              outgoing.last_tick)
unfolding store
store_step msgs m (world_state state) outgoing found p q = (
  p ∙ sym (or_else_assoc (newest is_world msgs) (some m) outgoing.world),
  q ∙ sym (or_else_assoc (newest is_tick msgs) none outgoing.last_tick),
)
store_step msgs m (last_tick_received tick) outgoing found p q = (
  p ∙ sym (or_else_assoc (newest is_world msgs) none outgoing.world),
  q ∙ sym (or_else_assoc (newest is_tick msgs) (some m) outgoing.last_tick),
)

newest-append :
    (test : LowLatencyServerMessage → Bool) (xs ys : List ApplicationMessage)
    → newest test (xs ++ ys) ≡ or_else (newest test ys) (newest test xs)
newest-append test [] ys = sym (or_else-none (newest test ys))
newest-append test (to_client m ∷ xs) ys =
    ap (λ t. or_else t (if test m.payload then some m else none)) (newest-append test xs ys)
    ∙ or_else_assoc (newest test ys) (newest test xs) (if test m.payload then some m else none)
newest-append test (new_client joined ∷ xs) ys = newest-append test xs ys
newest-append test (client_disconnect user ∷ xs) ys = newest-append test xs ys

module _ (bidir : BidirMap) where
  open bidir use {Map, insert, remove_by_second, get_by_first, get_by_second}

  -- The address book behind the messages that join and disconnect clients.
  abbrev pub book : List ApplicationMessage → Map → Map
  book [] map = map
  book (to_client m ∷ msgs) map = book msgs map
  book (new_client joined ∷ msgs) map = book msgs (insert map joined.udp_addr joined.username)
  book (client_disconnect user ∷ msgs) map = book msgs (remove_by_second map user)

  -- What the loop makes of the messages when it has already stored some.
  abbrev Parsed : List ApplicationMessage → Map → Outgoing → Outgoing × Map → Type 0
  Parsed msgs map outgoing (found, map') =
      (found.world ≡ or_else (newest is_world msgs) outgoing.world)
      × (found.last_tick ≡ or_else (newest is_tick msgs) outgoing.last_tick)
      × (map' ≡ book msgs map)

  parse_loop_lem :
      (msgs : List ApplicationMessage) (map : Map) (outgoing : Outgoing)
      → Parsed msgs map outgoing (parse_loop bidir msgs map outgoing)
  unfolding parse_loop
  parse_loop_lem [] map outgoing = (refl, refl, refl)
  parse_loop_lem (to_client m ∷ msgs) map outgoing =
      let (world, tick, same) = parse_loop_lem msgs map (store outgoing m m.payload) in
      let (world', tick') =
        store_step msgs m m.payload outgoing
          (parse_loop bidir msgs map (store outgoing m m.payload)).0 world tick in
      (world', tick', same)
  parse_loop_lem (new_client joined ∷ msgs) map outgoing =
      parse_loop_lem msgs (insert map joined.udp_addr joined.username) outgoing
  parse_loop_lem (client_disconnect user ∷ msgs) map outgoing =
      parse_loop_lem msgs (remove_by_second map user) outgoing

  -- `parse_application_messages` keeps for sending the last world state and the last tick message
  -- of the whole queue, whoever they are for, and makes every join and disconnection, in order, in
  -- the address book.
  pub parse_application_messages_lem :
      (msgs : List ApplicationMessage) (map : Map)
      → parse_application_messages bidir msgs map
        ≡ (record { world = newest is_world msgs; last_tick = newest is_tick msgs }, book msgs map)
  unfolding parse_application_messages
  parse_application_messages_lem msgs map =
      let (world, tick, same) = parse_loop_lem msgs map no_outgoing in
      λ i. (
        record {
          world = (world ∙ or_else-none (newest is_world msgs)) i;
          last_tick = (tick ∙ or_else-none (newest is_tick msgs)) i;
        },
        same i,
      )

  -- Of two world states in one queue, with none after them, only the second is kept for sending,
  -- also where they are for different users.
  pub world_superseded :
      (before between after : List ApplicationMessage) (m m' : ToClient) (state state' : List ℕ)
      (map : Map)
      → m.payload ≡ world_state state
      → m'.payload ≡ world_state state'
      → newest is_world after ≡ none
      → (parse_application_messages bidir
          (before ++ to_client m ∷ (between ++ to_client m' ∷ after))
          map).0.world
        ≡ some m'
  world_superseded before between after m m' state state' map e e' last =
      ap (λ t. t.0.world) (parse_application_messages_lem _ map)
      ∙ newest-append is_world before (to_client m ∷ (between ++ to_client m' ∷ after))
      ∙ rw (newest-append is_world between (to_client m' ∷ after), last, e', is_world)

  -- A message that leaves a pair of the address book alone.
  abbrev Spares : Username → SocketAddr → ApplicationMessage → Type 0
  Spares user address (to_client m) = Unit {0}
  Spares user address (new_client joined) =
      (eq_user joined.username user ≡ false) × (eq_addr joined.udp_addr address ≡ false)
  Spares user address (client_disconnect gone) = eq_user gone user ≡ false

  book-keeps :
      (laws : IsBidirectional bidir) (user : Username) (address : SocketAddr)
      (msgs : List ApplicationMessage) (map : Map)
      → All (Spares user address) msgs
      → get_by_second map user ≡ some address
      → get_by_first map address ≡ some user
      → (get_by_second (book msgs map) user ≡ some address)
        × (get_by_first (book msgs map) address ≡ some user)
  book-keeps laws user address [] map spared p q = (p, q)
  book-keeps laws user address (to_client m ∷ msgs) map spared p q =
      book-keeps laws user address msgs map spared.1 p q
  book-keeps laws user address (new_client joined ∷ msgs) map spared p q =
      book-keeps laws user address msgs (insert map joined.udp_addr joined.username) spared.1
        (laws.second-insert map joined.udp_addr joined.username user
          ∙ rw (spared.0.0, p, spared.0.1))
        (laws.first-insert map joined.udp_addr address joined.username
          ∙ rw (spared.0.1, q, spared.0.0))
  book-keeps laws user address (client_disconnect gone ∷ msgs) map spared p q =
      book-keeps laws user address msgs (remove_by_second map gone) spared.1
        (laws.second-remove map gone user ∙ rw (spared.0, p))
        (laws.first-remove map gone address ∙ rw (q, spared.0))

  book-append :
      (xs ys : List ApplicationMessage) (map : Map) → book (xs ++ ys) map ≡ book ys (book xs map)
  book-append [] ys map = refl
  book-append (to_client m ∷ xs) ys map = book-append xs ys map
  book-append (new_client joined ∷ xs) ys map = book-append xs ys _
  book-append (client_disconnect user ∷ xs) ys map = book-append xs ys _

  -- In a map that keeps the documented laws, a client that joined is in the address book in both
  -- directions, whatever was queued before it, unless a later message joins its user name or its
  -- address again or disconnects the user.
  pub joined_stays :
      (laws : IsBidirectional bidir) (before after : List ApplicationMessage) (joined : ClientData)
      (map : Map)
      → All (Spares joined.username joined.udp_addr) after
      → let map' = (parse_application_messages bidir (before ++ new_client joined ∷ after) map).1 in
        (get_by_second map' joined.username ≡ some joined.udp_addr)
        × (get_by_first map' joined.udp_addr ≡ some joined.username)
  joined_stays laws before after joined map spared =
      rw
        (
          parse_application_messages_lem (before ++ new_client joined ∷ after) map,
          book-append before (new_client joined ∷ after) map,
        )
        (book-keeps laws joined.username joined.udp_addr after
          (insert (book before map) joined.udp_addr joined.username) spared
          (laws.second-insert (book before map) joined.udp_addr joined.username joined.username
            ∙ rw (eq_user_refl joined.username))
          (laws.first-insert (book before map) joined.udp_addr joined.udp_addr joined.username
            ∙ rw (eq_addr_refl joined.udp_addr)))

-- ===== src/Server/LowLatency/Faithful.antt =====
-- What the servicer of src/server/low_latency.rs hands to the application thread is what was entered at
-- an address of the user.
use game_network.Prelude.{
  ◌≡◌, Option, none, some, List, [], ◌∷◌, Build, Bool-cases, inl, inr, All, sym, ◌∙◌, Bool,
}
use game_network.Std.{SocketAddr, Arrival, datagram, failure, eq_addr}
use game_network.Msg.{Username, Bincode, eq_user}
use game_network.Server.Bidir.{BidirMap, IsBidirectional, unless}
use game_network.Server.Messages.{
  ServicerMessage, ServicerPayload, chat_message, controller_sequence, client_data,
}
use game_network.Server.LowLatency.{ApplicationMessage, to_client, new_client, client_disconnect}
use game_network.Std.Address.{eq_addr_sound}
use game_network.Msg.Genuine.{Game, Genuine}
use game_network.Server.LowLatency.Parse.{book}

module _ (Registered : SocketAddr → Username → Type 0) where
  -- The application registers each user at an address of theirs.
  abbrev pub Allowed : ApplicationMessage → Type 0
  Allowed (to_client m) = Unit {0}
  Allowed (new_client joined) = Registered joined.udp_addr joined.username
  Allowed (client_disconnect user) = Unit {0}

  module _ (game : Game) where
    -- A sequence that is handed over was entered at an address of its user.
    abbrev pub IsAuthentic : ServicerMessage → Type 0
    IsAuthentic m = from_user m.author m.payload
      where
        from_user : Username → ServicerPayload → Type 0
        from_user user (chat_message text) = Unit {0}
        from_user user (controller_sequence c) =
            (a : SocketAddr) × Registered a user × All (game.Entered a) c.seq
        from_user user (client_data d) = Unit {0}

module _ (build : Build) (bincode : Bincode) (game : Game) where
  -- What arrives from a client are its datagrams.
  abbrev pub IsGenuine : Arrival → Type 0
  IsGenuine (datagram bytes src) = Genuine build bincode game src bytes
  IsGenuine (failure e) = Unit {0}

module _ (bidir : BidirMap) (Registered : SocketAddr → Username → Type 0) where
  -- All users of the address book are registered there.
  abbrev pub IsBook : bidir.Map → Type 0
  IsBook map = (a : SocketAddr) (u : Username) → bidir.get_by_first map a ≡ some u → Registered a u

  module _ (laws : IsBidirectional bidir) where
    unless-some :
        {A : Type 0} (gone : A → Bool) (found : Option A) (a : A)
        → unless gone found ≡ some a
        → found ≡ some a
    unless-some gone none a h = h
    unless-some gone (some b) a h = elim (Bool-cases (gone b)) [
      | inl e ↦ absurd (let h' = rw e at h in cc)
      | inr e ↦ rw e at h
    ]

    insert-IsBook :
        (map : bidir.Map) (a : SocketAddr) (u : Username)
        → Registered a u
        → IsBook map
        → IsBook (bidir.insert map a u)
    insert-IsBook map a u new h b v found = elim (Bool-cases (eq_addr a b)) [
      | inl e ↦
          let same : some u ≡ some v = rw e at (sym (laws.first-insert map a b u) ∙ found) in
          rw (sym (eq_addr_sound a b e), sym (injective same)) new
      | inr e ↦ h b v (
          unless-some (eq_user u) (bidir.get_by_first map b) v
            (rw e at (sym (laws.first-insert map a b u) ∙ found)))
    ]
      where
        injective : {x y : Username} → some x ≡ some y → x ≡ y
        injective k = cc

    remove-IsBook :
        (map : bidir.Map) (u : Username) → IsBook map → IsBook (bidir.remove_by_second map u)
    remove-IsBook map u h b v found = h b v (
        unless-some (eq_user u) (bidir.get_by_first map b) v
          (sym (laws.first-remove map u b) ∙ found))

    pub book-IsBook :
        (msgs : List ApplicationMessage) (map : bidir.Map)
        → All (Allowed Registered) msgs
        → IsBook map
        → IsBook (book bidir msgs map)
    book-IsBook [] map ok_all h = h
    book-IsBook (to_client m ∷ msgs) map ok_all h = book-IsBook msgs map ok_all.1 h
    book-IsBook (new_client joined ∷ msgs) map ok_all h =
        book-IsBook msgs _ ok_all.1 (insert-IsBook map joined.udp_addr joined.username ok_all.0 h)
    book-IsBook (client_disconnect user ∷ msgs) map ok_all h =
        book-IsBook msgs _ ok_all.1 (remove-IsBook map user h)

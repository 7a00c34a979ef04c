-- ===== src/Network/Safety.antt =====
-- What holds of every network that is reached by steps.
use game_network.BitVec.{BitVec}
use game_network.Prelude.{
  ap, sym, ◌∙◌, done, ℕ, ◌+◌, ◌*◌, ◌≡◌, ◌<◌, refl, arith, List, [], ◌∷◌, ◌++◌, Build, All,
  All-append, All-get_elem?, length-append,
}
use native.Mathlib.Decide.{ℕ_discrete}
use mathlib.Core.Logic.{ite, ite}
use mathlib.Core.Path.{subst}
use game_network.Std.{SocketAddr, Arrival, datagram, failure, Result}
use game_network.Msg.{CommError, Username, Bincode, IsLawful}
use game_network.Msg.Genuine.{Game, Genuine}
use game_network.Util.{Spmc}
use game_network.Util.Drain.{IsQueue}
use game_network.Server.Bidir.{BidirMap, IsBidirectional}
use game_network.Server.LowLatency as Server
use game_network.Server.LowLatency.Faithful.{IsAuthentic, IsGenuine}
use game_network.Server.LowLatency.Rounds as Rounds
use game_network.Client.LowLatency as Client
use game_network.Client.LowLatency.Faithful as Faithful
use game_network.Client.LowLatency.Messages.{states}
use game_network.Network.{
  entering, arriving, held, Network, at_client, at_server, Step, server_round, client_round, enters,
  arrives, delivers, faults, commands, Reach, here, next, IsInitial,
}

states-append :
    (ms ns : List Client.ApplicationMessage) → states (ms ++ ns) ≡ states ms ++ states ns
states-append [] ns = refl
states-append (Client.control b ∷ ms) ns = ap (λ t. b ∷ t) (states-append ms ns)

module _ (build : Build) (bincode : Bincode) (bidir : BidirMap)
    (spmc : Spmc Server.ApplicationMessage) (game : Game)
    (Registered : SocketAddr → Username → Type 0) (q : IsQueue spmc.try_recv)
    (rounds_left fuel : ℕ) where
  abbrev IsFaithful : Client.Servicer → Type 0
  IsFaithful c = Faithful.IsFaithful build bincode game c.self_addr c

  abbrev ServerFaithful : Server.Servicer bidir spmc → Type 0
  ServerFaithful = Rounds.IsFaithful build bincode bidir spmc game Registered q

  -- Every servicer is faithful.
  abbrev pub IsSafe : Network bidir spmc → Type 0
  IsSafe n = ServerFaithful n.server × ((i : ℕ) → IsFaithful (n.clients i))

  update-IsSafe :
      (n : Network bidir spmc) (i : ℕ) (c : Client.Servicer)
      → IsFaithful c
      → IsSafe n
      → IsSafe (at_client bidir spmc i c n)
  update-IsSafe n i c new safe = (
    safe.0,
    λ j. elim (ℕ_discrete i j) as (λ d. IsFaithful (ite d c (n.clients j))) [
      | yes e ↦ new
      | no e ↦ safe.1 j
    ],
  )

  enters-IsFaithful :
      (c : Client.Servicer) (b : BitVec)
      → game.Entered c.self_addr b
      → held c < game.limit
      → IsFaithful c
      → IsFaithful (entering b c)
  enters-IsFaithful c b new few (at_a, kept, queued, small, sent) =
      let old = states c.from_application.queue in
      (
        at_a,
        kept,
        rw (states-append c.from_application.queue (Client.control b ∷ []))
            (All-append (game.Entered c.self_addr) old (b ∷ []) queued (new, tt)),
        rw (states-append c.from_application.queue (Client.control b ∷ []))
            (omega (arith, length-append old (b ∷ []))),
        sent,
      )

  module _ (lawful : IsLawful bincode.low_latency_client) (laws : IsBidirectional bidir)
      (enough : game.limit * (game.size + 1) < fuel) where
    client_round-IsFaithful :
        (c c' : Client.Servicer) (answer : Result (Unit {0}) (CommError bincode.Error))
        → Client.spin_once build bincode c ≡ done (answer, c')
        → IsFaithful c
        → IsFaithful c'
    client_round-IsFaithful c c' answer runs h =
        let h' : Faithful.IsFaithful build bincode game c.self_addr c' =
          rw runs at (Faithful.spin_once-IsFaithful build bincode game c.self_addr c h) in
        subst (λ a. Faithful.IsFaithful build bincode game a c') (sym h'.0) h'

    server_round-IsFaithful :
        (s s' : Server.Servicer bidir spmc) (answer : Result (Unit {0}) (CommError bincode.Error))
        → Server.spin_once build bincode bidir spmc rounds_left fuel s ≡ done (answer, s')
        → ServerFaithful s
        → ServerFaithful s'
    server_round-IsFaithful s s' answer runs h = rw runs at (
        Rounds.spin_once-IsFaithful build bincode bidir spmc game Registered q lawful laws fuel
          rounds_left enough s h)

    arrival-IsFaithful :
        (n : Network bidir spmc) (a : Arrival)
        → IsGenuine build bincode game a
        → ServerFaithful n.server
        → ServerFaithful (at_server bidir spmc a n).server
    arrival-IsFaithful n a genuine (handed, waiting, known, queued) = (
      handed,
      All-append (IsGenuine build bincode game) n.server.udp_socket.inbox (a ∷ []) waiting
          (genuine, tt),
      known,
      queued,
    )

    -- Every step keeps every servicer faithful.
    Step-IsSafe :
        {n m : Network bidir spmc}
        → Step bidir spmc build bincode game Registered q rounds_left fuel n m
        → IsSafe n
        → IsSafe m
    Step-IsSafe {n} (server_round answer s runs) safe =
        (server_round-IsFaithful n.server s answer runs safe.0, safe.1)
    Step-IsSafe {n} (client_round i answer c runs) safe =
        update-IsSafe n i c (client_round-IsFaithful (n.clients i) c answer runs (safe.1 i)) safe
    Step-IsSafe {n} (enters i b new few) safe =
        update-IsSafe n i (entering b (n.clients i))
          (enters-IsFaithful (n.clients i) b new few (safe.1 i)) safe
    Step-IsSafe {n} (arrives i a) safe =
        update-IsSafe n i (arriving a (n.clients i)) (safe.1 i) safe
    Step-IsSafe {n} (delivers i k p e) safe = (
      arrival-IsFaithful n (datagram p.0 (n.clients i).self_addr)
          (All-get_elem? (λ p. Genuine build bincode game (n.clients i).self_addr p.0)
            (n.clients i).udp_socket.outbox k p (safe.1 i).4 e)
          safe.0,
      safe.1,
    )
    Step-IsSafe {n} (faults e) safe = (arrival-IsFaithful n (failure e) tt safe.0, safe.1)
    Step-IsSafe {n} (commands r allowed) ((handed, waiting, known, queued), clients) =
        ((handed, waiting, known, allowed), clients)

    pub Reach-IsSafe :
        {n m : Network bidir spmc}
        → IsSafe n
        → Reach bidir spmc build bincode game Registered q rounds_left fuel n m
        → IsSafe m
    Reach-IsSafe safe here = safe
    Reach-IsSafe safe (next reach step) = Step-IsSafe step (Reach-IsSafe safe reach)

    pub IsInitial-IsSafe : (n : Network bidir spmc) → IsInitial bidir spmc q n → IsSafe n
    IsInitial-IsSafe n start = (
      (
        rw start.nothing_handed tt,
        rw start.nothing_arrived tt,
        λ a u found. absurd (let h = sym (laws.first-new a) ∙ rw start.no_user at found in cc),
        rw start.no_message tt,
      ),
      λ i. (
        refl,
        rw (start.nothing_entered i) tt,
        rw (start.nothing_queued i) tt,
        rw (start.nothing_entered i, start.nothing_queued i) (omega arith),
        rw (start.nothing_sent i) tt,
      ),
    )

    -- With a lawful wire form of the inputs, an address book that keeps its documented laws, and
    -- fuel above `limit * (size + 1)`: take new servicers of a server and of any number of clients,
    -- and let them run any rounds that end, in any order, on a network that brings nothing to the
    -- server but the clients' datagrams and errors of the system, but loses, repeats, reorders and
    -- misdirects them, and with any arrivals at the clients. If players enter only states of `size`
    -- bits that the game allows at their client's address, and while the client holds fewer than
    -- `limit`, and the server's application makes only registered users join, then every controller
    -- sequence handed to the server's application under a user's name consists of states that could
    -- be entered at an address registered for that user.
    pub handed_over-IsAuthentic :
        {n m : Network bidir spmc}
        → IsInitial bidir spmc q n
        → Reach bidir spmc build bincode game Registered q rounds_left fuel n m
        → All (IsAuthentic Registered game) m.server.to_application.sent
    handed_over-IsAuthentic {n} start reach = (Reach-IsSafe (IsInitial-IsSafe n start) reach).0.0

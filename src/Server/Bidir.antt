-- ===== src/Server/Bidir.antt =====
-- The map of the `bidir-map` crate between socket addresses and user names: an interface, and what the
-- crate documents of it.
use game_network.Prelude.{◌≡◌, Bool, Option, none, some, if◌then◌else◌}
use game_network.Std.{SocketAddr, eq_addr}
use game_network.Msg.{Username, eq_user}

pub record BidirMap : Type 1 where
  pub Map : Type 0
  pub new : Map
  pub insert : Map → SocketAddr → Username → Map
  pub remove_by_second : Map → Username → Map
  pub get_by_first : Map → SocketAddr → Option Username
  pub get_by_second : Map → Username → Option SocketAddr

-- `found` unless it is the value that a change of the map took away.
abbrev pub unless {ℓ} : {A : Type ℓ} → (A → Bool) → Option A → Option A
unless gone none = none
unless gone (some a) = if gone a then none else some a

-- Each address has at most one user and each user one address: inserting a pair removes those that
-- share a side with it.
pub record IsBidirectional (m : BidirMap) : Type 0 where
  pub first-new : (a : SocketAddr) → m.get_by_first m.new a ≡ none
  pub second-new : (u : Username) → m.get_by_second m.new u ≡ none
  pub first-insert :
      (t : m.Map) (a b : SocketAddr) (u : Username)
      → m.get_by_first (m.insert t a u) b
        ≡ (if eq_addr a b then some u else unless (eq_user u) (m.get_by_first t b))
  pub second-insert :
      (t : m.Map) (a : SocketAddr) (u v : Username)
      → m.get_by_second (m.insert t a u) v
        ≡ (if eq_user u v then some a else unless (eq_addr a) (m.get_by_second t v))
  pub first-remove :
      (t : m.Map) (u : Username) (a : SocketAddr)
      → m.get_by_first (m.remove_by_second t u) a ≡ unless (eq_user u) (m.get_by_first t a)
  pub second-remove :
      (t : m.Map) (u v : Username)
      → m.get_by_second (m.remove_by_second t u) v
        ≡ (if eq_user u v then none else m.get_by_second t v)

-- ===== src/Std/Address.antt =====
-- The `==` of socket addresses tells when they are the same.
use game_network.Prelude.{◌≡◌, refl, ap, Bool, true, false, ◌&&◌, ◌==◌, ==_iff}
use game_network.Std.{Host, v4, v6, eq_host, SocketAddr, eq_addr}

both_true : (a b : Bool) → (a && b) ≡ true → (a ≡ true) × (b ≡ true)
both_true true b h = (refl, h)
both_true false b h = cc

eq_host_sound : (h k : Host) → eq_host h k ≡ true → h ≡ k
unfolding eq_host
eq_host_sound (v4 a) (v4 b) e = ap v4 ((==_iff a b).0 e)
eq_host_sound (v4 a) (v6 b f s) e = cc
eq_host_sound (v6 a f s) (v4 b) e = cc
eq_host_sound (v6 a f s) (v6 b g t) e =
    let (first, rest) = both_true (a == b && f == g) (s == t) e in
    let (second, third) = both_true (a == b) (f == g) first in
    λ i. v6 ((==_iff a b).0 second i) ((==_iff f g).0 third i) ((==_iff s t).0 rest i)

pub eq_addr_sound : (a b : SocketAddr) → eq_addr a b ≡ true → a ≡ b
unfolding eq_addr
eq_addr_sound a b e =
    let (hosts, ports) = both_true (eq_host a.host b.host) (a.port == b.port) e in
    λ i. record {
      host = eq_host_sound a.host b.host hosts i;
      port = (==_iff a.port b.port).0 ports i;
    }

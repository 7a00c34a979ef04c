-- ===== src/Server/Join/Tests.antt =====
-- The join of src/server/reliable.rs with a wire form in which no bytes are a join request, so that the
-- code behind the read runs: the client is confirmed, and then its data are returned.
use game_network.Prelude.{◌≡◌, refl, [], ◌∷◌, done}
use game_network.Std.{ok, set_port}
use game_network.Std.Tcp.{read, write}
use game_network.Msg.{Bincode, join_request, ClientData}
use game_network.Samples.{address, ann}
use game_network.Samples.Wire.{bincode, cred, write_request, quiet}
use game_network.Server.Join.{
  negotiate, wait_for_join_request, expect_join_request, joined, only_join, confirm,
  authenticate_user, wait_match,
}

abbrev lenient : Bincode
lenient = record bincode {
  reliable_client = record { serialize = write_request; deserialize = λ _. ok (join_request cred) };
}

abbrev data_of_ann : ClientData
data_of_ann = record { username = ann; udp_addr = address 7 }

join_confirmed :
    negotiate lenient 1 5 quiet ≡ done (ok data_of_ann, record quiet { outgoing = 0 ∷ 5 ∷ [] })
unfolding negotiate wait_for_join_request wait_match expect_join_request joined only_join confirm
    authenticate_user set_port read write
join_confirmed = refl

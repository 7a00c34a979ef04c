-- ===== src/Msg/Wire.antt =====
-- What a lawful wire form of the messages of src/msg.rs never writes.
use game_network.Prelude.{ℕ, ◌≡◌, ◌≢◌, List, []}
use game_network.Std.{ok}
use game_network.Msg.{Codec, IsLawful}

-- A lawful wire form is never empty.
pub bytes_of_message :
    {E A : Type 0} (codec : Codec E A) (lawful : IsLawful codec) (a : A) (bytes : List ℕ)
    → codec.serialize a ≡ ok bytes
    → bytes ≢ []
bytes_of_message codec lawful a bytes encoded none_left =
    let (e, refused) = lawful.no_bytes in
    let read : codec.deserialize [] ≡ ok a = rw none_left at (lawful.round_trip a bytes encoded) in
    cc

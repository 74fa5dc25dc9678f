-- ===== src/Tests/ReplOps.antt =====
-- The theorems about the client, applied to the sample database behind a leader and a follower.
use conuredb.Common.{ℕ, ◌≡◌, refl, arith, inr, none, some, [], ◌∷◌}
use conuredb.Common.Bytes.{equal_bytes}
use conuredb.Common.Text.{codes, cut_before, trim_space, trim_left, trim_right, fields, join_with}
use conuredb.Api.{get, put, delete}
use conuredb.Repl.{
  Base, World, Network, responded, client_get, client_put, client_delete, port_of, after_last_colon,
  with_leader, parse_line, command_of, get_key, put_pair,
}
use conuredb.Repl.Calls.{Since, client-Since}
use conuredb.Repl.Reads.{Servers, servers, shown_of, client_get-shown_of}
use conuredb.Tests.ApiOps.{
  some_key, single, follower, database, reread, database-Leaves, reread-Represents, sample_map,
}

-- A network in which every server names another leader.
abbrev lost : Network ℕ
lost c n = (responded (record { status = 409; body = []; leader = codes "b:7001" }), n)

abbrev base : Base
base = record { rest = codes "http"; host = codes "a:8081" }

abbrev fresh : World ℕ
fresh = record { outside = 0; calls = [] }

client-Since_example :
    Since get (codes "k") none 3 base fresh (client_get lost (codes "k") base fresh).2
    × Since put
        (codes "k")
        (some (codes "v"))
        3
        base
        fresh
        (client_put lost (codes "k") (codes "v") base fresh).2
    × Since delete (codes "k") none 3 base fresh (client_delete lost (codes "k") base fresh).2
client-Since_example = client-Since lost (codes "k") (codes "v") base fresh

abbrev pair : Servers
pair = record {
  fuel = 2;
  texts = record { message = λ e. codes "key not found"; hint = λ l. l };
  leader_host = codes "1:8081";
  leading = single;
  following = follower;
}

client_get-shown_of_example :
    (client_get
      (servers pair)
      (109 ∷ [])
      base
      (record { outside = (database, database); calls = [] })).0
    ≡ shown_of pair.texts (sample_map (109 ∷ []))
unfolding with_leader port_of after_last_colon cut_before equal_bytes
client_get-shown_of_example =
    client_get-shown_of pair (109 ∷ []) database reread reread database reread sample_map base []
      (some_key 109) (omega arith) refl database-Leaves refl reread-Represents database-Leaves
      (inr (refl, refl, refl))

-- Words apart by any spaces, and a value of several words.
get_line : parse_line (codes "  get  k ") ≡ get_key (codes "k")
unfolding parse_line trim_space trim_right trim_left command_of fields equal_bytes join_with
get_line = refl

put_line : parse_line (codes "put k a  b") ≡ put_pair (codes "k") (codes "a b")
unfolding parse_line trim_space trim_right trim_left command_of fields equal_bytes join_with
put_line = refl

-- ===== src/Tests/JoinOps.antt =====
-- The theorems about joinCluster, applied to a network that never answers, to one that answers after the
-- first pause, and to a leader.
use mathlib.Core.List.Memᴰ.{head}
use conuredb.Common.{
  ℕ, ◌+◌, ◌≤◌, Bool, ◌≡◌, refl, arith, inl, true, none, some, [], ◌∷◌, length, leb, if◌then◌else◌,
}
use conuredb.Common.Bytes.{Bytes, equal_bytes}
use conuredb.Common.Text.{codes, split_on, trim_space, trim_left, trim_right}
use conuredb.Api.Members.{Membership, decoded, voter}
use conuredb.Join.{
  World, Network, JoinRequest, Url, Target, of_url, of_text, Answer, failed, responded,
  join_cluster, parse_seeds, seeds_of, default_seed,
}
use conuredb.Join.Rounds.{Ended, join_cluster-Ended}
use conuredb.Join.Outcomes.{Honest, IsMember}
use conuredb.Join.Progress.{Admits, join_cluster-IsMember}
use conuredb.Join.Cluster.{cluster, Web, Peer, Shared, Leads, Listed, join_cluster-Enters}
use conuredb.Tests.ApiOps.{single, database}

abbrev node2 : JoinRequest
node2 = record { id = codes "node2"; raft_addr = codes "10.0.0.2:7001" }

abbrev as_url : Bytes → Url
as_url s = record { origin = s; path = [] }

abbrev silent : Network (Unit {0})
silent = record { send = λ r w. (failed, tt); parse_url = λ s. some (as_url s) }

abbrev start : World (Unit {0})
start = record { outside = tt; pauses = [] }

join_cluster-Ended_example : Ended 3 1 (join_cluster silent [] node2 2000000000 3 3 start)
unfolding parse_seeds
join_cluster-Ended_example =
    join_cluster-Ended silent [] node2 2000000000 3 3 start (omega arith) (omega arith)
      (omega arith)

abbrev welcome : Answer
welcome = responded (record { status = 200; leader = none; ids = none })

abbrev at_join : Target → Bool
at_join (of_url u) = equal_bytes u.path (codes "/join")
at_join (of_text t) = true

-- A network that answers once the node has paused, and counts those that have joined.
abbrev slow : Network ℕ
slow = record {
  send = λ r w. (
    if leb 1 (length w.pauses) then welcome else failed,
    if leb 1 (length w.pauses) then w.outside + (if at_join r.target then 1 else 0) else w.outside,
  );
  parse_url = λ s. some (as_url s);
}

abbrev begins : World ℕ
begins = record { outside = 0; pauses = [] }

slow-Admits : Admits slow node2 1 default_seed
slow-Admits = (
  as_url default_seed,
  refl,
  λ w late. ground (arith, late),
  λ w late. inl (ground (arith, late)),
)

abbrev OneIn : ℕ → Type 0
OneIn n = 1 ≤ n

slow-Honest : Honest slow node2 OneIn
unfolding equal_bytes
slow-Honest = record {
  welcomed = λ u w ok. ground (arith, ok);
  led = λ l w ok. ground (arith, ok);
  listed = λ u w shown. ground (arith, shown);
}

join_cluster-IsMember_example : IsMember OneIn (join_cluster slow [] node2 0 0 2 begins)
unfolding parse_seeds
join_cluster-IsMember_example =
    join_cluster-IsMember slow OneIn [] default_seed node2 0 1 begins slow-Honest refl (head refl)
      slow-Admits

-- A leader that adds every voter.
abbrev welcoming : Membership
welcoming = record {
  is_leader = true;
  leader = codes "10.0.0.1:7001";
  add_voter = λ id addr ss. (none, record { id = id; address = addr; suffrage = voter } ∷ ss);
  remove_server = λ id ss. (none, ss);
  get_configuration = λ ss. decoded ss;
  stats = [];
}

welcoming-Leads : Leads welcoming
welcoming-Leads = record {
  leads = refl;
  knows = λ ss. refl;
  adds = λ id addr ss. (refl, head refl);
}

abbrev web : Web
web = record {
  parse_url = λ s. some (as_url s);
  query = λ u name. [];
  encode = λ jr. [];
  leader_in = λ t. none;
  ids_in = λ t. none;
}

abbrev node1 : Peer
node1 = record { fuel = 2; raft = single; membership = welcoming }

abbrev alone : World Shared
alone = record {
  outside = (
    database,
    record { id = codes "node1"; address = codes "10.0.0.1:7001"; suffrage = voter } ∷ [],
  );
  pauses = [];
}

join_cluster-Enters_example :
    IsMember (Listed (codes "node2")) (join_cluster (cluster web node1) [] node2 0 0 1 alone)
unfolding parse_seeds
join_cluster-Enters_example =
    join_cluster-Enters web node1 [] default_seed (as_url default_seed) node2 0 alone
      welcoming-Leads refl (head refl) refl

-- Blank parts are left out, and the others trimmed.
two_seeds :
    parse_seeds (codes " http://a:1, ,http://b:2 ") ≡ codes "http://a:1" ∷ codes "http://b:2" ∷ []
unfolding parse_seeds seeds_of split_on trim_space trim_right trim_left
two_seeds = refl

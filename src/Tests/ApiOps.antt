-- ===== src/Tests/ApiOps.antt =====
-- The theorems about the handler of /kv. The sample's file has no header, so reading it again fails,
-- which the handler ignores.
use conuredb.Common.{ℕ, ◌≡◌, ◌≢◌, refl, arith, true, false, none, some, [], ◌∷◌}
use conuredb.File.{read_at}
use conuredb.Storage.{header_too_small, read_file}
use conuredb.Storage.View.{node_at}
use conuredb.Storage.Objects.{Grow}
use conuredb.Storage.Header.{read_header}
use conuredb.Storage.Transaction.Kept.{Grow-counted}
use conuredb.Tree.Model.{find, IsTree-Grow, find-Grow}
use conuredb.Tree.Insertion.Descent.{HasRoom}
use conuredb.Db
use conuredb.Db.{Db, Reply, answered, refused, panicked, out_of_fuel}
use conuredb.Db.Refines.{Map, Represents}
use conuredb.Fsm.{Command, apply}
use conuredb.Fsm.Log.{step, Fitting, Applied, done, absent, stopped, apply-Applied}
use conuredb.Fsm.Replicas.{Leaves, by_answer, by_error}
use conuredb.Api.{
  Raft, Request, responded, text, get, put, read_bytes, ok_text, handle_kv, put_command,
}
use conuredb.Api.Reads.{ReadFrom, handle_kv-ReadFrom}
use conuredb.Api.Followers.{FollowerAnswer, handle_kv-FollowerAnswer}
use conuredb.Api.Writes.{to_put, Recorded, handle_kv-Recorded}
use conuredb.Tests.{sample, sample_file, sample-IsStore, sample-IsTree}
use conuredb.Tests.TreeOps.{sample-HasRoom}

abbrev pub database : Db
database = record { tree = sample; is_closed = false }

abbrev pub reread : Db
reread = record {
  tree = record sample { file = record sample_file { ops = 1 } };
  is_closed = false;
}

pub database-Leaves : Leaves (Db.reload database) reread
unfolding Db.reload read_header read_file read_at
database-Leaves = by_error header_too_small reread

counted : Grow 0 sample reread.tree
counted = Grow-counted sample sample-IsStore

abbrev pub sample_map : Map
sample_map k = find (node_at sample) 2 3 k

pub reread-Represents : Represents 2 reread sample_map
reread-Represents = record {
  is_open = refl;
  is = counted.is;
  idle = refl;
  tree = IsTree-Grow counted sample-IsTree;
  holds = λ k. find-Grow k counted sample-IsTree;
}

reread-HasRoom : HasRoom reread.tree 2 3 (98 ∷ []) (7 ∷ [])
unfolding node_at
reread-HasRoom = sample-HasRoom

-- The database that a reply leaves.
abbrev left : Reply (Unit {0}) → Db → Db
left (answered u d) e = d
left (refused x d) e = d
left panicked e = e
left out_of_fuel e = e

left-Leaves : (m : Map) (r : Reply (Unit {0})) (d : Db) → Applied 2 d m r → Leaves r (left r d)
left-Leaves m _ d (done e a disk) = by_answer e
left-Leaves m _ d (absent e a disk) = by_error _ e
left-Leaves m _ d (stopped x e o) = by_error x e

-- A single server: what raft applies is what the state machine applies.
abbrev pub single : Raft
single = record {
  is_leader = true;
  leader = [];
  barrier = λ d. (none, d);
  apply = λ c d. (none, left (apply 2 (some c) d) d);
}

-- A database whose root is only the first leaf, and a raft that has the rest still to apply.
abbrev behind : Db
behind = record { tree = record sample { root_node_id = 1 }; is_closed = false }

abbrev behind_reread : Db
behind_reread = record {
  tree = record sample { root_node_id = 1; file = record sample_file { ops = 1 } };
  is_closed = false;
}

behind-Leaves : Leaves (Db.reload behind) behind_reread
unfolding Db.reload read_header read_file read_at
behind-Leaves = by_error header_too_small behind_reread

abbrev catching_up : Raft
catching_up = record single { barrier = λ d. (none, reread) }

abbrev pub follower : Raft
follower = record single { is_leader = false; leader = 49 ∷ [] }

abbrev get_m : Request
get_m = record { method = get; key = 109 ∷ []; stale = []; value = []; body = read_bytes [] }

abbrev put_b : Request
put_b = record { method = put; key = 98 ∷ []; stale = []; value = 7 ∷ []; body = read_bytes [] }

pub some_key : (b : ℕ) → (b ∷ []) ≢ []
some_key b e = cc

handle_kv-ReadFrom_example :
    ReadFrom 2 sample_map (sample_map (109 ∷ [])) (handle_kv 2 catching_up get_m behind)
handle_kv-ReadFrom_example =
    handle_kv-ReadFrom 2 catching_up get_m behind behind_reread reread sample_map (some_key 109)
      (omega arith) refl refl behind-Leaves refl reread-Represents

handle_kv-FollowerAnswer_example :
    FollowerAnswer 2 follower put_b database reread sample_map (handle_kv 2 follower put_b database)
handle_kv-FollowerAnswer_example =
    handle_kv-FollowerAnswer 2 follower put_b database reread sample_map refl (omega arith)
      database-Leaves reread-Represents

abbrev command : Command
command = put_command (98 ∷ []) (7 ∷ [])

command-Fitting : Fitting 2 command reread
command-Fitting = record {
  key_size = omega arith;
  value_size = omega arith;
  ids = omega arith;
  room = reread-HasRoom;
}

handle_kv-Recorded_example :
    (handle_kv 2 single put_b database
      ≡ responded 200 (text ok_text) (left (apply 2 (some command) reread) reread))
    × Recorded 2 (step command sample_map) (left (apply 2 (some command) reread) reread)
handle_kv-Recorded_example =
    handle_kv-Recorded 2 single put_b command database reread sample_map (some_key 98) refl
      (to_put (7 ∷ []) refl refl) database-Leaves reread-Represents command-Fitting refl
      (left-Leaves (step command sample_map) (apply 2 (some command) reread) reread
        (apply-Applied 2 command reread sample_map reread-Represents command-Fitting))

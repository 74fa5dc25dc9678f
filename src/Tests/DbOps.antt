-- ===== src/Tests/DbOps.antt =====
-- The theorems about db/db.go and pkg/raftnode, applied to a database over the sample store.
use conuredb.Common.{◌≡◌, refl, arith, false, none, some, [], ◌∷◌}
use conuredb.Common.Bytes.{Bytes}
use conuredb.Storage.{key_not_found}
use conuredb.Storage.View.{node_at}
use conuredb.Tree.Model.{find}
use conuredb.Tree.Write.Deletion.{Refused, delete-Refused}
use conuredb.Tree.Delete
use conuredb.Db
use conuredb.Db.{Db, Reply, answered, refused, open_db}
use conuredb.Db.Refines.{
  Map, Represents, Durable, set_key, Written, put-Written, delete-Written, open_db-Represents,
}
use conuredb.Fsm.{Command, apply, apply_command}
use conuredb.Storage.Transaction.Kept.{Fair}
use conuredb.Fsm.Log.{step, Fitting, Applied, apply-Applied}
use conuredb.Fsm.Replicas.{Leaves, by_error, Replay, over, next, steps, replicas_agree}
use conuredb.Tests.{sample, sample_file, sample-IsStore, sample-IsTree}
use conuredb.Tests.TreeOps.{sample-HasRoom, held_m, absent_b}

abbrev pub database : Db
database = record { tree = sample; is_closed = false }

abbrev pub sample_map : Map
sample_map k = find (node_at sample) 2 3 k

pub database-Represents : Represents 2 database sample_map
database-Represents = record {
  is_open = refl;
  is = sample-IsStore;
  idle = refl;
  tree = sample-IsTree;
  holds = λ k. refl;
}

put-Written_example :
    Written 2 database
      (set_key sample_map (98 ∷ []) (some (7 ∷ [])))
      (Db.put 2 (98 ∷ []) (7 ∷ []) database)
put-Written_example =
    put-Written 2 database sample_map (98 ∷ []) (7 ∷ []) database-Represents (omega arith)
      (omega arith) (omega arith) sample-HasRoom

delete-Written_example :
    Written 2 database (set_key sample_map (109 ∷ []) none) (Db.delete 2 (109 ∷ []) database)
delete-Written_example =
    delete-Written 2 database sample_map (109 ∷ []) (2 ∷ []) database-Represents (omega arith)
      (omega arith) held_m

open_db-Represents_example :
    (d : Db) × (open_db sample_file (λ ids. ids) ≡ some d)
    × Represents 1 d (λ k. none)
    × (Fair (λ ids. ids) → Durable d)
open_db-Represents_example = open_db-Represents sample_file (λ ids. ids) refl (λ n. refl)

abbrev put_b : Command
put_b = record { type = 0; key = 98 ∷ []; value = 7 ∷ [] }

put_b-Fitting : Fitting 2 put_b database
put_b-Fitting = record {
  key_size = omega arith;
  value_size = omega arith;
  ids = omega arith;
  room = sample-HasRoom;
}

apply-Applied_example : Applied 2 database (step put_b sample_map) (apply 2 (some put_b) database)
apply-Applied_example = apply-Applied 2 put_b database sample_map database-Represents put_b-Fitting

-- A log that deletes a key which is not there.
abbrev delete_b : Command
delete_b = record { type = 1; key = 98 ∷ []; value = [] }

delete_b-Fitting : Fitting 2 delete_b database
delete_b-Fitting = record {
  key_size = omega arith;
  value_size = omega arith;
  ids = omega arith;
  room = tt;
}

abbrev refusal : Refused sample 2 (Delete.delete 2 (98 ∷ []) sample)
refusal = delete-Refused sample 2 (98 ∷ []) sample-IsStore sample-IsTree refl (omega arith) absent_b

abbrev later : Db
later = record { tree = refusal.t; is_closed = false }

delete_b-Leaves : Leaves (apply 2 (some delete_b) database) later
unfolding apply apply_command Db.delete
delete_b-Leaves = rw refusal.run (by_error key_not_found later)

delete_b-Replay : Replay 2 (delete_b ∷ []) database later
delete_b-Replay =
    next delete_b [] database later later delete_b-Fitting delete_b-Leaves refusal.closed
      (over later)

replicas_agree_example :
    Represents 2 later (steps (delete_b ∷ []) sample_map)
    × Represents 2 later (steps (delete_b ∷ []) sample_map)
    × ((key : Bytes)
        → find (node_at later.tree) 2 later.tree.root_node_id key
          ≡ find (node_at later.tree) 2 later.tree.root_node_id key)
replicas_agree_example =
    replicas_agree 2 2 (delete_b ∷ []) database database later later sample_map database-Represents
      database-Represents delete_b-Replay delete_b-Replay

-- ===== src/Tests/RestartOps.antt =====
-- The theorems about a restart and a snapshot, applied to a database opened on an empty file: a log that
-- puts a key, and a replica with keys that restores the snapshot.
use conuredb.Common.{
  ◌+◌, ◌≤◌, ◌≡◌, ◌∙◌, sym, subst, eq_of_some, refl, arith, none, some, false, [], ◌∷◌,
}
use conuredb.File.{File}
use conuredb.Tree.Opened.{Opened, open_storage-Opened}
use conuredb.Tree.{estimate_node_size, items_estimate, item_size}
use conuredb.Tree.Put
use conuredb.Tree.Model.{leaf_for, leaf_for-leaf}
use conuredb.Tree.Insertion.Leaf.{Fits, Slack}
use conuredb.Tree.Insertion.Descent.{HasRoom}
use conuredb.Tree.Outcome.{Stored}
use conuredb.Tree.Write.Fitting.{put-Stored}
use conuredb.Node.{Node, new_leaf_node, node_size}
use conuredb.Node.Layout.{page_content, items_size}
use conuredb.Storage.View.{node_at}
use conuredb.Db
use conuredb.Db.{Db}
use conuredb.Db.Refines.{Map, Represents, Durable}
use conuredb.Db.Durability.{Reopened}
use conuredb.Fsm.{Command, apply, apply_command}
use conuredb.Fsm.Log.{Fitting}
use conuredb.Fsm.Replicas.{Leaves, by_answer, Replay, over, next, steps}
use conuredb.Fsm.Restart.{Replay-Reopened}
use conuredb.Fsm.Snapshot.{Transferred, restore-Transferred}
use conuredb.Storage.Transaction.{open_storage}
use conuredb.Tests.{sample_file}
use conuredb.Tests.DbOps.{database, database-Represents, sample_map}

-- The database that opening the empty file gives.
abbrev opening : Opened (λ ids. ids) (open_storage sample_file (λ ids. ids))
opening = open_storage-Opened sample_file (λ ids. ids) refl (λ n. refl)

abbrev empty_db : Db
empty_db = record { tree = opening.t; is_closed = false }

abbrev no_keys : Map
no_keys k = none

empty-Represents : Represents 1 empty_db no_keys
empty-Represents = record {
  is_open = refl;
  is = opening.is;
  idle = opening.closed;
  tree = opening.tree;
  holds = opening.empty;
}

empty-Durable : Durable empty_db
empty-Durable = (opening.disk, rw opening.walk (λ ids j h. h))

abbrev put_a : Command
put_a = record { type = 0; key = 97 ∷ []; value = 7 ∷ [] }

-- The only leaf is the empty one.
leaf_is :
    (n : Node)
    → leaf_for (node_at opening.t) 1 opening.t.root_node_id (97 ∷ []) ≡ some n
    → new_leaf_node 1 ≡ n
unfolding new_leaf_node
leaf_is n at = eq_of_some (
    sym (
      leaf_for-leaf (node_at opening.t) 0 opening.t.root_node_id (97 ∷ []) (new_leaf_node 1)
        opening.root refl)
    ∙ at)

empty-Fits : Fits (new_leaf_node 1) (record { key = 97 ∷ []; value = 7 ∷ [] })
unfolding new_leaf_node estimate_node_size items_estimate item_size
empty-Fits = record { size = omega arith; room = omega arith }

empty-HasRoom : HasRoom opening.t 1 opening.t.root_node_id (97 ∷ []) (7 ∷ [])
empty-HasRoom n at absent =
    subst (λ m. Fits m (record { key = 97 ∷ []; value = 7 ∷ [] })) (leaf_is n at) empty-Fits

empty_slack : page_content (new_leaf_node 1) + 8 ≤ node_size
unfolding new_leaf_node page_content items_size
empty_slack = omega arith

empty-Slack : Slack opening.t 1 opening.t.root_node_id (97 ∷ []) (7 ∷ [])
empty-Slack n at = subst (λ m. page_content m + 8 ≤ node_size) (leaf_is n at) empty_slack

put_a-Fitting : Fitting 1 put_a empty_db
put_a-Fitting = record {
  key_size = omega arith;
  value_size = omega arith;
  ids = omega (arith, opening.next);
  room = empty-HasRoom;
}

stored : Stored opening.t 1 (97 ∷ []) (some (7 ∷ [])) (Put.put 1 (97 ∷ []) (7 ∷ []) opening.t)
stored =
    put-Stored opening.t 1 (97 ∷ []) (7 ∷ []) opening.is opening.tree opening.fit
      (rw opening.walk (λ ids j h. h)) opening.closed (omega arith) (omega arith)
      (omega (arith, opening.next)) empty-HasRoom empty-Slack

abbrev later : Db
later = record { tree = stored.0; is_closed = false }

put_a-Leaves : Leaves (apply 1 (some put_a) empty_db) later
unfolding apply apply_command Db.put
put_a-Leaves = rw stored.1 (by_answer later)

put_a-Replay : Replay 1 (put_a ∷ []) empty_db later
put_a-Replay = next put_a [] empty_db later later put_a-Fitting put_a-Leaves stored.3 (over later)

abbrev left_behind : File
left_behind = record { bytes = later.tree.file.bytes; ops = 0; faults = λ n. none }

Replay-Reopened_example : Reopened 1 later (steps (put_a ∷ []) no_keys) left_behind (λ ids. ids)
Replay-Reopened_example =
    Replay-Reopened 1 (put_a ∷ []) empty_db later no_keys left_behind (λ ids. ids) empty-Represents
      empty-Durable put_a-Replay refl (λ n. refl)

abbrev snapshot_file : File
snapshot_file = record { bytes = opening.t.file.bytes; ops = 0; faults = λ n. none }

restore-Transferred_example : Transferred 1 empty_db database no_keys snapshot_file (λ ids. ids)
restore-Transferred_example =
    restore-Transferred 1 2 empty_db database no_keys sample_map snapshot_file (λ ids. ids)
      empty-Represents empty-Durable database-Represents refl (λ n. refl)

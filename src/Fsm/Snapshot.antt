-- ===== src/Fsm/Snapshot.antt =====
-- A snapshot that one replica persists and another restores.
use mathlib.Core.List.{append-nil}
use conuredb.Common.{
  ℕ, ◌≡◌, ◌∙◌, refl, sym, ap, subst, false, some, List, [], arith, length, take, take-length, drop,
}
use conuredb.Common.Bytes.{Bytes}
use conuredb.File.{File, close}
use conuredb.Storage.{Storage, ok}
use conuredb.Storage.View.{node_at, NoFaults}
use conuredb.Storage.Objects.{Grow, Grow-trans}
use conuredb.Storage.Transaction.{close_storage, open_storage}
use conuredb.Storage.Transaction.Commit.{sync_file_ok}
use conuredb.Storage.Transaction.Kept.{Grow-counted}
use conuredb.Storage.Transaction.Reopened.{counted, read_file_ok}
use conuredb.Tree.Model.{IsTree, IsTree-Grow, find-Grow, find}
use conuredb.Db
use conuredb.Db.{Db, Reply, answered}
use conuredb.Db.Refines.{Map, Represents, Durable}
use conuredb.Db.Durability.{reread, reread-Represents}
use conuredb.Fsm.{persist, restore}

all_bytes : (bs : Bytes) → take (length bs) (drop 0 bs) ≡ bs
all_bytes bs = ap (take (length bs)) (sym (append-nil bs)) ∙ take-length bs [] (length bs) refl

persist_steps :
    (d : Db)
    → d.is_closed ≡ false
    → NoFaults d.tree.file
    → persist d ≡ answered d.tree.file.bytes (record d { tree = counted (counted d.tree) })
unfolding persist Db.snapshot_to
persist_steps d o f = ground (
  arith,
  o,
  sync_file_ok d.tree f,
  read_file_ok (counted d.tree) (length d.tree.file.bytes) 0 f,
  all_bytes d.tree.file.bytes,
)

close_steps :
    (s : Storage)
    → NoFaults s.file
    → s.transaction ≡ false
    → close_storage s ≡ ok tt (record s { file = (close s.file).1 })
unfolding close_storage close
close_steps s f idle = ground (arith, idle, f s.file.ops)

restore_steps :
    (e : Db) (f : File) (order : List ℕ → List ℕ) (s t : Storage)
    → e.is_closed ≡ false
    → close_storage e.tree ≡ ok tt s
    → open_storage f order ≡ ok tt t
    → restore (some f) order e ≡ answered tt (record e { tree = t })
unfolding restore Db.restore_from
restore_steps e f order s t o c r = ground (arith, o, c, r)

Represents-Grow :
    (h : ℕ) (d : Db) (m : Map) (t : Storage)
    → Represents h d m
    → Grow 0 d.tree t
    → Represents h (record d { tree = t }) m
Represents-Grow h d m t a g = record {
  is_open = a.is_open;
  is = g.is;
  idle = g.transaction ∙ a.idle;
  tree = subst (IsTree t h) (sym g.root) (IsTree-Grow g a.tree);
  holds = λ k. ap (λ j. find (node_at t) h j k) g.root ∙ find-Grow k g a.tree ∙ a.holds k;
}

-- Persist and then Restore at another replica: both end without an error, the first with its map still
-- there, the second with the map of the first.
pub record Transferred (h : ℕ) (d e : Db) (m : Map) (f : File) (order : List ℕ → List ℕ)
    : Type 0 where
  pub source : Db
  pub target : Db
  pub persisted : persist d ≡ answered f.bytes source
  pub keeps : Represents h source m
  pub restored : restore (some f) order e ≡ answered tt target
  pub has : Represents h target m

-- A replica whose database represents a map and has it on disk persists a snapshot. Another one, whose
-- open database represents any map, restores it, from a file that holds the snapshot and answers every
-- operation. Neither returns an error, and then both databases represent the map of the first.
pub restore-Transferred :
    (h k : ℕ) (d e : Db) (m n : Map) (f : File) (order : List ℕ → List ℕ)
    → Represents h d m
    → Durable d
    → Represents k e n
    → f.bytes ≡ d.tree.file.bytes
    → NoFaults f
    → Transferred h d e m f order
restore-Transferred h k d e m n f order a (disk, fair) b same works =
    let once = Grow-counted d.tree a.is in
    let twice = Grow-trans once (Grow-counted (counted d.tree) once.is) in
    let o = reread h d m f order a disk same works in
    record {
      source = record d { tree = counted (counted d.tree) };
      target = record e { tree = o.t };
      persisted =
          persist_steps d a.is_open a.is.reads
          ∙ ap (λ bs. answered bs (record d { tree = counted (counted d.tree) })) (sym same);
      keeps = Represents-Grow h d m (counted (counted d.tree)) a twice;
      restored =
          restore_steps e f order (record e.tree { file = (close e.tree.file).1 }) o.t b.is_open
            (close_steps e.tree b.is.reads b.idle) o.run;
      has = reread-Represents h d m f order a disk same works e.is_closed b.is_open;
    }

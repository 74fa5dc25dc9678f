-- ===== src/Db/Durability.antt =====
-- `Open` on the file of a database whose process has gone: what was on disk is there again.
use conuredb.Common.{
  ℕ, ◌≤◌, ◌<◌, ◌^◌, ◌≡◌, ◌∙◌, refl, sym, ap, subst, Bool, false, some, List, arith, length,
}
use conuredb.File.{File}
use conuredb.Storage.View.{node_at, NoFaults}
use conuredb.Storage.Header.{max_free}
use conuredb.Storage.Transaction.{open_storage}
use conuredb.Storage.Transaction.Kept.{Fair, OnDisk}
use conuredb.Storage.Transaction.Reopened.{FromDisk, open_storage-FromDisk}
use conuredb.Tree.Model.{IsTree, Shows, IsTree-Shows, find-Shows, find, IsTree-node_at}
use conuredb.Db.{Db, open_db}
use conuredb.Db.Refines.{Map, Represents, Durable}

-- A database opened on a file: it represents a map, and is durable again unless the header had no
-- place for all the free ids of `d`.
pub record Reopened (h : ℕ) (d : Db) (m : Map) (f : File) (order : List ℕ → List ℕ) : Type 0 where
  pub again : Db
  pub run : open_db f order ≡ some again
  pub represents : Represents h again m
  pub durable : length d.tree.node_pool.free_node_ids ≤ max_free → Fair order → Durable again

-- A store that stands for what a database has on disk.
module _ (h : ℕ) (d : Db) (m : Map) (f : File) (order : List ℕ → List ℕ) (a : Represents h d m)
    (disk : OnDisk d.tree) (same : f.bytes ≡ d.tree.file.bytes) (works : NoFaults f) where
  root_fits : d.tree.root_node_id < 2 ^ 64
  root_fits = omega (arith, (IsTree-node_at a.tree).0, a.is.pool.width)

  pub reread : FromDisk d.tree order (open_storage f order)
  reread = open_storage-FromDisk d.tree f order a.is disk root_fits same works

  shown : Shows d.tree reread.t
  shown = record { taken = reread.taken; view = reread.view }

  pub reread-Represents :
      (is_closed : Bool)
      → is_closed ≡ false
      → Represents h (record { tree = reread.t; is_closed = is_closed }) m
  reread-Represents is_closed is_open = record {
    is_open = is_open;
    is = reread.is;
    idle = reread.closed;
    tree = subst (IsTree reread.t h) (sym reread.root) (IsTree-Shows shown a.tree);
    holds = λ k.
        ap (λ j. find (node_at reread.t) h j k) reread.root ∙ find-Shows shown k a.tree ∙ a.holds k;
  }

-- When a database represents a map and has it on disk, opening a file with the same bytes, which answers
-- every operation, gives a database that represents the map, whatever was in the memory of the first.
pub open_db-Reopened :
    (h : ℕ) (d : Db) (m : Map) (f : File) (order : List ℕ → List ℕ)
    → Represents h d m
    → Durable d
    → f.bytes ≡ d.tree.file.bytes
    → NoFaults f
    → Reopened h d m f order
unfolding open_db
open_db-Reopened h d m f order a (disk, fair) same works =
    let o = reread h d m f order a disk same works in
    record {
      again = record { tree = o.t; is_closed = false };
      run = ground (arith, o.run);
      represents = reread-Represents h d m f order a disk same works false refl;
      durable = λ fits walk. (o.disk fits, rw o.walk walk);
    }

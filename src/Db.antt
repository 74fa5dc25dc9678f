-- ===== src/Db.antt =====
-- db/db.go: the database over one tree. `Reply` is what a call returns, with the database as it
-- leaves it. The lock makes each call atomic.
pub mod Guard
pub mod Refines
pub mod Durability
use conuredb.Common.{ℕ, Bool, true, false, Option, none, some, List, if◌then◌else◌, length}
use conuredb.Common.Bytes.{Bytes}
use conuredb.File.{File}
use conuredb.Storage.{
  Storage, M, Run, ok, err, fault, stuck, Error, closed, already_closed, io_error, ◌>>=◌, ◌>>◌,
  sync_file, read_file,
}
use conuredb.Storage.Header.{read_header}
use conuredb.Storage.Transaction.{open_storage, close_storage}
use conuredb.Tree
use conuredb.Tree.Put
use conuredb.Tree.Delete

pub record Db : Type 0 where
  pub tree : Storage
  pub is_closed : Bool

pub data Reply (A : Type 0) : Type 0 where
  answered : A → Db → Reply A
  refused : Error → Db → Reply A
  panicked : Reply A
  out_of_fuel : Reply A

-- What a call on the tree makes of the database.
abbrev pub with_tree : {A : Type 0} → Db → Run A → Reply A
with_tree d (ok a s) = answered a (record d { tree = s })
with_tree d (err e s) = refused e (record d { tree = s })
with_tree d fault = panicked
with_tree d stuck = out_of_fuel

-- `if db.isClosed { return errors.New("database closed") }`, then the call.
abbrev pub guarded : {A : Type 0} → M A → Db → Reply A
guarded m d = if d.is_closed then refused closed d else with_tree d (m d.tree)

-- `Open` on an opened file; the operating system's calls are not modelled.
unfoldable pub open_db : File → (List ℕ → List ℕ) → Option Db
open_db f order = elim (open_storage f order) [
  | ok u s ↦ some (record { tree = s; is_closed = false })
  | _ ↦ none
]

unfoldable pub close : Db → Reply (Unit {0})
close d =
    if d.is_closed
    then refused already_closed d
    else with_tree (record d { is_closed = true }) (close_storage d.tree)

unfoldable pub reload : Db → Reply (Unit {0})
reload d = guarded read_header d

unfoldable pub get : ℕ → Bytes → Db → Reply Bytes
get fuel key d = guarded (Tree.get fuel key) d

unfoldable pub put : ℕ → Bytes → Bytes → Db → Reply (Unit {0})
put fuel key value d = guarded (Put.put fuel key value) d

unfoldable pub delete : ℕ → Bytes → Db → Reply (Unit {0})
delete fuel key d = guarded (Delete.delete fuel key) d

unfoldable pub sync : Db → Reply (Unit {0})
sync d = guarded sync_file d

-- The file's bytes are copied through a second handle in one operation, which may fail.
unfoldable pub snapshot_to : Db → Reply Bytes
snapshot_to d = guarded (do sync_file; λ s. read_file (length s.file.bytes) 0 s) d

-- The argument is the file that stands at the path once the stream is written, synced and renamed,
-- or `none` if one of these steps failed. Then, and when the new file does not open, the database
-- keeps the tree that it has just closed.
unfoldable pub restore_from : Option File → (List ℕ → List ℕ) → Db → Reply (Unit {0})
restore_from replaced order d =
    if d.is_closed then refused closed d else elim (close_storage d.tree) [
      | ok u s ↦ elim replaced [
        | none ↦ refused io_error (record d { tree = s })
        | some f ↦ elim (open_storage f order) [
          | ok u t ↦ answered tt (record d { tree = t })
          | err e t ↦ refused e (record d { tree = s })
          | fault ↦ panicked
          | stuck ↦ out_of_fuel
        ]
      ]
      | err e s ↦ refused e (record d { tree = s })
      | fault ↦ panicked
      | stuck ↦ out_of_fuel
    ]

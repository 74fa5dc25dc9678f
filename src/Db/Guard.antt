-- ===== src/Db/Guard.antt =====
-- The closed flag of db/db.go.
use conuredb.Common.{ℕ, true, Option, List, ◌≡◌, arith}
use conuredb.Common.Bytes.{Bytes}
use conuredb.File.{File}
use conuredb.Storage.{closed, already_closed}
use conuredb.Db.{Db, refused, close, reload, get, put, delete, sync, snapshot_to, restore_from}

-- A closed database answers every call with "database closed", `Close` with "database already
-- closed", and stays as it is.
pub closed_lem :
    (d : Db) (fuel : ℕ) (key value : Bytes) (replaced : Option File) (order : List ℕ → List ℕ)
    → d.is_closed ≡ true
    → (get fuel key d ≡ refused closed d)
      × (put fuel key value d ≡ refused closed d)
      × (delete fuel key d ≡ refused closed d)
      × (reload d ≡ refused closed d)
      × (sync d ≡ refused closed d)
      × (snapshot_to d ≡ refused closed d)
      × (restore_from replaced order d ≡ refused closed d)
      × (close d ≡ refused already_closed d)
unfolding get put delete reload sync snapshot_to restore_from close
closed_lem d fuel key value replaced order c = (
  ground (arith, c),
  ground (arith, c),
  ground (arith, c),
  ground (arith, c),
  ground (arith, c),
  ground (arith, c),
  ground (arith, c),
  ground (arith, c),
)

-- ===== src/Fsm/Restart.antt =====
-- A log, a crash, and the database opened again.
use conuredb.Common.{ℕ, ◌≡◌, List}
use conuredb.File.{File}
use conuredb.Storage.View.{NoFaults}
use conuredb.Db.{Db}
use conuredb.Db.Refines.{Map, Represents, Durable}
use conuredb.Db.Durability.{Reopened, open_db-Reopened}
use conuredb.Fsm.{Command}
use conuredb.Fsm.Replicas.{Replay, steps, Replay-Represents}

-- A database that represents a map and has it on disk replays a log of fitting commands without a
-- failing commit. Then its memory is lost: opening a file with the bytes it left, which answers every
-- operation, gives a database that represents what the log makes of the map.
pub Replay-Reopened :
    (h : ℕ) (cs : List Command) (d e : Db) (m : Map) (f : File) (order : List ℕ → List ℕ)
    → Represents h d m
    → Durable d
    → Replay h cs d e
    → f.bytes ≡ e.tree.file.bytes
    → NoFaults f
    → Reopened h e (steps cs m) f order
Replay-Reopened h cs d e m f order a durable log same works =
    let (now, disk) = Replay-Represents h cs d e m a log in
    open_db-Reopened h e (steps cs m) f order now (disk durable) same works

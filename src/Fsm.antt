-- ===== src/Fsm.antt =====
-- pkg/raftnode/fsm.go and command.go: the state machine that raft feeds its log. A log entry comes
-- decoded, as `DecodeCommand` returns it; `none` is a JSON error. Raft itself is not modelled.
pub mod Log
pub mod Replicas
pub mod Restart
pub mod Snapshot
use conuredb.Common.{ℕ, Option, none, some, List, ◌==◌, if◌then◌else◌}
use conuredb.Common.Bytes.{Bytes}
use conuredb.File.{File}
use conuredb.Storage.{bad_command}
use conuredb.Db
use conuredb.Db.{Db, Reply, answered, refused}

abbrev pub cmd_put : ℕ
cmd_put = 0

abbrev pub cmd_delete : ℕ
cmd_delete = 1

pub record Command : Type 0 where
  pub type : ℕ
  pub key : Bytes
  pub value : Bytes

-- A command of another type is answered with nil.
unfoldable pub apply_command : ℕ → Command → Db → Reply (Unit {0})
apply_command fuel c d =
    if c.type == cmd_put
    then Db.put fuel c.key c.value d
    else (if c.type == cmd_delete then Db.delete fuel c.key d else answered tt d)

unfoldable pub apply : ℕ → Option Command → Db → Reply (Unit {0})
apply fuel none d = refused bad_command d
apply fuel (some c) d = apply_command fuel c d

unfoldable pub restore : Option File → (List ℕ → List ℕ) → Db → Reply (Unit {0})
restore replaced order d = Db.restore_from replaced order d

-- `Persist`: what is written to the sink; on an error the sink is cancelled.
unfoldable pub persist : Db → Reply Bytes
persist d = Db.snapshot_to d

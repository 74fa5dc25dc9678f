-- ===== src/Tests/ConfigOps.antt =====
-- The theorem about the configuration, applied to a file that sets a name and a command line that
-- sets an address.
use conuredb.Common.{true, false, none, some, [], ◌∷◌, Option}
use conuredb.Common.Bytes.{Bytes}
use conuredb.Common.Text.{codes}
use conuredb.Storage.{Error}
use conuredb.Config.Flags.{Flags, FileRead, missing}
use conuredb.Config.{Config, CliOverrides}

abbrev file : Config
file = record {
  node_id = 110 ∷ 50 ∷ [];
  data_dir = [];
  raft_addr = [];
  http_addr = 58 ∷ 57 ∷ [];
  bootstrap = true;
  barrier_timeout = 0;
}

abbrev cli : CliOverrides
cli = record {
  node_id = [];
  data_dir = [];
  raft_addr = [];
  http_addr = 58 ∷ 56 ∷ [];
  bootstrap = some false;
  barrier_timeout = none;
}

abbrev flags : Flags
flags = record {
  config_path = codes "conure.yaml";
  node_id = codes "n2";
  data_dir = [];
  raft_addr = [];
  http_addr = [];
  bootstrap = record { is_set = true; value = false };
  barrier = record { is_set = false; value = 0 };
}

abbrev no_file : Bytes → FileRead
no_file path = missing

abbrev fixed : Bytes → Config → Option Error × Config
fixed text cfg = (none, file)

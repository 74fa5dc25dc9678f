-- ===== src/Config.antt =====
-- pkg/config/config.go and cmd/conure-db/runtime_config.go: the configuration merged from the file,
-- the command line and the defaults. A string is its bytes, a duration the 64 bits of its count of
-- nanoseconds, and a pointer that may be nil an option.
pub mod Precedence
pub mod Flags
use conuredb.Common.{ℕ, Bool, true, false, Option, none, some, List, [], ◌∷◌, ◌==◌, if◌then◌else◌}
use conuredb.Common.Bytes.{Bytes}

pub record Config : Type 0 where
  pub node_id : Bytes
  pub data_dir : Bytes
  pub raft_addr : Bytes
  pub http_addr : Bytes
  pub bootstrap : Bool
  pub barrier_timeout : ℕ

pub record CliOverrides : Type 0 where
  pub node_id : Bytes
  pub data_dir : Bytes
  pub raft_addr : Bytes
  pub http_addr : Bytes
  pub bootstrap : Option Bool
  pub barrier_timeout : Option ℕ

-- `if s != "" { field = s }`.
abbrev pub override : Bytes → Bytes → Bytes
override [] field = field
override (b ∷ bs) field = b ∷ bs

-- `if p != nil { field = *p }`.
abbrev pub override_set {ℓ} : {A : Type ℓ} → Option A → A → A
override_set none field = field
override_set (some a) field = a

-- `if field == "" { field = s }`.
abbrev pub default_to : Bytes → Bytes → Bytes
default_to [] s = s
default_to (b ∷ bs) s = b ∷ bs

-- "node1"
abbrev pub default_node_id : Bytes
default_node_id = 110 ∷ 111 ∷ 100 ∷ 101 ∷ 49 ∷ []

-- "./data"
abbrev pub default_data_dir : Bytes
default_data_dir = 46 ∷ 47 ∷ 100 ∷ 97 ∷ 116 ∷ 97 ∷ []

-- "127.0.0.1:7001"
abbrev pub default_raft_addr : Bytes
default_raft_addr = 49 ∷ 50 ∷ 55 ∷ 46 ∷ 48 ∷ 46 ∷ 48 ∷ 46 ∷ 49 ∷ 58 ∷ 55 ∷ 48 ∷ 48 ∷ 49 ∷ []

-- ":8081"
abbrev pub default_http_addr : Bytes
default_http_addr = 58 ∷ 56 ∷ 48 ∷ 56 ∷ 49 ∷ []

-- Three seconds.
abbrev pub default_barrier_timeout : ℕ
default_barrier_timeout = 3000000000

unfoldable pub with_overrides : Config → CliOverrides → Config
with_overrides file cli = record {
  node_id = override cli.node_id file.node_id;
  data_dir = override cli.data_dir file.data_dir;
  raft_addr = override cli.raft_addr file.raft_addr;
  http_addr = override cli.http_addr file.http_addr;
  bootstrap = override_set cli.bootstrap file.bootstrap;
  barrier_timeout = override_set cli.barrier_timeout file.barrier_timeout;
}

unfoldable pub with_defaults : Config → Config
with_defaults cfg = record cfg {
  node_id = default_to cfg.node_id default_node_id;
  data_dir = default_to cfg.data_dir default_data_dir;
  raft_addr = default_to cfg.raft_addr default_raft_addr;
  http_addr = default_to cfg.http_addr default_http_addr;
  barrier_timeout =
      if cfg.barrier_timeout == 0 then default_barrier_timeout else cfg.barrier_timeout;
}

unfoldable pub merge_config : Config → CliOverrides → Config
merge_config file cli = with_defaults (with_overrides file cli)

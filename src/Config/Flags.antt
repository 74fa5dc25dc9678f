-- ===== src/Config/Flags.antt =====
-- cmd/conure-db/flags.go, cmd/conure-db/app_config.go and Load of pkg/config/config.go: the flags, the
-- file and the configuration the program runs with. The flag package, the file system, `yaml.Unmarshal`
-- and `time.ParseDuration` are parameters; a duration is the 64 bits of its count of nanoseconds.
use conuredb.Common.{
  ℕ, ◌≡◌, Bool, true, false, ◌||◌, Option, none, some, List, [], ◌∷◌, arith, if◌then◌else◌,
}
use conuredb.Common.Bytes.{Bytes, equal_bytes}
use conuredb.Common.Text.{codes}
use conuredb.Storage.{Error}
use conuredb.Config.{Config, CliOverrides, merge_config}
use conuredb.Config.Precedence.{first_set, or_three_seconds}

pub record SettableBool : Type 0 where
  pub is_set : Bool
  pub value : Bool

pub record SettableDuration : Type 0 where
  pub is_set : Bool
  pub value : ℕ

abbrev pub is_one_of : Bytes → List Bytes → Bool
is_one_of s [] = false
is_one_of s (t ∷ ts) = equal_bytes s t || is_one_of s ts

-- `none` is the error.
unfoldable pub parse_bool : Bytes → Option Bool
parse_bool s =
    if is_one_of s
      (codes "1" ∷ codes "t" ∷ codes "T" ∷ codes "true" ∷ codes "TRUE" ∷ codes "True" ∷ [])
    then some true
    else (if is_one_of s
          (codes "0" ∷ codes "f" ∷ codes "F" ∷ codes "false" ∷ codes "FALSE" ∷ codes "False" ∷ [])
        then some false
        else none)

-- Whether setting succeeds, and the flag after: an error leaves it marked as set.
unfoldable pub set_bool : SettableBool → Bytes → Bool × SettableBool
set_bool b [] = (true, record { is_set = true; value = true })
set_bool b (c ∷ cs) = elim (parse_bool (c ∷ cs)) [
  | none ↦ (false, record b { is_set = true })
  | some v ↦ (true, record { is_set = true; value = v })
]

-- `none` is a nil pointer.
unfoldable pub bool_text : Option SettableBool → Bytes
bool_text none = codes "false"
bool_text (some b) =
    if b.is_set then (if b.value then codes "true" else codes "false") else codes "false"

unfoldable pub set_duration :
    (Bytes → Option ℕ) → SettableDuration → Bytes → Bool × SettableDuration
set_duration parse d s = elim (parse s) [
  | none ↦ (false, d)
  | some v ↦ (true, record { is_set = true; value = v })
]

unfoldable pub duration_text : (ℕ → Bytes) → Option SettableDuration → Bytes
duration_text show none = codes "0s"
duration_text show (some d) = if d.is_set then show d.value else codes "0s"

-- What opening and reading a file gives.
pub data FileRead : Type 0 where
  missing : FileRead
  unreadable : Error → FileRead
  contents : Bytes → FileRead

abbrev pub empty_config : Config
empty_config = record {
  node_id = [];
  data_dir = [];
  raft_addr = [];
  http_addr = [];
  bootstrap = false;
  barrier_timeout = 0;
}

-- The configuration and the error, with what the decoder has filled in.
unfoldable pub load :
    (Bytes → FileRead) → (Bytes → Config → Option Error × Config) → Bytes → Option Error × Config
load file_at unmarshal [] = (none, empty_config)
load file_at unmarshal (b ∷ bs) = elim (file_at (b ∷ bs)) [
  | missing ↦ (none, empty_config)
  | unreadable e ↦ (some e, empty_config)
  | contents text ↦ unmarshal text empty_config
]

-- The variables that the flag package has filled in.
pub record Flags : Type 0 where
  pub config_path : Bytes
  pub node_id : Bytes
  pub data_dir : Bytes
  pub raft_addr : Bytes
  pub http_addr : Bytes
  pub bootstrap : SettableBool
  pub barrier : SettableDuration

unfoldable pub overrides_of : Flags → CliOverrides
overrides_of f = record {
  node_id = f.node_id;
  data_dir = f.data_dir;
  raft_addr = f.raft_addr;
  http_addr = f.http_addr;
  bootstrap = if f.bootstrap.is_set then some f.bootstrap.value else none;
  barrier_timeout = if f.barrier.is_set then some f.barrier.value else none;
}

abbrev pub merged_with : Flags → Option Error × Config → Option Error × Config
merged_with f (some e, file) = (some e, empty_config)
merged_with f (none, file) = (none, merge_config file (overrides_of f))

unfoldable pub load_effective_config :
    (Bytes → FileRead) → (Bytes → Config → Option Error × Config) → Flags → Option Error × Config
load_effective_config file_at unmarshal f = merged_with f (load file_at unmarshal f.config_path)

-- A flag's text sets a flag to the same value.
pub set_bool-bool_text :
    (b c : SettableBool)
    → (set_bool c (bool_text (some b)))
      ≡ (true, record { is_set = true; value = if b.is_set then b.value else false })
unfolding set_bool bool_text parse_bool equal_bytes
set_bool-bool_text b c = ground arith

-- A flag's value if it was given, or else the file's.
abbrev pub given_or : {A : Type 0} → Bool → A → A → A
given_or true flag file = flag
given_or false flag file = file

-- Each field from the flag, the file or the default.
pub record Picked (f : Flags) (file cfg : Config) : Type 0 where
  pub node_id : cfg.node_id ≡ first_set (f.node_id ∷ file.node_id ∷ codes "node1" ∷ [])
  pub data_dir : cfg.data_dir ≡ first_set (f.data_dir ∷ file.data_dir ∷ codes "./data" ∷ [])
  pub raft_addr :
      cfg.raft_addr ≡ first_set (f.raft_addr ∷ file.raft_addr ∷ codes "127.0.0.1:7001" ∷ [])
  pub http_addr : cfg.http_addr ≡ first_set (f.http_addr ∷ file.http_addr ∷ codes ":8081" ∷ [])
  pub bootstrap : cfg.bootstrap ≡ given_or f.bootstrap.is_set f.bootstrap.value file.bootstrap
  pub timeout :
      cfg.barrier_timeout
      ≡ or_three_seconds (given_or f.barrier.is_set f.barrier.value file.barrier_timeout)

-- What the program runs with, by what loading the file gives.
pub data Effective (f : Flags) : Option Error × Config → Option Error × Config → Type 0 where
  loaded : (file cfg : Config) → Picked f file cfg → Effective f (none, file) (none, cfg)
  unloaded : (e : Error) (file : Config) → Effective f (some e, file) (some e, empty_config)

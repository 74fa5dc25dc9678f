-- ===== src/Config/Precedence.antt =====
-- Command line before file before defaults.
use conuredb.Common.{
  ℕ, zero, suc, Bool, ◌≡◌, ◌≢◌, refl, Option, none, some, List, [], ◌∷◌, ◌==◌, if◌then◌else◌, arith,
}
use conuredb.Common.Bytes.{Bytes}
use conuredb.Config.{
  Config, CliOverrides, override, override_set, default_to, with_overrides, with_defaults,
  merge_config, default_node_id, default_data_dir, default_raft_addr, default_http_addr,
  default_barrier_timeout,
}

-- The first string of a list that is not empty.
abbrev pub first_set : List Bytes → Bytes
first_set [] = []
first_set ([] ∷ ss) = first_set ss
first_set ((b ∷ bs) ∷ ss) = b ∷ bs

-- Three seconds in place of none.
abbrev pub or_three_seconds : ℕ → ℕ
or_three_seconds zero = 3000000000
or_three_seconds (suc n) = suc n

-- Where the fields of the merged configuration come from.
pub record Merged (file : Config) (cli : CliOverrides) (cfg : Config) : Type 0 where
  pub node_id : cfg.node_id ≡ first_set (cli.node_id ∷ file.node_id ∷ default_node_id ∷ [])
  pub data_dir : cfg.data_dir ≡ first_set (cli.data_dir ∷ file.data_dir ∷ default_data_dir ∷ [])
  pub raft_addr :
      cfg.raft_addr ≡ first_set (cli.raft_addr ∷ file.raft_addr ∷ default_raft_addr ∷ [])
  pub http_addr :
      cfg.http_addr ≡ first_set (cli.http_addr ∷ file.http_addr ∷ default_http_addr ∷ [])
  pub bootstrap : cfg.bootstrap ≡ override_set cli.bootstrap file.bootstrap
  pub timeout :
      cfg.barrier_timeout ≡ or_three_seconds (override_set cli.barrier_timeout file.barrier_timeout)

default_override :
    (a b c : Bytes) → c ≢ [] → default_to (override a b) c ≡ first_set (a ∷ b ∷ c ∷ [])
default_override [] [] [] ne = absurd (ne refl)
default_override [] [] (x ∷ c) ne = refl
default_override [] (x ∷ b) c ne = refl
default_override (x ∷ a) b c ne = refl

cons_ne : (x : ℕ) (xs : Bytes) → (x ∷ xs) ≢ []
cons_ne x xs e = cc

timeout_set : (n : ℕ) → (if n == 0 then default_barrier_timeout else n) ≡ or_three_seconds n
timeout_set zero = refl
timeout_set (suc n) = ground arith

again :
    (a b c : Bytes)
    → default_to (override a (default_to (override a b) c)) c ≡ default_to (override a b) c
again [] [] [] = refl
again [] [] (x ∷ c) = refl
again [] (x ∷ b) c = refl
again (x ∷ a) b c = refl

flag_again : (o : Option Bool) (b : Bool) → override_set o (override_set o b) ≡ override_set o b
flag_again none b = refl
flag_again (some c) b = refl

abbrev timeout : ℕ → ℕ
timeout n = if n == 0 then default_barrier_timeout else n

timeout_again :
    (o : Option ℕ) (n : ℕ)
    → timeout (override_set o (timeout (override_set o n))) ≡ timeout (override_set o n)
timeout_again none zero = refl
timeout_again none (suc n) = ground arith
timeout_again (some k) n = refl

Config-eq :
    (a b : Config)
    → a.node_id ≡ b.node_id
    → a.data_dir ≡ b.data_dir
    → a.raft_addr ≡ b.raft_addr
    → a.http_addr ≡ b.http_addr
    → a.bootstrap ≡ b.bootstrap
    → a.barrier_timeout ≡ b.barrier_timeout
    → a ≡ b
Config-eq a b p q r s t u = cc

-- In the merged configuration each string is the command line's unless that is empty, then the
-- file's unless that is empty, then the default; the bootstrap flag is the command line's if it was
-- given and otherwise the file's; and the barrier timeout is the command line's if it was given and otherwise
-- the file's, with 3 s in place of 0. Merging the result with the
-- same command line again changes nothing.
pub merge_config-Merged :
    (file : Config) (cli : CliOverrides)
    → Merged file cli (merge_config file cli)
      × (merge_config (merge_config file cli) cli ≡ merge_config file cli)
unfolding merge_config with_overrides with_defaults
merge_config-Merged file cli = (
  record {
    node_id = default_override cli.node_id file.node_id default_node_id (cons_ne _ _);
    data_dir = default_override cli.data_dir file.data_dir default_data_dir (cons_ne _ _);
    raft_addr = default_override cli.raft_addr file.raft_addr default_raft_addr (cons_ne _ _);
    http_addr = default_override cli.http_addr file.http_addr default_http_addr (cons_ne _ _);
    bootstrap = refl;
    timeout = timeout_set (override_set cli.barrier_timeout file.barrier_timeout);
  },
  Config-eq (merge_config (merge_config file cli) cli) (merge_config file cli)
      (again cli.node_id file.node_id default_node_id)
      (again cli.data_dir file.data_dir default_data_dir)
      (again cli.raft_addr file.raft_addr default_raft_addr)
      (again cli.http_addr file.http_addr default_http_addr)
      (flag_again cli.bootstrap file.bootstrap)
      (timeout_again cli.barrier_timeout file.barrier_timeout),
)

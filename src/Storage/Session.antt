-- ===== src/Storage/Session.antt =====
-- The bookkeeping of a transaction (flag, dirty set, roots) does not touch what ids stand for.
use conuredb.Common.{ℕ, Bool, true, List, ◌≡◌, refl}
use conuredb.Storage.{Storage}
use conuredb.Pool.{has}
use conuredb.Storage.Backed.{Backed, Stands-move}
use conuredb.Storage.View.{node_at, IsStore}

-- A store with other bookkeeping.
abbrev pub session : Storage → Bool → List ℕ → ℕ → ℕ → Storage
session s active ids original root = record s {
  transaction = active;
  dirty_nodes = ids;
  original_root = original;
  root_node_id = root;
}

module _ (s : Storage) (active : Bool) (ids : List ℕ) (original root : ℕ) where
  pub node_at-session : node_at (session s active ids original root) ≡ node_at s
  unfolding node_at
  node_at-session = refl

  pub session-IsStore : IsStore s → IsStore (session s active ids original root)
  session-IsStore w = record { live = w.live; pool = w.pool; reads = w.reads }

  -- More ids may be listed as well.
  pub session-Backed :
      ((j : ℕ) → has j s.dirty_nodes ≡ true → has j ids ≡ true)
      → Backed s.dirty_nodes s
      → Backed ids (session s active ids original root)
  unfolding node_at
  session-Backed sub b j u =
      Stands-move s.dirty_nodes ids s (session s active ids original root) j (λ n e. e) (sub j)
        (λ n d. d) (b j u)

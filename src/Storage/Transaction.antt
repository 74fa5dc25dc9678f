-- ===== src/Storage/Transaction.antt =====
-- Transactions, opening and closing in btree/storage.go.
pub mod Commit
pub mod Pages
pub mod Kept
pub mod Reopened
pub mod Saved
use conuredb.Common.{
  ℕ, Bool, true, false, Option, none, some, List, [], ◌∷◌, ◌==◌, if◌then◌else◌, length,
}
use conuredb.Node.{new_leaf_node}
use conuredb.Pool.{new_node_pool}
use conuredb.File.{File, close}
use conuredb.Storage.{
  Storage, M, Run, ok, err, fault, stuck, Error, in_transaction, no_transaction, not_in_cache,
  io_error, ◌>>=◌, ◌>>◌, pure, throw, load, cache, mark_dirty, new_object, allocate_id, write_node,
  sync_file,
}
use conuredb.Storage.Header.{write_header, read_header}

unfoldable pub begin_transaction : M (Unit {0})
begin_transaction s =
    if s.transaction
    then err in_transaction s
    else ok tt (record s { transaction = true; original_root = s.root_node_id; dirty_nodes = [] })

-- One dirty node of the commit loop.
unfoldable pub commit_node : ℕ → M (Unit {0})
commit_node id s = elim (s.node_cache id) [
  | none ↦ err not_in_cache s
  | some p ↦ (do n ← load p; write_node n) s
]

-- `for nodeID := range s.dirtyNodes`.
unfoldable pub commit_nodes : List ℕ → M (Unit {0})
commit_nodes [] = pure tt
commit_nodes (id ∷ ids) = commit_node id >> commit_nodes ids

-- The part of `CommitTransaction` behind its guard.
unfoldable pub commit_pages : M (Unit {0})
commit_pages = do
  λ s. commit_nodes (s.range_order s.dirty_nodes) s
  write_header
  sync_file
  λ s. ok tt (record s { transaction = false; dirty_nodes = [] })

unfoldable pub commit_transaction : M (Unit {0})
commit_transaction s = if s.transaction then commit_pages s else err no_transaction s

unfoldable pub abort_transaction : Storage → Storage
abort_transaction s =
    if s.transaction
    then record s { root_node_id = s.original_root; transaction = false; dirty_nodes = [] }
    else s

-- During a transaction the header waits for the commit.
unfoldable pub set_root_node : ℕ → M (Unit {0})
set_root_node p = do
  n ← load p
  λ s. ok tt (record s { root_node_id = n.id })
  cache n.id p
  mark_dirty n.id
  λ s. if s.transaction then ok tt s else write_header s

-- `InitializeNewFile`: header, empty root leaf, header again.
unfoldable pub initialize_new_file : M (Unit {0})
initialize_new_file = do
  write_header
  id ← allocate_id
  p ← new_object (new_leaf_node id)
  λ s. ok tt (record s { root_node_id = id })
  cache id p
  write_node (new_leaf_node id)
  write_header

-- The `&Storage{…}` of `OpenStorage`.
abbrev pub new_storage : File → (List ℕ → List ℕ) → Storage
new_storage f order = record {
  file = f;
  heap = λ p. none;
  next_ptr = 0;
  node_cache = λ id. none;
  root_node_id = 0;
  node_pool = new_node_pool;
  dirty_nodes = [];
  transaction = false;
  original_root = 0;
  range_order = order;
}

-- `OpenStorage` on an opened file. Go's calls that open and stat the file are not modelled.
unfoldable pub open_storage : File → (List ℕ → List ℕ) → Run (Unit {0})
open_storage f order =
    if length f.bytes == 0
    then initialize_new_file (new_storage f order)
    else read_header (new_storage f order)

unfoldable pub close_storage : M (Unit {0})
close_storage s =
    let idle = if s.transaction then abort_transaction s else s in
    let (done, f) = close idle.file in
    if done then ok tt (record idle { file = f }) else err io_error (record idle { file = f })

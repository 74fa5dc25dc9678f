-- ===== src/Tree/Write.antt =====
-- `Put` and `Delete` as a whole: the transaction around the walk down the tree.
pub mod Deletion
pub mod Storing
pub mod Fitting
pub mod Lockout
use conuredb.Common.{
  ℕ, ◌+◌, ◌*◌, ◌≤◌, ◌^◌, ◌≡◌, ◌∙◌, refl, sym, ap, subst, true, false, Option, none, some, List, [],
  arith, length,
}
use conuredb.Common.Bytes.{Bytes}
use conuredb.Node.{Node, max_key_size, max_value_size}
use conuredb.Storage.{Storage, Run, ok, err, key_not_found, get_node, get_root_node}
use conuredb.Pool.{has}
use conuredb.Storage.Backed.{Backed}
use conuredb.Storage.View.{node_at, IsStore, Points, Got}
use conuredb.Storage.View.Fetch.{get_node-Got}
use conuredb.Storage.Objects.{Grow, Grow-of_Same}
use conuredb.Storage.Session.{session, session-Backed, node_at-session, session-IsStore}
use conuredb.Storage.Transaction.{begin_transaction, commit_transaction, abort_transaction}
use conuredb.Tree.{insert}
use conuredb.Tree.Put.{put, put_root, change_root}
use conuredb.Tree.Delete.{delete_node_key, delete, delete_root}
use conuredb.Tree.Model.{
  IsTree, leaf_for, find, find-Grow, leaf_for-Grow, IsTree-Grow, IsTree-node_at,
}
use conuredb.Tree.Branch.{changed}
use conuredb.Tree.Removal.{Removed}
use conuredb.Tree.Removal.Present.{delete_node_key-Removed}
use conuredb.Tree.Removal.Missing.{Missed, delete_node_key-Missed}
use conuredb.Tree.Insertion.Leaf.{Inserted, Place, in_place, moved}
use conuredb.Tree.Insertion.Descent.{HasRoom, insert-Inserted}
use conuredb.Tree.Outcome.{
  IsTree-session, find-session, RootSet, change_root-RootSet, Holds, Outcome, commit-Outcome,
}

-- The store as `BeginTransaction` leaves it.
abbrev pub begun : Storage → Storage
begun s = session s true [] s.root_node_id s.root_node_id

pub delete_steps :
    (h : ℕ) (key : Bytes) (s g t u : Storage) (p q : ℕ)
    → length key ≤ max_key_size
    → s.transaction ≡ false
    → get_node s.root_node_id (begun s) ≡ ok p g
    → delete_node_key h p key g ≡ ok q t
    → change_root p q t ≡ ok tt u
    → delete h key s ≡ commit_transaction u
unfolding delete delete_root begin_transaction get_root_node
delete_steps h key s g t u p q lk tr got del set = ground (arith, lk, tr, got, del, set)

pub delete_missed :
    (h : ℕ) (key : Bytes) (s g t : Storage) (p : ℕ)
    → length key ≤ max_key_size
    → s.transaction ≡ false
    → get_node s.root_node_id (begun s) ≡ ok p g
    → delete_node_key h p key g ≡ err key_not_found t
    → delete h key s ≡ err key_not_found (abort_transaction t)
unfolding delete delete_root begin_transaction get_root_node
delete_missed h key s g t p lk tr got del = ground (arith, lk, tr, got, del)

-- The root of a well-formed tree, fetched behind `BeginTransaction`.
module _ (s : Storage) (h : ℕ) (w : IsStore s) (d : IsTree s h s.root_node_id) where
  begun-IsStore : IsStore (begun s)
  begun-IsStore = session-IsStore s true [] s.root_node_id s.root_node_id w

  pub begun-IsTree : IsTree (begun s) h s.root_node_id
  begun-IsTree = IsTree-session s true [] s.root_node_id s.root_node_id h s.root_node_id d

  begun-Backed : Backed [] s → Backed [] (begun s)
  unfolding node_at
  begun-Backed b = b

  abbrev pub root_node : Node
  root_node = (IsTree-node_at begun-IsTree).1.0

  pub fetched : Got (begun s) s.root_node_id root_node
  fetched =
      let (taken, (n, e, own)) = IsTree-node_at begun-IsTree in
      get_node-Got (begun s) s.root_node_id n begun-IsStore e own taken

  pub walked : Grow 0 (begun s) fetched.t
  walked = Grow-of_Same (begun s) fetched.t fetched.same fetched.is

  pub fetched-IsTree : IsTree fetched.t h s.root_node_id
  fetched-IsTree = IsTree-Grow walked begun-IsTree

  pub fetched-find :
      (k : Bytes)
      → find (node_at fetched.t) h s.root_node_id k ≡ find (node_at s) h s.root_node_id k
  fetched-find k =
      find-Grow k walked begun-IsTree
      ∙ find-session s true [] s.root_node_id s.root_node_id h s.root_node_id k

  pub fetched-leaf_for :
      (k : Bytes)
      → leaf_for (node_at fetched.t) h s.root_node_id k ≡ leaf_for (node_at s) h s.root_node_id k
  fetched-leaf_for k =
      leaf_for-Grow k walked begun-IsTree
      ∙ ap (λ view. leaf_for view h s.root_node_id k)
          (node_at-session s true [] s.root_node_id s.root_node_id)

  -- What the tree below the new root says of the store behind `change_root`.
  pub new_root-Holds :
      (t : Storage) (id : ℕ) (ids : List ℕ) (key : Bytes) (new : Option Bytes)
      → IsStore t
      → IsTree t h id
      → ((k : Bytes)
          → find (node_at t) h id k
            ≡ changed key new k (find (node_at fetched.t) h s.root_node_id k))
      → Holds s h key new (session t t.transaction ids t.original_root id)
  new_root-Holds t id ids key new is tree map = record {
    is = session-IsStore t t.transaction ids t.original_root id is;
    tree = IsTree-session t t.transaction ids t.original_root id h id tree;
    map = λ k.
        find-session t t.transaction ids t.original_root id h id k
        ∙ map k
        ∙ ap (changed key new k) (fetched-find k);
  }

  -- What was on disk is dirty or on disk behind `change_root`.
  pub new_root-Backed :
      (t : Storage) (id : ℕ) (ids : List ℕ)
      → ((j : ℕ) → has j t.dirty_nodes ≡ true → has j ids ≡ true)
      → (Backed fetched.t.dirty_nodes fetched.t → Backed t.dirty_nodes t)
      → Backed [] s
      → Backed ids (session t t.transaction ids t.original_root id)
  new_root-Backed t id ids sub up b =
      session-Backed t t.transaction ids t.original_root id sub
        (up (walked.backed (begun-Backed b)))

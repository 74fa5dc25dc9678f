-- ===== src/Tree/Write/Fitting.antt =====
-- `Put` and `Delete` on stores whose nodes fit their pages: what their commits find.
use conuredb.Common.{
  ℕ, ◌+◌, ◌*◌, ◌≤◌, ◌^◌, ◌≡◌, ◌∙◌, inl, inr, refl, sym, subst, true, false, none, some, [], length,
}
use conuredb.Common.Bytes.{Bytes}
use conuredb.Node.{Node, max_key_size, max_value_size}
use conuredb.Pool.{has}
use conuredb.Storage.{Storage}
use conuredb.Storage.Sized.{IsSized, AllFit, IsSized-Same, FitsPage-Points}
use conuredb.Storage.Session.{session}
use conuredb.Storage.View.{node_at, IsStore, Points}
use conuredb.Storage.Transaction.Saved.{
  IsReady, IsReady-visited, Visits, IsSaved, commit_transaction-IsSaved,
}
use conuredb.Storage.Transaction.{commit_transaction}
use conuredb.Tree.Delete.{delete}
use conuredb.Tree.Model.{IsTree, find}
use conuredb.Tree.Outcome.{RootSet, Stored, Outcome-Stored}
use conuredb.Tree.Write.{begun, fetched, fetched-leaf_for}
use conuredb.Tree.Put.{put}
use conuredb.Tree.Insertion.Leaf.{Slack}
use conuredb.Tree.Insertion.Descent.{HasRoom}
use conuredb.Tree.Write.Storing.{
  item_inserted, root_moved, to_store, to_store-open, to_store-order, to_store-IsSmall,
  to_store-Holds, put-commit, put-Outcome,
}
use conuredb.Tree.Write.Deletion.{
  key_removed, root_changed, to_commit, to_commit-open, to_commit-order, to_commit-IsSmall,
  to_commit-Holds, delete-commit, delete-Outcome,
}

-- A node that the cache holds for an id of a store whose nodes fit their pages, with other
-- bookkeeping.
IsSized-IsReady :
    (t u : Storage) (p j : ℕ) (n : Node)
    → IsStore t
    → IsSized t
    → u.node_cache ≡ t.node_cache
    → u.heap ≡ t.heap
    → Points t p j n
    → IsReady u j
IsSized-IsReady t u p j n w z c e pt = record {
  p = p;
  n = n;
  points = record { cached = rw c pt.cached; holds = rw e pt.holds };
  fits = let (lt, taken, own) = w.live j p pt.cached in FitsPage-Points t p j n z taken pt;
}

begun-IsSized : (s : Storage) → AllFit s → IsSized (begun s)
unfolding node_at
begun-IsSized s fit = record { fits = fit; cached = λ j h. absurd cc }

-- Every node that `change_root` leaves dirty is ready to be written.
RootSet-IsReady :
    (t : Storage) (p q id : ℕ) (m : Node) (c : RootSet t p q id)
    → IsStore t
    → IsSized t
    → Points t q id m
    → (j : ℕ) → has j c.ids ≡ true
    → IsReady (session t t.transaction c.ids t.original_root id) j
RootSet-IsReady t p q id m c w z pt j dirty = elim (c.only j dirty) [
  | inl e ↦
      subst (IsReady (session t t.transaction c.ids t.original_root id)) (sym e) (
        IsSized-IsReady t (session t t.transaction c.ids t.original_root id) q id m w z refl refl
          pt)
  | inr old ↦
      let (o, n, at) = z.cached j old in
      IsSized-IsReady t (session t t.transaction c.ids t.original_root id) o j n w z refl refl at
]

-- On a well-formed store without an open transaction, whose root id roots a tree of height at most
-- the fuel, with file offsets and ids left for one page per level, where every node in use fits its
-- page and the walk over the dirty nodes visits no others, `Delete` of a key that the tree's map
-- holds returns nil. The transaction is over, and the root roots a tree of the same height whose
-- map lacks the key and is as before at every other key. If the walk also reaches every dirty node
-- and all nodes in use were sound and on disk, then they and the header are on disk again.
pub delete-Stored :
    (s : Storage) (h : ℕ) (key v : Bytes)
    → IsStore s
    → IsTree s h s.root_node_id
    → AllFit s
    → Visits s.range_order
    → s.transaction ≡ false
    → length key ≤ max_key_size
    → s.node_pool.next_node_id + h ≤ 2 ^ 51
    → find (node_at s) h s.root_node_id key ≡ some v
    → Stored s h key none (delete h key s)
delete-Stored s h key v w d fit visits tr lk room held =
    let (f, works, e) = saved in
    Outcome-Stored s (session (record u { file = f }) false [] u.original_root u.root_node_id) h key
      none (delete h key s) (delete-commit s h key v w d room held tr lk ∙ e)
      (delete-Outcome s h key v w d tr lk room held)
  where
    u : Storage
    u = to_commit s h key v w d room held

    sized : IsSized (key_removed s h key v w d room held).t
    sized =
        (key_removed s h key v w d room held).sized
          (IsSized-Same (begun s) (fetched s h w d).t (fetched s h w d).same (begun-IsSized s fit))

    ready : (j : ℕ) → has j u.dirty_nodes ≡ true → IsReady u j
    ready j dirty =
        RootSet-IsReady (key_removed s h key v w d room held).t (fetched s h w d).p
          (key_removed s h key v w d room held).q (key_removed s h key v w d room held).id'
          (key_removed s h key v w d room held).m (root_changed s h key v w d room held)
          (key_removed s h key v w d room held).grow.is sized
          (key_removed s h key v w d room held).points j dirty

    saved : IsSaved u (commit_transaction u)
    saved =
        commit_transaction-IsSaved u (to_commit-Holds s h key v w d room held).is
          (to_commit-IsSmall s h key v w d room held) (to_commit-open s h key v w d room held)
          (IsReady-visited u (subst Visits (sym (to_commit-order s h key v w d room held)) visits)
            ready)

-- On a well-formed store without an open transaction, whose root id roots a tree of height at most
-- the fuel, with file offsets and ids left for 2 pages per level, where every node in use fits its
-- page and the walk over the dirty nodes visits no others, `Put` of a key and value within the size
-- limits returns nil, if the leaf for the key holds the key or has room for the item, and in either
-- case leaves the bytes of the item free on its page. The transaction is over, and the root roots a tree of the
-- same height whose map holds the value at the key and is as before at every other key. If the walk
-- also reaches every dirty node and all nodes in use were sound and on disk, then they and the header
-- are on disk again.
pub put-Stored :
    (s : Storage) (h : ℕ) (key value : Bytes)
    → IsStore s
    → IsTree s h s.root_node_id
    → AllFit s
    → Visits s.range_order
    → s.transaction ≡ false
    → length key ≤ max_key_size
    → length value ≤ max_value_size
    → s.node_pool.next_node_id + 2 * h ≤ 2 ^ 51
    → HasRoom s h s.root_node_id key value
    → Slack s h s.root_node_id key value
    → Stored s h key (some value) (put h key value s)
put-Stored s h key value w d fit visits tr lk lv room fits slack =
    let (f, works, e) = saved in
    Outcome-Stored s (session (record u { file = f }) false [] u.original_root u.root_node_id) h key
      (some value) (put h key value s) (put-commit s h key value w d room fits tr lk lv ∙ e)
      (put-Outcome s h key value w d tr lk lv room fits)
  where
    u : Storage
    u = to_store s h key value w d room fits

    sized : IsSized (item_inserted s h key value w d room fits).t
    sized =
        (item_inserted s h key value w d room fits).sized
          (λ n at. slack n (sym (fetched-leaf_for s h w d key) ∙ at))
          (IsSized-Same (begun s) (fetched s h w d).t (fetched s h w d).same (begun-IsSized s fit))

    ready : (j : ℕ) → has j u.dirty_nodes ≡ true → IsReady u j
    ready j dirty =
        RootSet-IsReady (item_inserted s h key value w d room fits).t (fetched s h w d).p
          (item_inserted s h key value w d room fits).q
          (item_inserted s h key value w d room fits).id'
          (item_inserted s h key value w d room fits).m (root_moved s h key value w d room fits)
          (item_inserted s h key value w d room fits).update.is sized
          (item_inserted s h key value w d room fits).points j dirty

    saved : IsSaved u (commit_transaction u)
    saved =
        commit_transaction-IsSaved u (to_store-Holds s h key value w d room fits).is
          (to_store-IsSmall s h key value w d room fits) (to_store-open s h key value w d room fits)
          (IsReady-visited u
            (subst Visits (sym (to_store-order s h key value w d room fits)) visits) ready)

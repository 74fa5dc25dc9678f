-- ===== src/Tree/Write/Storing.antt =====
-- `Put` as a whole, where no node is split.
use conuredb.Common.{
  ℕ, ◌+◌, ◌*◌, ◌≤◌, ◌^◌, ◌≡◌, ◌∙◌, sym, ap, subst, true, false, some, [], arith, length,
}
use conuredb.Common.Bytes.{Bytes}
use conuredb.Node.{Node, max_key_size, max_value_size}
use conuredb.Storage.{Storage, ok, get_node, get_root_node}
use conuredb.Storage.Backed.{Backed}
use conuredb.Storage.View.{IsStore, Points}
use conuredb.Storage.Objects.{Grow}
use conuredb.Storage.Session.{session}
use conuredb.Storage.Transaction.{begin_transaction, commit_transaction}
use conuredb.Tree.{insert}
use conuredb.Tree.Put.{put, put_root, change_root}
use conuredb.Storage.Transaction.Commit.{IsSmall}
use conuredb.Tree.Model.{IsTree}
use conuredb.Tree.Insertion.Leaf.{Inserted, Place, in_place, moved}
use conuredb.Tree.Insertion.Descent.{HasRoom, insert-Inserted}
use conuredb.Tree.Outcome.{RootSet, change_root-RootSet, Holds, Outcome, commit-Outcome}
use conuredb.Tree.Write.{
  begun, root_node, fetched, walked, fetched-IsTree, fetched-leaf_for, new_root-Holds,
  new_root-Backed,
}

put_steps :
    (h : ℕ) (key value : Bytes) (s g t u : Storage) (p q : ℕ)
    → length key ≤ max_key_size
    → length value ≤ max_value_size
    → s.transaction ≡ false
    → get_node s.root_node_id (begun s) ≡ ok p g
    → insert h p key value g ≡ ok (q, false) t
    → change_root p q t ≡ ok tt u
    → put h key value s ≡ commit_transaction u
unfolding put put_root begin_transaction get_root_node
put_steps h key value s g t u p q lk lv tr got ins set = ground (arith, lk, lv, tr, got, ins, set)

-- The old root is still there behind an insertion.
old_root :
    (g t : Storage) (p id q id' : ℕ) (m : Node)
    → Points t q id' m
    → Place g p id t q id'
    → (o : Node) × Points t p id o
old_root g t p id q id' m pt (in_place e f) = (
  m,
  record {
    cached = ap t.node_cache (sym f) ∙ pt.cached ∙ ap some e;
    holds = ap t.heap (sym e) ∙ pt.holds;
  },
)
old_root g t p id q id' m pt (moved o fresh at) = (o, at)

-- The steps of `Put` into a leaf with room, up to its commit.
module _ (s : Storage) (h : ℕ) (key value : Bytes) (w : IsStore s) (d : IsTree s h s.root_node_id)
    (room : s.node_pool.next_node_id + 2 * h ≤ 2 ^ 51)
    (fits : HasRoom s h s.root_node_id key value) where
  root_walked : Grow 0 (begun s) (fetched s h w d).t
  root_walked = walked s h w d

  pub item_inserted :
      Inserted
        (fetched s h w d).t
        h
        (fetched s h w d).p
        s.root_node_id
        key
        value
        (insert h (fetched s h w d).p key value (fetched s h w d).t)
  item_inserted =
      insert-Inserted h key value (fetched s h w d).p (root_node s h w d) (fetched s h w d).is
        (fetched s h w d).points (fetched-IsTree s h w d) (fetched s h w d).same.transaction
        (omega (arith, root_walked.next))
        (λ n at absent. fits n (sym (fetched-leaf_for s h w d key) ∙ at) absent)

  still_open : item_inserted.t.transaction ≡ true
  still_open = item_inserted.update.transaction ∙ (fetched s h w d).same.transaction

  same_root : s.root_node_id ≡ item_inserted.t.root_node_id
  same_root = sym (item_inserted.update.root ∙ (fetched s h w d).same.root)

  old : (o : Node) × Points item_inserted.t (fetched s h w d).p s.root_node_id o
  old =
      old_root (fetched s h w d).t item_inserted.t (fetched s h w d).p s.root_node_id
        item_inserted.q item_inserted.id' item_inserted.m item_inserted.points
        item_inserted.where_to

  pub root_moved : RootSet item_inserted.t (fetched s h w d).p item_inserted.q item_inserted.id'
  root_moved =
      change_root-RootSet item_inserted.t (fetched s h w d).p item_inserted.q item_inserted.id'
        old.0 item_inserted.m item_inserted.update.is still_open
        (subst (λ j. Points item_inserted.t (fetched s h w d).p j old.0) same_root old.1)
        item_inserted.points

  -- What is left to commit.
  abbrev pub to_store : Storage
  to_store =
      session item_inserted.t item_inserted.t.transaction root_moved.ids
        item_inserted.t.original_root item_inserted.id'

  pub to_store-open : to_store.transaction ≡ true
  to_store-open = still_open

  pub to_store-order : to_store.range_order ≡ s.range_order
  to_store-order = item_inserted.update.order ∙ root_walked.order

  pub to_store-IsSmall : IsSmall to_store.node_pool
  to_store-IsSmall = omega (arith, item_inserted.update.next, root_walked.next)

  pub to_store-Holds : Holds s h key (some value) to_store
  to_store-Holds =
      new_root-Holds s h w d item_inserted.t item_inserted.id' root_moved.ids key (some value)
        item_inserted.update.is item_inserted.tree item_inserted.map

  to_store-Backed : Backed [] s → Backed to_store.dirty_nodes to_store
  to_store-Backed =
      new_root-Backed s h w d item_inserted.t item_inserted.id' root_moved.ids root_moved.dirty
        item_inserted.update.backed

  pub put-commit :
      s.transaction ≡ false
      → length key ≤ max_key_size
      → length value ≤ max_value_size
      → put h key value s ≡ commit_transaction to_store
  put-commit tr lk lv =
      put_steps h key value s (fetched s h w d).t item_inserted.t to_store (fetched s h w d).p
        item_inserted.q lk lv tr (fetched s h w d).run item_inserted.run root_moved.run

-- On a well-formed store without an open transaction, whose root id roots a tree of height at most
-- the fuel, with file offsets and ids left for 2 pages per level, `Put` of a key and value within the
-- size limits, where the leaf for the key holds the key or has room for the item, does not panic. It
-- either returns nil with the transaction closed, or returns the error of its commit with the
-- transaction open; in both cases the root now roots a tree of the same height whose map holds the
-- value at the key and what it held before at every other key, in a well-formed store.
pub put-Outcome :
    (s : Storage) (h : ℕ) (key value : Bytes)
    → IsStore s
    → IsTree s h s.root_node_id
    → s.transaction ≡ false
    → length key ≤ max_key_size
    → length value ≤ max_value_size
    → s.node_pool.next_node_id + 2 * h ≤ 2 ^ 51
    → HasRoom s h s.root_node_id key value
    → Outcome s h key (some value) (put h key value s)
put-Outcome s h key value w d tr lk lv room fits =
    rw (put-commit s h key value w d room fits tr lk lv) (
      commit-Outcome s (to_store s h key value w d room fits) h key (some value)
        (to_store-Holds s h key value w d room fits) (to_store-IsSmall s h key value w d room fits)
        (to_store-open s h key value w d room fits) (to_store-order s h key value w d room fits)
        (to_store-Backed s h key value w d room fits))

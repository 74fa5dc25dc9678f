-- ===== src/Tree/Write/Deletion.antt =====
-- `Delete` as a whole.
use conuredb.Common.{
  ℕ, ◌+◌, ◌≤◌, ◌^◌, ◌≡◌, ◌∙◌, refl, sym, ap, subst, true, false, none, some, [], arith, length,
}
use conuredb.Common.Bytes.{Bytes}
use conuredb.Node.{max_key_size}
use conuredb.Storage.{Storage, Run, err, key_not_found}
use conuredb.Storage.View.{node_at, IsStore, Points, Got}
use conuredb.Storage.Objects.{Grow, Grow-of_Same}
use conuredb.Storage.Session.{session, session-IsStore}
use conuredb.Storage.Transaction.{abort_transaction, commit_transaction}
use conuredb.Storage.Transaction.Commit.{IsSmall}
use conuredb.Storage.Backed.{Backed}
use conuredb.Storage.Transaction.Kept.{OnDisk, OnDisk-Same, OnDisk-session}
use conuredb.Tree.Delete.{delete_node_key, delete}
use conuredb.Tree.Model.{IsTree, find, find-Grow, IsTree-Grow, IsTree-node_at}
use conuredb.Tree.Removal.{Removed}
use conuredb.Tree.Removal.Present.{delete_node_key-Removed}
use conuredb.Tree.Removal.Missing.{Missed, delete_node_key-Missed}
use conuredb.Tree.Outcome.{
  IsTree-session, find-session, RootSet, change_root-RootSet, Outcome, Holds, commit-Outcome,
}
use conuredb.Tree.Write.{
  begun, delete_steps, delete_missed, root_node, fetched, walked, fetched-IsTree, fetched-find,
  new_root-Holds, new_root-Backed,
}

-- The steps of `Delete` of a key that the tree holds, up to its commit.
module _ (s : Storage) (h : ℕ) (key v : Bytes) (w : IsStore s) (d : IsTree s h s.root_node_id)
    (room : s.node_pool.next_node_id + h ≤ 2 ^ 51)
    (held : find (node_at s) h s.root_node_id key ≡ some v) where
  root_walked : Grow 0 (begun s) (fetched s h w d).t
  root_walked = walked s h w d

  pub key_removed :
      Removed
        (fetched s h w d).t
        h
        s.root_node_id
        key
        (delete_node_key h (fetched s h w d).p key (fetched s h w d).t)
  key_removed =
      delete_node_key-Removed h key v (fetched s h w d).p (root_node s h w d) (fetched s h w d).is
        (fetched s h w d).points (fetched-IsTree s h w d) (fetched s h w d).same.transaction
        (omega (arith, root_walked.next)) (fetched-find s h w d key ∙ held)

  still_open : key_removed.t.transaction ≡ true
  still_open = key_removed.grow.transaction ∙ (fetched s h w d).same.transaction

  old : Points key_removed.t (fetched s h w d).p key_removed.t.root_node_id (root_node s h w d)
  old =
      subst (λ j. Points key_removed.t (fetched s h w d).p j (root_node s h w d))
        (sym (key_removed.grow.root ∙ (fetched s h w d).same.root))
        (key_removed.grow.keeps (fetched s h w d).p s.root_node_id (root_node s h w d)
          (IsTree-node_at (fetched-IsTree s h w d)).0 (fetched s h w d).points)

  pub root_changed : RootSet key_removed.t (fetched s h w d).p key_removed.q key_removed.id'
  root_changed =
      change_root-RootSet key_removed.t (fetched s h w d).p key_removed.q key_removed.id'
        (root_node s h w d) key_removed.m key_removed.grow.is still_open old key_removed.points

  -- What is left to commit.
  abbrev pub to_commit : Storage
  to_commit =
      session key_removed.t key_removed.t.transaction root_changed.ids key_removed.t.original_root
        key_removed.id'

  pub to_commit-open : to_commit.transaction ≡ true
  to_commit-open = still_open

  pub to_commit-order : to_commit.range_order ≡ s.range_order
  to_commit-order = key_removed.grow.order ∙ root_walked.order

  pub to_commit-IsSmall : IsSmall to_commit.node_pool
  to_commit-IsSmall = omega (arith, key_removed.grow.next, root_walked.next)

  pub to_commit-Holds : Holds s h key none to_commit
  to_commit-Holds =
      new_root-Holds s h w d key_removed.t key_removed.id' root_changed.ids key none
        key_removed.grow.is key_removed.tree key_removed.map

  to_commit-Backed : Backed [] s → Backed to_commit.dirty_nodes to_commit
  to_commit-Backed =
      new_root-Backed s h w d key_removed.t key_removed.id' root_changed.ids root_changed.dirty
        key_removed.grow.backed

  pub delete-commit :
      s.transaction ≡ false
      → length key ≤ max_key_size
      → delete h key s ≡ commit_transaction to_commit
  delete-commit tr lk =
      delete_steps h key s (fetched s h w d).t key_removed.t to_commit (fetched s h w d).p
        key_removed.q lk tr (fetched s h w d).run key_removed.run root_changed.run

-- On a well-formed store without an open transaction, whose root id roots a tree of height at most
-- the fuel, with file offsets and ids left for one page per level, `Delete` of a key that the tree's
-- map holds does not panic. It either returns nil with the transaction closed, or returns the error
-- of its commit with the transaction open; in both cases the root now roots a tree of the same height
-- whose map lacks the key and is as before at every other key, in a well-formed store.
pub delete-Outcome :
    (s : Storage) (h : ℕ) (key v : Bytes)
    → IsStore s
    → IsTree s h s.root_node_id
    → s.transaction ≡ false
    → length key ≤ max_key_size
    → s.node_pool.next_node_id + h ≤ 2 ^ 51
    → find (node_at s) h s.root_node_id key ≡ some v
    → Outcome s h key none (delete h key s)
delete-Outcome s h key v w d tr lk room held = rw (delete-commit s h key v w d room held tr lk) (
    commit-Outcome s (to_commit s h key v w d room held) h key none
      (to_commit-Holds s h key v w d room held) (to_commit-IsSmall s h key v w d room held)
      (to_commit-open s h key v w d room held) (to_commit-order s h key v w d room held)
      (to_commit-Backed s h key v w d room held))

-- A run that ends with ErrKeyNotFound, the transaction over, and everything but the cache as before.
pub record Refused (s : Storage) (h : ℕ) (r : Run (Unit {0})) : Type 0 where
  pub t : Storage
  pub run : r ≡ err key_not_found t
  pub is : IsStore t
  pub closed : t.transaction ≡ false
  pub root : t.root_node_id ≡ s.root_node_id
  pub tree : IsTree t h t.root_node_id
  pub map : (k : Bytes) → find (node_at t) h t.root_node_id k ≡ find (node_at s) h s.root_node_id k
  pub disk : OnDisk s → OnDisk t
  pub order : t.range_order ≡ s.range_order

abort_open :
    (t : Storage)
    → t.transaction ≡ true
    → abort_transaction t ≡ session t false [] t.original_root t.original_root
unfolding abort_transaction
abort_open t tr = ground (arith, tr)

-- On a well-formed store without an open transaction, whose root id roots a tree of height at most
-- the fuel, `Delete` of a key within the size limit that the tree's map does not hold returns
-- ErrKeyNotFound, with the transaction aborted, the root id restored, and the tree's map unchanged.
pub delete-Refused :
    (s : Storage) (h : ℕ) (key : Bytes)
    → IsStore s
    → IsTree s h s.root_node_id
    → s.transaction ≡ false
    → length key ≤ max_key_size
    → find (node_at s) h s.root_node_id key ≡ none
    → Refused s h (delete h key s)
delete-Refused s h key w d tr lk absent = record {
  t = session r.t false [] s.root_node_id s.root_node_id;
  run =
      delete_missed h key s g.t r.t g.p lk tr g.run r.run
      ∙ ap (err key_not_found) (abort_open r.t (r.same.transaction ∙ g.same.transaction))
      ∙ ap (λ j. err key_not_found (session r.t false [] j j)) (r.same.original ∙ g.same.original);
  is = session-IsStore r.t false [] s.root_node_id s.root_node_id r.is;
  closed = refl;
  root = refl;
  tree =
      IsTree-session r.t false [] s.root_node_id s.root_node_id h s.root_node_id
        (IsTree-Grow down (fetched-IsTree s h w d));
  map = λ k.
      find-session r.t false [] s.root_node_id s.root_node_id h s.root_node_id k
      ∙ find-Grow k down (fetched-IsTree s h w d)
      ∙ fetched-find s h w d k;
  disk = λ x.
      OnDisk-session r.t false s.root_node_id s.root_node_id (sym (r.same.root ∙ g.same.root)) (
        OnDisk-Same g.t r.t r.same (
          OnDisk-Same (begun s) g.t g.same
            (OnDisk-session s true s.root_node_id s.root_node_id refl x)));
  order = r.same.order ∙ g.same.order;
}
  where
    g : Got (begun s) s.root_node_id (root_node s h w d)
    g = fetched s h w d

    r : Missed g.t (delete_node_key h g.p key g.t)
    r =
        delete_node_key-Missed h key g.p (root_node s h w d) g.is g.points (fetched-IsTree s h w d)
          (fetched-find s h w d key ∙ absent)

    down : Grow 0 g.t r.t
    down = Grow-of_Same g.t r.t r.same r.is

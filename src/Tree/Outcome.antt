-- ===== src/Tree/Outcome.antt =====
-- How a write ends: the new root is set, and the transaction is committed.
use conuredb.Common.{
  ℕ, zero, suc, ◌≡◌, ◌≢◌, ◌∙◌, refl, sym, ap, subst, Bool, true, false, Option, List, [], arith,
  ◌==◌, ==_iff, Bool-cases, inl, inr, ◌⊎◌,
}
use conuredb.Common.Bytes.{Bytes}
use conuredb.Node.{Node}
use conuredb.Storage.{Storage, Run, Error, ok, err, load, cache, mark_dirty, add_dirty, update_self}
use conuredb.Pool.{has}
use conuredb.Storage.Backed.{Backed, has-add_dirty, of_add_dirty}
use conuredb.Storage.View.{node_at, IsStore, Points, load-Points, id-Points}
use conuredb.Storage.Objects.{Grow}
use conuredb.Storage.Session.{session, node_at-session, session-IsStore}
use conuredb.Storage.Transaction.{commit_transaction, set_root_node}
use conuredb.Storage.Transaction.Commit.{Ends, done, failed, IsSmall}
use conuredb.Storage.Transaction.Kept.{
  Fair, OnDisk, OnDisk-session, Committed, StaysOpen, commit_transaction-Ends,
}
use conuredb.Tree.Put.{change_root}
use conuredb.Tree.Model.{IsTree, leaf, branch, find, find-Grow, IsTree-Grow}
use conuredb.Tree.Branch.{changed}

module _ (s : Storage) (active : Bool) (ids : List ℕ) (original root : ℕ) where
  pub IsTree-session : (h j : ℕ) → IsTree s h j → IsTree (session s active ids original root) h j
  unfolding node_at
  IsTree-session zero j d = elim d [ ]
  IsTree-session (suc h) j (leaf n u e o l) = leaf n u e o l
  IsTree-session (suc h) j (branch n u e o b kids) =
      branch n u e o b (λ i c at. IsTree-session h c (kids i c at))

  pub find-session :
      (h j : ℕ) (key : Bytes)
      → find (node_at (session s active ids original root)) h j key ≡ find (node_at s) h j key
  find-session h j key = ap (λ view. find view h j key) (node_at-session s active ids original root)

-- The root that `change_root` leaves, with whatever it marks dirty.
pub record RootSet (t : Storage) (p q id : ℕ) : Type 0 where
  pub ids : List ℕ
  pub dirty : (j : ℕ) → has j t.dirty_nodes ≡ true → has j ids ≡ true
  pub only : (j : ℕ) → has j ids ≡ true → (j ≡ id) ⊎ (has j t.dirty_nodes ≡ true)
  pub run : change_root p q t ≡ ok tt (session t t.transaction ids t.original_root id)

set_root_node-cached :
    (t : Storage) (q id : ℕ) (m : Node)
    → t.transaction ≡ true
    → Points t q id m
    → m.id ≡ id
    → set_root_node q t
      ≡ ok tt (session t t.transaction (add_dirty id t.dirty_nodes) t.original_root id)
unfolding set_root_node cache mark_dirty
set_root_node-cached t q id m tr pt own =
    ground (arith, load-Points t q id m pt, own, tr, update_self t.node_cache id q pt.cached)

change_root_moved :
    (t : Storage) (p q : ℕ) (o m : Node)
    → load p t ≡ ok o t
    → load q t ≡ ok m t
    → m.id ≢ o.id
    → change_root p q t ≡ set_root_node q t
unfolding change_root
change_root_moved t p q o m lo lm ne = ground (arith, lo, lm, ne)

change_root_same :
    (t : Storage) (p q : ℕ) (o m : Node)
    → load p t ≡ ok o t
    → load q t ≡ ok m t
    → m.id ≡ o.id
    → change_root p q t ≡ ok tt t
unfolding change_root
change_root_same t p q o m lo lm e = ground (arith, lo, lm, e)

pub change_root-RootSet :
    (t : Storage) (p q id : ℕ) (o m : Node)
    → IsStore t
    → t.transaction ≡ true
    → Points t p t.root_node_id o
    → Points t q id m
    → RootSet t p q id
change_root-RootSet t p q id o m w tr old new = elim (Bool-cases (id == t.root_node_id)) [
  | inl same ↦
      let here : id ≡ t.root_node_id = (==_iff id t.root_node_id).0 same in
      record {
        ids = t.dirty_nodes;
        dirty = λ j h. h;
        only = λ j h. inr h;
        run =
            change_root_same t p q o m (load-Points t p t.root_node_id o old)
              (load-Points t q id m new) (mine ∙ here ∙ sym theirs)
            ∙ ap (λ z. ok tt (session t t.transaction t.dirty_nodes t.original_root z)) (sym here);
      }
  | inr other ↦ record {
    ids = add_dirty id t.dirty_nodes;
    dirty = λ j h. has-add_dirty j id t.dirty_nodes h;
    only = λ j h. elim (Bool-cases (j == id)) [
      | inl e ↦ inl ((==_iff j id).0 e)
      | inr ne ↦ inr (of_add_dirty j id t.dirty_nodes ne h)
    ];
    run =
        change_root_moved t p q o m (load-Points t p t.root_node_id o old)
          (load-Points t q id m new) (λ e. apart other (sym mine ∙ e ∙ theirs))
        ∙ set_root_node-cached t q id m tr new mine;
  }
]
  where
    mine : m.id ≡ id
    mine = id-Points t q id m w new

    theirs : o.id ≡ t.root_node_id
    theirs = id-Points t p t.root_node_id o w old

    apart : (id == t.root_node_id) ≡ false → id ≢ t.root_node_id
    apart n e = cc (n, (==_iff id t.root_node_id).1 e)

-- The root of `t` roots a tree whose map is that of `s` but for one entry.
pub record Holds (s : Storage) (h : ℕ) (key : Bytes) (new : Option Bytes) (t : Storage)
    : Type 0 where
  pub is : IsStore t
  pub tree : IsTree t h t.root_node_id
  pub map :
      (k : Bytes)
      → find (node_at t) h t.root_node_id k
        ≡ changed key new k (find (node_at s) h s.root_node_id k)

-- Where every id in use stands for a sound node that is on disk, and the walk over the dirty nodes
-- reaches each, the nodes and the header are on disk again.
abbrev pub Persists : Storage → Storage → Type 0
Persists s t = Fair s.range_order → Backed [] s → OnDisk t × Fair t.range_order

-- A write is saved, and the transaction is over; or the commit fails, with the new map in memory
-- and the transaction still open.
pub data Outcome (s : Storage) (h : ℕ) (key : Bytes) (new : Option Bytes)
    : Run (Unit {0}) → Type 0 where
  saved :
      (t : Storage)
      → Holds s h key new t
      → t.transaction ≡ false
      → Persists s t
      → Outcome s h key new (ok tt t)
  unsaved :
      (e : Error) (t : Storage)
      → Holds s h key new t
      → t.transaction ≡ true
      → Outcome s h key new (err e t)

Holds-after :
    (s t u : Storage) (h : ℕ) (key : Bytes) (new : Option Bytes)
    → Holds s h key new t
    → Grow 0 t u
    → Holds s h key new u
Holds-after s t u h key new a g = record {
  is = g.is;
  tree = subst (IsTree u h) (sym g.root) (IsTree-Grow g a.tree);
  map = λ k. ap (λ j. find (node_at u) h j k) g.root ∙ find-Grow k g a.tree ∙ a.map k;
}

Holds-session :
    (s t : Storage) (active : Bool) (ids : List ℕ) (original : ℕ) (h : ℕ) (key : Bytes)
    (new : Option Bytes)
    → Holds s h key new t
    → Holds s h key new (session t active ids original t.root_node_id)
Holds-session s t active ids original h key new a = record {
  is = session-IsStore t active ids original t.root_node_id a.is;
  tree = IsTree-session t active ids original t.root_node_id h t.root_node_id a.tree;
  map = λ k. find-session t active ids original t.root_node_id h t.root_node_id k ∙ a.map k;
}

pub commit-Outcome :
    (s t : Storage) (h : ℕ) (key : Bytes) (new : Option Bytes)
    → Holds s h key new t
    → IsSmall t.node_pool
    → t.transaction ≡ true
    → t.range_order ≡ s.range_order
    → (Backed [] s → Backed t.dirty_nodes t)
    → Outcome s h key new (commit_transaction t)
commit-Outcome s t h key new a small tr order backed =
    ends (commit_transaction t) (commit_transaction-Ends t a.is small tr)
  where
    ends : (r : Run (Unit {0})) → Ends (Committed t) (StaysOpen t) r → Outcome s h key new r
    ends r (done v (u, g, saves, e)) =
        saved v
          (rw e (
            Holds-session s u false [] u.original_root h key new (Holds-after s t u h key new a g)))
          (rw e refl)
          (λ fair b. rw e (
            OnDisk-session u false u.original_root u.root_node_id refl
                (saves (rw order fair) (backed b)),
            rw (g.order, order) fair,
          ))
    ends r (failed e u (g, o)) = unsaved e u (Holds-after s t u h key new a g) o

-- A write that returns nil: the new map is in the store, and the transaction is over.
abbrev pub Stored : Storage → ℕ → Bytes → Option Bytes → Run (Unit {0}) → Type 0
Stored s h key new r =
    (t : Storage) × (r ≡ ok tt t) × Holds s h key new t × (t.transaction ≡ false) × Persists s t

pub Outcome-Stored :
    (s t : Storage) (h : ℕ) (key : Bytes) (new : Option Bytes) (r : Run (Unit {0}))
    → r ≡ ok tt t
    → Outcome s h key new r
    → Stored s h key new r
Outcome-Stored s t h key new r e (saved u a b c) = (u, refl, a, b, c)
Outcome-Stored s t h key new r e (unsaved x u a b) = absurd cc

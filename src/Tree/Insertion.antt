-- ===== src/Tree/Insertion.antt =====
-- What an insertion without a split leaves alone: the update of a value changes one leaf in place,
-- a new key is written to fresh copies along the path.
pub mod Leaf
pub mod Fresh
pub mod Path
pub mod Descent
pub mod Parent
use conuredb.Common.{
  ℕ, zero, suc, ◌+◌, ◌≤◌, ◌<◌, ◌^◌, ◌≡◌, ◌≢◌, ◌∙◌, refl, sym, ap, Bool, true, false, Option, none,
  some, List, arith, ◌==◌, ==_iff, Bool-cases, inl, inr, ◌⊎◌, get_elem?, if◌then◌else◌,
}
use conuredb.Common.Bytes.{Bytes, equal_bytes}
use conuredb.Node.{Node, leaf_node, internal_node}
use conuredb.Node.Order.{lookup_item}
use conuredb.Pool.Fresh.{Taken}
use conuredb.Storage.{Storage, Run, ok}
use conuredb.Storage.Backed.{Backed}
use conuredb.Storage.View.{node_at, IsStore, Points, node_at-Points}
use conuredb.Storage.Objects.{Grow}
use conuredb.Storage.Objects.Written.{
  written, written-Points, written-keeps, written-view, written-IsStore,
}
use conuredb.Tree.Model.{
  IsTree, leaf, branch, IsLeaf, IsBranch, find, find-leaf, find-branch, find-Grow, IsTree-Grow,
  Child, IsBranch-Child,
}
use conuredb.Tree.Branch.{changed}

-- From `s` to `t` the branches in use stay, and no tree's map changes but at `key`.
pub record Update (key : Bytes) (k : ℕ) (s t : Storage) : Type 0 where
  pub taken : (j : ℕ) → Taken s.node_pool j → Taken t.node_pool j
  pub keeps :
      (p j : ℕ) (n : Node)
      → Taken s.node_pool j
      → n.node_type ≡ internal_node
      → Points s p j n
      → Points t p j n
  pub trees : (h j : ℕ) → IsTree s h j → IsTree t h j
  pub others :
      (h j : ℕ) (x : Bytes)
      → IsTree s h j
      → equal_bytes key x ≡ false
      → find (node_at t) h j x ≡ find (node_at s) h j x
  pub next : t.node_pool.next_node_id ≤ s.node_pool.next_node_id + k
  pub transaction : t.transaction ≡ s.transaction
  pub root : t.root_node_id ≡ s.root_node_id
  pub order : t.range_order ≡ s.range_order
  pub is : IsStore t
  pub backed : Backed s.dirty_nodes s → Backed t.dirty_nodes t

pub Update_of_Grow : (key : Bytes) (k : ℕ) (s t : Storage) → Grow k s t → Update key k s t
Update_of_Grow key k s t g = record {
  taken = g.taken;
  keeps = λ p j n u ty pt. g.keeps p j n u pt;
  trees = λ h j d. IsTree-Grow g d;
  others = λ h j x d ne. find-Grow x g d;
  next = g.next;
  transaction = g.transaction;
  root = g.root;
  order = g.order;
  is = g.is;
  backed = g.backed;
}

pub Update_trans :
    (key : Bytes) (k l : ℕ) (s t u : Storage)
    → Update key k s t
    → Update key l t u
    → Update key (k + l) s u
Update_trans key k l s t u a b = record {
  taken = λ j x. b.taken j (a.taken j x);
  keeps = λ p j n x ty pt. b.keeps p j n (a.taken j x) ty (a.keeps p j n x ty pt);
  trees = λ h j d. b.trees h j (a.trees h j d);
  others = λ h j x d ne. b.others h j x (a.trees h j d) ne ∙ a.others h j x d ne;
  next = omega (arith, a.next, b.next);
  transaction = b.transaction ∙ a.transaction;
  root = b.root ∙ a.root;
  order = b.order ∙ a.order;
  is = b.is;
  backed = λ x. b.backed (a.backed x);
}

pub Update_mono :
    (key : Bytes) (k l : ℕ) (s t : Storage) → k ≤ l → Update key k s t → Update key l s t
Update_mono key k l s t h a = record {
  taken = a.taken;
  keeps = a.keeps;
  trees = a.trees;
  others = a.others;
  next = omega (arith, a.next);
  transaction = a.transaction;
  root = a.root;
  order = a.order;
  is = a.is;
  backed = a.backed;
}

-- A leaf overwritten in place by one whose map differs at `key` alone.
module _ (s : Storage) (p id : ℕ) (n m : Node) (key : Bytes) (new : Option Bytes) (w : IsStore s)
    (pt : Points s p id n) (l : IsLeaf n) (l' : IsLeaf m) (own : m.id ≡ id)
    (map : (x : Bytes) → lookup_item m.items x ≡ changed key new x (lookup_item n.items x)) where
  abbrev after : Storage
  after = written s p m

  overwrite-view :
      (j : ℕ) (k : Node)
      → node_at s j ≡ some k
      → k.node_type ≡ internal_node
      → node_at after j ≡ some k
  overwrite-view j k e ty = elim (Bool-cases (j == id)) [
    | inl same ↦ absurd (not_leaf ((==_iff j id).0 same))
    | inr other ↦ written-view s p id n m w pt own j k (λ q. cc (other, (==_iff j id).1 q)) e
  ]
    where
      not_leaf : j ≡ id → ⊥
      not_leaf q =
          let at : node_at s j ≡ some n = ap (node_at s) q ∙ node_at-Points s p id n pt in
          let eq : k ≡ n = cc in ground (arith, ap (λ (z : Node). z.node_type) eq, l.type, ty)

  pub overwrite-trees : (h j : ℕ) → IsTree s h j → IsTree after h j
  overwrite-trees zero j d = elim d [ ]
  overwrite-trees (suc h) j (branch k u e o b kids) =
      branch k u (overwrite-view j k e b.type) o b (λ i c at. overwrite-trees h c (kids i c at))
  overwrite-trees (suc h) j (leaf k u e o lk) = elim (Bool-cases (j == id)) [
    | inl same ↦
        let here : j ≡ id = (==_iff j id).0 same in
        leaf m u
          (ap (node_at after) here
            ∙ node_at-Points after p id m (written-Points s p id n m w pt own))
          (own ∙ sym here) l'
    | inr other ↦
        leaf k u (written-view s p id n m w pt own j k (λ q. cc (other, (==_iff j id).1 q)) e) o lk
  ]

  pub overwrite-others :
      (h j : ℕ) (x : Bytes)
      → IsTree s h j
      → equal_bytes key x ≡ false
      → find (node_at after) h j x ≡ find (node_at s) h j x
  overwrite-others zero j x d ne = elim d [ ]
  overwrite-others (suc h) j x (branch k u e o b kids) ne =
      let c = IsBranch-Child k x b in
      find-branch (node_at after) h j x k c.pos c.id (overwrite-view j k e b.type) b.type c.found
        c.at
      ∙ overwrite-others h c.id x (kids c.pos c.id c.at) ne
      ∙ sym (find-branch (node_at s) h j x k c.pos c.id e b.type c.found c.at)
  overwrite-others (suc h) j x (leaf k u e o lk) ne = elim (Bool-cases (j == id)) [
    | inl same ↦
        let here : j ≡ id = (==_iff j id).0 same in
        find-leaf (node_at after) h j x m
          (ap (node_at after) here
            ∙ node_at-Points after p id m (written-Points s p id n m w pt own))
          l'.type
        ∙ map x
        ∙ ap (λ b. if b then new else lookup_item n.items x) ne
        ∙ sym (
            find-leaf (node_at s) h j x n (ap (node_at s) here ∙ node_at-Points s p id n pt) l.type)
    | inr other ↦
        find-leaf (node_at after) h j x k
          (written-view s p id n m w pt own j k (λ q. cc (other, (==_iff j id).1 q)) e) lk.type
        ∙ sym (find-leaf (node_at s) h j x k e lk.type)
  ]

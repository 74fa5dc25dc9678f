-- ===== src/Tests.antt =====
-- A small store for the examples: a root over two leaves, all in the cache, no transaction open.
mod TreeOps
mod StorageOps
mod NodeOps
mod DbOps
mod ConfigOps
mod ApiOps
mod JoinOps
mod ReplOps
mod RestartOps
use conuredb.Common.{
  ℕ, zero, suc, ◌<◌, ◌≡◌, ◌∙◌, refl, sym, ap, subst, Option, none, some, List, [], ◌∷◌, arith, ◌==◌,
  ==_iff, Bool-cases, inl, inr, true, false, get_elem?, if◌then◌else◌,
}
use conuredb.Common.Bytes.{Bytes, compare_bytes}
use conuredb.Node.{Item, Node, leaf_node, internal_node}
use conuredb.Node.Layout.{page_content, items_size}
use conuredb.Node.RoundTrip.{IsStorable}
use conuredb.Pool.{NodePool, has}
use conuredb.Pool.Fresh.{Taken, IsPool}
use conuredb.File.{File}
use conuredb.Storage.{Storage, update}
use conuredb.Storage.View.{node_at, IsStore, Points, node_at-Points}
use conuredb.Tree.Model.{IsTree, leaf, branch, IsLeaf, IsBranch}

abbrev pub item : ℕ → ℕ → Item
item k v = record { key = k ∷ []; value = v ∷ [] }

abbrev pub first_leaf : Node
first_leaf = record {
  id = 1;
  node_type = leaf_node;
  count = 1;
  parent = 0;
  items = item 97 1 ∷ [];
  children = [];
}

abbrev pub second_leaf : Node
second_leaf = record {
  id = 2;
  node_type = leaf_node;
  count = 1;
  parent = 0;
  items = item 109 2 ∷ [];
  children = [];
}

abbrev pub root_node : Node
root_node = record {
  id = 3;
  node_type = internal_node;
  count = 1;
  parent = 0;
  items = record { key = 109 ∷ []; value = [] } ∷ [];
  children = 1 ∷ 2 ∷ [];
}

abbrev pub sample_file : File
sample_file = record { bytes = []; ops = 0; faults = λ n. none }

abbrev pub sample : Storage
sample = record {
  file = sample_file;
  heap =
      update (update (update (λ p. none) 0 (some first_leaf)) 1 (some second_leaf)) 2
        (some root_node);
  next_ptr = 3;
  node_cache = update (update (update (λ id. none) 1 (some 0)) 2 (some 1)) 3 (some 2);
  root_node_id = 3;
  node_pool = record { free_node_ids = []; next_node_id = 4 };
  dirty_nodes = [];
  transaction = false;
  original_root = 0;
  range_order = λ ids. ids;
}

pub sample-IsPool : IsPool sample.node_pool
sample-IsPool = record { nodup = tt; known = tt; started = omega arith; width = omega arith }

live_at :
    (id p j q : ℕ) (n : Node)
    → sample.heap q ≡ some n
    → n.id ≡ j
    → q < 3
    → Taken sample.node_pool j
    → j ≡ id
    → q ≡ p
    → (p < 3) × Taken sample.node_pool id × ((n : Node) × (sample.heap p ≡ some n) × (n.id ≡ id))
live_at id p j q n holds own lt u e f = (
  omega (arith, f),
  subst (Taken sample.node_pool) e u,
  (n, ap sample.heap (sym f) ∙ holds, own ∙ e),
)

sample-live :
    (id p : ℕ)
    → sample.node_cache id ≡ some p
    → (p < 3) × Taken sample.node_pool id × ((n : Node) × (sample.heap p ≡ some n) × (n.id ≡ id))
sample-live id p e = elim (Bool-cases (3 == id)) [
  | inl here ↦
      live_at id p 3 2 root_node refl refl (omega arith) (omega arith, omega arith, refl)
        ((==_iff 3 id).0 here) (ground (arith, here, e))
  | inr not_third ↦ elim (Bool-cases (2 == id)) [
    | inl here ↦
        live_at id p 2 1 second_leaf refl refl (omega arith) (omega arith, omega arith, refl)
          ((==_iff 2 id).0 here) (ground (arith, not_third, here, e))
    | inr not_second ↦ elim (Bool-cases (1 == id)) [
      | inl here ↦
          live_at id p 1 0 first_leaf refl refl (omega arith) (omega arith, omega arith, refl)
            ((==_iff 1 id).0 here) (ground (arith, not_third, not_second, here, e))
      | inr other ↦ absurd (ground (arith, not_third, not_second, other, e))
    ]
  ]
]

pub sample-IsStore : IsStore sample
sample-IsStore = record { live = sample-live; pool = sample-IsPool; reads = λ n. refl }

pub root_there : Points sample 2 3 root_node
root_there = record { cached = refl; holds = refl }

pub first_there : Points sample 0 1 first_leaf
first_there = record { cached = refl; holds = refl }

pub second_there : Points sample 1 2 second_leaf
second_there = record { cached = refl; holds = refl }

pub first-IsTree : IsTree sample 1 1
first-IsTree =
    leaf first_leaf (omega arith, omega arith, refl)
      (node_at-Points sample 0 1 first_leaf first_there) refl
      (record { type = refl; parent = refl; sorted = (tt, tt) })

pub second-IsTree : IsTree sample 1 2
second-IsTree =
    leaf second_leaf (omega arith, omega arith, refl)
      (node_at-Points sample 1 2 second_leaf second_there) refl
      (record { type = refl; parent = refl; sorted = (tt, tt) })

children-IsTree : (i c : ℕ) → get_elem? root_node.children i ≡ some c → IsTree sample 1 c
children-IsTree zero c e = let at : 1 ≡ c = cc in subst (IsTree sample 1) at first-IsTree
children-IsTree (suc zero) c e = let at : 2 ≡ c = cc in subst (IsTree sample 1) at second-IsTree
children-IsTree (suc (suc i)) c e = absurd (cc)

pub sample-IsTree : IsTree sample 2 3
sample-IsTree =
    branch root_node (omega arith, omega arith, refl)
      (node_at-Points sample 2 3 root_node root_there) refl
      (record { type = refl; parent = refl; sorted = (tt, tt); arity = refl }) children-IsTree

pub first_leaf-IsStorable : IsStorable first_leaf
unfolding page_content items_size
first_leaf-IsStorable = record {
  id_fits = omega arith;
  type_fits = omega arith;
  parent_fits = omega arith;
  counted = refl;
  children_fit = tt;
  shape = refl;
  fits = omega arith;
}

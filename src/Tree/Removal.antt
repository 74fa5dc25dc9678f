-- ===== src/Tree/Removal.antt =====
-- `Delete` removes one entry of the tree's map. No node of a tree has a parent, so the code never
-- comes to its rebalancing.
pub mod Missing
pub mod Present
use conuredb.Common.{
  ℕ, zero, suc, ◌+◌, ◌<◌, ◌^◌, ◌≡◌, ◌∙◌, refl, sym, subst, ap, true, none, some, [], arith,
  get_elem?, set,
}
use conuredb.Common.Bytes.{Bytes}
use conuredb.Node.{
  Node, Item, leaf_node, internal_node, find_key, remove_item, remove_at, count_down, new_leaf_node,
  new_internal_node,
}
use conuredb.Node.Order.{lookup_item}
use conuredb.Node.Order.Positions.{lookup_item-remove_at, remove_at-IsSorted, lt_of_get_elem?}
use conuredb.Node.Search.{find_key-Found}
use conuredb.Node.Search.Children.{Found-some, Found-none}
use conuredb.Pool.Fresh.{Taken}
use conuredb.Storage.{Storage, Run, ok, err, key_not_found, and_then, load, get_node, copy_of}
use conuredb.Storage.View.{node_at, IsStore, Points, Same, load-Points, id-Points, node_at-Points}
use conuredb.Storage.View.Fetch.{get_node-Got}
use conuredb.Storage.Objects.{Grow, Grow-trans, Grow-mono, Grow-of_Same, Cloned, clone_node-Cloned}
use conuredb.Storage.Objects.Written.{
  written, store-written, written-Points, Grow-written, written-IsSized,
}
use conuredb.Storage.Sized.{IsSized, FitsPage, FitsPage-removed}
use conuredb.Storage.Backed.{copy_of-leaf, copy_of-branch, removed-IsSound}
use conuredb.Tree.{child_at}
use conuredb.Tree.Delete.{delete_leaf, relink, delete_node_key}
use conuredb.Tree.Model.{
  IsTree, leaf, branch, IsLeaf, IsBranch, find, find-leaf, find-branch, find-Grow, IsTree-Grow,
  Child, IsBranch-Child, IsTree-node_at,
}
use conuredb.Tree.Lookup.{child_at-Child, same_node, Points_at, Same-refl, Same-trans}
use conuredb.Tree.Branch.{changed, Replaced, Replaced-IsTree, Replaced-find}

-- The leaf that a deletion writes.
abbrev pub without : Node → ℕ → ℕ → Node
without n id i = record {
  id = id;
  node_type = leaf_node;
  count = count_down n.count;
  parent = n.parent;
  items = remove_at n.items i;
  children = [];
}

remove_item-without :
    (n : Node) (id i : ℕ) (it : Item)
    → n.node_type ≡ leaf_node
    → get_elem? n.items i ≡ some it
    → remove_item (copy_of n id) i ≡ some (without n id i)
remove_item-without n id i it t e =
    rw (copy_of-leaf n id t) (unfold remove_item in ground (arith, lt_of_get_elem? n.items i it e))

-- A deletion that found its key: the new node under a fresh id, and the map without the key.
pub record Removed (s : Storage) (h id : ℕ) (key : Bytes) (r : Run ℕ) : Type 0 where
  pub q : ℕ
  pub id' : ℕ
  pub m : Node
  pub t : Storage
  pub run : r ≡ ok q t
  pub points : Points t q id' m
  pub taken : Taken t.node_pool id'
  pub fresh : ¬ Taken s.node_pool id'
  pub parent : m.parent ≡ 0
  pub tree : IsTree t h id'
  pub grow : Grow h s t
  pub sized : IsSized s → IsSized t
  pub map : (k : Bytes) → find (node_at t) h id' k ≡ changed key none k (find (node_at s) h id k)

delete_leaf_steps :
    (s : Storage) (p i : ℕ) (n : Node) (key : Bytes) (it : Item) (c : Cloned s p n)
    → load p s ≡ ok n s
    → n.node_type ≡ leaf_node
    → n.parent ≡ 0
    → find_key n key ≡ some i
    → get_elem? n.items i ≡ some it
    → delete_leaf p key s ≡ ok c.q (written c.t c.q (without n c.id i))
unfolding delete_leaf
delete_leaf_steps s p i n key it c l t z f e = ground (
  arith,
  l,
  f,
  c.run,
  load-Points c.t c.q c.id (copy_of n c.id) c.points,
  remove_item-without n c.id i it t e,
  store-written c.t c.q (without n c.id i),
  z,
)

pub delete_leaf-Removed :
    (s : Storage) (h p id i : ℕ) (n : Node) (key : Bytes) (it : Item)
    → IsStore s
    → Points s p id n
    → IsLeaf n
    → s.transaction ≡ true
    → s.node_pool.next_node_id + suc h < 2 ^ 64
    → find_key n key ≡ some i
    → get_elem? n.items i ≡ some it
    → it.key ≡ key
    → Removed s (suc h) id key (delete_leaf p key s)
delete_leaf-Removed s h p id i n key it w pt l tr room f at k = record {
  q = c.q;
  id' = c.id;
  m = m;
  t = t;
  run = delete_leaf_steps s p i n key it c (load-Points s p id n pt) l.type l.parent f at;
  points = points;
  taken = c.taken;
  fresh = c.fresh;
  parent = l.parent;
  tree = leaf m c.taken (node_at-Points t c.q c.id m points) refl kept;
  grow = Grow-mono 1 (suc h) s t (omega arith) (
      Grow-written c.t c.q c.id (copy_of n c.id) m c.grow.is c.points refl s 1 c.grow c.fresh
        c.taken c.dirty (λ k. removed-IsSound n c.id k i it l.type at));
  sized =
      λ z. written-IsSized c.t c.q c.id (copy_of n c.id) m c.grow.is c.points refl fit (c.sized z);
  map = λ j.
      find-leaf (node_at t) h c.id j m (node_at-Points t c.q c.id m points) refl
      ∙ lookup_item-remove_at n.items i it j l.sorted at
      ∙ ap (λ x. changed x none j (lookup_item n.items j)) k
      ∙ ap (changed key none j)
          (sym (find-leaf (node_at s) h id j n (node_at-Points s p id n pt) l.type));
}
  where
    c : Cloned s p n
    c = clone_node-Cloned s p id n w pt tr (omega arith)

    m : Node
    m = without n c.id i

    t : Storage
    t = written c.t c.q m

    points : Points t c.q c.id m
    points = written-Points c.t c.q c.id (copy_of n c.id) m c.grow.is c.points refl

    fit : FitsPage (copy_of n c.id) → FitsPage m
    fit k =
        FitsPage-removed _ c.id i (count_down n.count) n.parent
          (subst FitsPage (copy_of-leaf n c.id l.type) k)

    kept : IsLeaf m
    kept = record { type = refl; parent = l.parent; sorted = remove_at-IsSorted n.items i l.sorted }

-- The branch that a deletion or an insertion writes over a new child.
abbrev pub rewired : Node → ℕ → ℕ → ℕ → Node
rewired n id pos child = record {
  id = id;
  node_type = internal_node;
  count = n.count;
  parent = n.parent;
  items = n.items;
  children = set n.children pos child;
}

pub relink_steps :
    (s : Storage) (p pos q : ℕ) (n m : Node) (c : Cloned s p n)
    → n.node_type ≡ internal_node
    → load q c.t ≡ ok m c.t
    → m.parent ≡ 0
    → relink p pos q s ≡ ok c.q (written c.t c.q (rewired n c.id pos m.id))
unfolding relink
relink_steps s p pos q n m c t l z = ground (
  arith,
  l,
  c.run,
  load-Points c.t c.q c.id (copy_of n c.id) c.points,
  z,
  copy_of-branch n c.id t,
  store-written c.t c.q (rewired n c.id pos m.id),
)

pub delete_node_key-leaf :
    (h p : ℕ) (key : Bytes) (s : Storage) (n : Node)
    → load p s ≡ ok n s
    → n.node_type ≡ leaf_node
    → delete_node_key (suc h) p key s ≡ delete_leaf p key s
unfolding delete_node_key
delete_node_key-leaf h p key s n e t = ground (arith, e, t)

-- Down to the child, and back up with what the child returns.
pub delete_node_key-branch :
    (h p : ℕ) (key : Bytes) (s t : Storage) (n : Node) (pos c q : ℕ)
    → load p s ≡ ok n s
    → n.node_type ≡ internal_node
    → child_at n key s ≡ ok (pos, c) s
    → get_node c s ≡ ok q t
    → delete_node_key (suc h) p key s ≡ and_then (delete_node_key h q key t) (relink p pos)
unfolding delete_node_key
delete_node_key-branch h p key s t n pos c q e ty at got = ground (arith, e, ty, at, got)

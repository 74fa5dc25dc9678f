-- ===== src/Tree/Insertion/Leaf.antt =====
-- The leaf case of `insert`: an update in place, or a new item that fits.
use conuredb.Common.{
  ℕ, suc, ◌+◌, ◌*◌, ◌≤◌, ◌≡◌, ◌∙◌, refl, sym, ap, Bool, true, false, some, arith, length, get_elem?,
  set,
}
use conuredb.Common.Bytes.{Bytes}
use conuredb.Node.{Node, Item, node_size, internal_node, find_key}
use conuredb.Node.Order.{lookup_item}
use conuredb.Node.Order.Positions.{lookup_item-set, set-IsSorted}
use conuredb.Pool.Fresh.{Taken}
use conuredb.Storage.{Storage, Run, ok, put_node, add_dirty}
use conuredb.Storage.View.{node_at, IsStore, Points, load-Points, node_at-Points}
use conuredb.Node.Sound.{valued-IsSound}
use conuredb.Storage.Backed.{has-add_dirty, has-add_dirty_self}
use conuredb.Storage.Objects.{Grow, Grow-refl}
use conuredb.Storage.Objects.Written.{
  Grow-dirty, written, store-written, written-Points, written-IsStore, put_node-cached,
  written-keeps, written-Backed, written-IsSized,
}
use conuredb.Tree.{max_items, estimate_node_size, insert_leaf}
use conuredb.Tree.Model.{IsTree, leaf, IsLeaf, find, find-leaf, leaf_for, leaf_for-leaf}
use conuredb.Node.Layout.{page_content}
use conuredb.Storage.Sized.{IsSized, IsSized-add_dirty, FitsPage-valued}
use conuredb.Tree.Branch.{changed}
use conuredb.Tree.Insertion.{
  Update, Update_of_Grow, Update_trans, Update_mono, overwrite-trees, overwrite-others,
}

-- The item goes into the leaf without a split.
pub record Fits (n : Node) (x : Item) : Type 0 where
  pub size : estimate_node_size n (some x) false ≤ node_size
  pub room : length n.items + 1 ≤ max_items

-- The leaf that the key belongs to leaves the bytes of the item free on its page.
abbrev pub Slack : Storage → ℕ → ℕ → Bytes → Bytes → Type 0
Slack s h id key value =
    (n : Node)
    → leaf_for (node_at s) h id key ≡ some n
    → page_content n + (6 + length key + length value) ≤ node_size

-- Where the new version of the node stands: in the same object, or in one with a fresh id.
pub data Place (s : Storage) (p id : ℕ) (t : Storage) (q id' : ℕ) : Type 0 where
  in_place : q ≡ p → id' ≡ id → Place s p id t q id'
  moved : (n : Node) → ¬ Taken s.node_pool id' → Points t p id n → Place s p id t q id'

-- An insertion without a split.
pub record Inserted (s : Storage) (h p id : ℕ) (key value : Bytes) (r : Run (ℕ × Bool))
    : Type 0 where
  pub q : ℕ
  pub id' : ℕ
  pub m : Node
  pub t : Storage
  pub run : r ≡ ok (q, false) t
  pub points : Points t q id' m
  pub taken : Taken t.node_pool id'
  pub where_to : Place s p id t q id'
  pub tree : IsTree t h id'
  pub update : Update key (2 * h) s t
  pub sized : Slack s h id key value → IsSized s → IsSized t
  pub map :
      (k : Bytes) → find (node_at t) h id' k ≡ changed key (some value) k (find (node_at s) h id k)

abbrev valued : Node → ℕ → Item → Bytes → Node
valued n i it value = record n { items = set n.items i (record it { value = value }) }

insert_leaf_found :
    (s : Storage) (p id i : ℕ) (n : Node) (key value : Bytes) (it : Item)
    → Points s p id n
    → find_key n key ≡ some i
    → get_elem? n.items i ≡ some it
    → put_node p (written s p (valued n i it value))
      ≡ ok tt
          (record (written s p (valued n i it value)) { dirty_nodes = add_dirty id s.dirty_nodes })
    → insert_leaf p key value s
      ≡ ok
          (p, false)
          (record (written s p (valued n i it value)) { dirty_nodes = add_dirty id s.dirty_nodes })
unfolding insert_leaf
insert_leaf_found s p id i n key value it pt f at put =
    ground (arith, load-Points s p id n pt, f, at, store-written s p (valued n i it value), put)

pub insert_leaf-update :
    (s : Storage) (h p id i : ℕ) (n : Node) (key value : Bytes) (it : Item)
    → IsStore s
    → Points s p id n
    → Taken s.node_pool id
    → n.id ≡ id
    → IsLeaf n
    → s.transaction ≡ true
    → find_key n key ≡ some i
    → get_elem? n.items i ≡ some it
    → it.key ≡ key
    → Inserted s (suc h) p id key value (insert_leaf p key value s)
insert_leaf-update s h p id i n key value it w pt u own l tr f at k = record {
  q = p;
  id' = id;
  m = m;
  t = t;
  run =
      insert_leaf_found s p id i n key value it pt f at
        (put_node-cached (written s p m) p id m (written-Points s p id n m w pt own) own tr);
  points = points;
  taken = u;
  where_to = in_place refl refl;
  tree = leaf m u (node_at-Points t p id m points) own kept;
  update =
      Update_mono key (0 + 0) (2 * suc h) s t (omega arith)
        (Update_trans key 0 0 s r t (Update_of_Grow key 0 s r marked) change);
  sized = λ sl z.
      let k = sl n (leaf_for-leaf (node_at s) h id key n (node_at-Points s p id n pt) l.type) in
      written-IsSized r p id n m marked.is pr own
        (λ x. FitsPage-valued n i it value at (omega (arith, k))) (IsSized-add_dirty s p id n pt z);
  map = λ x.
      find-leaf (node_at t) h id x m (node_at-Points t p id m points) l.type
      ∙ entries x
      ∙ ap (changed key (some value) x)
          (sym (find-leaf (node_at s) h id x n (node_at-Points s p id n pt) l.type));
}
  where
    m : Node
    m = valued n i it value

    -- The id is dirty whichever comes first.
    r : Storage
    r = record s { dirty_nodes = add_dirty id s.dirty_nodes }

    t : Storage
    t = written r p m

    marked : Grow 0 s r
    marked =
        Grow-dirty 0 s s (add_dirty id s.dirty_nodes) (λ j. has-add_dirty j id s.dirty_nodes)
          (Grow-refl s w)

    pr : Points r p id n
    pr = record { cached = pt.cached; holds = pt.holds }

    points : Points t p id m
    points = written-Points r p id n m marked.is pr own

    kept : IsLeaf m
    kept = record {
      type = l.type;
      parent = l.parent;
      sorted = set-IsSorted n.items i it (record it { value = value }) at refl l.sorted;
    }

    entries :
        (x : Bytes) → lookup_item m.items x ≡ changed key (some value) x (lookup_item n.items x)
    entries x =
        lookup_item-set n.items i it (record it { value = value }) x at refl l.sorted
        ∙ ap (λ b. changed b (some value) x (lookup_item n.items x)) k

    change : Update key 0 r t
    change = record {
      taken = λ j v. v;
      keeps = λ q j x v ty e.
          written-keeps r p id n m marked.is pr own q j x (λ eq. branch_is_not_leaf q j x ty e eq)
            e;
      trees = overwrite-trees r p id n m key (some value) marked.is pr l kept own entries;
      others = overwrite-others r p id n m key (some value) marked.is pr l kept own entries;
      next = omega arith;
      transaction = refl;
      root = refl;
      order = refl;
      is = written-IsStore r p id n m marked.is pr own;
      backed =
          written-Backed r p id n m marked.is pr own u (has-add_dirty_self id s.dirty_nodes)
            (λ k. valued-IsSound n i (record it { value = value }) k l.type);
    }
      where
        branch_is_not_leaf :
            (q j : ℕ) (x : Node) → x.node_type ≡ internal_node → Points r q j x → j ≡ id → ⊥
        branch_is_not_leaf q j x ty e eq =
            let there : node_at r j ≡ some n = ap (node_at r) eq ∙ node_at-Points r p id n pr in
            let here : node_at r j ≡ some x = node_at-Points r q j x e in
            let same : x ≡ n = cc in ground (arith, ap (λ (z : Node). z.node_type) same, l.type, ty)

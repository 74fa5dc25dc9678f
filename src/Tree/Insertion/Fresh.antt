-- ===== src/Tree/Insertion/Fresh.antt =====
-- The leaf case of `insert` on a key that the leaf does not hold, where the item fits.
use conuredb.Common.{
  ℕ, suc, ◌+◌, ◌*◌, ◌<◌, ◌^◌, ◌≡◌, ◌∙◌, refl, sym, ap, true, false, none, some, List, [], ◌∷◌,
  arith, le→ltb, length,
}
use conuredb.Common.Bytes.{Bytes}
use conuredb.Node.{Node, Item, leaf_node, find_key, add_item, count_up}
use conuredb.Node.Order.{
  lookup_item, place, insert_at-place, lookup_item-place, place-IsSorted, length-place,
}
use conuredb.Pool.Fresh.{Taken}
use conuredb.Storage.{Storage, ok, load, copy_of}
use conuredb.Storage.View.{node_at, IsStore, Points, load-Points, node_at-Points}
use conuredb.Storage.Objects.{Grow, Grow-mono, Cloned, clone_node-Cloned}
use conuredb.Storage.Objects.Written.{
  Grow-written, written, store-written, written-Points, written-IsSized,
}
use conuredb.Tree.{
  max_items, item_size, items_estimate, estimate_node_size, is_over, insert_leaf, insert_new_item,
}
use conuredb.Tree.Model.{leaf, IsLeaf, find-leaf, leaf_for-leaf}
use conuredb.Storage.Sized.{FitsPage-placed}
use conuredb.Tree.Branch.{changed}
use conuredb.Storage.Backed.{copy_of-leaf, placed-IsSound}
use conuredb.Tree.Insertion.{Update_of_Grow}
use conuredb.Tree.Insertion.Leaf.{Fits, Inserted, moved}

-- The leaf that a new item is written to.
abbrev pub extended : Node → ℕ → Item → Node
extended n id x = record {
  id = id;
  node_type = leaf_node;
  count = count_up n.count;
  parent = n.parent;
  items = place x n.items;
  children = [];
}

pub add_item-extended :
    (n : Node) (id : ℕ) (x : Item)
    → n.node_type ≡ leaf_node
    → add_item (copy_of n id) x ≡ extended n id x
unfolding add_item
add_item-extended n id x t =
    rw (copy_of-leaf n id t)
      (ap (λ its. record (extended n id x) { items = its }) (insert_at-place x n.items))

items_estimate-place :
    (x : Item) (its : List Item) → items_estimate (place x its) ≡ item_size x + items_estimate its
unfolding items_estimate place
items_estimate-place x [] = omega arith
items_estimate-place x (it ∷ its) = ground (arith, items_estimate-place x its)

-- The estimate of a clone with the item to come, and of the extended leaf, are the leaf's own.
estimate-copy_of :
    (n : Node) (id : ℕ) (x : Item)
    → n.node_type ≡ leaf_node
    → estimate_node_size (copy_of n id) (some x) false ≡ estimate_node_size n (some x) false
estimate-copy_of n id x t =
    rw (copy_of-leaf n id t) (unfold estimate_node_size in ground (arith, t))

estimate-extended :
    (n : Node) (id : ℕ) (x : Item)
    → n.node_type ≡ leaf_node
    → estimate_node_size (extended n id x) none false ≡ estimate_node_size n (some x) false
unfolding estimate_node_size
estimate-extended n id x t = ground (arith, t, items_estimate-place x n.items)

is_over-extended :
    (n : Node) (id : ℕ) (x : Item)
    → n.node_type ≡ leaf_node
    → Fits n x
    → is_over (extended n id x) ≡ false
unfolding is_over
is_over-extended n id x t f = rw (
  estimate-extended n id x t,
  le→ltb _ _ f.size,
  le→ltb max_items (length (place x n.items)) (omega (arith, length-place x n.items, f.room)),
)

insert_new_item-Fits :
    (s : Storage) (p : ℕ) (n : Node) (x : Item) (c : Cloned s p n)
    → n.node_type ≡ leaf_node
    → Fits n x
    → insert_new_item p x s ≡ ok (c.q, false) (written c.t c.q (extended n c.id x))
unfolding insert_new_item
insert_new_item-Fits s p n x c t f = ground (
  arith,
  c.run,
  load-Points c.t c.q c.id (copy_of n c.id) c.points,
  estimate-copy_of n c.id x t,
  le→ltb _ _ f.size,
  le→ltb max_items (length n.items + 1) f.room,
  copy_of-leaf n c.id t,
  add_item-extended n c.id x t,
  store-written c.t c.q (extended n c.id x),
  is_over-extended n c.id x t f,
  reload,
)
  where
    reload :
        load c.q (written c.t c.q (extended n c.id x))
        ≡ ok (extended n c.id x) (written c.t c.q (extended n c.id x))
    reload =
        load-Points (written c.t c.q (extended n c.id x)) c.q c.id (extended n c.id x)
          (written-Points c.t c.q c.id (copy_of n c.id) (extended n c.id x) c.grow.is c.points refl)

insert_leaf_absent :
    (s : Storage) (p : ℕ) (n : Node) (key value : Bytes)
    → load p s ≡ ok n s
    → find_key n key ≡ none
    → insert_leaf p key value s ≡ insert_new_item p (record { key = key; value = value }) s
unfolding insert_leaf
insert_leaf_absent s p n key value l f = ground (arith, l, f)

pub insert_leaf-new :
    (s : Storage) (h p id : ℕ) (n : Node) (key value : Bytes)
    → IsStore s
    → Points s p id n
    → IsLeaf n
    → Taken s.node_pool id
    → s.transaction ≡ true
    → s.node_pool.next_node_id + 2 * suc h < 2 ^ 64
    → find_key n key ≡ none
    → lookup_item n.items key ≡ none
    → Fits n (record { key = key; value = value })
    → Inserted s (suc h) p id key value (insert_leaf p key value s)
insert_leaf-new s h p id n key value w pt l u tr room f absent fits = record {
  q = c.q;
  id' = c.id;
  m = m;
  t = t;
  run =
      insert_leaf_absent s p n key value (load-Points s p id n pt) f
      ∙ insert_new_item-Fits s p n x c l.type fits;
  points = points;
  taken = c.taken;
  where_to = moved n c.fresh (grown.keeps p id n u pt);
  tree = leaf m c.taken (node_at-Points t c.q c.id m points) refl kept;
  update = Update_of_Grow key (2 * suc h) s t (Grow-mono 1 (2 * suc h) s t (omega arith) grown);
  sized = λ sl z.
      let k = sl n (leaf_for-leaf (node_at s) h id key n (node_at-Points s p id n pt) l.type) in
      written-IsSized c.t c.q c.id (copy_of n c.id) m c.grow.is c.points refl
        (λ y. FitsPage-placed n c.id (count_up n.count) n.parent x k) (c.sized z);
  map = λ k.
      find-leaf (node_at t) h c.id k m (node_at-Points t c.q c.id m points) refl
      ∙ lookup_item-place x n.items k
      ∙ ap (changed key (some value) k)
          (sym (find-leaf (node_at s) h id k n (node_at-Points s p id n pt) l.type));
}
  where
    x : Item
    x = record { key = key; value = value }

    c : Cloned s p n
    c = clone_node-Cloned s p id n w pt tr (omega arith)

    m : Node
    m = extended n c.id x

    t : Storage
    t = written c.t c.q m

    points : Points t c.q c.id m
    points = written-Points c.t c.q c.id (copy_of n c.id) m c.grow.is c.points refl

    grown : Grow 1 s t
    grown =
        Grow-written c.t c.q c.id (copy_of n c.id) m c.grow.is c.points refl s 1 c.grow c.fresh
          c.taken c.dirty (λ k. placed-IsSound n c.id k x l.type (omega (arith, fits.room)))

    kept : IsLeaf m
    kept = record {
      type = refl;
      parent = l.parent;
      sorted = place-IsSorted x n.items l.sorted absent;
    }

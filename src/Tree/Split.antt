-- ===== src/Tree/Split.antt =====
-- `splitLeaf` inside a transaction.
use conuredb.Common.{
  All-take, ℕ, zero, suc, ◌+◌, ◌/◌, ◌%◌, ◌<◌, ◌^◌, ◌≡◌, ◌≢◌, ◌∙◌, refl, sym, ap, true, List, [],
  ◌∷◌, ◌++◌, arith, length, take, drop, length-take, subst, min,
}
use conuredb.Common.Bytes.{Before}
use conuredb.Node.{Node, Item, leaf_node, count_of, new_leaf_node}
use conuredb.Node.Order.{IsSorted}
use conuredb.Pool.{allocate, has}
use conuredb.Storage.Backed.{has-add_dirty, has-add_dirty_self}
use conuredb.Pool.Fresh.{Taken, Allocated, allocate-Allocated}
use conuredb.Storage.{
  Storage, ok, load, store, new_object, cache, mark_dirty, allocate_id, put_node, add_dirty,
  update_self,
}
use conuredb.Storage.View.{
  IsStore, Points, id-Points, with_new, Points-with_new, with_new-keeps, with_new-live,
}
use conuredb.Storage.Objects.Written.{written, written-Points, written-keeps, written-IsStore}
use conuredb.Tree.{split_leaf, with_items}
use conuredb.Tree.Model.{IsLeaf}

take_append_drop {ℓ} : {A : Type ℓ} (k : ℕ) (xs : List A) → take k xs ++ drop k xs ≡ xs
take_append_drop zero xs = refl
take_append_drop (suc k) [] = refl
take_append_drop (suc k) (x ∷ xs) = ap (λ ys. x ∷ ys) (take_append_drop k xs)

take-IsSorted : (k : ℕ) (its : List Item) → IsSorted its → IsSorted (take k its)
take-IsSorted zero its s = tt
take-IsSorted (suc k) [] s = tt
take-IsSorted (suc k) (x ∷ its) s =
    (All-take (λ (y : Item). Before x.key y.key) k its s.0, take-IsSorted k its s.1)

drop-IsSorted : (k : ℕ) (its : List Item) → IsSorted its → IsSorted (drop k its)
drop-IsSorted zero its s = s
drop-IsSorted (suc k) [] s = tt
drop-IsSorted (suc k) (x ∷ its) s = drop-IsSorted k its s.1

-- The node that keeps its pointer and id, and the new one.
abbrev left_half : Node → Node
left_half n = with_items n (take (length n.items / 2) n.items)

abbrev right_half : Node → ℕ → Node
right_half n id = record {
  id = id;
  node_type = leaf_node;
  count = count_of (drop (length n.items / 2) n.items);
  parent = n.parent;
  items = drop (length n.items / 2) n.items;
  children = [];
}

-- A leaf split over the object it stood in and one with a fresh id.
pub record Halves (s : Storage) (p id : ℕ) (n : Node) : Type 0 where
  pub q : ℕ
  pub id' : ℕ
  pub left : Node
  pub right : Node
  pub t : Storage
  pub run : split_leaf p s ≡ ok (q, true) t
  pub kept : Points t p id left
  pub made : Points t q id' right
  pub fresh : ¬ Taken s.node_pool id'
  pub halves : left.items ++ right.items ≡ n.items
  pub half : length left.items ≡ length n.items / 2
  pub left_count : left.count ≡ length left.items % 2 ^ 16
  pub right_count : right.count ≡ length right.items % 2 ^ 16
  pub left_dirty : has id t.dirty_nodes ≡ true
  pub right_dirty : has id' t.dirty_nodes ≡ true
  pub left_leaf : IsLeaf left
  pub right_leaf : IsLeaf right
  pub is : IsStore t

split_leaf_steps :
    (s : Storage) (p id : ℕ) (n : Node)
    → Points s p id n
    → n.id ≡ id
    → p < s.next_ptr
    → s.transaction ≡ true
    → let id' = (allocate s.node_pool).0 in
      let r = record s { node_pool = (allocate s.node_pool).1 } in
      split_leaf p s
      ≡ ok
          (s.next_ptr, true)
          (record (written (with_new r id' (right_half n id')) p (left_half n)) {
            dirty_nodes = add_dirty id' (add_dirty id s.dirty_nodes);
          })
unfolding split_leaf allocate_id load new_object store put_node mark_dirty cache new_leaf_node
split_leaf_steps s p id n h own lt tr =
    ground (arith, h.holds, own, tr, update_self s.node_cache id p h.cached)

-- In a transaction, on a leaf that its cached pointer holds, `splitLeaf` returns a new pointer under
-- an id that was not in use. The old pointer and the new one hold sorted leaves, the old one with the
-- first half of the items (rounded down), and together they hold the items in order. Each counts its
-- items, in 16 bits, and both are dirty. The store stays well formed.
pub split_leaf-Halves :
    (s : Storage) (p id : ℕ) (n : Node)
    → IsStore s
    → Points s p id n
    → IsLeaf n
    → s.transaction ≡ true
    → s.node_pool.next_node_id + 1 < 2 ^ 64
    → Halves s p id n
split_leaf-Halves s p id n w h l tr room = record {
  q = s.next_ptr;
  id' = id';
  left = left_half n;
  right = right_half n id';
  t = record t { dirty_nodes = add_dirty id' (add_dirty id s.dirty_nodes) };
  run = split_leaf_steps s p id n h own (w.live id p h.cached).0 tr;
  kept = record {
    cached = (written-Points r' p id n (left_half n) there old own).cached;
    holds = (written-Points r' p id n (left_half n) there old own).holds;
  };
  made = record { cached = new.cached; holds = new.holds };
  fresh = a.fresh;
  halves = take_append_drop (length n.items / 2) n.items;
  half = length-take (length n.items / 2) n.items ∙ shorter (length n.items);
  left_count = refl;
  right_count = refl;
  left_dirty =
      has-add_dirty id id' (add_dirty id s.dirty_nodes) (has-add_dirty_self id s.dirty_nodes);
  right_dirty = has-add_dirty_self id' (add_dirty id s.dirty_nodes);
  left_leaf = record {
    type = l.type;
    parent = l.parent;
    sorted = take-IsSorted (length n.items / 2) n.items l.sorted;
  };
  right_leaf = record {
    type = refl;
    parent = l.parent;
    sorted = drop-IsSorted (length n.items / 2) n.items l.sorted;
  };
  is =
      let v = written-IsStore r' p id n (left_half n) there old own in
      record { live = v.live; pool = v.pool; reads = v.reads };
}
  where
    shorter : (k : ℕ) → min (k / 2) k ≡ k / 2
    shorter k = ground arith

    id' : ℕ
    id' = (allocate s.node_pool).0

    a : Allocated s.node_pool id' (allocate s.node_pool).1
    a = allocate-Allocated s.node_pool w.pool room

    own : n.id ≡ id
    own = id-Points s p id n w h

    r : Storage
    r = record s { node_pool = (allocate s.node_pool).1 }

    w' : IsStore r
    w' = record {
      live = λ j q e.
          let (lt, u, (m, holds, mine)) = w.live j q e in (lt, a.keeps j u, (m, holds, mine));
      pool = a.pool;
      reads = w.reads;
    }

    apart : id ≢ id'
    apart e = a.fresh (subst (Taken s.node_pool) e (w.live id p h.cached).1)

    r' : Storage
    r' = with_new r id' (right_half n id')

    old : Points r' p id n
    old =
        with_new-keeps r id' (right_half n id') w' p id n apart
          (record { cached = h.cached; holds = h.holds })

    there : IsStore r'
    there = record {
      live = with_new-live r id' (right_half n id') w' refl a.taken;
      pool = a.pool;
      reads = w.reads;
    }

    t : Storage
    t = written r' p (left_half n)

    new : Points t s.next_ptr id' (right_half n id')
    new =
        written-keeps r' p id n (left_half n) there old own s.next_ptr id' (right_half n id')
          (λ e. apart (sym e)) (Points-with_new r id' (right_half n id') w')

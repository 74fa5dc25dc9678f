-- ===== src/Tree/Insertion/Descent.antt =====
-- `insert` from the root down to the leaf and back up.
use conuredb.Common.{
  ℕ, zero, suc, ◌+◌, ◌*◌, ◌<◌, ◌^◌, ◌≡◌, ◌∙◌, sym, true, false, none, some, arith, Option-cases,
  inl, inr,
}
use conuredb.Common.Bytes.{Bytes}
use conuredb.Node.{Node, leaf_node, internal_node}
use conuredb.Node.Order.{lookup_item}
use conuredb.Node.Search.{find_key-Found}
use conuredb.Node.Search.Children.{Found-some, Found-none}
use conuredb.Storage.{Storage, ok, load, get_node}
use conuredb.Storage.View.{node_at, IsStore, Points, load-Points}
use conuredb.Storage.View.Fetch.{get_node-Got}
use conuredb.Storage.Objects.{Grow-of_Same}
use conuredb.Storage.Sized.{IsSized-Same}
use conuredb.Tree.{child_at, insert_leaf, replace_child, insert}
use conuredb.Tree.Model.{
  IsTree, leaf, branch, IsTree-Grow, leaf_for, leaf_for-leaf, leaf_for-branch, leaf_for-Grow,
  IsBranch-Child, IsTree-node_at,
}
use conuredb.Tree.Lookup.{child_at-Child, Points_at}
use conuredb.Tree.Insertion.Leaf.{Fits, Inserted, insert_leaf-update}
use conuredb.Tree.Insertion.Fresh.{insert_leaf-new}
use conuredb.Tree.Insertion.Path.{one_up}

insert-leaf :
    (h p : ℕ) (key value : Bytes) (s : Storage) (n : Node)
    → load p s ≡ ok n s
    → n.node_type ≡ leaf_node
    → insert (suc h) p key value s ≡ insert_leaf p key value s
unfolding insert
insert-leaf h p key value s n e t = ground (arith, e, t)

insert-branch :
    (h p : ℕ) (key value : Bytes) (s g t : Storage) (n : Node) (pos c q r : ℕ)
    → load p s ≡ ok n s
    → n.node_type ≡ internal_node
    → child_at n key s ≡ ok (pos, c) s
    → get_node c s ≡ ok q g
    → insert h q key value g ≡ ok (r, false) t
    → insert (suc h) p key value s ≡ replace_child p pos q r t
unfolding insert
insert-branch h p key value s g t n pos c q r e ty at got ins = ground (arith, e, ty, at, got, ins)

-- The leaf that the key belongs to holds the key, or has room for it.
abbrev pub HasRoom : Storage → ℕ → ℕ → Bytes → Bytes → Type 0
HasRoom s h id key value =
    (n : Node)
    → leaf_for (node_at s) h id key ≡ some n
    → lookup_item n.items key ≡ none
    → Fits n (record { key = key; value = value })

-- In a transaction on a well-formed store with ids left for 2 per level, `insert` through a cached
-- pointer to the root of a tree of height at most the fuel, where the leaf for the key holds the key
-- or has room for the item, returns no split and a pointer to a node that roots a tree of the same
-- height with the value at the key and the old entries elsewhere. Any other tree in use stays a tree
-- and keeps its entries at every other key, the root id stays, and at most 2 ids per level are used.
pub insert-Inserted :
    (h : ℕ) {s : Storage} {id : ℕ} (key value : Bytes) (p : ℕ) (n : Node)
    → IsStore s
    → Points s p id n
    → IsTree s h id
    → s.transaction ≡ true
    → s.node_pool.next_node_id + 2 * h < 2 ^ 64
    → HasRoom s h id key value
    → Inserted s h p id key value (insert h p key value s)
insert-Inserted zero key value p n w pt d tr room fits = elim d [ ]
insert-Inserted (suc h) {s} {id} key value p n w pt (leaf m u e o l) tr room fits =
    let pm : Points s p id m = Points_at s p id n m pt e in
    rw (insert-leaf h p key value s m (load-Points s p id m pm) l.type)
      (elim (Option-cases (lookup_item m.items key)) [
        | inr (v, held) ↦
            let (i, it, found, at, k) = Found-some v (find_key-Found m key l.sorted) held in
            insert_leaf-update s h p id i m key value it w pm u o l tr found at k
        | inl absent ↦
            insert_leaf-new s h p id m key value w pm l u tr room
              (Found-none (find_key-Found m key l.sorted) absent) absent
              (fits m (leaf_for-leaf (node_at s) h id key m e l.type) absent)
      ])
insert-Inserted (suc h) {s} {id} key value p n w pt (branch m u e o b kids) tr room fits =
    let c = IsBranch-Child m key b in
    let kid = kids c.pos c.id c.at in
    let (taken, (k, ke, ko)) = IsTree-node_at kid in
    let g = get_node-Got s c.id k w ke ko taken in
    let sg = Grow-of_Same s g.t g.same g.is in
    let pm : Points s p id m = Points_at s p id n m pt e in
    let r =
      insert-Inserted h key value g.p k g.is g.points (IsTree-Grow sg kid) (sg.transaction ∙ tr)
        (omega (arith, sg.next))
        (λ x at none_there.
          fits x
            (leaf_for-branch (node_at s) h id key m c.pos c.id e b.type c.found c.at
              ∙ sym (leaf_for-Grow key sg kid)
              ∙ at)
            none_there) in
    rw
      (insert-branch h p key value s g.t r.t m c.pos c.id g.p r.q (load-Points s p id m pm) b.type
        (child_at-Child m key s c) g.run r.run)
      (one_up s g.t h p id g.p m key value c w pm u b kids sg tr room taken
        (insert h g.p key value g.t) r (IsSized-Same s g.t g.same)
        (λ sl x at. sl x (
          leaf_for-branch (node_at s) h id key m c.pos c.id e b.type c.found c.at
          ∙ sym (leaf_for-Grow key sg kid)
          ∙ at))
        r.where_to)

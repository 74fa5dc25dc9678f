-- ===== src/Tree/RebalanceLeaf.antt =====
-- `rebalanceLeaf` of btree/btree.go: borrow from the left sibling, else from the right one, else
-- merge. A step that falls through in the source calls the next one here.
use conuredb.Common.{
  ℕ, suc, ◌+◌, ◌-◌, Option, none, some, List, [], ◌∷◌, ◌++◌, ltb, ◌==◌, if◌then◌else◌, length, set,
}
use conuredb.Common.Bytes.{Bytes}
use conuredb.Node.{add_item, remove_item, remove_child}
use conuredb.Storage.{
  M, invalid_position, not_in_parent, ◌>>=◌, ◌>>◌, pure, index, check, load, store, get_node,
  put_node, clone_node, delete_node,
}
use conuredb.Tree.{min_items, with_items}

-- The loop that looks for the node among its parent's children.
unfoldable pub position_of : ℕ → List ℕ → Option ℕ
position_of id [] = none
position_of id (c ∷ cs) =
    let later = position_of id cs in
    if c == id then some 0 else elim later [ none ↦ none | some i ↦ some (suc i) ]

-- `parent.items[i].Key = key`; out of range it panics.
unfoldable pub set_item_key : ℕ → ℕ → Bytes → M (Unit {0})
set_item_key p i key = do
  n ← load p
  it ← index n.items i
  store p (record n { items = set n.items i (record it { key = key }) })

-- `RemoveItem` and `RemoveChild` through a pointer.
unfoldable pub drop_item : ℕ → ℕ → M (Unit {0})
drop_item p i = do n ← load p; n' ← check invalid_position (remove_item n i); store p n'

unfoldable pub drop_child : ℕ → ℕ → M (Unit {0})
drop_child p i = do n ← load p; n' ← check invalid_position (remove_child n i); store p n'

-- Item `pos - 1` of the parent is the separator before the node.
unfoldable pub leaf_borrow_left : ℕ → ℕ → ℕ → ℕ → M ℕ
leaf_borrow_left p parent left pos = do
  node_copy ← clone_node p
  left_copy ← clone_node left
  parent_copy ← clone_node parent
  l ← load left_copy
  item ← index l.items (l.count - 1)
  n ← load node_copy
  store node_copy (add_item n item)
  drop_item left_copy (l.count - 1)
  n ← load node_copy
  first ← index n.items 0
  set_item_key parent_copy (pos - 1) first.key
  put_node node_copy
  put_node left_copy
  put_node parent_copy
  pure parent_copy

unfoldable pub leaf_borrow_right : ℕ → ℕ → ℕ → ℕ → M ℕ
leaf_borrow_right p parent right pos = do
  node_copy ← clone_node p
  right_copy ← clone_node right
  parent_copy ← clone_node parent
  r ← load right_copy
  item ← index r.items 0
  n ← load node_copy
  store node_copy (add_item n item)
  drop_item right_copy 0
  r ← load right_copy
  first ← index r.items 0
  set_item_key parent_copy pos first.key
  put_node node_copy
  put_node right_copy
  put_node parent_copy
  pure parent_copy

unfoldable pub leaf_merge_left : ℕ → ℕ → ℕ → M ℕ
leaf_merge_left p parent pos = do
  par ← load parent
  left_id ← index par.children (pos - 1)
  left ← get_node left_id
  left_copy ← clone_node left
  l ← load left_copy
  n ← load p
  store left_copy (with_items l (l.items ++ n.items))
  parent_copy ← clone_node parent
  drop_item parent_copy (pos - 1)
  drop_child parent_copy pos
  put_node left_copy
  put_node parent_copy
  delete_node n.id
  pure parent_copy

unfoldable pub leaf_merge_right : ℕ → ℕ → ℕ → M ℕ
leaf_merge_right p parent pos = do
  par ← load parent
  right_id ← index par.children (pos + 1)
  right ← get_node right_id
  node_copy ← clone_node p
  n ← load node_copy
  r ← load right
  store node_copy (with_items n (n.items ++ r.items))
  parent_copy ← clone_node parent
  drop_item parent_copy pos
  drop_child parent_copy (pos + 1)
  put_node node_copy
  put_node parent_copy
  delete_node r.id
  pure parent_copy

unfoldable pub leaf_merge : ℕ → ℕ → ℕ → M ℕ
leaf_merge p parent pos =
    if ltb 0 pos then leaf_merge_left p parent pos else leaf_merge_right p parent pos

unfoldable pub leaf_try_right : ℕ → ℕ → ℕ → M ℕ
leaf_try_right p parent pos = do
  par ← load parent
  if ltb (pos + 1) (length par.children)
      then (do
        right_id ← index par.children (pos + 1)
        right ← get_node right_id
        r ← load right
        if ltb min_items r.count
            then leaf_borrow_right p parent right pos
            else leaf_merge p parent pos)
      else leaf_merge p parent pos

unfoldable pub leaf_try_left : ℕ → ℕ → ℕ → M ℕ
leaf_try_left p parent pos = do
  par ← load parent
  if ltb 0 pos
      then (do
        left_id ← index par.children (pos - 1)
        left ← get_node left_id
        l ← load left
        if ltb min_items l.count
            then leaf_borrow_left p parent left pos
            else leaf_try_right p parent pos)
      else leaf_try_right p parent pos

unfoldable pub rebalance_leaf : ℕ → ℕ → M ℕ
rebalance_leaf p parent = do
  n ← load p
  par ← load parent
  pos ← check not_in_parent (position_of n.id par.children)
  leaf_try_left p parent pos

-- ===== src/Tree/RebalanceInternal.antt =====
-- `rebalanceInternal` of btree/btree.go, in the same order: left sibling, right sibling, merge. A
-- parent that is the root and has lost its last item gives way to the merged node.
use conuredb.Common.{ℕ, ◌+◌, ◌-◌, ◌&&◌, [], ◌∷◌, ◌++◌, ltb, ◌==◌, if◌then◌else◌, length, take, drop}
use conuredb.Storage.{
  M, ok, not_in_parent, ◌>>=◌, ◌>>◌, pure, index, check, load, store, get_node, put_node,
  clone_node, delete_node,
}
use conuredb.Storage.Transaction.{set_root_node}
use conuredb.Tree.{min_items, with_items, separator, set_parent_of, set_parents_of}
use conuredb.Tree.RebalanceLeaf.{position_of, set_item_key, drop_item, drop_child}

unfoldable pub internal_borrow_left : ℕ → ℕ → ℕ → ℕ → M ℕ
internal_borrow_left p parent left pos = do
  node_copy ← clone_node p
  left_copy ← clone_node left
  parent_copy ← clone_node parent
  par ← load parent_copy
  down ← index par.items (pos - 1)
  n ← load node_copy
  store node_copy (with_items n (separator down.key ∷ n.items))
  l ← load left_copy
  up ← index l.items (l.count - 1)
  set_item_key parent_copy (pos - 1) up.key
  drop_item left_copy (l.count - 1)
  l ← load left_copy
  moved ← index l.children (length l.children - 1)
  n ← load node_copy
  store node_copy (record n { children = moved ∷ n.children })
  store left_copy (record l { children = take (length l.children - 1) l.children })
  set_parent_of moved n.id
  put_node node_copy
  put_node left_copy
  put_node parent_copy
  pure parent_copy

unfoldable pub internal_borrow_right : ℕ → ℕ → ℕ → ℕ → M ℕ
internal_borrow_right p parent right pos = do
  node_copy ← clone_node p
  right_copy ← clone_node right
  parent_copy ← clone_node parent
  par ← load parent_copy
  down ← index par.items pos
  n ← load node_copy
  store node_copy (with_items n (n.items ++ (separator down.key ∷ [])))
  r ← load right_copy
  up ← index r.items 0
  set_item_key parent_copy pos up.key
  drop_item right_copy 0
  r ← load right_copy
  moved ← index r.children 0
  n ← load node_copy
  store node_copy (record n { children = n.children ++ (moved ∷ []) })
  store right_copy (record r { children = drop 1 r.children })
  set_parent_of moved n.id
  put_node node_copy
  put_node right_copy
  put_node parent_copy
  pure parent_copy

-- The end of both merges: the merged node replaces a root without items.
unfoldable pub shrink_root : ℕ → ℕ → M ℕ
shrink_root merged parent_copy = do
  par ← load parent_copy
  λ s.
      if (par.id == s.root_node_id) && (par.count == 0)
      then (do set_root_node merged; delete_node par.id; pure merged) s
      else ok parent_copy s

unfoldable pub internal_merge_left : ℕ → ℕ → ℕ → M ℕ
internal_merge_left p parent pos = do
  old ← load parent
  left_id ← index old.children (pos - 1)
  left ← get_node left_id
  left_copy ← clone_node left
  parent_copy ← clone_node parent
  par ← load parent_copy
  down ← index par.items (pos - 1)
  l ← load left_copy
  n ← load p
  let merged = with_items l (l.items ++ (separator down.key ∷ n.items))
  store left_copy (record merged { children = l.children ++ n.children })
  set_parents_of n.children l.id
  drop_item parent_copy (pos - 1)
  drop_child parent_copy pos
  put_node left_copy
  put_node parent_copy
  delete_node n.id
  shrink_root left_copy parent_copy

unfoldable pub internal_merge_right : ℕ → ℕ → ℕ → M ℕ
internal_merge_right p parent pos = do
  old ← load parent
  right_id ← index old.children (pos + 1)
  right ← get_node right_id
  node_copy ← clone_node p
  parent_copy ← clone_node parent
  par ← load parent_copy
  down ← index par.items pos
  n ← load node_copy
  r ← load right
  let merged = with_items n (n.items ++ (separator down.key ∷ r.items))
  store node_copy (record merged { children = n.children ++ r.children })
  set_parents_of r.children n.id
  drop_item parent_copy pos
  drop_child parent_copy (pos + 1)
  put_node node_copy
  put_node parent_copy
  delete_node r.id
  shrink_root node_copy parent_copy

unfoldable pub internal_merge : ℕ → ℕ → ℕ → M ℕ
internal_merge p parent pos =
    if ltb 0 pos then internal_merge_left p parent pos else internal_merge_right p parent pos

unfoldable pub internal_try_right : ℕ → ℕ → ℕ → M ℕ
internal_try_right p parent pos = do
  par ← load parent
  if ltb (pos + 1) (length par.children)
      then (do
        right_id ← index par.children (pos + 1)
        right ← get_node right_id
        r ← load right
        if ltb min_items r.count
            then internal_borrow_right p parent right pos
            else internal_merge p parent pos)
      else internal_merge p parent pos

unfoldable pub internal_try_left : ℕ → ℕ → ℕ → M ℕ
internal_try_left p parent pos = do
  par ← load parent
  if ltb 0 pos
      then (do
        left_id ← index par.children (pos - 1)
        left ← get_node left_id
        l ← load left
        if ltb min_items l.count
            then internal_borrow_left p parent left pos
            else internal_try_right p parent pos)
      else internal_try_right p parent pos

unfoldable pub rebalance_internal : ℕ → ℕ → M ℕ
rebalance_internal p parent = do
  n ← load p
  par ← load parent
  pos ← check not_in_parent (position_of n.id par.children)
  internal_try_left p parent pos

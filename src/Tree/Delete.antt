-- ===== src/Tree/Delete.antt =====
-- btree/btree.go: deletion. The recursion takes fuel, as insertion does.
use conuredb.Common.{
  ℕ, zero, suc, Bool, true, false, ◌&&◌, not, ltb, ◌==◌, if◌then◌else◌, length, set,
}
use conuredb.Common.Bytes.{Bytes}
use conuredb.Node.{Node, max_key_size, leaf_node, remove_item, find_key}
use conuredb.Storage.{
  M, ok, err, fault, stuck, key_not_found, key_too_large, invalid_position, ◌>>=◌, ◌>>◌, pure,
  check, load, store, get_node, get_root_node, clone_node,
}
use conuredb.Storage.Transaction.{begin_transaction, commit_transaction}
use conuredb.Tree.{min_items, child_at}
use conuredb.Tree.Put.{change_root, or_abort}
use conuredb.Tree.RebalanceLeaf.{rebalance_leaf}
use conuredb.Tree.RebalanceInternal.{rebalance_internal}

-- `count < MinItems && parent != 0`.
abbrev pub is_under : Node → Bool
is_under n = ltb n.count min_items && not (n.parent == 0)

unfoldable pub delete_leaf : ℕ → Bytes → M ℕ
delete_leaf p key = do
  n ← load p
  pos ← check key_not_found (find_key n key)
  q ← clone_node p
  copy ← load q
  shorter ← check invalid_position (remove_item copy pos)
  store q shorter
  if is_under shorter
      then (do parent ← get_node shorter.parent; rebalance_leaf q parent)
      else pure q

-- `delete` on an internal node after the recursive call.
unfoldable pub relink : ℕ → ℕ → ℕ → M ℕ
relink p pos new_child = do
  q ← clone_node p
  copy ← load q
  child ← load new_child
  store q (record copy { children = set copy.children pos child.id })
  if is_under child then rebalance_internal new_child q else pure q

unfoldable pub delete_node_key : ℕ → ℕ → Bytes → M ℕ
delete_node_key zero p key s = stuck
delete_node_key (suc fuel) p key s = elim (load p s) [
  | ok n s' ↦ elim (n.node_type == leaf_node) [
    | true ↦ delete_leaf p key s'
    | false ↦
        (do
          (pos, id) ← child_at n key
          child ← get_node id
          new_child ← delete_node_key fuel child key
          relink p pos new_child)
          s'
  ]
  | err e s' ↦ err e s'
  | fault ↦ fault
  | stuck ↦ stuck
]

unfoldable pub delete_root : ℕ → Bytes → M (Unit {0})
delete_root fuel key = do
  root ← get_root_node
  new_root ← delete_node_key fuel root key
  change_root root new_root

unfoldable pub delete : ℕ → Bytes → M (Unit {0})
delete fuel key s =
    if ltb max_key_size (length key)
    then err key_too_large s
    else (do begin_transaction; or_abort (delete_root fuel key); commit_transaction) s

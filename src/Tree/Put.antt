-- ===== src/Tree/Put.antt =====
-- `Put` of btree/btree.go: the root and the transaction around `insert`.
use conuredb.Common.{ℕ, ltb, ◌==◌, if◌then◌else◌, length}
use conuredb.Common.Bytes.{Bytes}
use conuredb.Node.{max_key_size, max_value_size, new_internal_node, add_item, add_child}
use conuredb.Storage.{
  M, ok, err, fault, stuck, key_too_large, value_too_large, invalid_position, ◌>>=◌, ◌>>◌, pure,
  index, check, load, new_object, allocate_id, get_root_node,
}
use conuredb.Storage.Transaction.{
  begin_transaction, commit_transaction, abort_transaction, set_root_node,
}
use conuredb.Tree.{set_parent_of, separator, insert}

-- A new root over the old root and the node that `insert` returned.
unfoldable pub grow_root : ℕ → ℕ → M (Unit {0})
grow_root root sibling = do
  id ← allocate_id
  old ← load root
  new ← load sibling
  with_left ← check invalid_position (add_child (new_internal_node id) 0 old.id)
  with_right ← check invalid_position (add_child with_left 1 new.id)
  first ← index new.items 0
  r ← new_object (add_item with_right (separator first.key))
  set_parent_of old.id id
  set_parent_of new.id id
  set_root_node r

unfoldable pub change_root : ℕ → ℕ → M (Unit {0})
change_root root new_root = do
  old ← load root
  new ← load new_root
  if new.id == old.id then pure tt else set_root_node new_root

unfoldable pub put_root : ℕ → Bytes → Bytes → M (Unit {0})
put_root fuel key value = do
  root ← get_root_node
  (new_root, split) ← insert fuel root key value
  if split then grow_root root new_root else change_root root new_root

-- `abortTransaction` on every error behind `BeginTransaction`.
abbrev pub or_abort : {A : Type 0} → M A → M A
or_abort m s = elim (m s) [
  | ok a s' ↦ ok a s'
  | err e s' ↦ err e (abort_transaction s')
  | fault ↦ fault
  | stuck ↦ stuck
]

unfoldable pub put : ℕ → Bytes → Bytes → M (Unit {0})
put fuel key value s =
    if ltb max_key_size (length key)
    then err key_too_large s
    else (if ltb max_value_size (length value)
        then err value_too_large s
        else (do begin_transaction; or_abort (put_root fuel key value); commit_transaction) s)

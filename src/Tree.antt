-- ===== src/Tree.antt =====
-- btree/btree.go: lookup and insertion. A `*Node` is a pointer, `(*Node, bool, error)` is a run
-- that returns the pointer and the Boolean. The recursion down the tree takes fuel; the height of
-- the tree is enough.
pub mod Model
pub mod Lookup
pub mod Branch
pub mod Removal
pub mod Insertion
pub mod RebalanceLeaf
pub mod RebalanceInternal
pub mod Delete
pub mod Outcome
pub mod Write
pub mod Guards
pub mod Estimate
pub mod Split
pub mod Opened
pub mod Put
use conuredb.Common.{
  ℕ, zero, suc, ◌+◌, ◌-◌, ◌*◌, ◌/◌, Ordering, Bool, true, false, ◌||◌, Option, none, some, List, [],
  ◌∷◌, ◌++◌, ltb, ◌==◌, if◌then◌else◌, length, get_elem?, set, take, drop,
}
use conuredb.Common.Bytes.{Bytes, compare_bytes, equal_bytes}
use conuredb.Node.{
  Item, Node, node_size, node_header_size, max_key_size, max_value_size, leaf_node, internal_node,
  new_leaf_node, new_internal_node, set_parent, count_of, add_item, add_child, find_key,
  find_child_pos,
}
use conuredb.Storage.{
  Storage, M, Run, ok, err, fault, stuck, Error, key_not_found, key_too_large, value_too_large,
  invalid_position, ◌>>=◌, ◌>>◌, pure, throw, panic, index, check, load, store, new_object,
  allocate_id, get_node, get_root_node, put_node, clone_node,
}
use conuredb.Storage.Transaction.{
  begin_transaction, commit_transaction, abort_transaction, set_root_node,
}

abbrev pub max_items : ℕ
max_items = 255

abbrev pub min_items : ℕ
min_items = max_items / 2

-- `for _, item := range node.items { if bytes.Equal(item.Key, key) … }`.
unfoldable pub search_leaf : List Item → Bytes → M Bytes
search_leaf [] key = throw key_not_found
search_leaf (it ∷ its) key = if equal_bytes it.key key then pure it.value else search_leaf its key

-- `node.children[node.FindChildPos(key)]`; the position -1 panics as any index out of range does.
unfoldable pub child_at : Node → Bytes → M (ℕ × ℕ)
child_at n key s = elim (find_child_pos n key) [
  | none ↦ fault
  | some pos ↦ (do child ← index n.children pos; pure (pos, child)) s
]

unfoldable pub search_tree : ℕ → ℕ → Bytes → M Bytes
search_tree zero p key s = stuck
search_tree (suc fuel) p key s = elim (load p s) [
  | ok n s' ↦ elim (n.node_type == leaf_node) [
    | true ↦ search_leaf n.items key s'
    | false ↦ (do (pos, id) ← child_at n key; child ← get_node id; search_tree fuel child key) s'
  ]
  | err e s' ↦ err e s'
  | fault ↦ fault
  | stuck ↦ stuck
]

unfoldable pub get : ℕ → Bytes → M Bytes
get fuel key s =
    if ltb max_key_size (length key)
    then err key_too_large s
    else (do root ← get_root_node; search_tree fuel root key) s

unfoldable pub item_size : Item → ℕ
item_size it = 2 + length it.key + 4 + length it.value

unfoldable pub items_estimate : List Item → ℕ
items_estimate [] = 0
items_estimate (it ∷ its) = item_size it + items_estimate its

abbrev pub extra_item : Option Item → ℕ
extra_item none = 0
extra_item (some it) = item_size it

-- `estimateNodeSize`; the Boolean is `withNewChild >= 0`.
unfoldable pub estimate_node_size : Node → Option Item → Bool → ℕ
estimate_node_size n with_item with_new_child =
    node_header_size
    + items_estimate n.items
    + extra_item with_item
    + (if n.node_type == internal_node
        then 8 * (length n.children + (if with_new_child then 1 else 0))
        else 0)

-- `setParent`: the parent is written to a fresh clone of the child.
unfoldable pub set_parent_of : ℕ → ℕ → M (Unit {0})
set_parent_of child_id parent_id = do
  child ← get_node child_id
  copy ← clone_node child
  n ← load copy
  store copy (set_parent n parent_id)
  put_node copy

unfoldable pub set_parents_of : List ℕ → ℕ → M (Unit {0})
set_parents_of [] parent_id = pure tt
set_parents_of (c ∷ cs) parent_id = set_parent_of c parent_id >> set_parents_of cs parent_id

abbrev pub with_items : Node → List Item → Node
with_items n its = record n { items = its; count = count_of its }

unfoldable pub split_leaf : ℕ → M (ℕ × Bool)
split_leaf p = do
  id ← allocate_id
  n ← load p
  let mid = length n.items / 2
  q ← new_object (record (with_items (new_leaf_node id) (drop mid n.items)) { parent = n.parent })
  store p (with_items n (take mid n.items))
  put_node p
  put_node q
  pure (q, true)

-- `children[mid+1:]` panics if there are fewer children.
abbrev pub require : Bool → M (Unit {0})
require true = pure tt
require false = panic

-- The new node gets the split item back at its front after both nodes are saved; it is the object
-- in the cache, so that is what a later commit writes.
unfoldable pub split_internal : ℕ → M (ℕ × Bool)
split_internal p = do
  id ← allocate_id
  n ← load p
  let mid = length n.items / 2
  split_item ← index n.items mid
  require (ltb mid (length n.children))
  let right = record (with_items (new_internal_node id) (drop (mid + 1) n.items)) {
    children = drop (mid + 1) n.children;
  }
  q ← new_object right
  store p (record (with_items n (take mid n.items)) { children = take (mid + 1) n.children })
  set_parents_of right.children id
  put_node p
  put_node q
  store q (with_items right (split_item ∷ right.items))
  pure (q, true)

abbrev pub separator : Bytes → Item
separator key = record { key = key; value = [] }

-- The leaf case of `insert`, once the key is known to be absent and the node has been cloned:
-- split first if the item would not fit.
unfoldable pub insert_full_leaf : ℕ → Item → M (ℕ × Bool)
insert_full_leaf q candidate = do
  (sibling, _) ← split_leaf q
  sib ← load sibling
  first ← index sib.items 0
  left ← load q
  elim (compare_bytes candidate.key first.key) [
    | Ordering.lt ↦ do store q (add_item left candidate); put_node q; pure (sibling, true)
    | _ ↦ do store sibling (add_item sib candidate); put_node sibling; pure (sibling, true)
  ]

unfoldable pub is_over : Node → Bool
is_over n = ltb max_items (length n.items) || ltb node_size (estimate_node_size n none false)

unfoldable pub insert_new_item : ℕ → Item → M (ℕ × Bool)
insert_new_item p candidate = do
  q ← clone_node p
  n ← load q
  if ltb node_size (estimate_node_size n (some candidate) false)
        || ltb max_items (length n.items + 1)
      then insert_full_leaf q candidate
      else do
        store q (add_item n candidate)
        n ← load q
        if is_over n then split_leaf q else pure (q, false)

-- `node.items[pos].Value = value`.
abbrev pub set_value : List Item → ℕ → Bytes → List Item
set_value its pos value = elim (get_elem? its pos) [
  | none ↦ its
  | some it ↦ set its pos (record it { value = value })
]

unfoldable pub insert_leaf : ℕ → Bytes → Bytes → M (ℕ × Bool)
insert_leaf p key value = do
  n ← load p
  elim (find_key n key) [
    | some pos ↦ do
      store p (record n { items = set_value n.items pos value })
      put_node p
      pure (p, false)
    | none ↦ insert_new_item p (record { key = key; value = value })
  ]

-- `insert` on an internal node after the recursive call, without a split in the child.
unfoldable pub replace_child : ℕ → ℕ → ℕ → ℕ → M (ℕ × Bool)
replace_child p pos child new_child = do
  c ← load child
  n ← load new_child
  if n.id == c.id then pure (p, false) else do
    q ← clone_node p
    copy ← load q
    store q (record copy { children = set copy.children pos n.id })
    set_parent_of n.id copy.id
    pure (q, false)

-- And with a split in the child. If the separator does not fit, the node is split and the new
-- child is left out, as in the source.
unfoldable pub add_split_child : ℕ → ℕ → ℕ → M (ℕ × Bool)
add_split_child p pos new_child = do
  q ← clone_node p
  copy ← load q
  c ← load new_child
  first ← index c.items 0
  let item = separator first.key
  if ltb node_size (estimate_node_size copy (some item) true)
        || ltb max_items (length copy.items + 1)
      then split_internal q
      else do
        store q (add_item copy item)
        grown ← check invalid_position (add_child (add_item copy item) (pos + 1) c.id)
        store q grown
        set_parent_of c.id grown.id
        n ← load q
        if is_over n then split_internal q else pure (q, false)

unfoldable pub insert : ℕ → ℕ → Bytes → Bytes → M (ℕ × Bool)
insert zero p key value s = stuck
insert (suc fuel) p key value s = elim (load p s) [
  | ok n s' ↦ elim (n.node_type == leaf_node) [
    | true ↦ insert_leaf p key value s'
    | false ↦
        (do
          (pos, id) ← child_at n key
          child ← get_node id
          (new_child, split) ← insert fuel child key value
          if split then add_split_child p pos new_child else replace_child p pos child new_child)
          s'
  ]
  | err e s' ↦ err e s'
  | fault ↦ fault
  | stuck ↦ stuck
]

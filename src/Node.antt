-- ===== src/Node.antt =====
-- btree/node.go: the node of the B-tree, its item and child lists, and the two binary searches.
-- A `NodeType` is the number that the source's uint8 holds, since a page may hold any byte there.
-- Go's error result is `none` where the code returns one of its anonymous errors; a search that
-- returns the int -1 returns `none` too. `count` is a uint16, so `++` and `--` wrap.
pub mod Order
pub mod Search
pub mod Codec
pub mod Layout
pub mod RoundTrip
pub mod Items
pub mod Sound
use conuredb.Common.{
  ℕ, zero, suc, ◌+◌, ◌-◌, ◌*◌, ◌/◌, ◌%◌, ◌^◌, Ordering, Bool, true, false, ◌||◌, Option, none, some,
  List, [], ◌∷◌, ◌++◌, ltb, leb, ◌==◌, if◌then◌else◌, length, get_elem?, take, drop,
}
use conuredb.Common.Bytes.{Bytes, compare_bytes}

abbrev pub node_size : ℕ
node_size = 4096

abbrev pub max_key_size : ℕ
max_key_size = 128

abbrev pub max_value_size : ℕ
max_value_size = 1024

abbrev pub node_header_size : ℕ
node_header_size = 16

abbrev pub leaf_node : ℕ
leaf_node = 0

abbrev pub internal_node : ℕ
internal_node = 1

pub record Item : Type 0 where
  pub key : Bytes
  pub value : Bytes

pub record Node : Type 0 where
  pub id : ℕ
  pub node_type : ℕ
  pub count : ℕ
  pub parent : ℕ
  pub items : List Item
  pub children : List ℕ

unfoldable pub new_leaf_node : ℕ → Node
new_leaf_node id = record {
  id = id;
  node_type = leaf_node;
  count = 0;
  parent = 0;
  items = [];
  children = [];
}

unfoldable pub new_internal_node : ℕ → Node
new_internal_node id = record {
  id = id;
  node_type = internal_node;
  count = 0;
  parent = 0;
  items = [];
  children = [];
}

unfoldable pub set_parent : Node → ℕ → Node
set_parent n parent = record n { parent = parent }

-- `n.count++` and `n.count--` on a uint16.
abbrev pub count_up : ℕ → ℕ
count_up c = (c + 1) % 2 ^ 16

abbrev pub count_down : ℕ → ℕ
count_down c = (c + (2 ^ 16 - 1)) % 2 ^ 16

-- `uint16(len(xs))`.
abbrev pub count_of : List Item → ℕ
count_of xs = length xs % 2 ^ 16

-- The first position whose key is not below `key`: the scan of `AddItem`.
unfoldable pub scan_pos : List Item → Bytes → ℕ
scan_pos [] key = 0
scan_pos (it ∷ its) key = elim (compare_bytes it.key key) [
  | Ordering.lt ↦ suc (scan_pos its key)
  | _ ↦ 0
]

-- `append(xs[:pos+1], xs[pos:]...)` followed by `xs[pos] = x`, and the plain append at the end.
abbrev pub insert_at {ℓ} : {A : Type ℓ} → List A → ℕ → A → List A
insert_at xs pos x = take pos xs ++ (x ∷ drop pos xs)

-- `append(xs[:pos], xs[pos+1:]...)`.
abbrev pub remove_at {ℓ} : {A : Type ℓ} → List A → ℕ → List A
remove_at xs pos = take pos xs ++ drop (suc pos) xs

unfoldable pub add_item : Node → Item → Node
add_item n item = record n {
  items = insert_at n.items (scan_pos n.items item.key) item;
  count = count_up n.count;
}

unfoldable pub add_child : Node → ℕ → ℕ → Option Node
add_child n pos child =
    if n.node_type == internal_node
    then (if leb pos (length n.children)
        then some (record n { children = insert_at n.children pos child })
        else none)
    else none

unfoldable pub remove_item : Node → ℕ → Option Node
remove_item n pos =
    if ltb pos (length n.items)
    then some (record n { items = remove_at n.items pos; count = count_down n.count })
    else none

unfoldable pub remove_child : Node → ℕ → Option Node
remove_child n pos =
    if n.node_type == internal_node
    then (if ltb pos (length n.children)
        then some (record n { children = remove_at n.children pos })
        else none)
    else none

-- The loop of `FindKey`. `stop` is the source's `high + 1`, which is never negative: the loop
-- runs while `low < stop`, `high = mid - 1` is `stop = mid`, and `mid` is `(low + high) / 2`. Each
-- round makes the range shorter, so a fuel of its length is enough.
unfoldable pub find_key_loop : ℕ → List Item → Bytes → ℕ → ℕ → Option ℕ
find_key_loop zero items key low stop = none
find_key_loop (suc fuel) items key low stop =
    let mid = (low + stop - 1) / 2 in
    elim (ltb low stop) [
      | false ↦ none
      | true ↦ elim (get_elem? items mid) [
        | none ↦ none
        | some it ↦ elim (compare_bytes it.key key) [
          | Ordering.eq ↦ some mid
          | Ordering.lt ↦ find_key_loop fuel items key (mid + 1) stop
          | Ordering.gt ↦ find_key_loop fuel items key low mid
        ]
      ]
    ]

unfoldable pub find_key : Node → Bytes → Option ℕ
unfolding find_key_loop
find_key n key = find_key_loop (length n.items) n.items key 0 (length n.items)

-- The loop of `FindChildPos`, on the same fuel.
unfoldable pub find_child_loop : ℕ → List Item → Bytes → ℕ → ℕ → ℕ
find_child_loop zero items key low high = low
find_child_loop (suc fuel) items key low high =
    let mid = (low + high) / 2 in
    elim (ltb low high) [
      | false ↦ low
      | true ↦ elim (get_elem? items mid) [
        | none ↦ low
        | some it ↦ elim (compare_bytes key it.key) [
          | Ordering.lt ↦ find_child_loop fuel items key low mid
          | _ ↦ find_child_loop fuel items key (mid + 1) high
        ]
      ]
    ]

-- `none` is the source's -1 on a node that is not internal.
unfoldable pub find_child_pos : Node → Bytes → Option ℕ
unfolding find_child_loop
find_child_pos n key =
    if n.node_type == internal_node
    then some (find_child_loop (length n.items) n.items key 0 (length n.items))
    else none

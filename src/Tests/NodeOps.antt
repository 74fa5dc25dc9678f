-- ===== src/Tests/NodeOps.antt =====
-- The theorems about btree/node.go, applied to the sample's nodes.
use conuredb.Common.{ℕ, ◌≡◌, refl, arith, none, some, [], ◌∷◌, if◌then◌else◌}
use conuredb.Common.Bytes.{Bytes, equal_bytes}
use conuredb.Node.{Node, add_item, remove_item, find_key, find_child_pos}
use conuredb.Node.Codec.{serialize, deserialize_node}
use conuredb.Node.Items.{IsCounted, add_item_lem, remove_item_lem}
use conuredb.Node.Order.{lookup_item}
use conuredb.Node.RoundTrip.{deserialize_node-serialize}
use conuredb.Node.Search.{Found, find_key-Found}
use conuredb.Node.Search.Children.{Splits, find_child_pos-Splits}
use conuredb.Tests.{item, first_leaf, root_node, first_leaf-IsStorable}

deserialize_node-serialize_example :
    (page : Bytes) × (serialize first_leaf ≡ some page) × (deserialize_node page ≡ some first_leaf)
deserialize_node-serialize_example = deserialize_node-serialize first_leaf first_leaf-IsStorable

find_key-Found_example : Found first_leaf.items (97 ∷ []) (find_key first_leaf (97 ∷ []))
find_key-Found_example = find_key-Found first_leaf (97 ∷ []) (tt, tt)

find_child_pos-Splits_example :
    (p : ℕ) × (find_child_pos root_node (98 ∷ []) ≡ some p) × Splits root_node.items (98 ∷ []) p
find_child_pos-Splits_example = find_child_pos-Splits root_node (98 ∷ []) refl (tt, tt)

first_leaf-IsCounted : IsCounted first_leaf
first_leaf-IsCounted = record { sorted = (tt, tt); counted = refl }

no_b : lookup_item first_leaf.items (98 ∷ []) ≡ none
unfolding lookup_item equal_bytes
no_b = refl

add_item_lem_example :
    IsCounted (add_item first_leaf (item 98 7))
    × ((k : Bytes)
        → lookup_item (add_item first_leaf (item 98 7)).items k
          ≡ (if equal_bytes (98 ∷ []) k then some (7 ∷ []) else lookup_item first_leaf.items k))
add_item_lem_example = add_item_lem first_leaf (item 98 7) first_leaf-IsCounted no_b (omega arith)

remove_item_lem_example :
    (m : Node) × (remove_item first_leaf 0 ≡ some m)
    × IsCounted m
    × ((k : Bytes)
        → lookup_item m.items k
          ≡ (if equal_bytes (97 ∷ []) k then none else lookup_item first_leaf.items k))
remove_item_lem_example =
    remove_item_lem first_leaf 0 (item 97 1) first_leaf-IsCounted (omega arith) refl

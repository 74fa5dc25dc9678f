-- ===== src/Node/Items.antt =====
-- `AddItem` and `RemoveItem` as operations on the map that a sorted node stands for.
use conuredb.Common.{
  ℕ, ◌+◌, ◌^◌, ◌<◌, ◌≡◌, ◌∙◌, refl, sym, ap, none, some, arith, if◌then◌else◌, length, get_elem?,
}
use conuredb.Common.Bytes.{Bytes, equal_bytes}
use conuredb.Node.{Item, Node, add_item, remove_item, remove_at, count_up, count_down}
use conuredb.Node.Order.{
  IsSorted, lookup_item, place, insert_at-place, place-IsSorted, lookup_item-place, length-place,
}
use conuredb.Node.Order.Positions.{
  remove_at-IsSorted, lookup_item-remove_at, length-remove_at, lt_of_get_elem?,
}

-- A sorted node whose `count` is the number of its items.
pub record IsCounted (n : Node) : Type 0 where
  pub sorted : IsSorted n.items
  pub counted : n.count ≡ length n.items

items-add_item : (n : Node) (x : Item) → (add_item n x).items ≡ place x n.items
unfolding add_item
items-add_item n x = insert_at-place x n.items

count-add_item : (n : Node) (x : Item) → (add_item n x).count ≡ count_up n.count
unfolding add_item
count-add_item n x = refl

-- Adding an item whose key a sorted, rightly counted node of fewer than 65535 items does not hold
-- gives such a node again, with the item's value at its key and the old value at every other key.
pub add_item_lem :
    (n : Node) (x : Item)
    → IsCounted n
    → lookup_item n.items x.key ≡ none
    → length n.items + 1 < 2 ^ 16
    → IsCounted (add_item n x)
      × ((k : Bytes)
          → lookup_item (add_item n x).items k
            ≡ (if equal_bytes x.key k then some x.value else lookup_item n.items k))
add_item_lem n x c absent small = (
  record {
    sorted = rw (items-add_item n x) (place-IsSorted x n.items c.sorted absent);
    counted =
        count-add_item n x
        ∙ omega (arith, c.counted, length-place x n.items, small)
        ∙ ap (λ its. length its) (sym (items-add_item n x));
  },
  λ k. rw (items-add_item n x) (lookup_item-place x n.items k),
)

-- Removing a position that holds an item succeeds on a sorted, rightly counted node of fewer than
-- 65536 items, and gives such a node, without that item's key and with the old value at every other
-- key.
pub remove_item_lem :
    (n : Node) (i : ℕ) (it : Item)
    → IsCounted n
    → length n.items < 2 ^ 16
    → get_elem? n.items i ≡ some it
    → (m : Node) × (remove_item n i ≡ some m)
      × IsCounted m
      × ((k : Bytes)
          → lookup_item m.items k ≡ (if equal_bytes it.key k then none else lookup_item n.items k))
unfolding remove_item
remove_item_lem n i it c small e = (
  record n { items = remove_at n.items i; count = count_down n.count },
  ground (arith, lt_of_get_elem? n.items i it e),
  record {
    sorted = remove_at-IsSorted n.items i c.sorted;
    counted =
        omega (
          arith,
          c.counted,
          length-remove_at n.items i it e,
          small,
          lt_of_get_elem? n.items i it e,
        );
  },
  λ k. lookup_item-remove_at n.items i it k c.sorted e,
)

-- ===== src/Node/Layout.antt =====
-- The size of a serialized node, byte for byte, and when `Serialize` refuses one.
use conuredb.Common.{
  ℕ, ◌+◌, ◌-◌, ◌*◌, ◌≤◌, ◌<◌, ◌≡◌, refl, ◌↔◌, none, some, List, [], ◌∷◌, ◌++◌, arith, ltb, ◌==◌,
  if◌then◌else◌, length, length-append, length-replicate, replicate, inl, inr, Bool-cases, ltb→le,
}
use conuredb.Common.Bytes.{Bytes, length-put_le}
use conuredb.Node.{Item, Node, node_size, internal_node}
use conuredb.Node.Codec.{
  encode_item, encode_items, encode_children, child_bytes, encode_node, serialize,
}

-- The bytes of the items: two for the key's length, four for the value's.
unfoldable pub items_size : List Item → ℕ
items_size [] = 0
items_size (it ∷ its) = 2 + length it.key + 4 + length it.value + items_size its

abbrev pub children_size : Node → ℕ
children_size n = if n.node_type == internal_node then 8 * length n.children else 0

-- Eight bytes for the id, one for the type, two for the count, eight for the parent: 19.
unfoldable pub page_content : Node → ℕ
page_content n = 19 + items_size n.items + children_size n

length-encode_items : (its : List Item) → length (encode_items its) ≡ items_size its
unfolding encode_items encode_item items_size
length-encode_items [] = refl
length-encode_items (it ∷ its) =
    simp (length-append, length-put_le, length-encode_items its) (omega arith)

pub length-encode_children : (cs : List ℕ) → length (encode_children cs) ≡ 8 * length cs
unfolding encode_children
length-encode_children [] = refl
length-encode_children (c ∷ cs) =
    simp (length-append, length-put_le, length-encode_children cs) (omega arith)

length-child_bytes : (n : Node) → length (child_bytes n) ≡ children_size n
length-child_bytes n = elim (Bool-cases (n.node_type == internal_node)) [
  | inl e ↦ rw e (length-encode_children n.children)
  | inr e ↦ rw e refl
]

pub length-encode_node : (n : Node) → length (encode_node n) ≡ page_content n
unfolding encode_node page_content
length-encode_node n =
    simp (length-append, length-put_le, length-encode_items, length-child_bytes) (omega arith)

-- `Serialize` refuses a node exactly when its content passes a page, and otherwise returns
-- exactly one page.
pub serialize_size :
    (n : Node)
    → ((serialize n ≡ none) ↔ (node_size < page_content n))
      × ((page : Bytes) → serialize n ≡ some page → length page ≡ node_size)
unfolding serialize
serialize_size n = (
  (λ e. ground (arith, length-encode_node n), λ h. ground (arith, length-encode_node n)),
  λ page e. elim (Bool-cases (ltb node_size (length (encode_node n)))) [
    | inl big ↦ absurd (ground arith)
    | inr small ↦
        let bound : length (encode_node n) ≤ node_size = ltb→le _ _ small in
        let same : encode_node n ++ replicate (node_size - length (encode_node n)) 0 ≡ page =
          ground arith in
        rw (← same, length-append, length-replicate) (omega arith)
  ],
)

-- ===== src/Node/RoundTrip.antt =====
-- `DeserializeNode` reads back what `Serialize` wrote.
use conuredb.Common.{
  ℕ, suc, ◌+◌, ◌-◌, ◌^◌, ◌≤◌, ◌<◌, ◌≡◌, refl, ap, some, List, [], ◌∷◌, ◌++◌, arith, le→ltb, ◌==◌,
  if◌then◌else◌, length, length-append, length-replicate, replicate, All, inl, inr, Bool-cases,
}
use conuredb.Common.Bytes.{Bytes, read_le-put_le, read_full-append}
use conuredb.Node.{Item, Node, node_size, internal_node}
use conuredb.Node.Codec.{
  encode_item, encode_items, encode_children, child_bytes, encode_node, serialize, read_item,
  read_items, read_children, read_node_children, read_node, deserialize_node,
}
use conuredb.Node.Layout.{items_size, page_content, length-encode_node}
use mathlib.Core.List.{append_assoc}

-- A node whose fields fit their widths, whose `count` is the number of its items, and which has
-- one child more than items if it is internal and none otherwise.
pub record IsStorable (n : Node) : Type 0 where
  pub id_fits : n.id < 2 ^ 64
  pub type_fits : n.node_type < 2 ^ 8
  pub parent_fits : n.parent < 2 ^ 64
  pub counted : n.count ≡ length n.items
  pub children_fit : All (λ c. c < 2 ^ 64) n.children
  pub shape :
      if n.node_type == internal_node
      then length n.children ≡ suc (length n.items)
      else n.children ≡ []
  pub fits : page_content n ≤ node_size

read_item-encode_item :
    (it : Item) (rest : Bytes)
    → length it.key < 2 ^ 16
    → length it.value < 2 ^ 32
    → read_item (encode_item it ++ rest) ≡ some (it, rest)
unfolding read_item encode_item
read_item-encode_item it rest h k = simp (
  append_assoc,
  read_le-put_le 2 (length it.key) _ h,
  read_full-append it.key _ (length it.key) refl,
  read_le-put_le 4 (length it.value) _ k,
  read_full-append it.value _ (length it.value) refl,
)

read_items-encode_items :
    (its : List Item) (rest : Bytes)
    → items_size its ≤ node_size
    → read_items (length its) (encode_items its ++ rest) ≡ some (its, rest)
unfolding read_items encode_items items_size
read_items-encode_items [] rest h = refl
read_items-encode_items (it ∷ its) rest h = simp (
  append_assoc,
  read_item-encode_item it _ (omega arith) (omega arith),
  read_items-encode_items its rest (omega arith),
)

pub read_children-encode_children :
    (cs : List ℕ) (rest : Bytes)
    → All (λ c. c < 2 ^ 64) cs
    → read_children (length cs) (encode_children cs ++ rest) ≡ some (cs, rest)
unfolding read_children encode_children
read_children-encode_children [] rest h = refl
read_children-encode_children (c ∷ cs) rest h =
    simp (append_assoc, read_le-put_le 8 c _ h.0, read_children-encode_children cs rest h.1)

read_node_children-child_bytes :
    (n : Node) (rest : Bytes)
    → IsStorable n
    → read_node_children n.node_type n.count (child_bytes n ++ rest) ≡ some (n.children, rest)
unfolding read_node_children
read_node_children-child_bytes n rest s = elim (Bool-cases (n.node_type == internal_node)) [
  | inl e ↦
      let more : n.count + 1 ≡ length n.children = ground (arith, s.shape) in
      rw e
        (rw (read_suc n.count, more) (read_children-encode_children n.children rest s.children_fit))
  | inr e ↦ rw e (ground (arith, s.shape))
]
  where
    read_suc : (k : ℕ) → read_children (suc k) ≡ read_children (k + 1)
    read_suc k = ap read_children (omega arith)

length-le-items_size : (its : List Item) → length its ≤ items_size its
unfolding items_size
length-le-items_size [] = omega arith
length-le-items_size (it ∷ its) = omega (arith, length-le-items_size its)

items_size-le-page_content : (n : Node) → items_size n.items ≤ page_content n
unfolding page_content
items_size-le-page_content n = omega arith

read_node-encode_node :
    (n : Node) (rest : Bytes) → IsStorable n → read_node (encode_node n ++ rest) ≡ some n
unfolding read_node encode_node
read_node-encode_node n rest s =
    let content : items_size n.items ≤ page_content n = items_size-le-page_content n in
    let items : read_items n.count (encode_items n.items ++ (child_bytes n ++ rest))
        ≡ some (n.items, child_bytes n ++ rest) =
      rw s.counted (read_items-encode_items n.items _ (omega (arith, content))) in
    let counts : n.count < 2 ^ 16 =
      omega (arith, s.counted, length-le-items_size n.items, s.fits, content) in
    simp (
      append_assoc,
      read_le-put_le 8 n.id _ s.id_fits,
      read_le-put_le 1 n.node_type _ s.type_fits,
      read_le-put_le 2 n.count _ counts,
      read_le-put_le 8 n.parent _ s.parent_fits,
      items,
      read_node_children-child_bytes n rest s,
    )

-- A storable node serializes to one page, and the page deserializes to the node.
pub deserialize_node-serialize :
    (n : Node)
    → IsStorable n
    → (page : Bytes) × (serialize n ≡ some page) × (deserialize_node page ≡ some n)
unfolding serialize deserialize_node
deserialize_node-serialize n s =
    let small : length (encode_node n) ≤ node_size = rw (length-encode_node n) s.fits in
    let page = encode_node n ++ replicate (node_size - length (encode_node n)) 0 in
    let full : length page ≡ node_size = rw (length-append, length-replicate) (omega arith) in
    (
      page,
      ground (arith, le→ltb node_size (length (encode_node n))),
      ground (
        arith,
        full,
        read_node-encode_node n (replicate (node_size - length (encode_node n)) 0) s,
      ),
    )

-- ===== src/Node/Codec.antt =====
-- `Serialize` and `DeserializeNode` of btree/node.go. `put_le w n` keeps the low `w` bytes of `n`,
-- which is also what the conversions uint16(len) and uint32(len) keep. `none` is a returned error:
-- the size check of `Serialize`, and in `DeserializeNode` a wrong data size or the reader's end.
use conuredb.Common.{
  ℕ, zero, suc, ◌-◌, Option, none, some, List, [], ◌∷◌, ◌++◌, ltb, ◌==◌, if◌then◌else◌, length,
  replicate,
}
use conuredb.Common.Bytes.{Bytes, put_le, read_le, read_full}
use conuredb.Node.{Item, Node, node_size, internal_node}

-- Key length, key, value length, value.
unfoldable pub encode_item : Item → Bytes
encode_item it = put_le 2 (length it.key) ++ (it.key ++ (put_le 4 (length it.value) ++ it.value))

unfoldable pub encode_items : List Item → Bytes
encode_items [] = []
encode_items (it ∷ its) = encode_item it ++ encode_items its

unfoldable pub encode_children : List ℕ → Bytes
encode_children [] = []
encode_children (c ∷ cs) = put_le 8 c ++ encode_children cs

-- Only an internal node writes its children.
abbrev pub child_bytes : Node → Bytes
child_bytes n = if n.node_type == internal_node then encode_children n.children else []

-- What stands in the buffer before the padding: id, type, count, parent, items, children.
unfoldable pub encode_node : Node → Bytes
encode_node n =
    put_le 8 n.id
    ++ (put_le 1 n.node_type
        ++ (put_le 2 n.count ++ (put_le 8 n.parent ++ (encode_items n.items ++ child_bytes n))))

-- The size check stands behind the writes, and the page is padded with zeros.
unfoldable pub serialize : Node → Option Bytes
serialize n =
    let size = length (encode_node n) in
    if ltb node_size size then none else some (encode_node n ++ replicate (node_size - size) 0)

infixl 5 ◌>>=◌
abbrev pub ◌>>=◌ {ℓ κ} : {A : Type ℓ} {B : Type κ} → Option A → (A → Option B) → Option B
none >>= f = none
some a >>= f = f a

unfoldable pub read_item : Bytes → Option (Item × Bytes)
read_item bs = do
  (key_len, bs) ← read_le 2 bs
  (key, bs) ← read_full key_len bs
  (value_len, bs) ← read_le 4 bs
  (value, bs) ← read_full value_len bs
  some (record { key = key; value = value }, bs)

-- The loop over `node.count` items.
unfoldable pub read_items : ℕ → Bytes → Option (List Item × Bytes)
read_items zero bs = some ([], bs)
read_items (suc k) bs = do (it, bs) ← read_item bs; (its, bs) ← read_items k bs; some (it ∷ its, bs)

unfoldable pub read_children : ℕ → Bytes → Option (List ℕ × Bytes)
read_children zero bs = some ([], bs)
read_children (suc k) bs = do
  (c, bs) ← read_le 8 bs
  (cs, bs) ← read_children k bs
  some (c ∷ cs, bs)

-- An internal node reads `count + 1` children. `count + 1` does not wrap: 65535 items do not fit
-- in a page, so the reader has ended before.
unfoldable pub read_node_children : ℕ → ℕ → Bytes → Option (List ℕ × Bytes)
read_node_children node_type count bs =
    if node_type == internal_node then read_children (suc count) bs else some ([], bs)

unfoldable pub read_node : Bytes → Option Node
read_node bs = do
  (id, bs) ← read_le 8 bs
  (node_type, bs) ← read_le 1 bs
  (count, bs) ← read_le 2 bs
  (parent, bs) ← read_le 8 bs
  (items, bs) ← read_items count bs
  (children, bs) ← read_node_children node_type count bs
  some (record {
    id = id;
    node_type = node_type;
    count = count;
    parent = parent;
    items = items;
    children = children;
  })

unfoldable pub deserialize_node : Bytes → Option Node
unfolding read_node
deserialize_node bs = if length bs == node_size then read_node bs else none

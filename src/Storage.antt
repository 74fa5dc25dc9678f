-- ===== src/Storage.antt =====
-- btree/storage.go: the page store. A `*Node` is a pointer into `heap`, because the tree changes
-- nodes through pointers that the cache holds too; `node_cache` and `dirty_nodes` are Go's maps.
-- `range_order` is the order in which `range` walks a map, which Go leaves open.
-- The locks make each operation atomic, so the model runs the operations one after the other.
pub mod Header
pub mod View
pub mod Objects
pub mod Session
pub mod Transaction
pub mod Backed
pub mod Sized
use conuredb.Common.{
  ℕ, ◌+◌, ◌-◌, ◌*◌, ◌%◌, ◌^◌, Bool, true, false, Option, none, some, List, [], ◌∷◌, ◌++◌, ltb, ◌==◌,
  if◌then◌else◌, length, get_elem?, ◌≡◌, sym, ap, ◌∙◌, ==_iff, Bool-cases, inl, inr,
}
use mathlib.Core.Path.{fun_ext}
use conuredb.Common.Bytes.{Bytes}
use conuredb.Node.{Node, node_size, leaf_node, internal_node, new_leaf_node, new_internal_node}
use conuredb.Node.Codec.{serialize, deserialize_node}
use conuredb.Pool.{NodePool, allocate, free, has}
use conuredb.File.{File, write_at, read_at, sync}

pub data Error : Type 0 where
  key_not_found key_too_large value_too_large : Error
  invalid_magic invalid_version header_too_small : Error
  io_error short_read node_too_big bad_page : Error
  in_transaction no_transaction not_in_cache : Error
  invalid_position not_in_parent : Error
  closed already_closed bad_command : Error

pub record Storage : Type 0 where
  pub file : File
  pub heap : ℕ → Option Node
  pub next_ptr : ℕ
  pub node_cache : ℕ → Option ℕ
  pub root_node_id : ℕ
  pub node_pool : NodePool
  pub dirty_nodes : List ℕ
  pub transaction : Bool
  pub original_root : ℕ
  pub range_order : List ℕ → List ℕ

-- What a call does: it returns a value, returns an error, panics, or runs out of fuel. An error
-- keeps the state, which Go does not roll back.
pub data Run (A : Type 0) : Type 0 where
  ok : A → Storage → Run A
  err : Error → Storage → Run A
  fault : Run A
  stuck : Run A

abbrev pub M : Type 0 → Type 0
M A = Storage → Run A

abbrev pub and_then : {A B : Type 0} → Run A → (A → M B) → Run B
and_then (ok a s) f = f a s
and_then (err e s) f = err e s
and_then fault f = fault
and_then stuck f = stuck

infixl 5 ◌>>=◌ ◌>>◌
abbrev pub ◌>>=◌ : {A B : Type 0} → M A → (A → M B) → M B
◌>>=◌ m f s = and_then (m s) f

abbrev pub ◌>>◌ : {B : Type 0} → M (Unit {0}) → M B → M B
◌>>◌ m k s = and_then (m s) (λ _. k)

abbrev pub pure : {A : Type 0} → A → M A
pure a s = ok a s

abbrev pub throw : {A : Type 0} → Error → M A
throw e s = err e s

abbrev pub panic : {A : Type 0} → M A
panic s = fault

-- An index out of range panics.
abbrev pub index : {A : Type 0} → List A → ℕ → M A
index xs i s = elim (get_elem? xs i) [ none ↦ fault | some x ↦ ok x s ]

abbrev pub check : {A : Type 0} → Error → Option A → M A
check e none s = err e s
check e (some a) s = ok a s

abbrev pub update {ℓ} : {A : Type ℓ} → (ℕ → Option A) → ℕ → Option A → ℕ → Option A
update f k v j = if k == j then v else f j

-- Writing to a map what it holds.
pub update_self {ℓ} :
    {A : Type ℓ} (f : ℕ → Option A) (i : ℕ) (a : A) → f i ≡ some a → update f i (some a) ≡ f
update_self f i a e = fun_ext λ j. elim (Bool-cases (i == j)) [
  | inl same ↦ rw same (sym e ∙ ap f ((==_iff i j).0 same))
  | inr other ↦ rw other
]

-- Objects.
unfoldable pub load : ℕ → M Node
load p s = elim (s.heap p) [ none ↦ fault | some n ↦ ok n s ]

unfoldable pub store : ℕ → Node → M (Unit {0})
store p n s = ok tt (record s { heap = update s.heap p (some n) })

unfoldable pub new_object : Node → M ℕ
new_object n s =
    ok s.next_ptr (record s { heap = update s.heap s.next_ptr (some n); next_ptr = s.next_ptr + 1 })

-- `nodeCache[id] = node` and `dirtyNodes[id] = struct{}{}`.
unfoldable pub cache : ℕ → ℕ → M (Unit {0})
cache id p s = ok tt (record s { node_cache = update s.node_cache id (some p) })

abbrev pub add_dirty : ℕ → List ℕ → List ℕ
add_dirty id ids = if has id ids then ids else ids ++ (id ∷ [])

unfoldable pub mark_dirty : ℕ → M (Unit {0})
mark_dirty id s = ok tt (record s { dirty_nodes = add_dirty id s.dirty_nodes })

unfoldable pub allocate_id : M ℕ
allocate_id s = let (id, pool) = allocate s.node_pool in ok id (record s { node_pool = pool })

-- int64(HeaderSize) + int64(nodeID-1)*int64(NodeSize) in 64 bits; `none` is a negative offset,
-- which `ReadAt` and `WriteAt` refuse.
unfoldable pub page_offset : ℕ → Option ℕ
page_offset id =
    let offset = (node_size + (id + (2 ^ 64 - 1)) % 2 ^ 64 * node_size) % 2 ^ 64 in
    if ltb offset (2 ^ 63) then some offset else none

unfoldable pub write_file : Bytes → ℕ → M (Unit {0})
write_file bs offset s =
    let (done, f) = write_at s.file bs offset in
    if done then ok tt (record s { file = f }) else err io_error (record s { file = f })

unfoldable pub read_file : ℕ → ℕ → M Bytes
read_file size offset s =
    let (got, f) = read_at s.file size offset in check io_error got (record s { file = f })

unfoldable pub sync_file : M (Unit {0})
sync_file s =
    let (done, f) = sync s.file in
    if done then ok tt (record s { file = f }) else err io_error (record s { file = f })

unfoldable pub read_node : ℕ → M Node
read_node id = do
  offset ← check io_error (page_offset id)
  bs ← read_file node_size offset
  if length bs == node_size then check bad_page (deserialize_node bs) else throw short_read

unfoldable pub write_node : Node → M (Unit {0})
write_node n = do
  page ← check node_too_big (serialize n)
  offset ← check io_error (page_offset n.id)
  write_file page offset

-- The pointer of a node, read from disk and cached if it is not in the cache.
unfoldable pub get_node : ℕ → M ℕ
get_node id s = elim (s.node_cache id) [
  | some p ↦ ok p s
  | none ↦ (do n ← read_node id; p ← new_object n; cache id p; pure p) s
]

unfoldable pub get_root_node : M ℕ
get_root_node s = get_node s.root_node_id s

unfoldable pub put_node : ℕ → M (Unit {0})
put_node p = do
  n ← load p
  λ s.
      if s.transaction
      then (mark_dirty n.id >> cache n.id p) s
      else (write_node n >> cache n.id p) s

-- The copy's fields as `CloneNode` fills them in: a node that is no leaf becomes internal, and the
-- children are copied from an internal node only.
unfoldable pub copy_of : Node → ℕ → Node
copy_of n id =
    let fresh = if n.node_type == leaf_node then new_leaf_node id else new_internal_node id in
    record fresh {
      count = n.count;
      parent = n.parent;
      items = n.items;
      children = if n.node_type == internal_node then n.children else [];
    }

unfoldable pub clone_node : ℕ → M ℕ
clone_node p = do
  id ← allocate_id
  n ← load p
  q ← new_object (copy_of n id)
  cache id q
  λ s.
      if s.transaction then (mark_dirty id >> pure q) s else (write_node (copy_of n id) >> pure q) s

unfoldable pub delete_node : ℕ → M (Unit {0})
delete_node id s =
    ok tt (record s { node_cache = update s.node_cache id none; node_pool = free id s.node_pool })

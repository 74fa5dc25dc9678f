-- ===== src/Storage/Header.antt =====
-- The header page of btree/storage.go: magic number, version, root id, next id, and as many free
-- ids as fit.
pub mod RoundTrip
use conuredb.Common.{
  ℕ, zero, suc, ◌+◌, ◌-◌, ◌*◌, ◌/◌, Bool, true, false, Option, none, some, List, [], ◌∷◌, ◌++◌, ltb,
  ◌==◌, ◌≤◌, if◌then◌else◌, length, take, replicate, ◌≡◌, refl, arith, length-append,
  length-replicate, length-take, min,
}
use conuredb.Common.Bytes.{Bytes, put_le, read_le, length-put_le}
use conuredb.Node.{node_size}
use conuredb.Node.Layout.{length-encode_children}
use conuredb.Node.Codec.{encode_children, read_children}
use conuredb.Pool.{NodePool, stats}
use conuredb.Storage.{
  Storage, M, ok, err, Error, invalid_magic, invalid_version, header_too_small, bad_page, ◌>>=◌,
  ◌>>◌, pure, throw, check, write_file, read_file,
}

abbrev pub magic_number : ℕ
magic_number = 0x434f4e55

abbrev pub version : ℕ
version = 1

abbrev pub header_size : ℕ
header_size = node_size

-- magic + version + root + next + count
abbrev pub fixed_fields : ℕ
fixed_fields = 4 + 4 + 8 + 8 + 4

abbrev pub max_free : ℕ
max_free = (header_size - fixed_fields) / 8

abbrev pub bounded : ℕ → ℕ
bounded n = if ltb max_free n then max_free else n

-- The header page. The ids are written by the same 8-byte rule as the children of a node.
-- The content never passes the page (`max_free` sees to that), so the size check is left out.
unfoldable pub encode_header : ℕ → NodePool → Bytes
encode_header root pool =
    let count = bounded (length pool.free_node_ids) in
    let content =
      put_le 4 magic_number
      ++ (put_le 4 version
          ++ (put_le 8 root
              ++ (put_le 8 pool.next_node_id
                  ++ (put_le 4 count ++ encode_children (take count pool.free_node_ids))))) in
    content ++ replicate (header_size - length content) 0

unfoldable pub write_header : M (Unit {0})
write_header s = write_file (encode_header s.root_node_id s.node_pool) 0 s

-- The fields behind the version.
unfoldable pub decode_fields : Bytes → M (ℕ × NodePool)
decode_fields bs = do
  (root, bs) ← check bad_page (read_le 8 bs)
  (next, bs) ← check bad_page (read_le 8 bs)
  (count, bs) ← check bad_page (read_le 4 bs)
  (ids, bs) ← check bad_page (read_children (bounded count) bs)
  pure (root, record { free_node_ids = ids; next_node_id = next })

unfoldable pub decode_version : Bytes → M (ℕ × NodePool)
decode_version bs = do
  (found, bs) ← check bad_page (read_le 4 bs)
  if found == version then decode_fields bs else throw invalid_version

-- What `readHeader` takes from the page. Its reader stands on a whole page, so no read fails
-- behind the version check, and the fields are assigned together.
unfoldable pub decode_header : Bytes → M (ℕ × NodePool)
decode_header page = do
  (magic, bs) ← check bad_page (read_le 4 page)
  if magic == magic_number then decode_version bs else throw invalid_magic

-- `head` keeps its zeros where the file is shorter than a page.
unfoldable pub read_header : M (Unit {0})
read_header = do
  bs ← read_file header_size 0
  if ltb (length bs) 28 then throw header_too_small else do
    (root, pool) ← decode_header (bs ++ replicate (header_size - length bs) 0)
    λ s. ok tt (record s { root_node_id = root; node_pool = pool })

bounded_le : (n : ℕ) → bounded n ≤ max_free
bounded_le n = ground arith

-- The header page has exactly one page's length, for every root id, next id and free list: the count
-- is cut to what fits.
pub length-encode_header :
    (root : ℕ) (pool : NodePool) → length (encode_header root pool) ≡ header_size
unfolding encode_header
length-encode_header root pool =
    simp (length-append, length-put_le, length-replicate, length-encode_children, length-take)
      (omega (arith, bounded_le (length pool.free_node_ids)))

-- ===== src/Storage/Header/RoundTrip.antt =====
-- What `readHeader` recovers from the page that `writeHeader` wrote.
use conuredb.Common.{
  All-take, ℕ, ◌^◌, ◌<◌, ◌≡◌, ◌∙◌, some, List, ◌++◌, arith, length, take, All, min, length-take,
  sym, ap,
}
use conuredb.Common.Bytes.{Bytes, read_le-put_le}
use conuredb.Node.Codec.{encode_children, read_children}
use conuredb.Node.RoundTrip.{read_children-encode_children}
use conuredb.Pool.{NodePool}
use conuredb.Storage.{Storage, ok}
use conuredb.Storage.Header.{
  magic_number, version, bounded, encode_header, decode_header, decode_version, decode_fields,
}
use mathlib.Core.List.{append_assoc}

-- The ids that the header keeps.
abbrev pub kept : NodePool → List ℕ
kept pool = take (bounded (length pool.free_node_ids)) pool.free_node_ids

bounded_fits : (n : ℕ) → bounded n < 2 ^ 32
bounded_fits n = ground arith

bounded-bounded : (n : ℕ) → bounded (bounded n) ≡ bounded n
bounded-bounded n = ground arith

length-kept : (pool : NodePool) → length (kept pool) ≡ bounded (length pool.free_node_ids)
length-kept pool =
    length-take (bounded (length pool.free_node_ids)) pool.free_node_ids
    ∙ shortest (length pool.free_node_ids)
  where
    shortest : (n : ℕ) → min (bounded n) n ≡ bounded n
    shortest n = ground arith

read_kept :
    (pool : NodePool) (rest : Bytes)
    → All (λ id. id < 2 ^ 64) pool.free_node_ids
    → read_children
        (bounded (bounded (length pool.free_node_ids)))
        (encode_children (kept pool) ++ rest)
      ≡ some (kept pool, rest)
read_kept pool rest hf =
    let count : bounded (bounded (length pool.free_node_ids)) ≡ length (kept pool) =
      bounded-bounded (length pool.free_node_ids) ∙ sym (length-kept pool) in
    ap (λ k. read_children k (encode_children (kept pool) ++ rest)) count
    ∙ read_children-encode_children (kept pool) rest
        (All-take (λ id. id < 2 ^ 64) (bounded (length pool.free_node_ids)) pool.free_node_ids hf)

-- When the root id, the next id and the free ids are 64-bit numbers, the header reads back with the
-- same root id, the same next id, and the free ids up to as many as fit the page; the free ids
-- beyond those are gone.
pub decode_header-encode_header :
    (root : ℕ) (pool : NodePool) (s : Storage)
    → root < 2 ^ 64
    → pool.next_node_id < 2 ^ 64
    → All (λ id. id < 2 ^ 64) pool.free_node_ids
    → decode_header (encode_header root pool) s
      ≡ ok (root, record pool { free_node_ids = kept pool }) s
unfolding decode_header decode_version decode_fields encode_header
decode_header-encode_header root pool s hr hn hf =
    let bound = bounded_fits (length pool.free_node_ids) in
    simp (
      append_assoc,
      read_le-put_le 4 magic_number _ (omega arith),
      read_le-put_le 4 version _ (omega arith),
      read_le-put_le 8 root _ hr,
      read_le-put_le 8 pool.next_node_id _ hn,
      read_le-put_le 4 (bounded (length pool.free_node_ids)) _ bound,
      read_kept pool _ hf,
    )

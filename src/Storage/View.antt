-- ===== src/Storage/View.antt =====
-- The node that an id stands for, in the cache or else on disk, and the invariant of the store.
pub mod Fetch
use conuredb.Common.{
  ℕ, ◌+◌, ◌<◌, ◌≡◌, ◌≢◌, ◌∙◌, refl, sym, ap, subst, inl, inr, Option, none, some, arith, ◌==◌,
  ==_iff, ==_refl, Bool-cases, Option-cases, if◌then◌else◌, length, take, drop,
}
use conuredb.Common.Bytes.{Bytes}
use conuredb.Node.{Node, node_size}
use conuredb.Node.Codec.{deserialize_node}
use conuredb.Pool.Fresh.{IsPool, Taken}
use conuredb.File.{File, read_at}
use conuredb.Storage.{
  Storage, ok, update, load, new_object, cache, page_offset, read_file, read_node, get_node,
}

abbrev pub window : Bytes → ℕ → Bytes
window bs offset = take node_size (drop offset bs)

unfoldable pub disk_page : Bytes → ℕ → Option Node
disk_page bs offset =
    if length (window bs offset) == node_size then deserialize_node (window bs offset) else none

unfoldable pub disk_node : Bytes → ℕ → Option Node
disk_node bs id = elim (page_offset id) [ none ↦ none | some offset ↦ disk_page bs offset ]

-- What `GetNode` would return.
unfoldable pub node_at : Storage → ℕ → Option Node
node_at s id = elim (s.node_cache id) [ some p ↦ s.heap p | none ↦ disk_node s.file.bytes id ]

-- No file operation fails from here on.
abbrev pub NoFaults : File → Type 0
NoFaults f = (n : ℕ) → f.faults n ≡ none

-- The cache holds, for ids in use, pointers to live objects that carry the id; the pool is
-- well formed, and the file answers.
pub record IsStore (s : Storage) : Type 0 where
  pub live :
      (id p : ℕ)
      → s.node_cache id ≡ some p
      → (p < s.next_ptr) × Taken s.node_pool id × ((n : Node) × (s.heap p ≡ some n) × (n.id ≡ id))
  pub pool : IsPool s.node_pool
  pub reads : NoFaults s.file

-- A pointer that the cache holds for an id, and the object behind it.
pub record Points (s : Storage) (p id : ℕ) (n : Node) : Type 0 where
  pub cached : s.node_cache id ≡ some p
  pub holds : s.heap p ≡ some n

pub node_at-cached : (s : Storage) (id p : ℕ) → s.node_cache id ≡ some p → node_at s id ≡ s.heap p
unfolding node_at
node_at-cached s id p e = ground arith

pub node_at-uncached :
    (s : Storage) (id : ℕ) → s.node_cache id ≡ none → node_at s id ≡ disk_node s.file.bytes id
unfolding node_at
node_at-uncached s id e = ground arith

pub node_at-Points : (s : Storage) (p id : ℕ) (n : Node) → Points s p id n → node_at s id ≡ some n
node_at-Points s p id n h = node_at-cached s id p h.cached ∙ h.holds

pub load-Points : (s : Storage) (p id : ℕ) (n : Node) → Points s p id n → load p s ≡ ok n s
unfolding load
load-Points s p id n h = ground (arith, h.holds)

node_eq : (a b : Node) → some a ≡ some b → a ≡ b
node_eq a b q = cc

pub id-Points : (s : Storage) (p id : ℕ) (n : Node) → IsStore s → Points s p id n → n.id ≡ id
id-Points s p id n w h =
    let (lt, u, (m, e, own)) = w.live id p h.cached in
    ap (λ (z : Node). z.id) (node_eq n m (sym h.holds ∙ e)) ∙ own

-- One object is cached under one id.
pub eq_of_cached :
    (s : Storage) (p i j : ℕ) (n : Node)
    → IsStore s
    → Points s p i n
    → s.node_cache j ≡ some p
    → i ≡ j
eq_of_cached s p i j n w h e =
    sym (id-Points s p i n w h) ∙ id-Points s p j n w (record { cached = e; holds = h.holds })

-- Nothing but what is cached and counted has changed.
pub record Same (s t : Storage) : Type 0 where
  pub view : (j : ℕ) (n : Node) → node_at s j ≡ some n → node_at t j ≡ some n
  pub keeps : (p j : ℕ) (n : Node) → Points s p j n → Points t p j n
  pub bytes : t.file.bytes ≡ s.file.bytes
  pub node_pool : t.node_pool ≡ s.node_pool
  pub root : t.root_node_id ≡ s.root_node_id
  pub transaction : t.transaction ≡ s.transaction
  pub original : t.original_root ≡ s.original_root
  pub dirty : t.dirty_nodes ≡ s.dirty_nodes
  pub order : t.range_order ≡ s.range_order

-- `GetNode` on an id that stands for a node.
pub record Got (s : Storage) (id : ℕ) (n : Node) : Type 0 where
  pub p : ℕ
  pub t : Storage
  pub run : get_node id s ≡ ok p t
  pub points : Points t p id n
  pub same : Same s t
  pub is : IsStore t

pub get_node_cached : (s : Storage) (id p : ℕ) (n : Node) → IsStore s → Points s p id n → Got s id n
unfolding get_node
get_node_cached s id p n w h = record {
  p = p;
  t = s;
  run = ground (arith, h.cached);
  points = h;
  same = record {
    view = λ j m e. e;
    keeps = λ q j m k. k;
    bytes = refl;
    node_pool = refl;
    root = refl;
    transaction = refl;
    original = refl;
    dirty = refl;
    order = refl;
  };
  is = w;
}

-- The store with one more object, cached under an id.
abbrev pub with_new : Storage → ℕ → Node → Storage
with_new s id n = record s {
  heap = update s.heap s.next_ptr (some n);
  next_ptr = s.next_ptr + 1;
  node_cache = update s.node_cache id (some s.next_ptr);
}

module _ (s : Storage) (id : ℕ) (n : Node) (w : IsStore s) where
  pub Points-with_new : Points (with_new s id n) s.next_ptr id n
  Points-with_new = record { cached = rw (==_refl id); holds = rw (==_refl s.next_ptr) }

  -- Other ids keep their objects.
  pub with_new-keeps :
      (p j : ℕ) (m : Node) → j ≢ id → Points s p j m → Points (with_new s id n) p j m
  with_new-keeps p j m ne h =
      let old : p < s.next_ptr = (w.live j p h.cached).0 in
      record { cached = ground (arith, h.cached, ne); holds = ground (arith, h.holds, old) }

  pub with_new-view :
      (j : ℕ) (m : Node) → j ≢ id → node_at s j ≡ some m → node_at (with_new s id n) j ≡ some m
  with_new-view j m ne e = elim (Option-cases (s.node_cache j)) [
    | inr (p, c) ↦
        node_at-Points (with_new s id n) p j m (
          with_new-keeps p j m ne (record { cached = c; holds = sym (node_at-cached s j p c) ∙ e }))
    | inl c ↦
        node_at-uncached (with_new s id n) j (ground (arith, c, ne))
        ∙ sym (node_at-uncached s j c)
        ∙ e
  ]

  pub with_new-live :
      n.id ≡ id
      → Taken s.node_pool id
      → (j p : ℕ) → (with_new s id n).node_cache j ≡ some p
      → (p < s.next_ptr + 1)
        × Taken s.node_pool j
        × ((m : Node) × ((with_new s id n).heap p ≡ some m) × (m.id ≡ j))
  with_new-live own u j p e = elim (Bool-cases (id == j)) [
    | inl same ↦
        let at : s.next_ptr ≡ p = ground (arith, same, e) in
        (
          omega arith,
          subst (Taken s.node_pool) ((==_iff id j).0 same) u,
          (n, ground (arith, at), own ∙ (==_iff id j).0 same),
        )
    | inr other ↦
        let (lt, v, (m, holds, mine)) = w.live j p (ground (arith, other, e)) in
        (omega arith, v, (m, ground (arith, lt, holds), mine))
  ]

-- ===== src/Tree/Opened.antt =====
-- The tree in a file that `OpenStorage` has just set up.
use conuredb.Common.{
  ℕ, ◌<◌, ◌≡◌, refl, sym, subst, ◌∙◌, false, none, some, List, [], arith, length, ◌==◌, ==_iff,
  Bool-cases, inl, inr,
}
use conuredb.Common.Bytes.{Bytes}
use conuredb.Node.{Node, node_size, new_leaf_node}
use conuredb.Node.Sound.{IsSound}
use conuredb.Storage.Sized.{AllFit, FitsPage}
use conuredb.Storage.Backed.{Stands}
use conuredb.File.Splice.{window-splice_self}
use conuredb.Storage.Transaction.Kept.{OnDisk, HasHeader}
use conuredb.Node.Codec.{serialize, deserialize_node}
use conuredb.Node.Order.{lookup_item}
use conuredb.Node.Layout.{items_size, page_content, serialize_size}
use conuredb.Node.RoundTrip.{IsStorable, deserialize_node-serialize}
use conuredb.Pool.{allocate, new_node_pool}
use conuredb.Pool.Fresh.{Taken, IsPool}
use conuredb.File.{File}
use conuredb.Storage.{Storage, Run, ok, new_object, cache, allocate_id, update}
use conuredb.Storage.View.{disk_node, node_at, IsStore, Points, NoFaults, node_at-Points}
use conuredb.Storage.Header.{write_header, encode_header, length-encode_header}
use conuredb.Storage.Transaction.{open_storage, initialize_new_file, new_storage}
use conuredb.Storage.Transaction.Commit.{
  disk_node-Apart, disk_node_page, disk_page_self, paged, write_file_ok, write_node_ok,
}
use conuredb.Tree.Model.{IsTree, leaf, find, find-leaf}

-- A store with one empty leaf as its tree.
pub record Opened (order : List ℕ → List ℕ) (r : Run (Unit {0})) : Type 0 where
  pub t : Storage
  pub run : r ≡ ok tt t
  pub is : IsStore t
  pub closed : t.transaction ≡ false
  pub tree : IsTree t 1 t.root_node_id
  pub empty : (k : Bytes) → find (node_at t) 1 t.root_node_id k ≡ none
  pub root : node_at t t.root_node_id ≡ some (new_leaf_node 1)
  pub fit : AllFit t
  pub next : t.node_pool.next_node_id ≡ 2
  pub disk : OnDisk t
  pub walk : t.range_order ≡ order

first_leaf : IsStorable (new_leaf_node 1)
unfolding new_leaf_node page_content items_size
first_leaf = record {
  id_fits = omega arith;
  type_fits = omega arith;
  parent_fits = omega arith;
  counted = refl;
  children_fit = tt;
  shape = refl;
  fits = omega arith;
}

first_page :
    (page : Bytes) × (serialize (new_leaf_node 1) ≡ some page)
    × (deserialize_node page ≡ some (new_leaf_node 1))
first_page = deserialize_node-serialize (new_leaf_node 1) first_leaf

first-IsSound : IsSound (new_leaf_node 1)
unfolding new_leaf_node
first-IsSound = record {
  id_fits = omega arith;
  parent_fits = omega arith;
  kind = inl (refl, refl);
  counted = refl;
  small = omega arith;
  children_fit = tt;
}

write_header_ok :
    (s : Storage)
    → NoFaults s.file
    → write_header s ≡ ok tt (paged s 0 (encode_header s.root_node_id s.node_pool))
unfolding write_header
write_header_ok s f = write_file_ok s (encode_header s.root_node_id s.node_pool) 0 f

-- The store with the root leaf made and cached, before its page is written.
abbrev rooted : Storage → Storage
rooted s = record s {
  heap = update s.heap 0 (some (new_leaf_node 1));
  next_ptr = 1;
  node_cache = update s.node_cache 1 (some 0);
  root_node_id = 1;
  node_pool = record { free_node_ids = []; next_node_id = 2 };
}

module _ (f : File) (order : List ℕ → List ℕ) (empty : f.bytes ≡ []) (works : NoFaults f) where
  abbrev before : Storage
  before = paged (new_storage f order) 0 (encode_header 0 new_node_pool)

  abbrev root_written : Storage
  root_written = paged (rooted before) 4096 first_page.0

  abbrev after : Storage
  after = paged root_written 0 (encode_header 1 root_written.node_pool)

  open_steps : open_storage f order ≡ ok tt after
  unfolding open_storage initialize_new_file allocate_id new_object cache allocate new_leaf_node
  open_steps = ground (
    arith,
    empty,
    write_header_ok (new_storage f order) works,
    write_node_ok (rooted before) (new_leaf_node 1) first_page.0 1 works refl (omega arith)
        (omega arith) first_page.1,
    write_header_ok root_written works,
  )

  root_there : Points after 0 1 (new_leaf_node 1)
  root_there = record { cached = refl; holds = refl }

  -- Opening an empty file that answers every operation returns no error, whatever order the maps are
  -- walked in. The store is well formed, no transaction is open, the next id is 2, and the root id
  -- stands for an empty leaf and roots a tree of height one whose map holds no key. Every node fits its
  -- page, and nodes and header are on disk.
  pub open_storage-Opened : Opened order (open_storage f order)
  unfolding new_leaf_node lookup_item
  open_storage-Opened = record {
    t = after;
    run = open_steps;
    is = record { live = live; pool = pool; reads = works };
    closed = refl;
    tree =
        leaf (new_leaf_node 1) taken (node_at-Points after 0 1 (new_leaf_node 1) root_there) refl
          (record { type = refl; parent = refl; sorted = tt });
    empty = λ k.
        find-leaf (node_at after) 0 1 k (new_leaf_node 1)
          (node_at-Points after 0 1 (new_leaf_node 1) root_there) refl;
    root = node_at-Points after 0 1 (new_leaf_node 1) root_there;
    fit = λ j u. fits_at j (omega (arith, u));
    next = refl;
    walk = refl;
    disk = (λ j u. on_page j (omega (arith, u)), header);
  }
    where
      fits_at : (j : ℕ) → j ≡ 1 → (n : Node) × (node_at after j ≡ some n) × FitsPage n
      fits_at j e =
          subst (λ j. (n : Node) × (node_at after j ≡ some n) × FitsPage n) (sym e)
            (
              new_leaf_node 1,
              node_at-Points after 0 1 (new_leaf_node 1) root_there,
              first_leaf.fits,
            )

      header : HasHeader after
      header =
          window-splice_self root_written.file.bytes (encode_header 1 root_written.node_pool) 0
            node_size (sym (length-encode_header 1 root_written.node_pool))

      page_size : length first_page.0 ≡ node_size
      page_size = (serialize_size (new_leaf_node 1)).1 first_page.0 first_page.1

      written_page : disk_node root_written.file.bytes 1 ≡ some (new_leaf_node 1)
      written_page =
          disk_node_page root_written.file.bytes 1 (omega arith) (omega arith)
          ∙ disk_page_self before.file.bytes first_page.0 4096 (new_leaf_node 1) page_size
              first_page.2

      on_page : (j : ℕ) → j ≡ 1 → Stands [] after j
      on_page j e = subst (Stands [] after) (sym e) (
        new_leaf_node 1,
        node_at-Points after 0 1 (new_leaf_node 1) root_there,
        first-IsSound,
        inr (
            disk_node-Apart root_written.file.bytes 0 (encode_header 1 root_written.node_pool) 1
              (new_leaf_node 1) (omega arith) (omega arith)
              (inr (omega (arith, length-encode_header 1 root_written.node_pool))) written_page),
      )

      taken : Taken after.node_pool 1
      taken = (omega arith, omega arith, refl)

      pool : IsPool after.node_pool
      pool = record { nodup = tt; known = tt; started = omega arith; width = omega arith }

      live :
          (id p : ℕ)
          → after.node_cache id ≡ some p
          → (p < after.next_ptr)
            × Taken after.node_pool id
            × ((n : Node) × (after.heap p ≡ some n) × (n.id ≡ id))
      live id p e = elim (Bool-cases (1 == id)) [
        | inr other ↦ absurd (ground (arith, other, e))
        | inl same ↦
            let here : 1 ≡ id = (==_iff 1 id).0 same in
            let zero_is : 0 ≡ p = ground (arith, same, e) in
            (
              omega (arith, zero_is),
              (omega (arith, here), omega (arith, here), refl),
              (new_leaf_node 1, rw (← zero_is) refl, here),
            )
      ]

-- ===== src/Storage/Transaction/Reopened.antt =====
-- `OpenStorage` on the file that a commit has left.
use mathlib.Core.List.{append-nil}
use conuredb.Common.{
  All-take, ℕ, zero, suc, ◌+◌, ◌-◌, ◌≤◌, ◌<◌, ◌^◌, ◌≡◌, ◌∙◌, refl, sym, ap, subst, false, some,
  List, [], ◌∷◌, ◌++◌, arith, inl, inr, length, take, take-length, drop, replicate, All,
  length-take, length-drop,
}
use conuredb.Common.Bytes.{Bytes}
use conuredb.Node.{Node, node_size}
use conuredb.Pool.{NodePool, has}
use conuredb.Pool.Fresh.{Taken, IsPool, Nodup}
use conuredb.File.{File, read_at}
use conuredb.Storage.{Storage, Run, ok, read_file}
use conuredb.Storage.View.{node_at, disk_node, window, IsStore, NoFaults, node_at-uncached}
use conuredb.Storage.Backed.{Stands}
use conuredb.Storage.Header.{
  header_size, max_free, bounded, encode_header, length-encode_header, decode_header, read_header,
}
use conuredb.Storage.Header.RoundTrip.{kept, decode_header-encode_header}
use conuredb.Storage.Transaction.{open_storage, new_storage}
use conuredb.Storage.Transaction.Kept.{OnDisk}

-- The pool that the header keeps.
abbrev pub kept_pool : NodePool → NodePool
kept_pool p = record p { free_node_ids = kept p }

has-take : (k : ℕ) (j : ℕ) (xs : List ℕ) → has j xs ≡ false → has j (take k xs) ≡ false
has-take zero j xs h = refl
has-take (suc k) j [] h = refl
has-take (suc k) j (x ∷ xs) h = ground (arith, h, has-take k j xs)

Nodup-take : (k : ℕ) (xs : List ℕ) → Nodup xs → Nodup (take k xs)
Nodup-take zero xs n = tt
Nodup-take (suc k) [] n = tt
Nodup-take (suc k) (x ∷ xs) n = (has-take k x xs n.0, Nodup-take k xs n.1)

kept-IsPool : (p : NodePool) → IsPool p → IsPool (kept_pool p)
kept-IsPool p i =
    let k = bounded (length p.free_node_ids) in
    record {
      nodup = Nodup-take k p.free_node_ids i.nodup;
      known = All-take (λ id. (0 < id) × (id < p.next_node_id)) k p.free_node_ids i.known;
      started = i.started;
      width = i.width;
    }

pub kept-Taken : (p : NodePool) (j : ℕ) → Taken p j → Taken (kept_pool p) j
kept-Taken p j u = (u.0, u.1, has-take (bounded (length p.free_node_ids)) j p.free_node_ids u.2)

free_fit :
    (n : ℕ) (xs : List ℕ)
    → n < 2 ^ 64
    → All (λ id. (0 < id) × (id < n)) xs
    → All (λ id. id < 2 ^ 64) xs
free_fit n [] w h = tt
free_fit n (x ∷ xs) w h = (omega (arith, h.0.1, w), free_fit n xs w h.1)

abbrev pub counted : Storage → Storage
counted s = record s { file = record s.file { ops = s.file.ops + 1 } }

pub read_file_ok :
    (s : Storage) (size offset : ℕ)
    → NoFaults s.file
    → read_file size offset s ≡ ok (take size (drop offset s.file.bytes)) (counted s)
unfolding read_file read_at
read_file_ok s size offset f = ground (arith, f s.file.ops)

padded :
    (page : Bytes)
    → length page ≡ header_size
    → page ++ replicate (header_size - length page) 0 ≡ page
padded page l =
    let none_left : header_size - length page ≡ 0 = omega (arith, l) in
    ap (λ k. page ++ replicate k 0) none_left ∙ append-nil page

read_header_steps :
    (s : Storage) (page : Bytes) (root : ℕ) (pool : NodePool)
    → NoFaults s.file
    → window s.file.bytes 0 ≡ page
    → length page ≡ header_size
    → decode_header page (counted s) ≡ ok (root, pool) (counted s)
    → read_header s ≡ ok tt (record (counted s) { root_node_id = root; node_pool = pool })
unfolding read_header
read_header_steps s page root pool f e l d =
    ground (arith, read_file_ok s header_size 0 f, e, l, padded page l, d)

open_existing :
    (f : File) (order : List ℕ → List ℕ)
    → 0 < length f.bytes
    → open_storage f order ≡ read_header (new_storage f order)
unfolding open_storage
open_existing f order pos = ground (arith, pos)

-- A store that stands for what another one has on disk.
pub record FromDisk (s : Storage) (order : List ℕ → List ℕ) (r : Run (Unit {0})) : Type 0 where
  pub t : Storage
  pub run : r ≡ ok tt t
  pub is : IsStore t
  pub closed : t.transaction ≡ false
  pub root : t.root_node_id ≡ s.root_node_id
  pub taken : (j : ℕ) → Taken s.node_pool j → Taken t.node_pool j
  pub view : (j : ℕ) (n : Node) → Taken s.node_pool j → node_at s j ≡ some n → node_at t j ≡ some n
  pub walk : t.range_order ≡ order
  pub disk : length s.node_pool.free_node_ids ≤ max_free → OnDisk t

module _ (s : Storage) (f : File) (order : List ℕ → List ℕ) (w : IsStore s) (d : OnDisk s)
    (root : s.root_node_id < 2 ^ 64) (same : f.bytes ≡ s.file.bytes) (works : NoFaults f) where
  abbrev opened : Storage
  opened = record (counted (new_storage f order)) {
    root_node_id = s.root_node_id;
    node_pool = kept_pool s.node_pool;
  }

  header : window f.bytes 0 ≡ encode_header s.root_node_id s.node_pool
  header = ap (λ bs. window bs 0) same ∙ d.1

  filled : 0 < length f.bytes
  filled = omega (
    arith,
    ap length header,
    length-encode_header s.root_node_id s.node_pool,
    length-take node_size (drop 0 f.bytes),
    length-drop 0 f.bytes,
  )

  opens : open_storage f order ≡ ok tt opened
  opens =
      open_existing f order filled
      ∙ read_header_steps (new_storage f order) (encode_header s.root_node_id s.node_pool)
          s.root_node_id (kept_pool s.node_pool) works header
          (length-encode_header s.root_node_id s.node_pool)
          (decode_header-encode_header s.root_node_id s.node_pool (counted (new_storage f order))
            root w.pool.width
            (free_fit s.node_pool.next_node_id s.node_pool.free_node_ids w.pool.width w.pool.known))

  stands : (j : ℕ) → Stands [] s j → Stands [] opened j
  stands j (n, e, k, inl listed) = absurd (cc)
  stands j (n, e, k, inr there) =
      let here = ap (λ bs. disk_node bs j) same ∙ there in
      (n, node_at-uncached opened j refl ∙ here, k, inr here)

  sees : (j : ℕ) (n : Node) → node_at s j ≡ some n → Stands [] s j → node_at opened j ≡ some n
  sees j n e (m, v, k, inl listed) = absurd (cc)
  sees j n e (m, v, k, inr there) =
      node_at-uncached opened j refl ∙ ap (λ bs. disk_node bs j) same ∙ there ∙ sym v ∙ e

  all_kept : length s.node_pool.free_node_ids ≤ max_free → kept_pool s.node_pool ≡ s.node_pool
  all_kept fit =
      let ids = s.node_pool.free_node_ids in
      let count : bounded (length ids) ≡ length ids = ground (arith, fit) in
      ap (λ free. record s.node_pool { free_node_ids = free })
        (ap (λ k. take k ids) count
          ∙ ap (take (length ids)) (sym (append-nil ids))
          ∙ take-length ids [] (length ids) refl)

  pub open_storage-FromDisk : FromDisk s order (open_storage f order)
  open_storage-FromDisk = record {
    t = opened;
    run = opens;
    is = record {
      live = λ id p e. absurd (cc);
      pool = kept-IsPool s.node_pool w.pool;
      reads = works;
    };
    closed = refl;
    root = refl;
    walk = refl;
    taken = kept-Taken s.node_pool;
    view = λ j n u e. sees j n e (d.0 j u);
    disk = λ fit.
        let pool = all_kept fit in
        (
          λ j u. stands j (d.0 j (subst (λ p. Taken p j) pool u)),
          header ∙ ap (encode_header s.root_node_id) (sym pool),
        );
  }

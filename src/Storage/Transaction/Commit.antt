-- ===== src/Storage/Transaction/Commit.antt =====
-- `CommitTransaction`: pages are written where they belong, so no id comes to stand for another
-- node; and a commit that fails leaves the transaction open.
use conuredb.Common.{
  eq_of_some, ℕ, ◌+◌, ◌-◌, ◌*◌, ◌%◌, ◌^◌, ◌≤◌, ◌<◌, ◌≡◌, ◌∙◌, ◌≢◌, refl, sym, subst, ap, ltb,
  ltb→lt, ltb→le, none, some, arith, lt→ltb, ◌==◌, ==_iff, Bool-cases, Option-cases, inl, inr, ◌⊎◌,
  List, ◌∷◌, false, if◌then◌else◌, length, length-take, length-drop, drop,
}
use conuredb.Common.Bytes.{Bytes}
use conuredb.Node.{Node, node_size}
use conuredb.Node.Codec.{serialize, deserialize_node}
use conuredb.Pool.{NodePool}
use conuredb.Pool.Fresh.{Taken}
use conuredb.File.{write_at, sync, splice}
use conuredb.File.Splice.{window-splice_apart, window-splice_self}
use conuredb.Storage.{
  Storage, Run, ok, err, Error, node_too_big, not_in_cache, page_offset, write_file, write_node,
  sync_file,
}
use conuredb.Storage.View.{
  node_at, node_at-Points, window, disk_page, disk_node, IsStore, Points, NoFaults, node_at-cached,
  node_at-uncached, load-Points,
}
use conuredb.Node.Sound.{IsSound}
use conuredb.Storage.Backed.{Backed, Stands, Stands-move}
use conuredb.Storage.Objects.{Grow}
use conuredb.Storage.Transaction.{commit_node}

-- A run that ends in one of two ways, never in a panic.
pub data Ends (P : Storage → Type 0) (Q : Error → Storage → Type 0) : Run (Unit {0}) → Type 0 where
  done : (s : Storage) → P s → Ends P Q (ok tt s)
  failed : (e : Error) (s : Storage) → Q e s → Ends P Q (err e s)

-- The ids that fit a file: beyond 2 ^ 51 pages the 64-bit offset is negative or wraps.
abbrev pub IsSmall : NodePool → Type 0
IsSmall p = p.next_node_id ≤ 2 ^ 51

pub page_offset_lem : (id : ℕ) → 0 < id → id < 2 ^ 51 → page_offset id ≡ some (id * node_size)
unfolding page_offset
page_offset_lem id pos small =
    let e : (node_size + (id + (2 ^ 64 - 1)) % 2 ^ 64 * node_size) % 2 ^ 64 ≡ id * node_size =
      omega arith in
    rw e (rw (lt→ltb (id * node_size) (2 ^ 63) (omega arith)))

disk_page-window :
    (bs cs : Bytes) (offset : ℕ)
    → window cs offset ≡ window bs offset
    → disk_page cs offset ≡ disk_page bs offset
unfolding disk_page
disk_page-window bs cs offset e =
    ap (λ w. if length w == node_size then deserialize_node w else none) e

disk_page-full :
    (bs : Bytes) (offset : ℕ) (n : Node)
    → disk_page bs offset ≡ some n
    → offset + node_size ≤ length bs
unfolding disk_page
disk_page-full bs offset n e = elim (Bool-cases (length (window bs offset) == node_size)) [
  | inr short ↦ absurd (ground arith)
  | inl full ↦
      let l : length (window bs offset) ≡ node_size = (==_iff _ _).0 full in
      omega (arith, l, length-take node_size (drop offset bs), length-drop offset bs)
]

pub disk_node_page :
    (bs : Bytes) (j : ℕ) → 0 < j → j < 2 ^ 51 → disk_node bs j ≡ disk_page bs (j * node_size)
unfolding disk_node
disk_node_page bs j pos small = ground (arith, page_offset_lem j pos small)

pub disk_page_self :
    (bs page : Bytes) (offset : ℕ) (n : Node)
    → length page ≡ node_size
    → deserialize_node page ≡ some n
    → disk_page (splice bs offset page) offset ≡ some n
unfolding disk_page
disk_page_self bs page offset n l e =
    ground (arith, window-splice_self bs page offset node_size (sym l), l, e)

-- The file with one page more written.
abbrev pub paged : Storage → ℕ → Bytes → Storage
paged s offset page = record s {
  file = record s.file { bytes = splice s.file.bytes offset page; ops = s.file.ops + 1 };
}

abbrev pub Apart : ℕ → ℕ → Bytes → Type 0
Apart j offset page = (j * node_size + node_size ≤ offset) ⊎ (offset + length page ≤ j * node_size)

-- A page apart from that of an id leaves what the file holds for it.
pub disk_node-Apart :
    (bs : Bytes) (offset : ℕ) (page : Bytes) (j : ℕ) (n : Node)
    → 0 < j
    → j < 2 ^ 51
    → Apart j offset page
    → disk_node bs j ≡ some n
    → disk_node (splice bs offset page) j ≡ some n
disk_node-Apart bs offset page j n pos small apart e =
    let old : disk_page bs (j * node_size) ≡ some n = sym (disk_node_page bs j pos small) ∙ e in
    disk_node_page (splice bs offset page) j pos small
    ∙ disk_page-window bs (splice bs offset page) (j * node_size) (
        window-splice_apart bs page offset (j * node_size) node_size
          (disk_page-full bs (j * node_size) n old) apart)
    ∙ old

-- A page written apart from every uncached id changes no view.
module _ (s : Storage) (offset : ℕ) (page : Bytes) (w : IsStore s) (small : IsSmall s.node_pool)
    (apart : (j : ℕ) → Taken s.node_pool j → s.node_cache j ≡ none → Apart j offset page) where
  paged-view :
      (j : ℕ) (n : Node)
      → Taken s.node_pool j
      → node_at s j ≡ some n
      → node_at (paged s offset page) j ≡ some n
  paged-view j n u e = elim (Option-cases (s.node_cache j)) [
    | inr (p, c) ↦ node_at-cached (paged s offset page) j p c ∙ sym (node_at-cached s j p c) ∙ e
    | inl c ↦
        node_at-uncached (paged s offset page) j c
        ∙ disk_node-Apart s.file.bytes offset page j n u.0 (omega (arith, u.1)) (apart j u c)
            (sym (node_at-uncached s j c) ∙ e)
  ]

  pub Grow-paged :
      (Backed s.dirty_nodes s → Backed s.dirty_nodes (paged s offset page))
      → Grow 0 s (paged s offset page)
  Grow-paged backed = record {
    taken = λ j u. u;
    view = paged-view;
    keeps = λ p j n u e. record { cached = e.cached; holds = e.holds };
    next = omega arith;
    transaction = refl;
    root = refl;
    order = refl;
    is = record { live = w.live; pool = w.pool; reads = w.reads };
    backed = backed;
  }

  -- A page apart from those of all ids.
  pub paged-Backed :
      (ids : List ℕ)
      → ((j : ℕ) → Taken s.node_pool j → Apart j offset page)
      → Backed ids s
      → Backed ids (paged s offset page)
  paged-Backed ids off b j u =
      Stands-move ids ids s (paged s offset page) j (λ n e. paged-view j n u e) (λ h. h)
        (λ n e. disk_node-Apart s.file.bytes offset page j n u.0 (omega (arith, u.1)) (off j u) e)
        (b j u)

  -- The page of an id, which need not be listed any more.
  pub own_page-Backed :
      (ids : List ℕ) (id p : ℕ) (n : Node)
      → Points s p id n
      → offset ≡ id * node_size
      → length page ≡ node_size
      → (IsSound n → deserialize_node page ≡ some n)
      → Backed (id ∷ ids) s
      → Backed ids (paged s offset page)
  own_page-Backed ids id p n pt at l back b j u = elim (Bool-cases (id == j)) [
    | inl same ↦
        let here : id ≡ j = (==_iff id j).0 same in
        let v = subst (Taken s.node_pool) (sym here) u in
        let k = sound (b id v) in
        subst (Stands ids (paged s offset page)) here (
          n,
          paged-view id n v (node_at-Points s p id n pt),
          k,
          inr (
              disk_node_page (splice s.file.bytes offset page) id v.0 (omega (arith, v.1))
              ∙ ap (λ o. disk_page (splice s.file.bytes offset page) o) (sym at)
              ∙ disk_page_self s.file.bytes page offset n l (back k)),
        )
    | inr other ↦
        Stands-move (id ∷ ids) ids s (paged s offset page) j (λ x e. paged-view j x u e)
          (λ h. ground (arith, h, other))
          (λ x e.
            disk_node-Apart s.file.bytes offset page j x u.0 (omega (arith, u.1)) (off j other) e)
          (b j u)
  ]
    where
      sound : Stands (id ∷ ids) s id → IsSound n
      sound (x, e, k, place) = subst IsSound (eq_of_some (sym e ∙ node_at-Points s p id n pt)) k

      off : (j : ℕ) → (id == j) ≡ false → Apart j offset page
      off j o = elim (Bool-cases (ltb j id)) [
        | inl lt ↦ inl (omega (arith, ltb→lt j id lt, at))
        | inr ge ↦
            let ne : id ≢ j = λ q. cc (o, (==_iff id j).1 q) in
            inr (omega (arith, l, ltb→le j id ge, ne, at))
      ]

pub write_file_ok :
    (s : Storage) (bs : Bytes) (offset : ℕ)
    → NoFaults s.file
    → write_file bs offset s ≡ ok tt (paged s offset bs)
unfolding write_file write_at
write_file_ok s bs offset f = ground (arith, f s.file.ops)

pub sync_file_ok :
    (s : Storage)
    → NoFaults s.file
    → sync_file s ≡ ok tt (record s { file = record s.file { ops = s.file.ops + 1 } })
unfolding sync_file sync
sync_file_ok s f = ground (arith, f s.file.ops)

pub write_node_ok :
    (s : Storage) (n : Node) (page : Bytes) (id : ℕ)
    → NoFaults s.file
    → n.id ≡ id
    → 0 < id
    → id < 2 ^ 51
    → serialize n ≡ some page
    → write_node n s ≡ ok tt (paged s (id * node_size) page)
unfolding write_node
write_node_ok s n page id f own pos small e =
    ground (arith, e, own, page_offset_lem id pos small, write_file_ok s page (id * node_size) f)

pub write_node_big :
    (s : Storage) (n : Node) → serialize n ≡ none → write_node n s ≡ err node_too_big s
unfolding write_node
write_node_big s n e = ground (arith, e)

pub commit_node_absent :
    (s : Storage) (id : ℕ) → s.node_cache id ≡ none → commit_node id s ≡ err not_in_cache s
unfolding commit_node
commit_node_absent s id c = ground (arith, c)

pub commit_node_present :
    (s : Storage) (id p : ℕ) (n : Node) → Points s p id n → commit_node id s ≡ write_node n s
unfolding commit_node
commit_node_present s id p n h = ground (arith, h.cached, load-Points s p id n h)

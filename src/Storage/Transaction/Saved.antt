-- ===== src/Storage/Transaction/Saved.antt =====
-- When a commit succeeds.
use conuredb.Common.{
  ℕ, ◌+◌, ◌*◌, ◌≤◌, ◌≡◌, ◌∙◌, refl, ap, true, false, List, [], ◌∷◌, arith, inl, inr, Option-cases,
  All, ==_refl,
}
use conuredb.Node.{Node, node_size}
use conuredb.Node.Codec.{serialize}
use conuredb.Node.Layout.{serialize_size, page_content}
use conuredb.Pool.{has}
use conuredb.File.{File}
use conuredb.Storage.{Storage, Run, ok, and_then}
use conuredb.Storage.View.{IsStore, Points, NoFaults, id-Points}
use conuredb.Storage.Session.{session}
use conuredb.Storage.Header.{write_header, encode_header}
use conuredb.Storage.Transaction.{commit_node, commit_nodes, commit_pages, commit_transaction}
use conuredb.Storage.Transaction.Commit.{
  IsSmall, paged, write_file_ok, sync_file_ok, write_node_ok, commit_node_present,
}

-- An id that the cache holds a node for, which fits its page.
pub record IsReady (s : Storage) (id : ℕ) : Type 0 where
  pub p : ℕ
  pub n : Node
  pub points : Points s p id n
  pub fits : page_content n ≤ node_size

-- The walk over a map visits only ids of the map.
abbrev pub Visits : (List ℕ → List ℕ) → Type 0
Visits order = (ids : List ℕ) (j : ℕ) → has j (order ids) ≡ true → has j ids ≡ true

All-of_has : {P : ℕ → Type 0} → (ids : List ℕ) → ((j : ℕ) → has j ids ≡ true → P j) → All P ids
All-of_has [] f = tt
All-of_has (i ∷ ids) f =
    (f i (ground (arith, ==_refl i)), All-of_has ids (λ j e. f j (ground (arith, e))))

-- The nodes behind a set of ids that are all cached and fit their pages.
pub IsReady-visited :
    (s : Storage)
    → Visits s.range_order
    → ((j : ℕ) → has j s.dirty_nodes ≡ true → IsReady s j)
    → All (IsReady s) (s.range_order s.dirty_nodes)
IsReady-visited s v f = All-of_has (s.range_order s.dirty_nodes) (λ j e. f j (v s.dirty_nodes j e))

-- The store on another file.
abbrev pub on_file : Storage → File → Storage
on_file s f = record s { file = f }

All-on_file :
    (s : Storage) (f : File) (ids : List ℕ) → All (IsReady s) ids → All (IsReady (on_file s f)) ids
All-on_file s f [] r = tt
All-on_file s f (id ∷ ids) r =
    let pt = r.0.points in
    (
      record {
        p = r.0.p;
        n = r.0.n;
        points = record { cached = pt.cached; holds = pt.holds };
        fits = r.0.fits;
      },
      All-on_file s f ids r.1,
    )

-- A run that writes to the file alone.
abbrev pub Writes : Storage → Run (Unit {0}) → Type 0
Writes s r = (f : File) × NoFaults f × (r ≡ ok tt (on_file s f))

commit_node-Writes :
    (s : Storage) (id : ℕ)
    → IsStore s
    → IsSmall s.node_pool
    → IsReady s id
    → Writes s (commit_node id s)
commit_node-Writes s id w small r = elim (Option-cases (serialize r.n)) [
  | inl e ↦ absurd (omega (arith, (serialize_size r.n).0.0 e, r.fits))
  | inr (page, e) ↦
      let (lt, u, live) = w.live id r.p r.points.cached in
      (
        (paged s (id * node_size) page).file,
        w.reads,
        commit_node_present s id r.p r.n r.points
            ∙ write_node_ok s r.n page id w.reads (id-Points s r.p id r.n w r.points) u.0
                (omega (arith, u.1)) e,
      )
]

commit_nodes-Writes :
    (s : Storage) (ids : List ℕ)
    → IsStore s
    → IsSmall s.node_pool
    → All (IsReady s) ids
    → Writes s (commit_nodes ids s)
unfolding commit_nodes
commit_nodes-Writes s [] w small r = (s.file, w.reads, refl)
commit_nodes-Writes s (id ∷ ids) w small r =
    let (f, works, one) = commit_node-Writes s id w small r.0 in
    let (g, still, rest) =
      commit_nodes-Writes (on_file s f) ids (record { live = w.live; pool = w.pool; reads = works })
        small (All-on_file s f ids r.1) in
    (g, still, ap (λ x. and_then x (λ _. commit_nodes ids)) one ∙ rest)

-- A run that writes to the file and closes the transaction, and does nothing else.
abbrev pub IsSaved : Storage → Run (Unit {0}) → Type 0
IsSaved s r =
    (f : File) × NoFaults f
    × (r ≡ ok tt (session (on_file s f) false [] s.original_root s.root_node_id))

-- On a well-formed store with a transaction open, whose file answers every operation and whose ids fit
-- the file, a commit returns nil if the cache holds every dirty node and each fits its page. It closes
-- the transaction, empties the dirty set and changes nothing else but the file.
pub commit_transaction-IsSaved :
    (s : Storage)
    → IsStore s
    → IsSmall s.node_pool
    → s.transaction ≡ true
    → All (IsReady s) (s.range_order s.dirty_nodes)
    → IsSaved s (commit_transaction s)
unfolding commit_transaction commit_pages write_header
commit_transaction-IsSaved s w small begun ready =
    let (f, works, nodes) = commit_nodes-Writes s (s.range_order s.dirty_nodes) w small ready in
    let t = paged (on_file s f) 0 (encode_header s.root_node_id s.node_pool) in
    (
      record t.file { ops = t.file.ops + 1 },
      works,
      ground (
        arith,
        begun,
        nodes,
        write_file_ok (on_file s f) (encode_header s.root_node_id s.node_pool) 0 works,
        sync_file_ok t works,
      ),
    )

-- ===== src/Storage/Transaction/Kept.antt =====
-- What a whole commit keeps.
use conuredb.Common.{
  ℕ, ◌+◌, ◌*◌, ◌≤◌, ◌≡◌, ◌≢◌, ◌∙◌, refl, sym, subst, ap, Bool, true, false, none, some, List, [],
  ◌∷◌, arith, ltb, ltb→lt, ltb→le, Bool-cases, Option-cases, inl, inr, ◌⊎◌, length,
}
use conuredb.Common.Bytes.{Bytes}
use conuredb.Node.{Node, node_size}
use conuredb.Node.Codec.{serialize, deserialize_node}
use conuredb.Node.Layout.{serialize_size, page_content}
use conuredb.Node.Sound.{IsSound, IsSound-IsStorable}
use conuredb.Node.RoundTrip.{deserialize_node-serialize}
use conuredb.File.Splice.{window-splice_self}
use conuredb.Pool.{has}
use conuredb.Storage.Backed.{Backed, Stands-move, Backed-more}
use conuredb.Pool.Fresh.{Taken}
use conuredb.Storage.{Storage, Run, Error, node_too_big, not_in_cache, and_then, sync_file}
use conuredb.Storage.View.{node_at, window, Same, IsStore, Points}
use conuredb.Storage.Objects.{Grow, Grow-refl, Grow-trans}
use conuredb.Storage.Session.{session}
use conuredb.Storage.Header.{write_header, encode_header, length-encode_header}
use conuredb.Storage.Transaction.{commit_node, commit_nodes, commit_pages, commit_transaction}
use conuredb.Storage.Transaction.Commit.{
  Ends, done, failed, IsSmall, paged, Grow-paged, paged-Backed, own_page-Backed, write_file_ok,
  sync_file_ok, write_node_ok, write_node_big, commit_node_absent, commit_node_present,
}

-- A part of a commit ends with every id standing for what it stood for, whether it fails or not, and
-- with `Q` if it does not.
abbrev Keeps : (Storage → Type 0) → Storage → Run (Unit {0}) → Type 0
Keeps Q s = Ends (λ t. Grow 0 s t × Q t) (λ e t. Grow 0 s t)

bind-Keeps :
    (Q R : Storage → Type 0) (s : Storage) (r : Run (Unit {0})) (k : Storage → Run (Unit {0}))
    → Keeps Q s r
    → ((t : Storage) → Grow 0 s t → Q t → Keeps R t (k t))
    → Keeps R s (and_then r (λ _. k))
bind-Keeps Q R s r k (failed e t g) next = failed e t g
bind-Keeps Q R s r k (done t (g, q)) next = after_first (k t) g (next t g q)
  where
    after_first : {t : Storage} (r : Run (Unit {0})) → Grow 0 s t → Keeps R t r → Keeps R s r
    after_first r g (done u (f, z)) = done u (Grow-trans g f, z)
    after_first r g (failed e u f) = failed e u (Grow-trans g f)

-- The page of one id is on disk.
abbrev Written : ℕ → Storage → Storage → Type 0
Written id s t = (ids : List ℕ) → Backed (id ∷ ids) s → Backed ids t

-- A sound node's page reads back.
page_back :
    (n : Node) (page : Bytes) → serialize n ≡ some page → IsSound n → deserialize_node page ≡ some n
page_back n page e k =
    let fits : page_content n ≤ node_size = ground (arith, e, (serialize_size n).0) in
    let (other, f, back) = deserialize_node-serialize n (IsSound-IsStorable n k fits) in
    let same : other ≡ page = cc in subst (λ bs. deserialize_node bs ≡ some n) same back

commit_node-Keeps :
    (s : Storage) (id : ℕ)
    → IsStore s
    → IsSmall s.node_pool
    → Keeps (Written id s) s (commit_node id s)
commit_node-Keeps s id w small = elim (Option-cases (s.node_cache id)) [
  | inl c ↦ rw (commit_node_absent s id c) (failed not_in_cache s (Grow-refl s w))
  | inr (p, c) ↦
      let (lt, u, (n, holds, own)) = w.live id p c in
      let pt : Points s p id n = record { cached = c; holds = holds } in
      rw (commit_node_present s id p n pt) (elim (Option-cases (serialize n)) [
        | inl e ↦ rw (write_node_big s n e) (failed node_too_big s (Grow-refl s w))
        | inr (page, e) ↦
            let l = (serialize_size n).1 page e in
            let off = apart p c page l in
            let listed : Written id s (paged s (id * node_size) page) = λ ids.
              own_page-Backed s (id * node_size) page w small off ids id p n pt refl l
                (page_back n page e) in
            rw (write_node_ok s n page id w.reads own u.0 (omega (arith, u.1)) e) (
              done (paged s (id * node_size) page) (
                Grow-paged s (id * node_size) page w small off (λ b. listed s.dirty_nodes (
                    Backed-more s.dirty_nodes (id ∷ s.dirty_nodes) s (λ j h. ground (arith, h)) b)),
                listed,
              ))
      ])
]
  where
    apart :
        (p : ℕ)
        → s.node_cache id ≡ some p
        → (page : Bytes) → length page ≡ node_size
        → (j : ℕ) → Taken s.node_pool j
        → s.node_cache j ≡ none
        → (j * node_size + node_size ≤ id * node_size)
          ⊎ (id * node_size + length page ≤ j * node_size)
    apart p c page l j u d = elim (Bool-cases (ltb j id)) [
      | inl lt ↦ inl (omega (arith, ltb→lt j id lt))
      | inr ge ↦
          let other : j ≢ id = λ q. cc (c, d, ap s.node_cache q) in
          inr (omega (arith, l, ltb→le j id ge, other))
    ]

commit_nodes-Keeps :
    (s : Storage) (ids : List ℕ)
    → IsStore s
    → IsSmall s.node_pool
    → Keeps (λ t. Backed ids s → Backed [] t) s (commit_nodes ids s)
unfolding commit_nodes
commit_nodes-Keeps s [] w small = done s (Grow-refl s w, λ b. b)
commit_nodes-Keeps s (id ∷ ids) w small =
    bind-Keeps (Written id s) (λ t. Backed (id ∷ ids) s → Backed [] t) s (commit_node id s)
      (commit_nodes ids) (commit_node-Keeps s id w small)
      (λ t g q.
        weaken t (commit_nodes ids t) (q ids)
          (commit_nodes-Keeps t ids g.is (omega (arith, g.next))))
  where
    weaken :
        (t : Storage) (r : Run (Unit {0}))
        → (Backed (id ∷ ids) s → Backed ids t)
        → Keeps (λ u. Backed ids t → Backed [] u) t r
        → Keeps (λ u. Backed (id ∷ ids) s → Backed [] u) t r
    weaken t r q (done u (g, z)) = done u (g, λ b. z (q b))
    weaken t r q (failed e u g) = failed e u g

-- The header on disk is that of the store.
abbrev pub HasHeader : Storage → Type 0
HasHeader s = window s.file.bytes 0 ≡ encode_header s.root_node_id s.node_pool

write_header-Keeps :
    (s : Storage)
    → IsStore s
    → IsSmall s.node_pool
    → Keeps (λ t. HasHeader t × (Backed [] s → Backed [] t)) s (write_header s)
unfolding write_header
write_header-Keeps s w small =
    let page = encode_header s.root_node_id s.node_pool in
    let l = length-encode_header s.root_node_id s.node_pool in
    let off : (j : ℕ)
        → Taken s.node_pool j
        → (j * node_size + node_size ≤ 0) ⊎ (0 + length page ≤ j * node_size) =
      λ j u. inr (omega (arith, u.0, l)) in
    let kept : (ids : List ℕ) → Backed ids s → Backed ids (paged s 0 page) =
      λ ids. paged-Backed s 0 page w small (λ j u c. off j u) ids off in
    rw (write_file_ok s page 0 w.reads) (
      done (paged s 0 page) (
        Grow-paged s 0 page w small (λ j u c. off j u) (kept s.dirty_nodes),
        (window-splice_self s.file.bytes page 0 node_size (sym l), kept []),
      ))

pub Grow-counted :
    (s : Storage)
    → IsStore s
    → Grow 0 s (record s { file = record s.file { ops = s.file.ops + 1 } })
unfolding node_at
Grow-counted s w = record {
  taken = λ j u. u;
  view = λ j n u e. e;
  keeps = λ p j n u e. record { cached = e.cached; holds = e.holds };
  next = omega arith;
  transaction = refl;
  root = refl;
  order = refl;
  is = record { live = w.live; pool = w.pool; reads = w.reads };
  backed = λ b. b;
}

-- Every id in use stands for a node on disk, under the header of the store.
abbrev pub OnDisk : Storage → Type 0
OnDisk s = Backed [] s × HasHeader s

pub OnDisk-Same : (s t : Storage) → Same s t → OnDisk s → OnDisk t
OnDisk-Same s t e (b, header) = (
  λ j u.
      Stands-move [] [] s t j (e.view j) (λ h. h) (λ n d. rw e.bytes d)
        (b j (rw (← e.node_pool) u)),
  ap (λ bs. window bs 0) e.bytes
      ∙ header
      ∙ ap (λ r. encode_header r s.node_pool) (sym e.root)
      ∙ ap (encode_header t.root_node_id) (sym e.node_pool),
)

pub OnDisk-session :
    (s : Storage) (active : Bool) (original root : ℕ)
    → root ≡ s.root_node_id
    → OnDisk s
    → OnDisk (session s active [] original root)
unfolding node_at
OnDisk-session s active original root e (b, header) =
    (b, header ∙ ap (λ r. encode_header r s.node_pool) (sym e))

sync_file-Keeps : (s : Storage) → IsStore s → Keeps (λ t. OnDisk s → OnDisk t) s (sync_file s)
unfolding node_at
sync_file-Keeps s w =
    rw (sync_file_ok s w.reads)
      (done (record s { file = record s.file { ops = s.file.ops + 1 } }) (Grow-counted s w, λ b. b))

-- The order in which a map is walked reaches every id.
abbrev pub Fair : (List ℕ → List ℕ) → Type 0
Fair order = (ids : List ℕ) (j : ℕ) → has j ids ≡ true → has j (order ids) ≡ true

-- What a commit that succeeds puts on disk.
abbrev pub Saves : Storage → Storage → Type 0
Saves s u = Fair s.range_order → Backed s.dirty_nodes s → OnDisk u

abbrev pub Committed : Storage → Storage → Type 0
Committed s t =
    (u : Storage) × Grow 0 s u × Saves s u × (t ≡ session u false [] u.original_root u.root_node_id)

abbrev pub StaysOpen : Storage → Error → Storage → Type 0
StaysOpen s e t = Grow 0 s t × (t.transaction ≡ true)

-- One part of the commit after what came before.
then_Ends :
    (Q : Storage → Type 0) (s t : Storage) (r : Run (Unit {0})) (k : Storage → Run (Unit {0}))
    → s.transaction ≡ true
    → Grow 0 s t
    → Keeps Q t r
    → ((u : Storage) → Grow 0 s u → Q u → Ends (Committed s) (StaysOpen s) (k u))
    → Ends (Committed s) (StaysOpen s) (and_then r (λ _. k))
then_Ends Q s t r k tr f (failed e u g) next =
    failed e u (Grow-trans f g, g.transaction ∙ f.transaction ∙ tr)
then_Ends Q s t r k tr f (done u (g, q)) next = next u (Grow-trans f g) q

commit_open : (s : Storage) → s.transaction ≡ true → commit_transaction s ≡ commit_pages s
unfolding commit_transaction
commit_open s tr = ground (arith, tr)

-- On a well-formed store whose file answers and whose ids fit the file, a commit either ends with
-- the transaction closed and nothing dirty, or returns an error and leaves the transaction open; it
-- does not panic. On both ways every id in use stands for the node it stood for before, the root id
-- is the same and the store stays well formed, whatever the order in which the map of dirty nodes
-- is walked. If every id in use stood for a sound node, dirty or on disk, and the walk reaches every
-- dirty node, then a commit that succeeds has all of these nodes on disk, under the store's header.
pub commit_transaction-Ends :
    (s : Storage)
    → IsStore s
    → IsSmall s.node_pool
    → s.transaction ≡ true
    → Ends (Committed s) (StaysOpen s) (commit_transaction s)
unfolding commit_pages
commit_transaction-Ends s w small tr =
    let ids = s.range_order s.dirty_nodes in
    rw (commit_open s tr) (
      then_Ends (λ t. Backed ids s → Backed [] t) s s (commit_nodes ids s) _ tr (Grow-refl s w)
        (commit_nodes-Keeps s ids w small)
        λ t g nodes.
          then_Ends (λ u. HasHeader u × (Backed [] t → Backed [] u)) s t (write_header t) _ tr g
            (write_header-Keeps t g.is (omega (arith, g.next)))
            λ u f (header, pages).
              then_Ends (λ v. OnDisk u → OnDisk v) s u (sync_file u) _ tr f (sync_file-Keeps u f.is)
                λ v last synced. done (session v false [] v.original_root v.root_node_id) (
                  v,
                  last,
                  λ fair b. synced (
                    pages (nodes (Backed-more s.dirty_nodes ids s (fair s.dirty_nodes) b)),
                    header,
                  ),
                  refl,
                ))

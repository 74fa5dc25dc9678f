-- ===== src/Storage/Objects.antt =====
-- What the operations on nodes do to the ids that are in use: `CloneNode`, a write through a
-- pointer and `PutNode`, inside a transaction.
pub mod Written
use conuredb.Common.{
  eq_of_some, ℕ, ◌+◌, ◌≤◌, ◌<◌, ◌^◌, ◌≡◌, ◌≢◌, ◌∙◌, refl, sym, ap, subst, inl, inr, ◌⊎◌, true,
  false, some, List, [], arith, ◌==◌, ==_iff, ==_refl, Bool-cases, Option-cases,
}
use conuredb.Node.{Node, leaf_node, internal_node, new_leaf_node, new_internal_node}
use conuredb.Pool.{allocate, has}
use conuredb.Pool.Fresh.{Taken, Allocated, allocate-Allocated}
use conuredb.Storage.{
  Storage, ok, update, update_self, load, store, new_object, cache, mark_dirty, add_dirty,
  allocate_id, put_node, copy_of, clone_node,
}
use conuredb.Node.Sound.{IsSound}
use conuredb.Storage.Backed.{
  Backed, Stands, Stands-move, has-add_dirty_self, has-add_dirty, of_add_dirty, copy_of-IsSound,
  copy_of-leaf, copy_of-branch,
}
use conuredb.Storage.Sized.{IsSized, FitsPage, FitsPage-copy_of, FitsPage-Points}
use conuredb.Storage.View.{
  node_at, IsStore, Points, Same, with_new, Points-with_new, with_new-keeps, with_new-view,
  with_new-live, eq_of_cached, node_at-cached, node_at-uncached, node_at-Points,
}

-- From `s` to `t` at most `k` ids are handed out, and every id in use keeps its object.
pub record Grow (k : ℕ) (s t : Storage) : Type 0 where
  pub taken : (j : ℕ) → Taken s.node_pool j → Taken t.node_pool j
  pub view : (j : ℕ) (n : Node) → Taken s.node_pool j → node_at s j ≡ some n → node_at t j ≡ some n
  pub keeps : (p j : ℕ) (n : Node) → Taken s.node_pool j → Points s p j n → Points t p j n
  pub next : t.node_pool.next_node_id ≤ s.node_pool.next_node_id + k
  pub transaction : t.transaction ≡ s.transaction
  pub root : t.root_node_id ≡ s.root_node_id
  pub order : t.range_order ≡ s.range_order
  pub is : IsStore t
  pub backed : Backed s.dirty_nodes s → Backed t.dirty_nodes t

pub Grow-refl : (s : Storage) → IsStore s → Grow 0 s s
Grow-refl s w = record {
  taken = λ j h. h;
  view = λ j n h e. e;
  keeps = λ p j n h e. e;
  next = omega arith;
  transaction = refl;
  root = refl;
  order = refl;
  is = w;
  backed = λ b. b;
}

pub Grow-trans : {k l : ℕ} {s t u : Storage} → Grow k s t → Grow l t u → Grow (k + l) s u
Grow-trans a b = record {
  taken = λ j h. b.taken j (a.taken j h);
  view = λ j n h e. b.view j n (a.taken j h) (a.view j n h e);
  keeps = λ p j n h e. b.keeps p j n (a.taken j h) (a.keeps p j n h e);
  next = omega (arith, a.next, b.next);
  transaction = b.transaction ∙ a.transaction;
  root = b.root ∙ a.root;
  order = b.order ∙ a.order;
  is = b.is;
  backed = λ x. b.backed (a.backed x);
}

pub Grow-mono : (k l : ℕ) (s t : Storage) → k ≤ l → Grow k s t → Grow l s t
Grow-mono k l s t h a = record {
  taken = a.taken;
  view = a.view;
  keeps = a.keeps;
  next = omega (arith, a.next);
  transaction = a.transaction;
  root = a.root;
  order = a.order;
  is = a.is;
  backed = a.backed;
}

Backed-Same : (s t : Storage) → Same s t → Backed s.dirty_nodes s → Backed t.dirty_nodes t
Backed-Same s t e b j u =
    Stands-move s.dirty_nodes t.dirty_nodes s t j (e.view j) (λ h. rw e.dirty h)
      (λ n d. rw e.bytes d) (b j (rw (← e.node_pool) u))

pub Grow-of_Same : (s t : Storage) → Same s t → IsStore t → Grow 0 s t
Grow-of_Same s t e w = record {
  taken = λ j h. rw e.node_pool h;
  view = λ j n h k. e.view j n k;
  keeps = λ p j n h k. e.keeps p j n k;
  next = rw e.node_pool (omega arith);
  transaction = e.transaction;
  root = e.root;
  order = e.order;
  is = w;
  backed = λ b. Backed-Same s t e b;
}

pub id-copy_of : (n : Node) (id : ℕ) → (copy_of n id).id ≡ id
unfolding copy_of new_leaf_node new_internal_node
id-copy_of n id = ground arith

-- `CloneNode` through the pointer of an id.
pub record Cloned (s : Storage) (p : ℕ) (n : Node) : Type 0 where
  pub q : ℕ
  pub id : ℕ
  pub t : Storage
  pub run : clone_node p s ≡ ok q t
  pub points : Points t q id (copy_of n id)
  pub fresh : ¬ Taken s.node_pool id
  pub taken : Taken t.node_pool id
  pub dirty : has id t.dirty_nodes ≡ true
  pub sized : IsSized s → IsSized t
  pub grow : Grow 1 s t

-- A leaf without children, or a branch.
abbrev pub IsShaped : Node → Type 0
IsShaped n = ((n.node_type ≡ leaf_node) × (n.children ≡ [])) ⊎ (n.node_type ≡ internal_node)

copy_of-renamed : (n : Node) (id : ℕ) → IsShaped n → copy_of n id ≡ record n { id = id }
copy_of-renamed n id (inl (t, c)) =
    copy_of-leaf n id t
    ∙ sym (ap (λ ty. record n { id = id; node_type = ty; children = [] }) t)
    ∙ ap (λ cs. record n { id = id; children = cs }) (sym c)
copy_of-renamed n id (inr t) =
    copy_of-branch n id t ∙ ap (λ ty. record n { id = id; node_type = ty }) (sym t)

clone_steps :
    (s : Storage) (p : ℕ) (n : Node)
    → s.heap p ≡ some n
    → s.transaction ≡ true
    → let id = (allocate s.node_pool).0 in
      let r = record s { node_pool = (allocate s.node_pool).1 } in
      clone_node p s
      ≡ ok s.next_ptr
          (record (with_new r id (copy_of n id)) { dirty_nodes = add_dirty id s.dirty_nodes })
unfolding clone_node allocate_id load new_object cache mark_dirty
clone_steps s p n h e = ground arith

pub clone_node-Cloned :
    (s : Storage) (p i : ℕ) (n : Node)
    → IsStore s
    → Points s p i n
    → s.transaction ≡ true
    → s.node_pool.next_node_id + 1 < 2 ^ 64
    → Cloned s p n
clone_node-Cloned s p i n w h e k = record {
  q = s.next_ptr;
  id = id;
  t = t;
  run = clone_steps s p n h.holds e;
  points = record {
    cached = (Points-with_new r id c w').cached;
    holds = (Points-with_new r id c w').holds;
  };
  fresh = a.fresh;
  taken = a.taken;
  dirty = has-add_dirty_self id s.dirty_nodes;
  sized = λ z. record { fits = sizes z; cached = caches z };
  grow = record {
    taken = a.keeps;
    view = λ j m u v. unfold node_at in with_new-view r id c w' j m (apart j u) v;
    keeps = λ q j m u v.
        let x =
          with_new-keeps r id c w' q j m (apart j u)
            (record { cached = v.cached; holds = v.holds }) in
        record { cached = x.cached; holds = x.holds };
    next = a.next;
    transaction = refl;
    root = refl;
    order = refl;
    backed = backed;
    is = record {
      live = with_new-live r id c w' (id-copy_of n id) a.taken;
      pool = a.pool;
      reads = w.reads;
    };
  };
}
  where
    id : ℕ
    id = (allocate s.node_pool).0

    r : Storage
    r = record s { node_pool = (allocate s.node_pool).1 }

    c : Node
    c = copy_of n id

    t : Storage
    t = record (with_new r id c) { dirty_nodes = add_dirty id s.dirty_nodes }

    a : Allocated s.node_pool id (allocate s.node_pool).1
    a = allocate-Allocated s.node_pool w.pool k

    w' : IsStore r
    w' = record {
      live = λ j p e.
          let (lt, u, (m, holds, own)) = w.live j p e in (lt, a.keeps j u, (m, holds, own));
      pool = a.pool;
      reads = w.reads;
    }

    apart : (j : ℕ) → Taken s.node_pool j → j ≢ id
    apart j u eq = a.fresh (rw (← eq) u)

    at_new : node_at t id ≡ some c
    at_new =
        unfold node_at in
        node_at-Points (with_new r id c) s.next_ptr id c (Points-with_new r id c w')

    before : (j : ℕ) → j ≢ id → (j ≡ id) ⊎ Taken s.node_pool j → Taken s.node_pool j
    before j ne (inl q) = absurd (ne q)
    before j ne (inr u) = u

    sound : Stands s.dirty_nodes s i → IsSound n
    sound (x, e, k, place) = subst IsSound (eq_of_some (sym e ∙ node_at-Points s p i n h)) k

    backed : Backed s.dirty_nodes s → Backed t.dirty_nodes t
    backed b j u = elim (Bool-cases (j == id)) [
      | inl same ↦
          let here : j ≡ id = (==_iff j id).0 same in
          (
            c,
            ap (node_at t) here ∙ at_new,
            copy_of-IsSound n id (sound (b i (w.live i p h.cached).1))
                (omega (arith, a.taken, a.pool.width)),
            inl (rw here (has-add_dirty_self id s.dirty_nodes)),
          )
      | inr other ↦
          let ne : j ≢ id = λ q. cc (other, (==_iff j id).1 q) in
          Stands-move s.dirty_nodes t.dirty_nodes s t j
            (λ x v. unfold node_at in with_new-view r id c w' j x ne v)
            (has-add_dirty j id s.dirty_nodes) (λ x d. d) (b j (before j ne (a.only j u)))
    ]

    sizes :
        IsSized s → (j : ℕ) → Taken t.node_pool j → (x : Node) × (node_at t j ≡ some x) × FitsPage x
    sizes z j u = elim (Bool-cases (j == id)) [
      | inl same ↦ (
        c,
        ap (node_at t) ((==_iff j id).0 same) ∙ at_new,
        FitsPage-copy_of n id (FitsPage-Points s p i n z (w.live i p h.cached).1 h),
      )
      | inr other ↦
          let ne : j ≢ id = λ q. cc (other, (==_iff j id).1 q) in
          let (x, v, k) = z.fits j (before j ne (a.only j u)) in
          (x, unfold node_at in with_new-view r id c w' j x ne v, k)
    ]

    old_dirty :
        (j : ℕ) → (j == id) ≡ false → has j t.dirty_nodes ≡ true → has j s.dirty_nodes ≡ true
    old_dirty j other d = of_add_dirty j id s.dirty_nodes other d

    caches :
        IsSized s → (j : ℕ) → has j t.dirty_nodes ≡ true → (q : ℕ) × (x : Node) × Points t q j x
    caches z j d = elim (Bool-cases (j == id)) [
      | inl same ↦
          let pt = Points-with_new r id c w' in
          let here : j ≡ id = (==_iff j id).0 same in
          (s.next_ptr, c, record { cached = ap t.node_cache here ∙ pt.cached; holds = pt.holds })
      | inr other ↦
          let ne : j ≢ id = λ q. cc (other, (==_iff j id).1 q) in
          let (q, x, pt) = z.cached j (old_dirty j other d) in
          let kept =
            with_new-keeps r id c w' q j x ne (record { cached = pt.cached; holds = pt.holds }) in
          (q, x, record { cached = kept.cached; holds = kept.holds })
    ]

-- In a transaction on a well-formed store with an id left, `CloneNode` of a node that a cached pointer
-- holds, and that is a branch or a leaf without children, returns a pointer under an id that was not in
-- use. The node behind it is the same but for its id: type, count, parent, items and children. The new
-- id is dirty, and every id in use stands for the node it stood for and keeps its object.
pub clone_node-Copied :
    (s : Storage) (p i : ℕ) (n : Node)
    → IsStore s
    → Points s p i n
    → IsShaped n
    → s.transaction ≡ true
    → s.node_pool.next_node_id + 1 < 2 ^ 64
    → (c : Cloned s p n) × Points c.t c.q c.id (record n { id = c.id })
clone_node-Copied s p i n w h k tr room =
    let c = clone_node-Cloned s p i n w h tr room in
    (c, subst (Points c.t c.q c.id) (copy_of-renamed n c.id k) c.points)

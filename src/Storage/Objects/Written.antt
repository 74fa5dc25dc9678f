-- ===== src/Storage/Objects/Written.antt =====
-- A write through a pointer, and `PutNode`.
use conuredb.Common.{
  eq_of_some, ℕ, ◌<◌, ◌≡◌, ◌≢◌, ◌∙◌, refl, sym, ap, subst, inl, inr, true, some, List, arith, ◌==◌,
  ==_iff, ==_refl, Bool-cases, Option-cases,
}
use conuredb.Node.{Node}
use conuredb.Node.Sound.{IsSound}
use conuredb.Storage.Backed.{Backed, Stands, Stands-move}
use conuredb.Pool.{has}
use conuredb.Pool.Fresh.{Taken}
use conuredb.Storage.{
  Storage, ok, update, update_self, load, store, cache, mark_dirty, add_dirty, put_node,
}
use conuredb.Storage.Sized.{IsSized, FitsPage, FitsPage-Points}
use conuredb.Storage.View.{
  node_at, IsStore, Points, eq_of_cached, node_at-cached, node_at-uncached, node_at-Points,
}
use conuredb.Storage.Objects.{Grow}

-- A write through the pointer of an id, by a node that keeps the id.
abbrev pub written : Storage → ℕ → Node → Storage
written s p m = record s { heap = update s.heap p (some m) }

pub store-written : (s : Storage) (p : ℕ) (m : Node) → store p m s ≡ ok tt (written s p m)
unfolding store
store-written s p m = refl

module _ (s : Storage) (p id : ℕ) (n m : Node) (w : IsStore s) (h : Points s p id n)
    (own : m.id ≡ id) where
  pub written-Points : Points (written s p m) p id m
  written-Points = record { cached = h.cached; holds = rw (==_refl p) }

  pub written-keeps : (q j : ℕ) (k : Node) → j ≢ id → Points s q j k → Points (written s p m) q j k
  written-keeps q j k ne e = record {
    cached = e.cached;
    holds = elim (Bool-cases (p == q)) [
      | inl same ↦
          let here : p ≡ q = (==_iff p q).0 same in
          absurd (ne (sym (eq_of_cached s p id j n w h (e.cached ∙ ap some (sym here)))))
      | inr other ↦ rw other e.holds
    ];
  }

  pub written-view :
      (j : ℕ) (k : Node) → j ≢ id → node_at s j ≡ some k → node_at (written s p m) j ≡ some k
  written-view j k ne e = elim (Option-cases (s.node_cache j)) [
    | inr (q, c) ↦
        node_at-Points (written s p m) q j k
          (written-keeps q j k ne (record { cached = c; holds = sym (node_at-cached s j q c) ∙ e }))
    | inl c ↦ node_at-uncached (written s p m) j c ∙ sym (node_at-uncached s j c) ∙ e
  ]

  pub written-Backed :
      Taken s.node_pool id
      → has id s.dirty_nodes ≡ true
      → (IsSound n → IsSound m)
      → Backed s.dirty_nodes s
      → Backed s.dirty_nodes (written s p m)
  written-Backed u d sound b j v = elim (Bool-cases (j == id)) [
    | inl same ↦
        let here : j ≡ id = (==_iff j id).0 same in
        (
          m,
          ap (node_at (written s p m)) here ∙ node_at-Points (written s p m) p id m written-Points,
          sound (old (b id u)),
          inl (rw here d),
        )
    | inr other ↦
        Stands-move s.dirty_nodes s.dirty_nodes s (written s p m) j
          (λ x e. written-view j x (λ q. cc (other, (==_iff j id).1 q)) e) (λ l. l) (λ x e. e)
          (b j v)
  ]
    where
      old : Stands s.dirty_nodes s id → IsSound n
      old (x, e, k, place) = subst IsSound (eq_of_some (sym e ∙ node_at-Points s p id n h)) k

  pub written-IsSized : (FitsPage n → FitsPage m) → IsSized s → IsSized (written s p m)
  written-IsSized fit z = record {
    fits = λ j u. elim (Bool-cases (j == id)) [
      | inl same ↦
          let here : j ≡ id = (==_iff j id).0 same in
          (
            m,
            ap (node_at (written s p m)) here
                ∙ node_at-Points (written s p m) p id m written-Points,
            fit (FitsPage-Points s p id n z (subst (Taken s.node_pool) here u) h),
          )
      | inr other ↦
          let (x, v, k) = z.fits j u in
          (x, written-view j x (λ q. cc (other, (==_iff j id).1 q)) v, k)
    ];
    cached = λ j d. elim (Bool-cases (j == id)) [
      | inl same ↦
          let here : j ≡ id = (==_iff j id).0 same in
          let pt = written-Points in
          (p, m, record { cached = ap s.node_cache here ∙ pt.cached; holds = pt.holds })
      | inr other ↦
          let (q, x, pt) = z.cached j d in
          (q, x, written-keeps q j x (λ e. cc (other, (==_iff j id).1 e)) pt)
    ];
  }

  written-live :
      (j q : ℕ)
      → s.node_cache j ≡ some q
      → (q < s.next_ptr)
        × Taken s.node_pool j
        × ((k : Node) × ((written s p m).heap q ≡ some k) × (k.id ≡ j))
  written-live j q c = elim (Bool-cases (p == q)) [
    | inl same ↦
        let here : p ≡ q = (==_iff p q).0 same in
        (
          (w.live j q c).0,
          (w.live j q c).1,
          (m, rw same, own ∙ eq_of_cached s p id j n w h (c ∙ ap some (sym here))),
        )
    | inr other ↦ let (lt, u, (k, e, mine)) = w.live j q c in (lt, u, (k, rw other e, mine))
  ]

  pub written-IsStore : IsStore (written s p m)
  written-IsStore = record { live = written-live; pool = w.pool; reads = w.reads }

  -- A write to an id that nobody held before leaves the ids in use alone.
  pub Grow-written :
      (r : Storage) (k : ℕ)
      → Grow k r s
      → ¬ Taken r.node_pool id
      → Taken s.node_pool id
      → has id s.dirty_nodes ≡ true
      → (IsSound n → IsSound m)
      → Grow k r (written s p m)
  Grow-written r k g fresh u d sound = record {
    taken = g.taken;
    view = λ j x u e. written-view j x (λ eq. fresh (rw (← eq) u)) (g.view j x u e);
    keeps = λ q j x u e. written-keeps q j x (λ eq. fresh (rw (← eq) u)) (g.keeps q j x u e);
    next = g.next;
    transaction = g.transaction;
    root = g.root;
    order = g.order;
    is = written-IsStore;
    backed = λ b. written-Backed u d sound (g.backed b);
  }

-- `PutNode` on a cached object, in a transaction, only marks it dirty.
pub put_node-cached :
    (s : Storage) (p id : ℕ) (n : Node)
    → Points s p id n
    → n.id ≡ id
    → s.transaction ≡ true
    → put_node p s ≡ ok tt (record s { dirty_nodes = add_dirty id s.dirty_nodes })
unfolding put_node load mark_dirty cache
put_node-cached s p id n h own t =
    ground (arith, h.holds, own, t, update_self s.node_cache id p h.cached)

pub Grow-dirty :
    (k : ℕ) (s t : Storage) (ids : List ℕ)
    → ((j : ℕ) → has j t.dirty_nodes ≡ true → has j ids ≡ true)
    → Grow k s t
    → Grow k s (record t { dirty_nodes = ids })
unfolding node_at
Grow-dirty k s t ids sub g = record {
  taken = g.taken;
  view = g.view;
  keeps = λ p j n u e. let x = g.keeps p j n u e in record { cached = x.cached; holds = x.holds };
  next = g.next;
  transaction = g.transaction;
  root = g.root;
  order = g.order;
  is = record { live = g.is.live; pool = g.is.pool; reads = g.is.reads };
  backed = λ b j u.
      Stands-move t.dirty_nodes ids t (record t { dirty_nodes = ids }) j (λ n e. e) (sub j)
        (λ n d. d) (g.backed b j u);
}

-- ===== src/Storage/View/Fetch.antt =====
-- `GetNode`.
use conuredb.Common.{
  eq_of_some, ℕ, ◌+◌, ◌≡◌, ◌∙◌, refl, sym, ap, inl, inr, none, some, arith, ◌==◌, ==_iff, ==_refl,
  Bool-cases, Option-cases,
}
use conuredb.Node.{Node}
use conuredb.Pool.Fresh.{Taken}
use conuredb.File.{read_at}
use conuredb.Storage.{Storage, ok, new_object, cache, read_file, read_node, get_node}
use conuredb.Storage.View.{
  disk_page, disk_node, node_at, NoFaults, IsStore, node_at-cached, node_at-uncached,
  node_at-Points, Got, get_node_cached, with_new, Points-with_new, with_new-keeps, with_new-view,
  with_new-live,
}

-- `read_node` finds what `disk_node` says, and the file stays.
pub read_node-disk_node :
    (s : Storage) (id : ℕ) (n : Node)
    → NoFaults s.file
    → disk_node s.file.bytes id ≡ some n
    → read_node id s ≡ ok n (record s { file = record s.file { ops = s.file.ops + 1 } })
unfolding disk_node disk_page read_node read_file read_at
read_node-disk_node s id n f e = ground (arith, f s.file.ops)

get_node_steps :
    (s r : Storage) (id : ℕ) (n : Node)
    → s.node_cache id ≡ none
    → read_node id s ≡ ok n r
    → get_node id s ≡ ok r.next_ptr (with_new r id n)
unfolding get_node new_object cache
get_node_steps s r id n c e = ground arith

get_node_uncached :
    (s : Storage) (id : ℕ) (n : Node)
    → IsStore s
    → s.node_cache id ≡ none
    → node_at s id ≡ some n
    → n.id ≡ id
    → Taken s.node_pool id
    → Got s id n
get_node_uncached s id n w c e own u = record {
  p = s.next_ptr;
  t = with_new r id n;
  run = steps;
  points = Points-with_new r id n w';
  same = record {
    view = λ j m k. elim (Bool-cases (id == j)) [
      | inl eq ↦
          let here : id ≡ j = (==_iff id j).0 eq in
          let m≡n : m ≡ n = eq_of_some (sym k ∙ sym (ap (node_at s) here) ∙ e) in
          ap (node_at (with_new r id n)) (sym here)
          ∙ node_at-Points (with_new r id n) s.next_ptr id n (Points-with_new r id n w')
          ∙ ap some (sym m≡n)
      | inr ne ↦ with_new-view r id n w' j m (λ q. cc (==_refl j)) (unfold node_at in k)
    ];
    keeps = λ q j m k.
        with_new-keeps r id n w' q j m (λ eq. cc (k.cached, ap s.node_cache eq))
          (record { cached = k.cached; holds = k.holds });
    bytes = refl;
    node_pool = refl;
    root = refl;
    transaction = refl;
    original = refl;
    dirty = refl;
    order = refl;
  };
  is = record { live = with_new-live r id n w' own u; pool = w.pool; reads = w.reads };
}
  where
    r : Storage
    r = record s { file = record s.file { ops = s.file.ops + 1 } }

    w' : IsStore r
    w' = record { live = w.live; pool = w.pool; reads = w.reads }

    steps : get_node id s ≡ ok s.next_ptr (with_new r id n)
    steps =
        get_node_steps s r id n c
          (read_node-disk_node s id n w.reads (sym (node_at-uncached s id c) ∙ e))

-- On a well-formed store, `GetNode` of an id in use that stands for a node carrying this id returns a
-- pointer to that node, from the cache or else from its page. All ids that stand for a node still do,
-- cached objects stay where they are, and the file's bytes, the pool, the roots, the transaction and
-- the dirty set are as before.
pub get_node-Got :
    (s : Storage) (id : ℕ) (n : Node)
    → IsStore s
    → node_at s id ≡ some n
    → n.id ≡ id
    → Taken s.node_pool id
    → Got s id n
get_node-Got s id n w e own u = elim (Option-cases (s.node_cache id)) [
  | inr (p, c) ↦
      get_node_cached s id p n w (record { cached = c; holds = sym (node_at-cached s id p c) ∙ e })
  | inl c ↦ get_node_uncached s id n w c e own u
]

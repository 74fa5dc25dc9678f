-- ===== src/Tree/Insertion/Path.antt =====
-- `insert` along the path: each branch above a moved child is copied over it.
use conuredb.Tree.Insertion.Parent.{ParentSet, set_parent_of-ParentSet}
use conuredb.Common.{
  ℕ, suc, ◌+◌, ◌*◌, ◌<◌, ◌^◌, ◌≡◌, ◌≢◌, ◌∙◌, refl, sym, ap, subst, Bool, true, false, some, arith,
  get_elem?, set_same,
}
use conuredb.Common.Bytes.{Bytes}
use conuredb.Node.{Node, internal_node}
use conuredb.Pool.Fresh.{Taken}
use conuredb.Storage.{Storage, Run, ok, load, copy_of}
use conuredb.Storage.View.{node_at, IsStore, Points, load-Points, id-Points, node_at-Points}
use conuredb.Storage.Objects.{Grow, Grow-trans, Cloned, clone_node-Cloned}
use conuredb.Storage.Objects.Written.{
  Grow-written, written, store-written, written-Points, written-IsSized,
}
use conuredb.Storage.Sized.{IsSized, FitsPage, FitsPage-rewired}
use conuredb.Tree.{set_parent_of, replace_child}
use conuredb.Tree.Model.{IsTree, IsBranch, find, find-Grow, IsTree-Grow, Child}
use conuredb.Tree.Branch.{changed, Replaced, Replaced-IsTree, Replaced-find}
use conuredb.Storage.Backed.{copy_of-branch, rewired-IsSound}
use conuredb.Tree.Removal.{rewired}
use conuredb.Tree.Insertion.{Update, Update_of_Grow, Update_trans, Update_mono}
use conuredb.Tree.Insertion.Leaf.{Slack, Inserted, Place, in_place, moved}

-- The child has been changed in place: the branch stays.
replace_child_same :
    (s : Storage) (p pos q : ℕ) (m : Node)
    → load q s ≡ ok m s
    → replace_child p pos q q s ≡ ok (p, false) s
unfolding replace_child
replace_child_same s p pos q m l = ground (arith, l)

-- The child has moved: the branch is copied over it.
replace_child_moved :
    (s t : Storage) (p pos cp q : ℕ) (n o m : Node) (c : Cloned s p n)
    → n.node_type ≡ internal_node
    → load cp s ≡ ok o s
    → load q s ≡ ok m s
    → m.id ≢ o.id
    → set_parent_of m.id c.id (written c.t c.q (rewired n c.id pos m.id)) ≡ ok tt t
    → replace_child p pos cp q s ≡ ok (c.q, false) t
unfolding replace_child
replace_child_moved s t p pos cp q n o m c ty lo lm ne sp = ground (
  arith,
  lo,
  lm,
  ne,
  c.run,
  load-Points c.t c.q c.id (copy_of n c.id) c.points,
  copy_of-branch n c.id ty,
  store-written c.t c.q (rewired n c.id pos m.id),
  sp,
)

-- One level up from a child that took the entry without a split.
module _ (s g : Storage) (h p id cp : ℕ) (n : Node) (key value : Bytes) (c : Child n key)
    (w : IsStore s) (pt : Points s p id n) (u : Taken s.node_pool id) (b : IsBranch n)
    (kids : (i j : ℕ) → get_elem? n.children i ≡ some j → IsTree s h j) (sg : Grow 0 s g)
    (tr : s.transaction ≡ true) (room : s.node_pool.next_node_id + 2 * suc h < 2 ^ 64)
    (cu : Taken s.node_pool c.id) (run : Run (ℕ × Bool)) (r : Inserted g h cp c.id key value run)
    (size : IsSized s → IsSized g)
    (slack : Slack s (suc h) id key value → Slack g h c.id key value) where
  down : Update key (2 * h) s r.t
  down =
      Update_mono key (0 + 2 * h) (2 * h) s r.t (omega arith)
        (Update_trans key 0 (2 * h) s g r.t (Update_of_Grow key 0 s g sg) r.update)

  change_below :
      (x : Bytes)
      → find (node_at r.t) h r.id' x ≡ changed key (some value) x (find (node_at s) h c.id x)
  change_below x = r.map x ∙ ap (changed key (some value) x) (find-Grow x sg (kids c.pos c.id c.at))

  here_in_place :
      r.q ≡ cp → r.id' ≡ c.id → Inserted s (suc h) p id key value (replace_child p c.pos cp r.q r.t)
  here_in_place same_q same_id = record {
    q = p;
    id' = id;
    m = n;
    t = r.t;
    run =
        ap (λ z. replace_child p c.pos z r.q r.t) (sym same_q)
        ∙ replace_child_same r.t p c.pos r.q r.m (load-Points r.t r.q r.id' r.m r.points);
    points = points;
    taken = down.taken id u;
    where_to = in_place refl refl;
    tree = Replaced-IsTree s r.t h id id n n key (some value) r.id' rep;
    update = Update_mono key (2 * h) (2 * suc h) s r.t (omega arith) down;
    sized = λ sl z. r.sized (slack sl) (size z);
    map = Replaced-find s r.t h id id n n key (some value) r.id' rep;
  }
    where
      points : Points r.t p id n
      points = down.keeps p id n u b.type pt

      rep : Replaced s r.t h id id n n key (some value) r.id'
      rep = record {
        old_view = node_at-Points s p id n pt;
        old = b;
        child = c;
        taken = down.taken id u;
        new_view = node_at-Points r.t p id n points;
        own = id-Points s p id n w pt;
        type = b.type;
        parent = b.parent;
        items = refl;
        children = sym (set_same n.children c.pos r.id' (c.at ∙ ap some (sym same_id)));
        kids = λ i j at. down.trees h j (kids i j at);
        others = λ i j x at ne. down.others h j x (kids i j at) ne;
        kid = r.tree;
        change = change_below;
      }

  here_moved :
      (o : Node)
      → ¬ Taken g.node_pool r.id'
      → Points r.t cp c.id o
      → Inserted s (suc h) p id key value (replace_child p c.pos cp r.q r.t)
  here_moved o fresh co = record {
    q = k.q;
    id' = k.id;
    m = m;
    t = f.t;
    run =
        replace_child_moved r.t f.t p c.pos cp r.q n o r.m k b.type (load-Points r.t cp c.id o co)
          (load-Points r.t r.q r.id' r.m r.points) differ
          (ap (λ j. set_parent_of j k.id (written k.t k.q (rewired n k.id c.pos j))) own ∙ f.run);
    points = points;
    taken = f.grow.taken k.id k.taken;
    where_to =
        moved n (λ v. k.fresh (down.taken k.id v))
          (last.keeps p id n (down.taken id u) branch_there);
    tree = Replaced-IsTree s f.t h id k.id n m key (some value) r.id' rep;
    update = whole;
    sized = λ sl z. f.sized (
        written-IsSized k.t k.q k.id (copy_of n k.id) m k.grow.is k.points refl fit
          (k.sized (r.sized (slack sl) (size z))));
    map = Replaced-find s f.t h id k.id n m key (some value) r.id' rep;
  }
    where
      own : r.m.id ≡ r.id'
      own = id-Points r.t r.q r.id' r.m r.update.is r.points

      differ : r.m.id ≢ o.id
      differ e = fresh (
          subst (Taken g.node_pool) (sym (id-Points r.t cp c.id o r.update.is co) ∙ sym e ∙ own)
            (sg.taken c.id cu))

      branch_there : Points r.t p id n
      branch_there = down.keeps p id n u b.type pt

      k : Cloned r.t p n
      k =
          clone_node-Cloned r.t p id n r.update.is branch_there (down.transaction ∙ tr)
            (omega (arith, down.next))

      m : Node
      m = rewired n k.id c.pos r.id'

      fit : FitsPage (copy_of n k.id) → FitsPage m
      fit x =
          FitsPage-rewired _ k.id c.pos r.id' refl (subst FitsPage (copy_of-branch n k.id b.type) x)

      a : Storage
      a = written k.t k.q m

      at_a : Points a k.q k.id m
      at_a = written-Points k.t k.q k.id (copy_of n k.id) m k.grow.is k.points refl

      made : Grow 1 r.t a
      made =
          Grow-written k.t k.q k.id (copy_of n k.id) m k.grow.is k.points refl r.t 1 k.grow k.fresh
            k.taken k.dirty
            (λ x.
              rewired-IsSound n k.id x c.pos r.id' b.type
                (omega (arith, r.taken, r.update.is.pool.width)))

      f : ParentSet a r.id' k.id
      f =
          set_parent_of-ParentSet a r.id' k.id r.m made.is
            (made.view r.id' r.m r.taken (node_at-Points r.t r.q r.id' r.m r.points)) own
            (made.taken r.id' r.taken) (made.transaction ∙ down.transaction ∙ tr)
            (omega (arith, made.next, down.next)) (omega (arith, k.taken, k.grow.is.pool.width))

      points : Points f.t k.q k.id m
      points = f.grow.keeps k.q k.id m k.taken at_a

      last : Grow 2 r.t f.t
      last = Grow-trans made f.grow

      whole : Update key (2 * suc h) s f.t
      whole =
          Update_mono key (2 * h + 2) (2 * suc h) s f.t (omega arith)
            (Update_trans key (2 * h) 2 s r.t f.t down (Update_of_Grow key 2 r.t f.t last))

      rep : Replaced s f.t h id k.id n m key (some value) r.id'
      rep = record {
        old_view = node_at-Points s p id n pt;
        old = b;
        child = c;
        taken = f.grow.taken k.id k.taken;
        new_view = node_at-Points f.t k.q k.id m points;
        own = refl;
        type = refl;
        parent = b.parent;
        items = refl;
        children = refl;
        kids = λ i j at. whole.trees h j (kids i j at);
        others = λ i j x at ne. whole.others h j x (kids i j at) ne;
        kid = IsTree-Grow last r.tree;
        change = λ x. find-Grow x last r.tree ∙ change_below x;
      }

  pub one_up :
      Place g cp c.id r.t r.q r.id'
      → Inserted s (suc h) p id key value (replace_child p c.pos cp r.q r.t)
  one_up (in_place e f) = here_in_place e f
  one_up (moved o fresh co) = here_moved o fresh co

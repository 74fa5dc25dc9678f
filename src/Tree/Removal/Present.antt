-- ===== src/Tree/Removal/Present.antt =====
-- `Delete` of a key that the tree holds: each branch above the leaf is copied over its new child.
use conuredb.Common.{
  ℕ, zero, suc, ◌+◌, ◌<◌, ◌^◌, ◌≡◌, ◌∙◌, refl, sym, subst, ap, true, none, some, arith, get_elem?,
}
use conuredb.Common.Bytes.{Bytes}
use conuredb.Node.{Node}
use conuredb.Node.Order.{lookup_item}
use conuredb.Node.Search.{find_key-Found}
use conuredb.Node.Search.Children.{Found-some}
use conuredb.Pool.Fresh.{Taken}
use conuredb.Storage.{Storage, ok, copy_of}
use conuredb.Storage.View.{node_at, IsStore, Points, load-Points, id-Points, node_at-Points}
use conuredb.Storage.View.Fetch.{get_node-Got}
use conuredb.Storage.Objects.{Grow, Grow-trans, Grow-mono, Grow-of_Same, Cloned, clone_node-Cloned}
use conuredb.Storage.Objects.Written.{written, written-Points, Grow-written, written-IsSized}
use conuredb.Storage.Sized.{IsSized, IsSized-Same, FitsPage, FitsPage-rewired}
use conuredb.Storage.Backed.{rewired-IsSound, copy_of-branch}
use conuredb.Tree.Delete.{relink, delete_node_key}
use conuredb.Tree.Model.{
  IsTree, leaf, branch, IsBranch, find, find-leaf, find-branch, find-Grow, IsTree-Grow, Child,
  IsBranch-Child, IsTree-node_at,
}
use conuredb.Tree.Lookup.{child_at-Child, Points_at}
use conuredb.Tree.Branch.{changed, Replaced, Replaced-IsTree, Replaced-find}
use conuredb.Tree.Removal.{
  Removed, delete_leaf-Removed, rewired, relink_steps, delete_node_key-leaf, delete_node_key-branch,
}

-- One level up from a child that lost its key.
relink-Removed :
    (s g : Storage) (h p id cp : ℕ) (n : Node) (key : Bytes) (c : Child n key)
    → Points s p id n
    → Taken s.node_pool id
    → IsBranch n
    → ((i j : ℕ) → get_elem? n.children i ≡ some j → IsTree s h j)
    → Grow 0 s g
    → (IsSized s → IsSized g)
    → s.transaction ≡ true
    → s.node_pool.next_node_id + suc h < 2 ^ 64
    → (r : Removed g h c.id key (delete_node_key h cp key g))
    → Removed s (suc h) id key (relink p c.pos r.q r.t)
relink-Removed s g h p id cp n key c pt u b kids sg size tr room r = record {
  q = k.q;
  id' = k.id;
  m = m;
  t = t;
  run =
      relink_steps r.t p c.pos r.q n r.m k b.type
        (load-Points k.t r.q r.id' r.m (k.grow.keeps r.q r.id' r.m r.taken r.points)) r.parent
      ∙ ap (λ j. ok k.q (written k.t k.q (rewired n k.id c.pos j)))
          (id-Points r.t r.q r.id' r.m r.grow.is r.points);
  points = points;
  taken = k.taken;
  fresh = λ v. k.fresh (down.taken k.id v);
  parent = b.parent;
  tree = Replaced-IsTree s t h id k.id n m key none r.id' rep;
  grow = up;
  sized = λ z.
      written-IsSized k.t k.q k.id (copy_of n k.id) m k.grow.is k.points refl fit
        (k.sized (r.sized (size z)));
  map = Replaced-find s t h id k.id n m key none r.id' rep;
}
  where
    down : Grow h s r.t
    down = Grow-mono (0 + h) h s r.t (omega arith) (Grow-trans sg r.grow)

    k : Cloned r.t p n
    k =
        clone_node-Cloned r.t p id n r.grow.is (down.keeps p id n u pt) (down.transaction ∙ tr)
          (omega (arith, down.next))

    m : Node
    m = rewired n k.id c.pos r.id'

    t : Storage
    t = written k.t k.q m

    fit : FitsPage (copy_of n k.id) → FitsPage m
    fit x =
        FitsPage-rewired _ k.id c.pos r.id' refl (subst FitsPage (copy_of-branch n k.id b.type) x)

    points : Points t k.q k.id m
    points = written-Points k.t k.q k.id (copy_of n k.id) m k.grow.is k.points refl

    last : Grow 1 r.t t
    last =
        Grow-written k.t k.q k.id (copy_of n k.id) m k.grow.is k.points refl r.t 1 k.grow k.fresh
          k.taken k.dirty
          (λ x.
            rewired-IsSound n k.id x c.pos r.id' b.type
              (omega (arith, r.taken, r.grow.is.pool.width)))

    up : Grow (suc h) s t
    up = Grow-mono (h + 1) (suc h) s t (omega arith) (Grow-trans down last)

    rep : Replaced s t h id k.id n m key none r.id'
    rep = record {
      old_view = node_at-Points s p id n pt;
      old = b;
      child = c;
      taken = k.taken;
      new_view = node_at-Points t k.q k.id m points;
      own = refl;
      type = refl;
      parent = b.parent;
      items = refl;
      children = refl;
      kids = λ i j at. IsTree-Grow up (kids i j at);
      others = λ i j x at ne. find-Grow x up (kids i j at);
      kid = IsTree-Grow last r.tree;
      change = λ x.
          find-Grow x last r.tree
          ∙ r.map x
          ∙ ap (changed key none x) (find-Grow x sg (kids c.pos c.id c.at));
    }

-- In a transaction on a well-formed store with an id left per level, `delete` of a key that the tree
-- holds, through a cached pointer to the root of a tree of height at most the fuel, returns a pointer
-- to a node with a fresh id that roots a tree of the same height without the key and with the old
-- entries elsewhere. Every id in use stands for the node it stood for.
pub delete_node_key-Removed :
    (h : ℕ) {s : Storage} {id : ℕ} (key v : Bytes) (p : ℕ) (n : Node)
    → IsStore s
    → Points s p id n
    → IsTree s h id
    → s.transaction ≡ true
    → s.node_pool.next_node_id + h < 2 ^ 64
    → find (node_at s) h id key ≡ some v
    → Removed s h id key (delete_node_key h p key s)
delete_node_key-Removed zero key v p n w pt d tr room f = elim d [ ]
delete_node_key-Removed (suc h) {s} {id} key v p n w pt (leaf m u e o l) tr room f =
    let held : lookup_item m.items key ≡ some v =
      sym (find-leaf (node_at s) h id key m e l.type) ∙ f in
    let (i, it, found, at, k) = Found-some v (find_key-Found m key l.sorted) held in
    let pm : Points s p id m = Points_at s p id n m pt e in
    rw (delete_node_key-leaf h p key s m (load-Points s p id m pm) l.type)
      (delete_leaf-Removed s h p id i m key it w pm l tr room found at k)
delete_node_key-Removed (suc h) {s} {id} key v p n w pt (branch m u e o b kids) tr room f =
    let c = IsBranch-Child m key b in
    let kid = kids c.pos c.id c.at in
    let (taken, (k, ke, ko)) = IsTree-node_at kid in
    let g = get_node-Got s c.id k w ke ko taken in
    let sg = Grow-of_Same s g.t g.same g.is in
    let pm : Points s p id m = Points_at s p id n m pt e in
    let below : find (node_at g.t) h c.id key ≡ some v =
      find-Grow key sg kid
      ∙ sym (find-branch (node_at s) h id key m c.pos c.id e b.type c.found c.at)
      ∙ f in
    let r =
      delete_node_key-Removed h key v g.p k g.is g.points (IsTree-Grow sg kid) (sg.transaction ∙ tr)
        (omega (arith, sg.next)) below in
    rw
      (
        delete_node_key-branch h p key s g.t m c.pos c.id g.p (load-Points s p id m pm) b.type
            (child_at-Child m key s c) g.run,
        r.run,
      )
      (relink-Removed s g.t h p id g.p m key c pm u b kids sg (IsSized-Same s g.t g.same) tr room r)

-- ===== src/Tree/Lookup.antt =====
-- `Get` returns what the tree's map holds.
use conuredb.Common.{
  ℕ, zero, suc, ◌≤◌, ◌≡◌, ◌∙◌, refl, sym, ap, Option, none, some, List, [], ◌∷◌, arith, length,
}
use conuredb.Common.Bytes.{Bytes}
use conuredb.Node.{Node, Item, leaf_node, internal_node, max_key_size}
use conuredb.Node.Order.{lookup_item}
use conuredb.Storage.{Storage, Run, ok, err, key_not_found, load, get_node, get_root_node}
use conuredb.Storage.View.{node_at, IsStore, Points, Same, load-Points, node_at-cached}
use conuredb.Storage.View.Fetch.{get_node-Got}
use conuredb.Storage.Objects.{Grow-of_Same}
use conuredb.Tree.{search_leaf, child_at, search_tree, get}
use conuredb.Tree.Model.{
  IsTree, leaf, branch, find, find-leaf, find-branch, find-Grow, IsTree-Grow, Child, IsBranch-Child,
  IsTree-node_at,
}

-- How the API reports an entry of the map.
abbrev pub answer : Option Bytes → Storage → Run Bytes
answer (some v) s = ok v s
answer none s = err key_not_found s

pub search_leaf-answer :
    (items : List Item) (key : Bytes) (s : Storage)
    → search_leaf items key s ≡ answer (lookup_item items key) s
unfolding search_leaf lookup_item
search_leaf-answer [] key s = refl
search_leaf-answer (it ∷ items) key s = ground (arith, search_leaf-answer items key s)

pub child_at-Child :
    (n : Node) (key : Bytes) (s : Storage) (c : Child n key) → child_at n key s ≡ ok (c.pos, c.id) s
unfolding child_at
child_at-Child n key s c = ground (arith, c.found, c.at)

pub Same-trans : (s t u : Storage) → Same s t → Same t u → Same s u
Same-trans s t u a b = record {
  view = λ j n e. b.view j n (a.view j n e);
  keeps = λ p j n e. b.keeps p j n (a.keeps p j n e);
  bytes = b.bytes ∙ a.bytes;
  node_pool = b.node_pool ∙ a.node_pool;
  root = b.root ∙ a.root;
  transaction = b.transaction ∙ a.transaction;
  original = b.original ∙ a.original;
  dirty = b.dirty ∙ a.dirty;
  order = b.order ∙ a.order;
}

-- A run that ends with an entry of the map, having changed nothing but the cache.
pub record Answered (s : Storage) (r : Run Bytes) (entry : Option Bytes) : Type 0 where
  pub t : Storage
  pub run : r ≡ answer entry t
  pub same : Same s t
  pub is : IsStore t

pub Same-refl : (s : Storage) → Same s s
Same-refl s = record {
  view = λ j n e. e;
  keeps = λ p j n e. e;
  bytes = refl;
  node_pool = refl;
  root = refl;
  transaction = refl;
  original = refl;
  dirty = refl;
  order = refl;
}

pub Points_at :
    (s : Storage) (p id : ℕ) (n m : Node)
    → Points s p id n
    → node_at s id ≡ some m
    → Points s p id m
Points_at s p id n m pt e = record {
  cached = pt.cached;
  holds = sym (node_at-cached s id p pt.cached) ∙ e;
}

-- The object behind a pointer is the node that the id stands for.
pub same_node :
    (s : Storage) (p id : ℕ) (n m : Node)
    → Points s p id n
    → node_at s id ≡ some m
    → load p s ≡ ok m s
same_node s p id n m pt e = load-Points s p id m (Points_at s p id n m pt e)

get_steps :
    (h : ℕ) (key : Bytes) (s t : Storage) (p : ℕ)
    → length key ≤ max_key_size
    → get_node s.root_node_id s ≡ ok p t
    → get h key s ≡ search_tree h p key t
unfolding get get_root_node
get_steps h key s t p l e = ground (arith, l, e)

search_tree-leaf :
    (h p : ℕ) (key : Bytes) (s : Storage) (n : Node)
    → load p s ≡ ok n s
    → n.node_type ≡ leaf_node
    → search_tree (suc h) p key s ≡ search_leaf n.items key s
unfolding search_tree
search_tree-leaf h p key s n e t = ground (arith, e, t)

search_tree-branch :
    (h p : ℕ) (key : Bytes) (s t : Storage) (n : Node) (pos c q : ℕ)
    → load p s ≡ ok n s
    → n.node_type ≡ internal_node
    → child_at n key s ≡ ok (pos, c) s
    → get_node c s ≡ ok q t
    → search_tree (suc h) p key s ≡ search_tree h q key t
unfolding search_tree
search_tree-branch h p key s t n pos c q e ty at got = ground (arith, e, ty, at, got)

pub search_tree-Answered :
    (h : ℕ) {s : Storage} {id : ℕ} (key : Bytes) (p : ℕ) (n : Node)
    → IsStore s
    → Points s p id n
    → IsTree s h id
    → Answered s (search_tree h p key s) (find (node_at s) h id key)
search_tree-Answered zero key p n w pt d = elim d [ ]
search_tree-Answered (suc h) {s} {id} key p n w pt (leaf m u e o l) = record {
  t = s;
  run =
      search_tree-leaf h p key s m (same_node s p id n m pt e) l.type
      ∙ search_leaf-answer m.items key s
      ∙ ap (λ o. answer o s) (sym (find-leaf (node_at s) h id key m e l.type));
  same = Same-refl s;
  is = w;
}
search_tree-Answered (suc h) {s} {id} key p n w pt (branch m u e o b kids) =
    let c = IsBranch-Child m key b in
    let kid = kids c.pos c.id c.at in
    let (taken, (k, ke, ko)) = IsTree-node_at kid in
    let g = get_node-Got s c.id k w ke ko taken in
    let grown = Grow-of_Same s g.t g.same g.is in
    let r = search_tree-Answered h key g.p k g.is g.points (IsTree-Grow grown kid) in
    record {
      t = r.t;
      run =
          search_tree-branch h p key s g.t m c.pos c.id g.p (same_node s p id n m pt e) b.type
            (child_at-Child m key s c) g.run
          ∙ r.run
          ∙ ap (λ o. answer o r.t)
              (find-Grow key grown kid
                ∙ sym (find-branch (node_at s) h id key m c.pos c.id e b.type c.found c.at));
      same = Same-trans s g.t r.t g.same r.same;
      is = r.is;
    }

-- On a well-formed store whose root id roots a tree of height at most the fuel, `Get` of a key
-- within the size limit returns the value that the tree's map holds, or ErrKeyNotFound if it holds
-- none; it panics nowhere, and it changes nothing but the cache and the count of file operations.
pub get-Answered :
    {s : Storage} {h : ℕ} (key : Bytes)
    → IsStore s
    → IsTree s h s.root_node_id
    → length key ≤ max_key_size
    → Answered s (get h key s) (find (node_at s) h s.root_node_id key)
get-Answered {s} {h} key w d l =
    let (taken, (n, e, own)) = IsTree-node_at d in
    let g = get_node-Got s s.root_node_id n w e own taken in
    let grown = Grow-of_Same s g.t g.same g.is in
    let r = search_tree-Answered h key g.p n g.is g.points (IsTree-Grow grown d) in
    record {
      t = r.t;
      run =
          get_steps h key s g.t g.p l g.run
          ∙ r.run
          ∙ ap (λ o. answer o r.t) (find-Grow key grown d);
      same = Same-trans s g.t r.t g.same r.same;
      is = r.is;
    }

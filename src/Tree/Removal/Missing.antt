-- ===== src/Tree/Removal/Missing.antt =====
-- `Delete` of a key that the tree does not hold.
use conuredb.Common.{ℕ, zero, suc, ◌≡◌, ◌∙◌, sym, ap, none, arith}
use conuredb.Common.Bytes.{Bytes}
use conuredb.Node.{Node, find_key}
use conuredb.Node.Search.{find_key-Found}
use conuredb.Node.Search.Children.{Found-none}
use conuredb.Storage.{Storage, Run, ok, err, key_not_found, and_then, load}
use conuredb.Storage.View.{node_at, IsStore, Points, Same}
use conuredb.Storage.View.Fetch.{get_node-Got}
use conuredb.Storage.Objects.{Grow-of_Same}
use conuredb.Tree.Delete.{delete_leaf, relink, delete_node_key}
use conuredb.Tree.Model.{
  IsTree, leaf, branch, find, find-leaf, find-branch, find-Grow, IsTree-Grow, IsBranch-Child,
  IsTree-node_at,
}
use conuredb.Tree.Lookup.{child_at-Child, same_node, Same-refl, Same-trans}
use conuredb.Tree.Removal.{delete_node_key-leaf, delete_node_key-branch}

-- A deletion that found nothing: ErrKeyNotFound, and nothing changed but the cache.
pub record Missed (s : Storage) (r : Run ℕ) : Type 0 where
  pub t : Storage
  pub run : r ≡ err key_not_found t
  pub same : Same s t
  pub is : IsStore t

delete_leaf-absent :
    (s : Storage) (p : ℕ) (n : Node) (key : Bytes)
    → load p s ≡ ok n s
    → find_key n key ≡ none
    → delete_leaf p key s ≡ err key_not_found s
unfolding delete_leaf
delete_leaf-absent s p n key l f = ground (arith, l, f)

pub delete_node_key-Missed :
    (h : ℕ) {s : Storage} {id : ℕ} (key : Bytes) (p : ℕ) (n : Node)
    → IsStore s
    → Points s p id n
    → IsTree s h id
    → find (node_at s) h id key ≡ none
    → Missed s (delete_node_key h p key s)
delete_node_key-Missed zero key p n w pt d f = elim d [ ]
delete_node_key-Missed (suc h) {s} {id} key p n w pt (leaf m u e o l) f = record {
  t = s;
  run =
      delete_node_key-leaf h p key s m (same_node s p id n m pt e) l.type
      ∙ delete_leaf-absent s p m key (same_node s p id n m pt e) (
          Found-none (find_key-Found m key l.sorted)
            (sym (find-leaf (node_at s) h id key m e l.type) ∙ f));
  same = Same-refl s;
  is = w;
}
delete_node_key-Missed (suc h) {s} {id} key p n w pt (branch m u e o b kids) f =
    let c = IsBranch-Child m key b in
    let kid = kids c.pos c.id c.at in
    let (taken, (k, ke, ko)) = IsTree-node_at kid in
    let g = get_node-Got s c.id k w ke ko taken in
    let sg = Grow-of_Same s g.t g.same g.is in
    let r = delete_node_key-Missed h key g.p k g.is g.points (IsTree-Grow sg kid) (
      find-Grow key sg kid
      ∙ sym (find-branch (node_at s) h id key m c.pos c.id e b.type c.found c.at)
      ∙ f) in
    record {
      t = r.t;
      run =
          delete_node_key-branch h p key s g.t m c.pos c.id g.p (same_node s p id n m pt e) b.type
            (child_at-Child m key s c) g.run
          ∙ ap (λ x. and_then x (relink p c.pos)) r.run;
      same = Same-trans s g.t r.t g.same r.same;
      is = r.is;
    }

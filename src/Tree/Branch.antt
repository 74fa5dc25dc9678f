-- ===== src/Tree/Branch.antt =====
-- A branch whose child for one key is replaced: the tree's map changes at that key alone.
use conuredb.Common.{
  eq_of_some, ℕ, suc, ◌≡◌, ◌∙◌, sym, ap, false, Option, some, ◌==◌, ==_iff, ==_refl, Bool-cases,
  inl, inr, if◌then◌else◌, length-set, get_elem?, set, get_elem?-set_self, get_elem?-set_ne,
}
use conuredb.Common.Bytes.{Bytes, equal_bytes, eq_of_equal_bytes}
use conuredb.Node.{Node, internal_node, find_child_pos}
use conuredb.Pool.Fresh.{Taken}
use conuredb.Storage.{Storage}
use conuredb.Storage.View.{node_at}
use conuredb.Tree.Model.{IsTree, branch, IsBranch, find, find-branch, Child, IsBranch-Child}

-- The map with one entry changed.
abbrev pub changed : Bytes → Option Bytes → Bytes → Option Bytes → Option Bytes
changed key new k old = if equal_bytes key k then new else old

-- The position of a key depends on the type and the separators alone.
pub find_child_pos-items :
    (n m : Node) (key : Bytes)
    → n.node_type ≡ m.node_type
    → n.items ≡ m.items
    → find_child_pos n key ≡ find_child_pos m key
unfolding find_child_pos
find_child_pos-items n m key e f = cc

-- The facts about the old branch `n` under `id` in `s`, and the new one `m` under `id'` in `t`.
pub record Replaced (s t : Storage) (h id id' : ℕ) (n m : Node) (key : Bytes) (new : Option Bytes)
    (c' : ℕ) : Type 0 where
  pub old_view : node_at s id ≡ some n
  pub old : IsBranch n
  pub child : Child n key
  pub taken : Taken t.node_pool id'
  pub new_view : node_at t id' ≡ some m
  pub own : m.id ≡ id'
  pub type : m.node_type ≡ internal_node
  pub parent : m.parent ≡ 0
  pub items : m.items ≡ n.items
  pub children : m.children ≡ set n.children child.pos c'
  pub kids : (i c : ℕ) → get_elem? n.children i ≡ some c → IsTree t h c
  pub others :
      (i c : ℕ) (k : Bytes)
      → get_elem? n.children i ≡ some c
      → equal_bytes key k ≡ false
      → find (node_at t) h c k ≡ find (node_at s) h c k
  pub kid : IsTree t h c'
  pub change :
      (k : Bytes) → find (node_at t) h c' k ≡ changed key new k (find (node_at s) h child.id k)

module _ (s t : Storage) (h id id' : ℕ) (n m : Node) (key : Bytes) (new : Option Bytes) (c' : ℕ)
    (r : Replaced s t h id id' n m key new c') where
  Replaced-IsBranch : IsBranch m
  Replaced-IsBranch = record {
    type = r.type;
    parent = r.parent;
    sorted = rw r.items r.old.sorted;
    arity = rw (r.items, r.children) (length-set n.children r.child.pos c' ∙ r.old.arity);
  }

  pub Replaced-IsTree : IsTree t (suc h) id'
  Replaced-IsTree = branch m r.taken r.new_view r.own Replaced-IsBranch λ i c at.
      let at' : get_elem? (set n.children r.child.pos c') i ≡ some c = rw r.children at at in
      elim (Bool-cases (r.child.pos == i)) [
        | inl same ↦
            let here : r.child.pos ≡ i = (==_iff r.child.pos i).0 same in
            let it : get_elem? (set n.children r.child.pos c') i ≡ some c' =
              rw (← here) (get_elem?-set_self n.children r.child.pos c' r.child.id r.child.at) in
            let eq : c' ≡ c = cc in rw (← eq) r.kid
        | inr other ↦
            r.kids i c
              (sym (get_elem?-set_ne n.children r.child.pos i c' (λ e. cc (==_refl i))) ∙ at')
      ]

  pub Replaced-find :
      (k : Bytes)
      → find (node_at t) (suc h) id' k ≡ changed key new k (find (node_at s) (suc h) id k)
  Replaced-find k =
      let c = IsBranch-Child n k r.old in
      let at' : find_child_pos m k ≡ some c.pos =
        find_child_pos-items m n k (r.type ∙ sym r.old.type) r.items ∙ c.found in
      let down : find (node_at s) (suc h) id k ≡ find (node_at s) h c.id k =
        find-branch (node_at s) h id k n c.pos c.id r.old_view r.old.type c.found c.at in
      elim (Bool-cases (r.child.pos == c.pos)) [
        | inl same ↦
            let here : r.child.pos ≡ c.pos = (==_iff r.child.pos c.pos).0 same in
            let into : get_elem? m.children c.pos ≡ some c' =
              rw (r.children, ← here)
                (get_elem?-set_self n.children r.child.pos c' r.child.id r.child.at) in
            let ids : r.child.id ≡ c.id =
              eq_of_some (sym r.child.at ∙ ap (get_elem? n.children) here ∙ c.at) in
            find-branch (node_at t) h id' k m c.pos c' r.new_view r.type at' into
            ∙ r.change k
            ∙ ap (changed key new k) (ap (λ j. find (node_at s) h j k) ids ∙ sym down)
        | inr other ↦
            let into : get_elem? m.children c.pos ≡ some c.id =
              ap (λ cs. get_elem? cs c.pos) r.children
              ∙ get_elem?-set_ne n.children r.child.pos c.pos c' (λ e. cc (==_refl c.pos))
              ∙ c.at in
            let apart : equal_bytes key k ≡ false = differs c.pos c.found other in
            find-branch (node_at t) h id' k m c.pos c.id r.new_view r.type at' into
            ∙ r.others c.pos c.id k c.at apart
            ∙ sym down
            ∙ sym (ap (λ b. if b then new else find (node_at s) (suc h) id k) apart)
      ]
    where
      differs :
          (pos : ℕ)
          → find_child_pos n k ≡ some pos
          → (r.child.pos == pos) ≡ false
          → equal_bytes key k ≡ false
      differs pos f ne = elim (Bool-cases (equal_bytes key k)) [
        | inr no_match ↦ no_match
        | inl eq ↦
            let keys : key ≡ k = eq_of_equal_bytes key k eq in
            let found : some r.child.pos ≡ some pos =
              sym r.child.found ∙ ap (find_child_pos n) keys ∙ f in
            absurd (cc (ap (λ q. q == pos) (eq_of_some found), ==_refl pos))
      ]

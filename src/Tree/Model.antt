-- ===== src/Tree/Model.antt =====
-- The search tree that an id roots in the store, and the finite map that it stands for.
use conuredb.Common.{
  ℕ, zero, suc, ◌<◌, ◌≡◌, ◌∙◌, refl, sym, ap, true, false, Option, none, some, List, arith, ◌==◌,
  length, get_elem?,
}
use conuredb.Common.Bytes.{Bytes}
use conuredb.Node.{Node, leaf_node, internal_node, find_child_pos}
use conuredb.Node.Order.{IsSorted, lookup_item}
use conuredb.Node.Search.Children.{find_child_pos-Splits}
use conuredb.Pool.Fresh.{Taken}
use conuredb.Storage.{Storage}
use conuredb.Storage.View.{node_at}
use conuredb.Storage.Objects.{Grow}

-- The child list is one longer than the separators. No node of the tree knows a parent: the code
-- writes parents only to clones that no node refers to.
pub record IsLeaf (n : Node) : Type 0 where
  pub type : n.node_type ≡ leaf_node
  pub parent : n.parent ≡ 0
  pub sorted : IsSorted n.items

pub record IsBranch (n : Node) : Type 0 where
  pub type : n.node_type ≡ internal_node
  pub parent : n.parent ≡ 0
  pub sorted : IsSorted n.items
  pub arity : length n.children ≡ suc (length n.items)

-- A tree of height at most `h` under an id. Each node carries the id that it is reached by.
pub data IsTree (s : Storage) : ℕ → ℕ → Type 0 where
  leaf :
      {h id : ℕ} (n : Node)
      → Taken s.node_pool id
      → node_at s id ≡ some n
      → n.id ≡ id
      → IsLeaf n
      → IsTree s (suc h) id
  branch :
      {h id : ℕ} (n : Node)
      → Taken s.node_pool id
      → node_at s id ≡ some n
      → n.id ≡ id
      → IsBranch n
      → ((i c : ℕ) → get_elem? n.children i ≡ some c → IsTree s h c)
      → IsTree s (suc h) id

-- The leaf that a search for the key ends in.
unfoldable pub leaf_for : (ℕ → Option Node) → ℕ → ℕ → Bytes → Option Node
leaf_for view zero id key = none
leaf_for view (suc h) id key = elim (view id) [
  | none ↦ none
  | some n ↦ elim (n.node_type == leaf_node) [
    | true ↦ some n
    | false ↦ elim (find_child_pos n key) [
      | none ↦ none
      | some pos ↦ elim (get_elem? n.children pos) [ none ↦ none | some c ↦ leaf_for view h c key ]
    ]
  ]
]

abbrev pub leaf_entry : Bytes → Option Node → Option Bytes
leaf_entry key none = none
leaf_entry key (some n) = lookup_item n.items key

-- The map that the tree stands for.
unfoldable pub find : (ℕ → Option Node) → ℕ → ℕ → Bytes → Option Bytes
find view h id key = leaf_entry key (leaf_for view h id key)

pub leaf_for-leaf :
    (view : ℕ → Option Node) (h id : ℕ) (key : Bytes) (n : Node)
    → view id ≡ some n
    → n.node_type ≡ leaf_node
    → leaf_for view (suc h) id key ≡ some n
unfolding leaf_for
leaf_for-leaf view h id key n e t = ground (arith, e, t)

pub leaf_for-branch :
    (view : ℕ → Option Node) (h id : ℕ) (key : Bytes) (n : Node) (pos c : ℕ)
    → view id ≡ some n
    → n.node_type ≡ internal_node
    → find_child_pos n key ≡ some pos
    → get_elem? n.children pos ≡ some c
    → leaf_for view (suc h) id key ≡ leaf_for view h c key
unfolding leaf_for
leaf_for-branch view h id key n pos c e t f g = ground (arith, e, t, f, g)

pub find-leaf :
    (view : ℕ → Option Node) (h id : ℕ) (key : Bytes) (n : Node)
    → view id ≡ some n
    → n.node_type ≡ leaf_node
    → find view (suc h) id key ≡ lookup_item n.items key
find-leaf view h id key n e t =
    unfold find in ap (leaf_entry key) (leaf_for-leaf view h id key n e t)

pub find-branch :
    (view : ℕ → Option Node) (h id : ℕ) (key : Bytes) (n : Node) (pos c : ℕ)
    → view id ≡ some n
    → n.node_type ≡ internal_node
    → find_child_pos n key ≡ some pos
    → get_elem? n.children pos ≡ some c
    → find view (suc h) id key ≡ find view h c key
find-branch view h id key n pos c e t f g =
    unfold find in ap (leaf_entry key) (leaf_for-branch view h id key n pos c e t f g)

-- The child of a branch that a key belongs to.
pub record Child (n : Node) (key : Bytes) : Type 0 where
  pub pos : ℕ
  pub id : ℕ
  pub found : find_child_pos n key ≡ some pos
  pub at : get_elem? n.children pos ≡ some id

pub get_elem?-some {ℓ} :
    {A : Type ℓ} (xs : List A) (i : ℕ) → i < length xs → (x : A) × (get_elem? xs i ≡ some x)
get_elem?-some List.[] i h = absurd (omega arith)
get_elem?-some (List.◌∷◌ x xs) zero h = (x, refl)
get_elem?-some (List.◌∷◌ x xs) (suc i) h = get_elem?-some xs i (omega arith)

pub IsBranch-Child : (n : Node) (key : Bytes) → IsBranch n → Child n key
IsBranch-Child n key b =
    let (pos, found, splits) = find_child_pos-Splits n key b.type b.sorted in
    let (c, at) = get_elem?-some n.children pos (omega (arith, splits.within, b.arity)) in
    record { pos = pos; id = c; found = found; at = at }

pub IsTree-node_at :
    {s : Storage} {h id : ℕ}
    → IsTree s h id
    → Taken s.node_pool id × ((n : Node) × (node_at s id ≡ some n) × (n.id ≡ id))
IsTree-node_at (leaf n t e o l) = (t, (n, e, o))
IsTree-node_at (branch n t e o b kids) = (t, (n, e, o))

-- Every id in use is in use in `t` too, and stands for the same node there.
pub record Shows (s t : Storage) : Type 0 where
  pub taken : (j : ℕ) → Taken s.node_pool j → Taken t.node_pool j
  pub view : (j : ℕ) (n : Node) → Taken s.node_pool j → node_at s j ≡ some n → node_at t j ≡ some n

-- A tree and its map survive whatever leaves the ids in use alone.
module _ {s t : Storage} (g : Shows s t) where
  pub IsTree-Shows : {h id : ℕ} → IsTree s h id → IsTree t h id
  IsTree-Shows (leaf n u e o l) = leaf n (g.taken _ u) (g.view _ n u e) o l
  IsTree-Shows (branch n u e o b kids) =
      branch n (g.taken _ u) (g.view _ n u e) o b (λ i c at. IsTree-Shows (kids i c at))

  leaf_for-Shows :
      {h id : ℕ} (key : Bytes)
      → IsTree s h id
      → leaf_for (node_at t) h id key ≡ leaf_for (node_at s) h id key
  leaf_for-Shows key (leaf {h} {id} n u e o l) =
      leaf_for-leaf (node_at t) h id key n (g.view id n u e) l.type
      ∙ sym (leaf_for-leaf (node_at s) h id key n e l.type)
  leaf_for-Shows key (branch {h} {id} n u e o b kids) =
      let c = IsBranch-Child n key b in
      leaf_for-branch (node_at t) h id key n c.pos c.id (g.view id n u e) b.type c.found c.at
      ∙ leaf_for-Shows key (kids c.pos c.id c.at)
      ∙ sym (leaf_for-branch (node_at s) h id key n c.pos c.id e b.type c.found c.at)

  pub find-Shows :
      {h id : ℕ} (key : Bytes)
      → IsTree s h id
      → find (node_at t) h id key ≡ find (node_at s) h id key
  find-Shows key d = unfold find in ap (leaf_entry key) (leaf_for-Shows key d)

Grow-Shows : {k : ℕ} {s t : Storage} → Grow k s t → Shows s t
Grow-Shows g = record { taken = g.taken; view = g.view }

pub IsTree-Grow : {k : ℕ} {s t : Storage} {h id : ℕ} → Grow k s t → IsTree s h id → IsTree t h id
IsTree-Grow g d = IsTree-Shows (Grow-Shows g) d

pub leaf_for-Grow :
    {k : ℕ} {s t : Storage} {h id : ℕ} (key : Bytes)
    → Grow k s t
    → IsTree s h id
    → leaf_for (node_at t) h id key ≡ leaf_for (node_at s) h id key
leaf_for-Grow key g d = leaf_for-Shows (Grow-Shows g) key d

pub find-Grow :
    {k : ℕ} {s t : Storage} {h id : ℕ} (key : Bytes)
    → Grow k s t
    → IsTree s h id
    → find (node_at t) h id key ≡ find (node_at s) h id key
find-Grow key g d = find-Shows (Grow-Shows g) key d

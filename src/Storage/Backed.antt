-- ===== src/Storage/Backed.antt =====
-- Which nodes are on disk as they are in memory: all but the dirty ones, and those are sound.
use conuredb.Common.{
  ℕ, ◌^◌, ◌<◌, ◌==◌, false, ◌≡◌, refl, ◌⊎◌, inl, inr, true, some, List, [], ◌∷◌, arith, ==_refl,
  Bool-cases, length, suc, subst, get_elem?, set, ◌+◌,
}
use conuredb.Node.Order.{place}
use conuredb.Node.{
  Item, remove_at, count_down, count_up, Node, leaf_node, internal_node, new_leaf_node,
  new_internal_node,
}
use conuredb.Node.Sound.{IsSound, leaf-IsSound, branch-IsSound, removed-counted, placed-counted}
use conuredb.Pool.{has}
use conuredb.Pool.Fresh.{Taken, has-append}
use conuredb.Storage.{Storage, add_dirty, copy_of}
use conuredb.Storage.View.{node_at, disk_node}

-- The node that an id in use stands for is sound, and its page holds it unless the id is listed.
abbrev pub Stands : List ℕ → Storage → ℕ → Type 0
Stands ids s j =
    (n : Node) × (node_at s j ≡ some n)
    × IsSound n
    × ((has j ids ≡ true) ⊎ (disk_node s.file.bytes j ≡ some n))

-- Every id in use stands for a node.
abbrev pub Backed : List ℕ → Storage → Type 0
Backed ids s = (j : ℕ) → Taken s.node_pool j → Stands ids s j

pub has-add_dirty_self : (id : ℕ) (ids : List ℕ) → has id (add_dirty id ids) ≡ true
has-add_dirty_self id ids = elim (Bool-cases (has id ids)) [
  | inl e ↦ ground (arith, e)
  | inr e ↦ ground (arith, e, has-append id ids (id ∷ []), ==_refl id)
]

pub has-add_dirty : (j id : ℕ) (ids : List ℕ) → has j ids ≡ true → has j (add_dirty id ids) ≡ true
has-add_dirty j id ids h = elim (Bool-cases (has id ids)) [
  | inl e ↦ ground (arith, e, h)
  | inr e ↦ ground (arith, e, h, has-append j ids (id ∷ []))
]

pub of_add_dirty :
    (j id : ℕ) (ids : List ℕ)
    → (j == id) ≡ false
    → has j (add_dirty id ids) ≡ true
    → has j ids ≡ true
of_add_dirty j id ids ne h = elim (Bool-cases (has id ids)) [
  | inl e ↦ ground (arith, e, h)
  | inr e ↦ ground (arith, e, h, ne, has-append j ids (id ∷ []))
]

-- Another store in which the node stands as well, listed as before or on disk as before.
pub Stands-move :
    (ids more : List ℕ) (s t : Storage) (j : ℕ)
    → ((n : Node) → node_at s j ≡ some n → node_at t j ≡ some n)
    → (has j ids ≡ true → has j more ≡ true)
    → ((n : Node) → disk_node s.file.bytes j ≡ some n → disk_node t.file.bytes j ≡ some n)
    → Stands ids s j
    → Stands more t j
Stands-move ids more s t j view sub disk (n, e, sound, inl h) = (n, view n e, sound, inl (sub h))
Stands-move ids more s t j view sub disk (n, e, sound, inr d) = (n, view n e, sound, inr (disk n d))

-- More ids may be listed.
pub Backed-more :
    (ids more : List ℕ) (s : Storage)
    → ((j : ℕ) → has j ids ≡ true → has j more ≡ true)
    → Backed ids s
    → Backed more s
Backed-more ids more s sub b j u = Stands-move ids more s s j (λ n e. e) (sub j) (λ n d. d) (b j u)

-- The clone of a leaf, and of a branch.
pub copy_of-leaf :
    (n : Node) (id : ℕ)
    → n.node_type ≡ leaf_node
    → copy_of n id ≡ record {
      id = id;
      node_type = leaf_node;
      count = n.count;
      parent = n.parent;
      items = n.items;
      children = [];
    }
unfolding copy_of new_leaf_node
copy_of-leaf n id e = ground (arith, e)

pub copy_of-branch :
    (n : Node) (id : ℕ)
    → n.node_type ≡ internal_node
    → copy_of n id ≡ record {
      id = id;
      node_type = internal_node;
      count = n.count;
      parent = n.parent;
      items = n.items;
      children = n.children;
    }
unfolding copy_of new_internal_node
copy_of-branch n id e = ground (arith, e)

pub copy_of-IsSound : (n : Node) (id : ℕ) → IsSound n → id < 2 ^ 64 → IsSound (copy_of n id)
copy_of-IsSound n id s fits = of_kind s.kind
  where
    of_kind :
        ((n.node_type ≡ leaf_node) × (n.children ≡ []))
          ⊎ ((n.node_type ≡ internal_node) × (length n.children ≡ suc (length n.items)))
        → IsSound (copy_of n id)
    of_kind (inl (t, c)) =
        rw (copy_of-leaf n id t) (leaf-IsSound n id n.count n.items s fits s.counted s.small)
    of_kind (inr (t, c)) = rw (copy_of-branch n id t) (record {
      id_fits = fits;
      parent_fits = s.parent_fits;
      kind = inr (refl, c);
      counted = s.counted;
      small = s.small;
      children_fit = s.children_fit;
    })

-- What the operations write over a clone.
module _ (n : Node) (id : ℕ) (s : IsSound (copy_of n id)) where
  as_leaf :
      n.node_type ≡ leaf_node
      → IsSound (record {
        id = id;
        node_type = leaf_node;
        count = n.count;
        parent = n.parent;
        items = n.items;
        children = [];
      })
  as_leaf t = subst IsSound (copy_of-leaf n id t) s

  as_branch :
      n.node_type ≡ internal_node
      → IsSound (record {
        id = id;
        node_type = internal_node;
        count = n.count;
        parent = n.parent;
        items = n.items;
        children = n.children;
      })
  as_branch t = subst IsSound (copy_of-branch n id t) s

  pub removed-IsSound :
      (i : ℕ) (it : Item)
      → n.node_type ≡ leaf_node
      → get_elem? n.items i ≡ some it
      → IsSound (record {
        id = id;
        node_type = leaf_node;
        count = count_down n.count;
        parent = n.parent;
        items = remove_at n.items i;
        children = [];
      })
  removed-IsSound i it t e =
      let k = as_leaf t in
      let (counted, small) = removed-counted _ i it k e in
      leaf-IsSound _ id (count_down n.count) (remove_at n.items i) k k.id_fits counted small

  pub placed-IsSound :
      (x : Item)
      → n.node_type ≡ leaf_node
      → length n.items + 1 < 2 ^ 16
      → IsSound (record {
        id = id;
        node_type = leaf_node;
        count = count_up n.count;
        parent = n.parent;
        items = place x n.items;
        children = [];
      })
  placed-IsSound x t room =
      let k = as_leaf t in
      let (counted, small) = placed-counted _ x k room in
      leaf-IsSound _ id (count_up n.count) (place x n.items) k k.id_fits counted small

  pub rewired-IsSound :
      (pos child : ℕ)
      → n.node_type ≡ internal_node
      → child < 2 ^ 64
      → IsSound (record {
        id = id;
        node_type = internal_node;
        count = n.count;
        parent = n.parent;
        items = n.items;
        children = set n.children pos child;
      })
  rewired-IsSound pos child t fits =
      let k = as_branch t in branch-IsSound _ id pos child k refl k.id_fits fits

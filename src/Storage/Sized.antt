-- ===== src/Storage/Sized.antt =====
-- Stores in which every node fits its page and the cache holds every dirty node.
use conuredb.Common.{
  ℕ, zero, suc, ◌+◌, ◌≤◌, ◌≡◌, ◌∙◌, sym, ap, subst, true, some, List, [], ◌∷◌, arith, eq_of_some,
  length, length-set, set, get_elem?, ◌==◌, Bool-cases, ==_iff, inl, inr,
}
use conuredb.Common.Bytes.{Bytes}
use conuredb.Node.{
  Node, Item, node_size, leaf_node, internal_node, new_leaf_node, new_internal_node, remove_at,
  set_parent,
}
use conuredb.Node.Order.{place}
use conuredb.Node.Layout.{items_size, page_content}
use conuredb.Pool.{has}
use conuredb.Pool.Fresh.{Taken}
use conuredb.Storage.{Storage, copy_of, add_dirty}
use conuredb.Storage.Backed.{of_add_dirty}
use conuredb.Storage.View.{node_at, Points, Same, node_at-Points}

abbrev pub FitsPage : Node → Type 0
FitsPage n = page_content n ≤ node_size

-- Every id in use stands for a node that fits its page.
abbrev pub AllFit : Storage → Type 0
AllFit s = (j : ℕ) → Taken s.node_pool j → (n : Node) × (node_at s j ≡ some n) × FitsPage n

pub record IsSized (s : Storage) : Type 0 where
  pub fits : AllFit s
  pub cached : (j : ℕ) → has j s.dirty_nodes ≡ true → (p : ℕ) × (n : Node) × Points s p j n

pub IsSized-Same : (s t : Storage) → Same s t → IsSized s → IsSized t
IsSized-Same s t e z = record {
  fits = λ j u. let (n, v, k) = z.fits j (rw (← e.node_pool) u) in (n, e.view j n v, k);
  cached = λ j h. let (p, n, pt) = z.cached j (rw (← e.dirty) h) in (p, n, e.keeps p j n pt);
}

pub FitsPage-Points :
    (s : Storage) (p j : ℕ) (n : Node)
    → IsSized s
    → Taken s.node_pool j
    → Points s p j n
    → FitsPage n
FitsPage-Points s p j n z u pt =
    let (m, v, k) = z.fits j u in subst FitsPage (eq_of_some (sym v ∙ node_at-Points s p j n pt)) k

pub FitsPage-copy_of : (n : Node) (id : ℕ) → FitsPage n → FitsPage (copy_of n id)
unfolding copy_of new_leaf_node new_internal_node page_content
FitsPage-copy_of n id k = ground (arith, k)

items_size-remove_at : (its : List Item) (i : ℕ) → items_size (remove_at its i) ≤ items_size its
unfolding items_size
items_size-remove_at [] zero = omega arith
items_size-remove_at [] (suc i) = omega arith
items_size-remove_at (it ∷ its) zero = omega arith
items_size-remove_at (it ∷ its) (suc i) = omega (arith, items_size-remove_at its i)

-- A leaf without one of the items.
pub FitsPage-removed :
    (n : Node) (id i count parent : ℕ)
    → FitsPage n
    → FitsPage (record {
      id = id;
      node_type = leaf_node;
      count = count;
      parent = parent;
      items = remove_at n.items i;
      children = [];
    })
unfolding page_content
FitsPage-removed n id i count parent k = omega (arith, k, items_size-remove_at n.items i)

-- A branch with another child.
pub FitsPage-rewired :
    (n : Node) (id pos child : ℕ)
    → n.node_type ≡ internal_node
    → FitsPage n
    → FitsPage (record {
      id = id;
      node_type = internal_node;
      count = n.count;
      parent = n.parent;
      items = n.items;
      children = set n.children pos child;
    })
unfolding page_content
FitsPage-rewired n id pos child t k = ground (arith, t, k, length-set n.children pos child)

items_size-set :
    (its : List Item) (i : ℕ) (it : Item) (value : Bytes)
    → get_elem? its i ≡ some it
    → items_size (set its i (record it { value = value })) ≤ items_size its + length value
unfolding items_size
items_size-set [] zero it value at = absurd cc
items_size-set [] (suc i) it value at = absurd cc
items_size-set (x ∷ its) zero it value at =
    let same : x ≡ it = cc in ground (arith, ap (λ (y : Item). length y.key) same)
items_size-set (x ∷ its) (suc i) it value at = omega (arith, items_size-set its i it value at)

-- A node with another value for one of the items.
pub FitsPage-valued :
    (n : Node) (i : ℕ) (it : Item) (value : Bytes)
    → get_elem? n.items i ≡ some it
    → page_content n + length value ≤ node_size
    → FitsPage (record n { items = set n.items i (record it { value = value }) })
unfolding page_content
FitsPage-valued n i it value at k = omega (arith, k, items_size-set n.items i it value at)

items_size-place :
    (x : Item) (its : List Item)
    → items_size (place x its) ≡ 6 + length x.key + length x.value + items_size its
unfolding items_size place
items_size-place x [] = omega arith
items_size-place x (it ∷ its) = ground (arith, items_size-place x its)

-- A leaf with one more item.
pub FitsPage-placed :
    (n : Node) (id count parent : ℕ) (x : Item)
    → page_content n + (6 + length x.key + length x.value) ≤ node_size
    → FitsPage (record {
      id = id;
      node_type = leaf_node;
      count = count;
      parent = parent;
      items = place x n.items;
      children = [];
    })
unfolding page_content
FitsPage-placed n id count parent x k = omega (arith, k, items_size-place x n.items)

pub FitsPage-set_parent : (n : Node) (parent : ℕ) → FitsPage n → FitsPage (set_parent n parent)
unfolding set_parent page_content
FitsPage-set_parent n parent k = k

-- One more id is listed, for which the cache holds a node.
pub IsSized-add_dirty :
    (s : Storage) (p id : ℕ) (n : Node)
    → Points s p id n
    → IsSized s
    → IsSized (record s { dirty_nodes = add_dirty id s.dirty_nodes })
unfolding node_at
IsSized-add_dirty s p id n pt z = record {
  fits = z.fits;
  cached = λ j d. elim (Bool-cases (j == id)) [
    | inl same ↦ (
      p,
      n,
      record { cached = ap s.node_cache ((==_iff j id).0 same) ∙ pt.cached; holds = pt.holds },
    )
    | inr other ↦
        let (q, x, at) = z.cached j (of_add_dirty j id s.dirty_nodes other d) in
        (q, x, record { cached = at.cached; holds = at.holds })
  ];
}

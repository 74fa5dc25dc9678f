-- ===== src/Node/Sound.antt =====
-- Nodes that a page can hold but for their size, and how the node operations keep them so.
use conuredb.Common.{
  ℕ, zero, suc, ◌+◌, ◌^◌, ◌≤◌, ◌<◌, ◌≡◌, ◌∙◌, refl, sym, ◌⊎◌, inl, inr, some, List, [], ◌∷◌, arith,
  ◌==◌, if◌then◌else◌, length, length-set, get_elem?, set, All,
}
use conuredb.Node.{Node, Item, node_size, leaf_node, internal_node, remove_at, count_up, count_down}
use conuredb.Node.Layout.{page_content}
use conuredb.Node.Order.{place, length-place}
use conuredb.Node.Order.Positions.{length-remove_at, lt_of_get_elem?}
use conuredb.Node.RoundTrip.{IsStorable}

-- A leaf has no children; a branch has one more than items.
pub record IsSound (n : Node) : Type 0 where
  pub id_fits : n.id < 2 ^ 64
  pub parent_fits : n.parent < 2 ^ 64
  pub kind :
      ((n.node_type ≡ leaf_node) × (n.children ≡ []))
      ⊎ ((n.node_type ≡ internal_node) × (length n.children ≡ suc (length n.items)))
  pub counted : n.count ≡ length n.items
  pub small : length n.items < 2 ^ 16
  pub children_fit : All (λ c. c < 2 ^ 64) n.children

pub IsSound-IsStorable : (n : Node) → IsSound n → page_content n ≤ node_size → IsStorable n
IsSound-IsStorable n s f = record {
  id_fits = s.id_fits;
  type_fits = type_fits s.kind;
  parent_fits = s.parent_fits;
  counted = s.counted;
  children_fit = s.children_fit;
  shape = shape s.kind;
  fits = f;
}
  where
    type_fits :
        ((n.node_type ≡ leaf_node) × (n.children ≡ []))
          ⊎ ((n.node_type ≡ internal_node) × (length n.children ≡ suc (length n.items)))
        → n.node_type < 2 ^ 8
    type_fits (inl (t, c)) = omega (arith, t)
    type_fits (inr (t, c)) = omega (arith, t)

    shape :
        ((n.node_type ≡ leaf_node) × (n.children ≡ []))
          ⊎ ((n.node_type ≡ internal_node) × (length n.children ≡ suc (length n.items)))
        → if n.node_type == internal_node
          then length n.children ≡ suc (length n.items)
          else n.children ≡ []
    shape (inl (t, c)) = ground (arith, t, c)
    shape (inr (t, c)) = ground (arith, t, c)

-- A leaf with other items and another id.
pub leaf-IsSound :
    (n : Node) (id count : ℕ) (its : List Item)
    → IsSound n
    → id < 2 ^ 64
    → count ≡ length its
    → length its < 2 ^ 16
    → IsSound (record {
      id = id;
      node_type = leaf_node;
      count = count;
      parent = n.parent;
      items = its;
      children = [];
    })
leaf-IsSound n id count its s fits counted small = record {
  id_fits = fits;
  parent_fits = s.parent_fits;
  kind = inl (refl, refl);
  counted = counted;
  small = small;
  children_fit = tt;
}

pub removed-counted :
    (n : Node) (i : ℕ) (it : Item)
    → IsSound n
    → get_elem? n.items i ≡ some it
    → (count_down n.count ≡ length (remove_at n.items i)) × (length (remove_at n.items i) < 2 ^ 16)
removed-counted n i it s e =
    let lt = lt_of_get_elem? n.items i it e in
    let len = length-remove_at n.items i it e in
    (omega (arith, s.counted, s.small, lt, len), omega (arith, s.small, lt, len))

pub placed-counted :
    (n : Node) (x : Item)
    → IsSound n
    → length n.items + 1 < 2 ^ 16
    → (count_up n.count ≡ length (place x n.items)) × (length (place x n.items) < 2 ^ 16)
placed-counted n x s room =
    let len = length-place x n.items in
    (omega (arith, s.counted, room, len), omega (arith, room, len))

All-set {ℓ κ} :
    {A : Type ℓ} (P : A → Type κ) (xs : List A) (i : ℕ) (v : A)
    → P v
    → All P xs
    → All P (set xs i v)
All-set P [] i v p h = tt
All-set P (x ∷ xs) zero v p h = (p, h.1)
All-set P (x ∷ xs) (suc i) v p h = (h.0, All-set P xs i v p h.1)

-- A branch with another id and one child replaced.
pub branch-IsSound :
    (n : Node) (id pos c : ℕ)
    → IsSound n
    → n.node_type ≡ internal_node
    → id < 2 ^ 64
    → c < 2 ^ 64
    → IsSound (record {
      id = id;
      node_type = internal_node;
      count = n.count;
      parent = n.parent;
      items = n.items;
      children = set n.children pos c;
    })
branch-IsSound n id pos c s t fits child = record {
  id_fits = fits;
  parent_fits = s.parent_fits;
  kind = inr (refl, length-set n.children pos c ∙ arity s.kind);
  counted = s.counted;
  small = s.small;
  children_fit = All-set (λ c. c < 2 ^ 64) n.children pos c child s.children_fit;
}
  where
    arity :
        ((n.node_type ≡ leaf_node) × (n.children ≡ []))
          ⊎ ((n.node_type ≡ internal_node) × (length n.children ≡ suc (length n.items)))
        → length n.children ≡ suc (length n.items)
    arity (inl (l, c)) = absurd (omega (arith, t, l))
    arity (inr (l, c)) = c

-- A leaf with a new value in one item.
pub valued-IsSound :
    (n : Node) (i : ℕ) (it : Item)
    → IsSound n
    → n.node_type ≡ leaf_node
    → IsSound (record n { items = set n.items i it })
valued-IsSound n i it s t = record {
  id_fits = s.id_fits;
  parent_fits = s.parent_fits;
  kind = kind s.kind;
  counted = s.counted ∙ sym (length-set n.items i it);
  small = omega (arith, s.small, length-set n.items i it);
  children_fit = s.children_fit;
}
  where
    kind :
        ((n.node_type ≡ leaf_node) × (n.children ≡ []))
          ⊎ ((n.node_type ≡ internal_node) × (length n.children ≡ suc (length n.items)))
        → ((n.node_type ≡ leaf_node) × (n.children ≡ []))
          ⊎ ((n.node_type ≡ internal_node) × (length n.children ≡ suc (length (set n.items i it))))
    kind (inl x) = inl x
    kind (inr (l, c)) = absurd (omega (arith, t, l))

pub parented-IsSound :
    (n : Node) (parent : ℕ) → IsSound n → parent < 2 ^ 64 → IsSound (record n { parent = parent })
parented-IsSound n parent s fits = record {
  id_fits = s.id_fits;
  parent_fits = fits;
  kind = s.kind;
  counted = s.counted;
  small = s.small;
  children_fit = s.children_fit;
}

-- ===== src/Node/Search/Children.antt =====
-- `FindChildPos` splits the separators of an internal node at the key.
use conuredb.Common.{
  ℕ, zero, suc, ◌+◌, ◌/◌, ◌≤◌, ◌<◌, ◌≡◌, ◌≢◌, refl, Ordering, true, false, Option, none, some, List,
  ◌⊎◌, inl, inr, arith, length, get_elem?, ltb, ltb→lt, ltb→le, Bool-cases,
}
use conuredb.Common.Bytes.{Bytes, compare_bytes, Before, Before-trans}
use conuredb.Node.{Item, Node, internal_node, find_child_loop, find_child_pos}
use conuredb.Node.Order.{IsSorted, lookup_item, Ordering-cases}
use conuredb.Node.Order.Positions.{Before-of_lt, get_elem?-lt, lt_of_get_elem?}
use conuredb.Node.Search.{Found, absent, present}

-- What `FindChildPos` promises: the separators before `p` are at most the key, those from `p` on
-- are above it.
pub record Splits (items : List Item) (key : Bytes) (p : ℕ) : Type 0 where
  pub within : p ≤ length items
  pub below : (j : ℕ) (it : Item) → j < p → get_elem? items j ≡ some it → ¬ Before key it.key
  pub above : (j : ℕ) (it : Item) → p ≤ j → get_elem? items j ≡ some it → Before key it.key

-- The rounds of the loop.
module _ (fuel : ℕ) (items : List Item) (key : Bytes) (low high : ℕ) (m : Item)
    (more : ltb low high ≡ true) (at : get_elem? items ((low + high) / 2) ≡ some m) where
  loop_left :
      Before key m.key
      → find_child_loop (suc fuel) items key low high
        ≡ find_child_loop fuel items key low ((low + high) / 2)
  unfolding find_child_loop
  loop_left h = ground (arith, at, more)

  loop_right :
      ¬ Before key m.key
      → find_child_loop (suc fuel) items key low high
        ≡ find_child_loop fuel items key ((low + high) / 2 + 1) high
  unfolding find_child_loop
  loop_right h = ground (arith, at, more)

loop_done :
    (fuel : ℕ) (items : List Item) (key : Bytes) (low high : ℕ)
    → ltb low high ≡ false
    → find_child_loop (suc fuel) items key low high ≡ low
unfolding find_child_loop
loop_done fuel items key low high h = ground arith

-- A separator at or before a position is at most the one there, and the other way round.
module _ (items : List Item) (key : Bytes) (p : ℕ) (m : Item) (s : IsSorted items)
    (at : get_elem? items p ≡ some m) where
  above_from :
      Before key m.key
      → (j : ℕ) (it : Item) → p ≤ j
      → get_elem? items j ≡ some it
      → Before key it.key
  above_from h j it k e = elim (Bool-cases (ltb p j)) [
    | inl lt ↦ Before-trans key m.key it.key h (Before-of_lt items p j m it s at e (ltb→lt p j lt))
    | inr ge ↦
        let here : p ≡ j = omega (arith, ltb→le p j ge) in
        let same : get_elem? items p ≡ some it = rw here e in let same : m ≡ it = cc in rw same at h
  ]

  below_upto :
      ¬ Before key m.key
      → (j : ℕ) (it : Item) → j < p + 1
      → get_elem? items j ≡ some it
      → ¬ Before key it.key
  below_upto h j it k e b = elim (Bool-cases (ltb j p)) [
    | inl lt ↦
        h (Before-trans key it.key m.key b (Before-of_lt items j p it m s e at (ltb→lt j p lt)))
    | inr ge ↦
        let here : p ≡ j = omega (arith, ltb→le j p ge) in
        let same : get_elem? items p ≡ some it = rw here e in
        let same : it ≡ m = cc in h (rw same at b)
  ]

find_child_loop-Splits :
    (fuel : ℕ) (items : List Item) (key : Bytes) (low high : ℕ)
    → IsSorted items
    → high ≤ length items
    → low ≤ high
    → high ≤ low + fuel
    → ((j : ℕ) (it : Item) → j < low → get_elem? items j ≡ some it → ¬ Before key it.key)
    → ((j : ℕ) (it : Item) → high ≤ j → get_elem? items j ≡ some it → Before key it.key)
    → Splits items key (find_child_loop fuel items key low high)
find_child_loop-Splits zero items key low high s l h f b a =
    unfold find_child_loop in
    record { within = omega arith; below = b; above = λ j it k. a j it (omega arith) }
find_child_loop-Splits (suc fuel) items key low high s l h f b a =
    elim (Bool-cases (ltb low high)) [
      | inr done ↦
          let stop : high ≤ low = ltb→le low high done in
          rw (loop_done fuel items key low high done)
            (record { within = omega arith; below = b; above = λ j it k. a j it (omega arith) })
      | inl more ↦
          let mid = (low + high) / 2 in
          let lt : low < high = ltb→lt low high more in
          let (m, at) = get_elem?-lt items mid (omega arith) in
          elim (Ordering-cases (compare_bytes key m.key)) [
            | inl o ↦ rw (loop_left fuel items key low high m more at o) (
                find_child_loop-Splits fuel items key low mid s (omega arith) (omega arith)
                  (omega arith) b (above_from items key mid m s at o))
            | inr o ↦
                let far : ¬ Before key m.key = not_before o in
                rw (loop_right fuel items key low high m more at far) (
                  find_child_loop-Splits fuel items key (mid + 1) high s l (omega arith)
                    (omega arith) (below_upto items key mid m s at far) a)
          ]
    ]
  where
    not_before : {o : Ordering} → (o ≡ Ordering.eq) ⊎ (o ≡ Ordering.gt) → o ≢ Ordering.lt
    not_before (inl e) q = cc
    not_before (inr e) q = cc

-- On a sorted internal node `FindChildPos` returns the position that splits the separators.
pub find_child_pos-Splits :
    (n : Node) (key : Bytes)
    → n.node_type ≡ internal_node
    → IsSorted n.items
    → (p : ℕ) × (find_child_pos n key ≡ some p) × Splits n.items key p
unfolding find_child_pos
find_child_pos-Splits n key t s = (
  find_child_loop (length n.items) n.items key 0 (length n.items),
  ground arith,
  find_child_loop-Splits (length n.items) n.items key 0 (length n.items) s (omega arith)
      (omega arith) (omega arith) (λ j it h. absurd (omega arith))
      (λ j it h e. absurd (omega (arith, lt_of_get_elem? n.items j it e))),
)

-- The two cases, from what the key looks up.
pub Found-some :
    {items : List Item} {key : Bytes} {r : Option ℕ} (v : Bytes)
    → Found items key r
    → lookup_item items key ≡ some v
    → (i : ℕ) × (it : Item) × (r ≡ some i) × (get_elem? items i ≡ some it) × (it.key ≡ key)
Found-some v (absent e) h = absurd (cc)
Found-some v (present i it at k e) h = (i, it, refl, at, k)

pub Found-none :
    {items : List Item} {key : Bytes} {r : Option ℕ}
    → Found items key r
    → lookup_item items key ≡ none
    → r ≡ none
Found-none (absent e) h = refl
Found-none (present i it at k e) h = absurd (cc)

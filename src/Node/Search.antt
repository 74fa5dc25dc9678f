-- ===== src/Node/Search.antt =====
-- The binary searches of btree/node.go: `FindKey` decides whether a sorted node holds a key, and
-- `FindChildPos` splits the separators of an internal node at the key.
pub mod Children
use conuredb.Common.{
  ℕ, zero, suc, ◌+◌, ◌-◌, ◌/◌, ◌≤◌, ◌<◌, ◌≡◌, ◌≢◌, refl, Ordering, true, false, Option, none, some,
  List, ◌⊎◌, inl, inr, arith, length, get_elem?, ltb, ltb→lt, ltb→le, lt→ltb, Bool-cases,
  Option-cases,
}
use conuredb.Common.Bytes.{
  Bytes, compare_bytes, Before, Before-irrefl, Before-of_gt, Before-trans, eq_of_compare_bytes,
}
use conuredb.Node.{
  Item, Node, internal_node, find_key_loop, find_key, find_child_loop, find_child_pos,
}
use conuredb.Node.Order.{IsSorted, lookup_item, Ordering-cases}
use conuredb.Node.Order.Positions.{
  Before-of_lt, get_elem?-lt, lt_of_get_elem?, lookup_item-get_elem?, get_elem?-lookup_item,
}

-- Whatever `FindKey` returns is a position of the key, in any list.
find_key_loop_sound :
    (fuel : ℕ) (items : List Item) (key : Bytes) (low stop i : ℕ)
    → find_key_loop fuel items key low stop ≡ some i
    → (it : Item) × (get_elem? items i ≡ some it) × (it.key ≡ key)
unfolding find_key_loop
find_key_loop_sound zero items key low stop i e = absurd (cc)
find_key_loop_sound (suc fuel) items key low stop i e = elim (Bool-cases (ltb low stop)) [
  | inr done ↦ absurd (ground arith)
  | inl more ↦ elim (Option-cases (get_elem? items ((low + stop - 1) / 2))) [
    | inl out ↦ absurd (ground arith)
    | inr (it, at) ↦ elim (Ordering-cases (compare_bytes it.key key)) [
      | inl lt ↦ find_key_loop_sound fuel items key ((low + stop - 1) / 2 + 1) stop i (ground arith)
      | inr (inl eq) ↦ (it, ground arith, eq_of_compare_bytes it.key key eq)
      | inr (inr gt) ↦
          find_key_loop_sound fuel items key low ((low + stop - 1) / 2) i (ground arith)
    ]
  ]
]

-- Two positions of a sorted list compare as their keys do.
lt_of_Before :
    (its : List Item) (i j : ℕ) (a b : Item)
    → IsSorted its
    → get_elem? its i ≡ some a
    → get_elem? its j ≡ some b
    → Before a.key b.key
    → i < j
lt_of_Before its i j a b s p q h = elim (Bool-cases (ltb i j)) [
  | inl le ↦ ltb→lt i j le
  | inr ge ↦ elim (Bool-cases (ltb j i)) [
    | inl gt ↦ absurd (
        Before-irrefl a.key
          (Before-trans a.key b.key a.key h (Before-of_lt its j i b a s q p (ltb→lt j i gt))))
    | inr eq ↦
        let same : i ≡ j = omega (arith, ltb→le i j ge, ltb→le j i eq) in absurd (same_item same)
  ]
]
  where
    same_item : i ≡ j → ⊥
    same_item e =
        let q' : get_elem? its i ≡ some b = rw e q in
        let ab : a ≡ b = cc in Before-irrefl b.key (rw ab at h)

eq_of_key_eq :
    (its : List Item) (i j : ℕ) (a b : Item)
    → IsSorted its
    → get_elem? its i ≡ some a
    → get_elem? its j ≡ some b
    → a.key ≡ b.key
    → i ≡ j
eq_of_key_eq its i j a b s p q h = elim (Bool-cases (ltb i j)) [
  | inl lt ↦ absurd (Before-irrefl b.key (rw h at (Before-of_lt its i j a b s p q (ltb→lt i j lt))))
  | inr ge ↦ elim (Bool-cases (ltb j i)) [
    | inl gt ↦
        absurd (Before-irrefl b.key (rw h at (Before-of_lt its j i b a s q p (ltb→lt j i gt))))
    | inr le ↦ omega (arith, ltb→le i j ge, ltb→le j i le)
  ]
]

-- In a sorted list a key inside the range is found, on a fuel of the range's length.
find_key_loop_complete :
    (fuel : ℕ) (items : List Item) (low stop j : ℕ) (it : Item)
    → IsSorted items
    → get_elem? items j ≡ some it
    → low ≤ j
    → j < stop
    → stop ≤ length items
    → stop ≤ low + fuel
    → find_key_loop fuel items it.key low stop ≡ some j
unfolding find_key_loop
find_key_loop_complete zero items low stop j it s e h k l f = absurd (omega arith)
find_key_loop_complete (suc fuel) items low stop j it s e h k l f =
    let mid = (low + stop - 1) / 2 in
    let (m, at) = get_elem?-lt items mid (omega arith) in
    let more : ltb low stop ≡ true = lt→ltb low stop (omega arith) in
    elim (Ordering-cases (compare_bytes m.key it.key)) [
      | inl lt ↦
          let past : mid < j = lt_of_Before items mid j m it s at e lt in
          ground (
            arith,
            at,
            lt,
            more,
            find_key_loop_complete fuel items (mid + 1) stop j it s e (omega arith) k l
                (omega arith),
          )
      | inr (inl eq) ↦
          let here : mid ≡ j =
            eq_of_key_eq items mid j m it s at e (eq_of_compare_bytes m.key it.key eq) in
          ground (arith, at, eq, more, here)
      | inr (inr gt) ↦
          let past : j < mid =
            lt_of_Before items j mid it m s e at (Before-of_gt m.key it.key gt) in
          ground (
            arith,
            at,
            gt,
            more,
            find_key_loop_complete fuel items low mid j it s e h past (omega arith) (omega arith),
          )
    ]

-- What `FindKey` promises on sorted items.
pub data Found (items : List Item) (key : Bytes) : Option ℕ → Type 0 where
  absent : lookup_item items key ≡ none → Found items key none
  present :
      (i : ℕ) (it : Item)
      → get_elem? items i ≡ some it
      → it.key ≡ key
      → lookup_item items key ≡ some it.value
      → Found items key (some i)

found :
    (n : Node) (key : Bytes) (r : Option ℕ)
    → IsSorted n.items
    → find_key n key ≡ r
    → Found n.items key r
found n key none s e = absent (no (lookup_item n.items key) refl)
  where
    no : (o : Option Bytes) → lookup_item n.items key ≡ o → o ≡ none
    no none q = refl
    no (some v) q =
        let (i, it, at, same, val) = get_elem?-lookup_item n.items key v q in
        let hit : find_key_loop (length n.items) n.items it.key 0 (length n.items) ≡ some i =
          find_key_loop_complete (length n.items) n.items 0 (length n.items) i it s at (omega arith)
            (lt_of_get_elem? n.items i it at) (omega arith) (omega arith) in
        absurd (unfold find_key in cc)
found n key (some i) s e =
    let (it, at, same) =
      find_key_loop_sound (length n.items) n.items key 0 (length n.items) i
        (unfold find_key in e) in
    present i it at same (rw same at (lookup_item-get_elem? n.items i it s at))

-- On sorted items `FindKey` returns the position of the key, and -1 exactly when no item has it.
pub find_key-Found :
    (n : Node) (key : Bytes) → IsSorted n.items → Found n.items key (find_key n key)
find_key-Found n key s = found n key (find_key n key) s refl

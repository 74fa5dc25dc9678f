-- ===== src/Node/Order.antt =====
-- The order of the items in a node: `AddItem` and `RemoveItem` keep them sorted by key.
pub mod Positions
use conuredb.Common.{
  ℕ, zero, suc, ◌+◌, ◌<◌, ◌≡◌, ◌∙◌, sym, ap, set, subst, Bool-cases, ◌≢◌, refl, Ordering, Option,
  none, some, List, [], ◌∷◌, ◌⊎◌, inl, inr, arith, length, get_elem?, All, if◌then◌else◌,
}
use conuredb.Common.Bytes.{Bytes, compare_bytes, Before, Before-trans, Before-irrefl, Before-of_gt}
use conuredb.Common.Bytes.{equal_bytes, equal_bytes_refl, eq_of_equal_bytes, eq_of_compare_bytes}
use conuredb.Node.{Item, scan_pos, insert_at, remove_at}

-- Strictly increasing keys.
abbrev pub IsSorted : List Item → Type 0
IsSorted [] = Unit {0}
IsSorted (it ∷ its) = All (λ (x : Item). Before it.key x.key) its × IsSorted its

-- The first item with the key, as `search` and the abstract map read a leaf.
unfoldable pub lookup_item : List Item → Bytes → Option Bytes
lookup_item [] key = none
lookup_item (it ∷ its) key = if equal_bytes it.key key then some it.value else lookup_item its key

pub Ordering-cases : (o : Ordering) → (o ≡ Ordering.lt) ⊎ ((o ≡ Ordering.eq) ⊎ (o ≡ Ordering.gt))
Ordering-cases Ordering.lt = inl refl
Ordering-cases Ordering.eq = inr (inl refl)
Ordering-cases Ordering.gt = inr (inr refl)

pub All-Before_trans :
    (a b : Bytes) (its : List Item)
    → Before a b
    → All (λ (x : Item). Before b x.key) its
    → All (λ (x : Item). Before a x.key) its
All-Before_trans a b [] h k = tt
All-Before_trans a b (it ∷ its) h k =
    (Before-trans a b it.key h k.0, All-Before_trans a b its h k.1)

-- Insertion into a sorted list by recursion: the description that `AddItem` is held to.
unfoldable pub place : Item → List Item → List Item
place x [] = x ∷ []
place x (it ∷ its) = elim (compare_bytes it.key x.key) [
  | Ordering.lt ↦ it ∷ place x its
  | _ ↦ x ∷ it ∷ its
]

-- The two branches of `place`.
place_after :
    (x it : Item) (its : List Item)
    → compare_bytes it.key x.key ≡ Ordering.lt
    → place x (it ∷ its) ≡ it ∷ place x its
unfolding place
place_after x it its e = ground arith

place_here :
    (x it : Item) (its : List Item)
    → compare_bytes it.key x.key ≢ Ordering.lt
    → place x (it ∷ its) ≡ x ∷ it ∷ its
unfolding place
place_here x it its h = ground arith

pub insert_at-place :
    (x : Item) (its : List Item) → insert_at its (scan_pos its x.key) x ≡ place x its
unfolding scan_pos place
insert_at-place x [] = refl
insert_at-place x (it ∷ its) = ground (arith, insert_at-place x its)

pub length-place : (x : Item) (its : List Item) → length (place x its) ≡ length its + 1
unfolding place
length-place x [] = omega arith
length-place x (it ∷ its) = ground (arith, length-place x its)

pub All-place {κ} :
    (P : Item → Type κ) (x : Item) (its : List Item) → P x → All P its → All P (place x its)
All-place P x [] p h = unfold place in (p, tt)
All-place P x (it ∷ its) p h = elim (Ordering-cases (compare_bytes it.key x.key)) [
  | inl e ↦ rw (place_after x it its e) (h.0, All-place P x its p h.1)
  | inr (inl e) ↦ rw (place_here x it its (λ q. cc)) (p, h)
  | inr (inr e) ↦ rw (place_here x it its (λ q. cc)) (p, h)
]

pub place-IsSorted :
    (x : Item) (its : List Item)
    → IsSorted its
    → lookup_item its x.key ≡ none
    → IsSorted (place x its)
unfolding lookup_item
place-IsSorted x [] s h = unfold place in (tt, tt)
place-IsSorted x (it ∷ its) s h = elim (Ordering-cases (compare_bytes it.key x.key)) [
  | inl e ↦ rw (place_after x it its e) (
    All-place (λ (y : Item). Before it.key y.key) x its e s.0,
    place-IsSorted x its s.1 (ground arith),
  )
  | inr (inl e) ↦ absurd (ground (arith, eq_of_compare_bytes it.key x.key, equal_bytes_refl x.key))
  | inr (inr e) ↦
      let lt : Before x.key it.key = Before-of_gt it.key x.key e in
      rw (place_here x it its (λ q. cc)) ((lt, All-Before_trans x.key it.key its lt s.0), s)
]

pub lookup_item-place :
    (x : Item) (its : List Item) (key : Bytes)
    → lookup_item (place x its) key
      ≡ (if equal_bytes x.key key then some x.value else lookup_item its key)
unfolding lookup_item
lookup_item-place x [] key = unfold place in refl
lookup_item-place x (it ∷ its) key = elim (Ordering-cases (compare_bytes it.key x.key)) [
  | inl e ↦ rw (place_after x it its e) (
      ground (
        arith,
        lookup_item-place x its key,
        eq_of_equal_bytes it.key key,
        eq_of_equal_bytes x.key key,
        Before-irrefl key,
      ))
  | inr (inl e) ↦ rw (place_here x it its (λ q. cc)) refl
  | inr (inr e) ↦ rw (place_here x it its (λ q. cc)) refl
]

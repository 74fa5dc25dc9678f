-- ===== src/Node/Order/Positions.antt =====
-- Positions, removal and new values in a sorted list of items.
use conuredb.Common.{
  ℕ, zero, suc, ◌+◌, ◌<◌, ◌≡◌, ◌∙◌, sym, ap, set, subst, Bool-cases, refl, none, some, List, [],
  ◌∷◌, inl, inr, arith, length, get_elem?, All, if◌then◌else◌,
}
use conuredb.Common.Bytes.{Bytes, Before, Before-irrefl}
use conuredb.Common.Bytes.{equal_bytes, equal_bytes_refl, eq_of_equal_bytes}
use conuredb.Node.{Item, remove_at}
use conuredb.Node.Order.{IsSorted, lookup_item}

-- A key below every key of the list is not in it.
pub lookup_item_below :
    (key : Bytes) (its : List Item)
    → All (λ (x : Item). Before key x.key) its
    → lookup_item its key ≡ none
unfolding lookup_item
lookup_item_below key [] h = refl
lookup_item_below key (it ∷ its) h =
    ground (arith, lookup_item_below key its, eq_of_equal_bytes it.key key, Before-irrefl key)

pub lookup_item-remove_at :
    (its : List Item) (i : ℕ) (it : Item) (key : Bytes)
    → IsSorted its
    → get_elem? its i ≡ some it
    → lookup_item (remove_at its i) key
      ≡ (if equal_bytes it.key key then none else lookup_item its key)
unfolding lookup_item
lookup_item-remove_at [] i it key s e = absurd (cc)
lookup_item-remove_at (x ∷ its) zero it key s e =
    ground (arith, lookup_item_below x.key its, eq_of_equal_bytes it.key key)
lookup_item-remove_at (x ∷ its) (suc i) it key s e = ground (
  arith,
  lookup_item-remove_at its i it key,
  above its i it s.0 e,
  eq_of_equal_bytes it.key key,
  eq_of_equal_bytes x.key key,
  Before-irrefl key,
)
  where
    above :
        (ys : List Item) (j : ℕ) (y : Item)
        → All (λ (z : Item). Before x.key z.key) ys
        → get_elem? ys j ≡ some y
        → Before x.key y.key
    above [] j y h e = absurd (cc)
    above (z ∷ ys) zero y h e = ground arith
    above (z ∷ ys) (suc j) y h e = above ys j y h.1 e

All-remove_at {κ} :
    (P : Item → Type κ) (its : List Item) (i : ℕ) → All P its → All P (remove_at its i)
All-remove_at P [] zero h = tt
All-remove_at P [] (suc i) h = tt
All-remove_at P (x ∷ its) zero h = h.1
All-remove_at P (x ∷ its) (suc i) h = (h.0, All-remove_at P its i h.1)

pub remove_at-IsSorted : (its : List Item) (i : ℕ) → IsSorted its → IsSorted (remove_at its i)
remove_at-IsSorted [] zero s = tt
remove_at-IsSorted [] (suc i) s = tt
remove_at-IsSorted (x ∷ its) zero s = s.1
remove_at-IsSorted (x ∷ its) (suc i) s =
    (All-remove_at (λ (y : Item). Before x.key y.key) its i s.0, remove_at-IsSorted its i s.1)

pub length-remove_at :
    (its : List Item) (i : ℕ) (it : Item)
    → get_elem? its i ≡ some it
    → length (remove_at its i) + 1 ≡ length its
length-remove_at [] i it e = absurd (cc)
length-remove_at (x ∷ its) zero it e = omega arith
length-remove_at (x ∷ its) (suc i) it e = omega (arith, length-remove_at its i it e)

pub get_elem?-All {κ} :
    (P : Item → Type κ) (its : List Item) (i : ℕ) (it : Item)
    → All P its
    → get_elem? its i ≡ some it
    → P it
get_elem?-All P [] i it h e = absurd (cc)
get_elem?-All P (x ∷ its) zero it h e = let same : x ≡ it = cc in subst P same h.0
get_elem?-All P (x ∷ its) (suc i) it h e = get_elem?-All P its i it h.1 e

-- Positions in a sorted list are ordered as the keys are.
pub Before-of_lt :
    (its : List Item) (i j : ℕ) (a b : Item)
    → IsSorted its
    → get_elem? its i ≡ some a
    → get_elem? its j ≡ some b
    → i < j
    → Before a.key b.key
Before-of_lt [] i j a b s p q h = absurd (cc)
Before-of_lt (x ∷ its) i zero a b s p q h = absurd (omega arith)
Before-of_lt (x ∷ its) zero (suc j) a b s p q h =
    let same : x ≡ a = cc in
    rw (← same) (get_elem?-All (λ (y : Item). Before x.key y.key) its j b s.0 q)
Before-of_lt (x ∷ its) (suc i) (suc j) a b s p q h = Before-of_lt its i j a b s.1 p q (omega arith)

pub get_elem?-lt :
    (its : List Item) (i : ℕ) → i < length its → (it : Item) × (get_elem? its i ≡ some it)
get_elem?-lt [] i h = absurd (omega arith)
get_elem?-lt (x ∷ its) zero h = (x, refl)
get_elem?-lt (x ∷ its) (suc i) h = get_elem?-lt its i (omega arith)

pub lt_of_get_elem? :
    (its : List Item) (i : ℕ) (it : Item) → get_elem? its i ≡ some it → i < length its
lt_of_get_elem? [] i it e = absurd (cc)
lt_of_get_elem? (x ∷ its) zero it e = omega arith
lt_of_get_elem? (x ∷ its) (suc i) it e = omega (arith, lt_of_get_elem? its i it e)

-- In a sorted list the item at a position is what its key looks up.
pub lookup_item-get_elem? :
    (its : List Item) (i : ℕ) (it : Item)
    → IsSorted its
    → get_elem? its i ≡ some it
    → lookup_item its it.key ≡ some it.value
unfolding lookup_item
lookup_item-get_elem? [] i it s e = absurd (cc)
lookup_item-get_elem? (x ∷ its) zero it s e = ground (arith, equal_bytes_refl it.key)
lookup_item-get_elem? (x ∷ its) (suc i) it s e = ground (
  arith,
  lookup_item-get_elem? its i it s.1 e,
  eq_of_equal_bytes x.key it.key,
  get_elem?-All (λ (y : Item). Before x.key y.key) its i it s.0 e,
  Before-irrefl it.key,
)

-- And whatever looks up stands at a position.
pub get_elem?-lookup_item :
    (its : List Item) (key v : Bytes)
    → lookup_item its key ≡ some v
    → (i : ℕ) × (it : Item) × (get_elem? its i ≡ some it) × (it.key ≡ key) × (it.value ≡ v)
unfolding lookup_item
get_elem?-lookup_item [] key v e = absurd (cc)
get_elem?-lookup_item (x ∷ its) key v e = elim (Bool-cases (equal_bytes x.key key)) [
  | inl same ↦ (0, x, refl, eq_of_equal_bytes x.key key same, ground arith)
  | inr other ↦
      let (i, it, p, q, r) = get_elem?-lookup_item its key v (ground arith) in (suc i, it, p, q, r)
]

-- A new value at a position keeps the keys.
pub All-set_key {κ} :
    (P : Bytes → Type κ) (its : List Item) (i : ℕ) (it new : Item)
    → get_elem? its i ≡ some it
    → new.key ≡ it.key
    → All (λ (x : Item). P x.key) its
    → All (λ (x : Item). P x.key) (set its i new)
All-set_key P [] i it new e k h = tt
All-set_key P (x ∷ its) zero it new e k h =
    let same : x ≡ it = cc in (subst P (ap (λ (y : Item). y.key) same ∙ sym k) h.0, h.1)
All-set_key P (x ∷ its) (suc i) it new e k h = (h.0, All-set_key P its i it new e k h.1)

pub set-IsSorted :
    (its : List Item) (i : ℕ) (it new : Item)
    → get_elem? its i ≡ some it
    → new.key ≡ it.key
    → IsSorted its
    → IsSorted (set its i new)
set-IsSorted [] i it new e k s = tt
set-IsSorted (x ∷ its) zero it new e k s =
    let same : x ≡ it = cc in
    let keys : x.key ≡ new.key = ap (λ (y : Item). y.key) same ∙ sym k in
    (subst (λ b. All (λ (y : Item). Before b y.key) its) keys s.0, s.1)
set-IsSorted (x ∷ its) (suc i) it new e k s =
    (All-set_key (Before x.key) its i it new e k s.0, set-IsSorted its i it new e k s.1)

pub lookup_item-set :
    (its : List Item) (i : ℕ) (it new : Item) (key : Bytes)
    → get_elem? its i ≡ some it
    → new.key ≡ it.key
    → IsSorted its
    → lookup_item (set its i new) key
      ≡ (if equal_bytes it.key key then some new.value else lookup_item its key)
unfolding lookup_item
lookup_item-set [] i it new key e k s = absurd (cc)
lookup_item-set (x ∷ its) zero it new key e k s = ground (arith, e, k)
lookup_item-set (x ∷ its) (suc i) it new key e k s =
    let above : Before x.key it.key =
      get_elem?-All (λ (y : Item). Before x.key y.key) its i it s.0 e in
    ground (
      arith,
      lookup_item-set its i it new key e k s.1,
      above,
      eq_of_equal_bytes it.key key,
      eq_of_equal_bytes x.key key,
      Before-irrefl key,
    )

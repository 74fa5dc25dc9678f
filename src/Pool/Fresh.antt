-- ===== src/Pool/Fresh.antt =====
-- An id that the pool hands out is in nobody's hands.
use conuredb.Common.{
  ℕ, ◌+◌, ◌-◌, ◌≤◌, ◌<◌, ◌^◌, ◌≡◌, refl, ◌⊎◌, inl, inr, true, false, ◌||◌, none, some, List, [],
  ◌∷◌, ◌++◌, arith, ◌==◌, ==_iff, Bool-cases, Option-cases, ◌%◌, ◌↔◌, ◌≢◌, length, get_elem?, take,
  All,
}
use conuredb.Pool.{NodePool, allocate, free, has}

abbrev pub Nodup : List ℕ → Type 0
Nodup [] = Unit {0}
Nodup (x ∷ xs) = (has x xs ≡ false) × Nodup xs

-- `id` has been handed out and not been given back.
abbrev pub Taken : NodePool → ℕ → Type 0
Taken p id = (0 < id) × (id < p.next_node_id) × (has id p.free_node_ids ≡ false)

-- The free ids are different, and are ids handed out before.
pub record IsPool (p : NodePool) : Type 0 where
  pub nodup : Nodup p.free_node_ids
  pub known : All (λ id. (0 < id) × (id < p.next_node_id)) p.free_node_ids
  pub started : 0 < p.next_node_id
  pub width : p.next_node_id < 2 ^ 64

pub has-append : (x : ℕ) (xs ys : List ℕ) → has x (xs ++ ys) ≡ (has x xs || has x ys)
has-append x [] ys = ground arith
has-append x (y ∷ xs) ys = ground (arith, has-append x xs ys)

Nodup-snoc : (xs : List ℕ) (x : ℕ) → Nodup xs → has x xs ≡ false → Nodup (xs ++ (x ∷ []))
Nodup-snoc [] x n h = ground arith
Nodup-snoc (y ∷ xs) x n h =
    (ground (arith, has-append y xs (x ∷ [])), Nodup-snoc xs x n.1 (ground arith))

-- A non-empty list of free ids is its front and its last id.
last_split :
    (xs : List ℕ) (x : ℕ)
    → get_elem? xs (length xs - 1) ≡ some x
    → xs ≡ take (length xs - 1) xs ++ (x ∷ [])
last_split [] x e = absurd (cc)
last_split (y ∷ []) x e = ground arith
last_split (y ∷ z ∷ xs) x e = ground (arith, last_split (z ∷ xs) x)

none_of_last : (xs : List ℕ) → get_elem? xs (length xs - 1) ≡ none → xs ≡ []
none_of_last [] e = refl
none_of_last (y ∷ []) e = absurd (ground arith)
none_of_last (y ∷ z ∷ xs) e = absurd (ground (arith, none_of_last (z ∷ xs)))

-- What one allocation promises: a fresh id, and everything handed out before still is.
pub record Allocated (p : NodePool) (id : ℕ) (q : NodePool) : Type 0 where
  pub fresh : ¬ Taken p id
  pub taken : Taken q id
  pub keeps : (j : ℕ) → Taken p j → Taken q j
  pub only : (j : ℕ) → Taken q j → (j ≡ id) ⊎ Taken p j
  pub pool : IsPool q
  pub next : q.next_node_id ≤ p.next_node_id + 1

has-last : (xs : List ℕ) (x : ℕ) → has x (xs ++ (x ∷ [])) ≡ true
has-last xs x = ground (arith, has-append x xs (x ∷ []))

Nodup-front : (xs : List ℕ) (x : ℕ) → Nodup (xs ++ (x ∷ [])) → Nodup xs × (has x xs ≡ false)
Nodup-front [] x n = ground arith
Nodup-front (y ∷ xs) x n = ground (arith, has-append y xs (x ∷ []), Nodup-front xs x n.1)

All-front {κ} : (P : ℕ → Type κ) (xs : List ℕ) (x : ℕ) → All P (xs ++ (x ∷ [])) → All P xs × P x
All-front P [] x h = (tt, h.0)
All-front P (y ∷ xs) x h = let (a, b) = All-front P xs x h.1 in ((h.0, a), b)

-- Taking the last id off the free list.
Allocated-reuse :
    (p : NodePool) (front : List ℕ) (id : ℕ)
    → IsPool p
    → p.free_node_ids ≡ front ++ (id ∷ [])
    → Allocated p id (record p { free_node_ids = front })
Allocated-reuse p front id i e =
    let (nd, out) = Nodup-front front id (rw e at i.nodup) in
    let (kn, (pos, lt)) = All-front _ front id (rw e at i.known) in
    let member : has id p.free_node_ids ≡ true = rw e (has-last front id) in
    record {
      fresh = λ t. cc (t.2, member);
      taken = (pos, lt, out);
      keeps = λ j t. (t.0, t.1, ground (arith, e, has-append j front (id ∷ []), t.2));
      only = λ j t. same j t (Bool-cases (j == id));
      pool = record { nodup = nd; known = kn; started = i.started; width = i.width };
      next = omega arith;
    }
  where
    same :
        (j : ℕ)
        → (0 < j) × (j < p.next_node_id) × (has j front ≡ false)
        → ((j == id) ≡ true) ⊎ ((j == id) ≡ false)
        → (j ≡ id) ⊎ Taken p j
    same j t (inl h) = inl ((==_iff j id).0 h)
    same j t (inr h) = inr (t.0, t.1, ground (arith, e, has-append j front (id ∷ []), t.2))

All-below :
    (n : ℕ) (xs : List ℕ)
    → All (λ id. (0 < id) × (id < n)) xs
    → All (λ id. (0 < id) × (id < n + 1)) xs
All-below n [] h = tt
All-below n (x ∷ xs) h = ((h.0.0, omega (arith, h.0.1)), All-below n xs h.1)

Allocated-new :
    (p : NodePool)
    → IsPool p
    → p.free_node_ids ≡ []
    → p.next_node_id + 1 < 2 ^ 64
    → Allocated p p.next_node_id (record p { next_node_id = (p.next_node_id + 1) % 2 ^ 64 })
Allocated-new p i e w =
    let step : (p.next_node_id + 1) % 2 ^ 64 ≡ p.next_node_id + 1 = omega arith in
    rw step (record {
      fresh = λ t. omega (arith, t.1);
      taken = (i.started, omega arith, rw e);
      keeps = λ j t. (t.0, omega (arith, t.1), t.2);
      only = λ j t. split j t (Bool-cases (j == p.next_node_id));
      pool = record {
        nodup = i.nodup;
        known = All-below p.next_node_id p.free_node_ids i.known;
        started = omega arith;
        width = w;
      };
      next = omega arith;
    })
  where
    split :
        (j : ℕ)
        → (0 < j) × (j < p.next_node_id + 1) × (has j p.free_node_ids ≡ false)
        → ((j == p.next_node_id) ≡ true) ⊎ ((j == p.next_node_id) ≡ false)
        → (j ≡ p.next_node_id) ⊎ Taken p j
    split j t (inl h) = inl ((==_iff j p.next_node_id).0 h)
    split j t (inr h) = inr (t.0, ground (arith, t.1), t.2)

allocate-some :
    (p : NodePool) (id : ℕ)
    → get_elem? p.free_node_ids (length p.free_node_ids - 1) ≡ some id
    → allocate p
      ≡ (id, record p { free_node_ids = take (length p.free_node_ids - 1) p.free_node_ids })
unfolding allocate
allocate-some p id e = ground arith

allocate-none :
    (p : NodePool)
    → get_elem? p.free_node_ids (length p.free_node_ids - 1) ≡ none
    → allocate p ≡ (p.next_node_id, record p { next_node_id = (p.next_node_id + 1) % 2 ^ 64 })
unfolding allocate
allocate-none p e = ground arith

-- On a well-formed pool whose 64-bit counter does not wrap, `Allocate` returns an id that nobody
-- holds, marks it as held, and neither gives nor takes any other id; the pool stays well formed.
pub allocate-Allocated :
    (p : NodePool)
    → IsPool p
    → p.next_node_id + 1 < 2 ^ 64
    → Allocated p (allocate p).0 (allocate p).1
allocate-Allocated p i w =
    elim (Option-cases (get_elem? p.free_node_ids (length p.free_node_ids - 1))) [
      | inr (id, e) ↦
          rw (allocate-some p id e) (Allocated-reuse p _ id i (last_split p.free_node_ids id e))
      | inl e ↦ rw (allocate-none p e) (Allocated-new p i (none_of_last p.free_node_ids e) w)
    ]

All-snoc {κ} : (P : ℕ → Type κ) (xs : List ℕ) (x : ℕ) → All P xs → P x → All P (xs ++ (x ∷ []))
All-snoc P [] x h p = (p, tt)
All-snoc P (y ∷ xs) x h p = (h.0, All-snoc P xs x h.1 p)

-- On a well-formed pool, `Free` of an id in use gives back exactly that id, and the pool stays well
-- formed.
pub free_lem :
    (p : NodePool) (id : ℕ)
    → IsPool p
    → Taken p id
    → IsPool (free id p) × ((j : ℕ) → Taken (free id p) j ↔ (Taken p j × (j ≢ id)))
unfolding free
free_lem p id i t =
    let pos : (id == 0) ≡ false = ground (arith, t.0) in
    rw pos (
      record {
        nodup = Nodup-snoc p.free_node_ids id i.nodup t.2;
        known = All-snoc _ p.free_node_ids id i.known (t.0, t.1);
        started = i.started;
        width = i.width;
      },
      λ j. (
        λ u. (
          (u.0, u.1, ground (arith, has-append j p.free_node_ids (id ∷ []), u.2)),
          ground (arith, has-append j p.free_node_ids (id ∷ []), u.2),
        ),
        λ u. (u.0.0, u.0.1, ground (arith, has-append j p.free_node_ids (id ∷ []), u.0.2, u.1)),
      ),
    )

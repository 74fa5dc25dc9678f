-- ===== src/Common/Bytes.antt =====
-- Byte slices as lists of numbers: `bytes.Compare`, `bytes.Equal` and little-endian integers
-- (the part of `bytes` and `encoding/binary` that btree/ uses).
use Prim.Native.Nat.{ℕ, zero, suc, ◌+◌, ◌*◌, ◌/◌, ◌%◌, ◌^◌, ◌<◌, compare, Ordering}
use mathlib.Core.Path.{◌≡◌, refl}
use mathlib.Core.Bool.{Bool, true, false, ◌&&◌}
use mathlib.Core.Option.{Option, none, some}
use mathlib.Core.List.{List, [], ◌∷◌, ◌++◌}
use native.Mathlib.Omega.{arith}
use conuredb.Common.Tests.{◌==◌}
use conuredb.Common.Lists.{length, All}

abbrev pub Bytes : Type 0
Bytes = List ℕ

abbrev pub IsByte : ℕ → Type 0
IsByte b = b < 256

-- `bytes.Compare`: lexicographic, a proper prefix before the longer slice.
unfoldable pub compare_bytes : Bytes → Bytes → Ordering
compare_bytes [] [] = Ordering.eq
compare_bytes [] (y ∷ ys) = Ordering.lt
compare_bytes (x ∷ xs) [] = Ordering.gt
compare_bytes (x ∷ xs) (y ∷ ys) = elim (compare x y) [
  | Ordering.lt ↦ Ordering.lt
  | Ordering.gt ↦ Ordering.gt
  | Ordering.eq ↦ compare_bytes xs ys
]

-- `bytes.Equal`.
unfoldable pub equal_bytes : Bytes → Bytes → Bool
equal_bytes [] [] = true
equal_bytes [] (y ∷ ys) = false
equal_bytes (x ∷ xs) [] = false
equal_bytes (x ∷ xs) (y ∷ ys) = (x == y) && equal_bytes xs ys

-- `bytes.Compare(a, b) < 0`.
abbrev pub Before : Bytes → Bytes → Type 0
Before a b = compare_bytes a b ≡ Ordering.lt

pub compare_bytes_refl : (a : Bytes) → compare_bytes a a ≡ Ordering.eq
unfolding compare_bytes
compare_bytes_refl [] = refl
compare_bytes_refl (x ∷ xs) = ground (arith, compare_bytes_refl xs)

pub eq_of_compare_bytes : (a b : Bytes) → compare_bytes a b ≡ Ordering.eq → a ≡ b
unfolding compare_bytes
eq_of_compare_bytes [] [] h = refl
eq_of_compare_bytes [] (y ∷ ys) h = absurd (cc)
eq_of_compare_bytes (x ∷ xs) [] h = absurd (cc)
eq_of_compare_bytes (x ∷ xs) (y ∷ ys) h = ground (arith, eq_of_compare_bytes xs ys)

pub Before-of_gt : (a b : Bytes) → compare_bytes a b ≡ Ordering.gt → Before b a
unfolding compare_bytes
Before-of_gt [] [] h = absurd (cc)
Before-of_gt [] (y ∷ ys) h = absurd (cc)
Before-of_gt (x ∷ xs) [] h = refl
Before-of_gt (x ∷ xs) (y ∷ ys) h = ground (arith, Before-of_gt xs ys)

pub gt_of_Before : (a b : Bytes) → Before b a → compare_bytes a b ≡ Ordering.gt
unfolding compare_bytes
gt_of_Before [] [] h = absurd (cc)
gt_of_Before [] (y ∷ ys) h = absurd (cc)
gt_of_Before (x ∷ xs) [] h = refl
gt_of_Before (x ∷ xs) (y ∷ ys) h = ground (arith, gt_of_Before xs ys)

pub Before-trans : (a b c : Bytes) → Before a b → Before b c → Before a c
unfolding compare_bytes
Before-trans [] b [] h k = absurd (lem b h k)
  where
    lem : (b : Bytes) → Before [] b → Before b [] → ⊥
    lem [] p q = cc
    lem (y ∷ ys) p q = cc
Before-trans [] b (z ∷ zs) h k = refl
Before-trans (x ∷ xs) [] c h k = absurd (cc)
Before-trans (x ∷ xs) (y ∷ ys) [] h k = absurd (cc)
Before-trans (x ∷ xs) (y ∷ ys) (z ∷ zs) h k = ground (arith, Before-trans xs ys zs)

pub Before-irrefl : (a : Bytes) → Before a a → ⊥
Before-irrefl a h = cc (compare_bytes_refl a)

pub equal_bytes_refl : (a : Bytes) → equal_bytes a a ≡ true
unfolding equal_bytes
equal_bytes_refl [] = refl
equal_bytes_refl (x ∷ xs) = ground (arith, equal_bytes_refl xs)

pub eq_of_equal_bytes : (a b : Bytes) → equal_bytes a b ≡ true → a ≡ b
unfolding equal_bytes
eq_of_equal_bytes [] [] h = refl
eq_of_equal_bytes [] (y ∷ ys) h = absurd (cc)
eq_of_equal_bytes (x ∷ xs) [] h = absurd (cc)
eq_of_equal_bytes (x ∷ xs) (y ∷ ys) h = ground (arith, eq_of_equal_bytes xs ys)

-- `binary.LittleEndian`: `w` bytes of `n`, lowest first.
unfoldable pub put_le : ℕ → ℕ → Bytes
put_le zero n = []
put_le (suc w) n = n % 256 ∷ put_le w (n / 256)

-- `binary.Read` of `w` bytes from a reader: the number and the unread bytes, `none` at the end.
unfoldable pub read_le : ℕ → Bytes → Option (ℕ × Bytes)
read_le zero bs = some (0, bs)
read_le (suc w) [] = none
read_le (suc w) (b ∷ bs) = elim (read_le w bs) [
  | none ↦ none
  | some (n, rest) ↦ some (b + 256 * n, rest)
]

-- `io.ReadFull` of `n` bytes.
unfoldable pub read_full : ℕ → Bytes → Option (Bytes × Bytes)
read_full zero bs = some ([], bs)
read_full (suc n) [] = none
read_full (suc n) (b ∷ bs) = elim (read_full n bs) [
  | none ↦ none
  | some (front, rest) ↦ some (b ∷ front, rest)
]

pub length-put_le : (w n : ℕ) → length (put_le w n) ≡ w
unfolding put_le
length-put_le zero n = refl
length-put_le (suc w) n = omega (arith, length-put_le w (n / 256))

pub All-put_le : (w n : ℕ) → All IsByte (put_le w n)
unfolding put_le
All-put_le zero n = tt
All-put_le (suc w) n = (omega arith, All-put_le w (n / 256))

pub read_le-put_le :
    (w n : ℕ) (rest : Bytes) → n < 256 ^ w → read_le w (put_le w n ++ rest) ≡ some (n, rest)
unfolding put_le read_le
read_le-put_le zero n rest h = ground arith
read_le-put_le (suc w) n rest h = ground (arith, read_le-put_le w (n / 256) rest)

pub read_full-append :
    (xs rest : Bytes) (n : ℕ) → n ≡ length xs → read_full n (xs ++ rest) ≡ some (xs, rest)
unfolding read_full
read_full-append [] rest zero e = refl
read_full-append [] rest (suc n) e = absurd (omega arith)
read_full-append (x ∷ xs) rest zero e = absurd (omega arith)
read_full-append (x ∷ xs) rest (suc n) e = rw (read_full-append xs rest n (omega arith))

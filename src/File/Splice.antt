-- ===== src/File/Splice.antt =====
-- What a write leaves to be read: the bytes written, and the bytes that stood elsewhere.
use conuredb.Common.{
  ℕ, zero, suc, ◌+◌, ◌-◌, ◌≤◌, ◌≡◌, ◌∙◌, refl, ap, ◌⊎◌, inl, inr, List, [], ◌∷◌, ◌++◌, arith,
  length, length-append, length-take, length-replicate, take, drop, take-length, drop-length,
  replicate,
}
use conuredb.Common.Bytes.{Bytes}
use conuredb.File.{splice}

module _ {ℓ} {A : Type ℓ} where
  take-append_front : (n : ℕ) (xs ys : List A) → n ≤ length xs → take n (xs ++ ys) ≡ take n xs
  take-append_front zero xs ys h = refl
  take-append_front (suc n) [] ys h = absurd (omega arith)
  take-append_front (suc n) (x ∷ xs) ys h =
      ap (λ zs. x ∷ zs) (take-append_front n xs ys (omega arith))

  -- A window in the front part of a list.
  window_front :
      (m n : ℕ) (xs ys : List A)
      → m + n ≤ length xs
      → take n (drop m (xs ++ ys)) ≡ take n (drop m xs)
  window_front zero n xs ys h = take-append_front n xs ys (omega arith)
  window_front (suc m) n [] ys h = absurd (omega arith)
  window_front (suc m) n (x ∷ xs) ys h = window_front m n xs ys (omega arith)

  take-take_le : (n k : ℕ) (xs : List A) → n ≤ k → take n (take k xs) ≡ take n xs
  take-take_le zero k xs h = refl
  take-take_le (suc n) zero xs h = absurd (omega arith)
  take-take_le (suc n) (suc k) [] h = refl
  take-take_le (suc n) (suc k) (x ∷ xs) h = ap (λ zs. x ∷ zs) (take-take_le n k xs (omega arith))

  window_take :
      (m n k : ℕ) (xs : List A) → m + n ≤ k → take n (drop m (take k xs)) ≡ take n (drop m xs)
  window_take zero n k xs h = take-take_le n k xs (omega arith)
  window_take (suc m) n zero xs h = absurd (omega arith)
  window_take (suc m) n (suc k) [] h = refl
  window_take (suc m) n (suc k) (x ∷ xs) h = window_take m n k xs (omega arith)

  drop-append_past : (a m : ℕ) (xs ys : List A) → a ≡ length xs + m → drop a (xs ++ ys) ≡ drop m ys
  drop-append_past a m [] ys e = ap (λ (k : ℕ). drop k ys) (omega arith)
  drop-append_past zero m (x ∷ xs) ys e = absurd (omega arith)
  drop-append_past (suc a) m (x ∷ xs) ys e = drop-append_past a m xs ys (omega arith)

  drop-drop : (a m k : ℕ) (xs : List A) → a ≡ k + m → drop m (drop k xs) ≡ drop a xs
  drop-drop a m zero xs e = ap (λ (j : ℕ). drop j xs) (omega arith)
  drop-drop zero m (suc k) xs e = absurd (omega arith)
  drop-drop (suc a) zero (suc k) [] e = refl
  drop-drop (suc a) (suc m) (suc k) [] e = refl
  drop-drop (suc a) m (suc k) (x ∷ xs) e = drop-drop a m k xs (omega arith)

-- The front of a spliced file has the offset's length.
length_padded :
    (bs : Bytes) (offset : ℕ)
    → length (take offset (bs ++ replicate (offset - length bs) 0)) ≡ offset
length_padded bs offset = rw (length-take, length-append, length-replicate) (omega arith)

-- What was written is read back.
pub window-splice_self :
    (bs xs : Bytes) (offset n : ℕ) → n ≡ length xs → take n (drop offset (splice bs offset xs)) ≡ xs
unfolding splice
window-splice_self bs [] offset zero e = refl
window-splice_self bs [] offset (suc n) e = absurd (omega arith)
window-splice_self bs (x ∷ xs) offset n e =
    rw
      (drop-length (take offset (bs ++ replicate (offset - length bs) 0))
        ((x ∷ xs) ++ drop (offset + length (x ∷ xs)) bs) offset
        (omega (arith, length_padded bs offset)))
      (take-length (x ∷ xs) (drop (offset + length (x ∷ xs)) bs) n e)

-- A window inside the old file that the write does not touch reads as before.
pub window-splice_apart :
    (bs xs : Bytes) (offset m n : ℕ)
    → m + n ≤ length bs
    → (m + n ≤ offset) ⊎ (offset + length xs ≤ m)
    → take n (drop m (splice bs offset xs)) ≡ take n (drop m bs)
unfolding splice
window-splice_apart bs [] offset m n h k = refl
window-splice_apart bs (x ∷ xs) offset m n h (inl before) =
    window_front m n _ _ (omega (arith, length_padded bs offset))
    ∙ window_take m n offset _ before
    ∙ window_front m n bs _ h
window-splice_apart bs (x ∷ xs) offset m n h (inr after) = ap (take n) (
    drop-append_past m (m - offset) _ _ (omega (arith, length_padded bs offset))
    ∙ drop-append_past (m - offset) (m - offset - length (x ∷ xs)) (x ∷ xs) _ (omega arith)
    ∙ drop-drop m (m - offset - length (x ∷ xs)) (offset + length (x ∷ xs)) bs (omega arith))

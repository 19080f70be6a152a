-- ===== src/Files/Slices.antt =====
-- Bytes put at an offset and read again, for the files of src/utils.
use tiny_lsm_tree.Common.{ℕ, zero, suc, ◌+◌, ◌-◌, ◌≤◌, ◌≡◌, refl, ap, ◌∙◌, List, [], ◌∷◌, ◌++◌, max}
use tiny_lsm_tree.Common.{arith, Bytes, length, take, drop, length-append}
use tiny_lsm_tree.Files.Stream.{zeros, put_bytes, slice}

not_above : (n : ℕ) → suc n ≤ 0 → ⊥
not_above n h = omega arith

module _ {ℓ} {A : Type ℓ} where
  pub take-append : (xs ys : List A) → take (length xs) (xs ++ ys) ≡ xs
  take-append [] ys = refl
  take-append (x ∷ xs) ys = λ i. x ∷ take-append xs ys i

  drop-append : (xs ys : List A) (n : ℕ) → length xs ≡ n → drop n (xs ++ ys) ≡ ys
  drop-append [] ys zero h = refl
  drop-append [] ys (suc n) h = elim (not_above n (omega arith)) [ ]
  drop-append (x ∷ xs) ys zero h = elim (not_above (length xs) (omega arith)) [ ]
  drop-append (x ∷ xs) ys (suc n) h = drop-append xs ys n (omega arith)

  pub length-take : (n : ℕ) (xs : List A) → n ≤ length xs → length (take n xs) ≡ n
  length-take zero xs h = refl
  length-take (suc n) [] h = elim (not_above n h) [ ]
  length-take (suc n) (x ∷ xs) h = omega (arith, length-take n xs (omega arith))

  length-drop : (n : ℕ) (xs : List A) → length (drop n xs) ≡ length xs - n
  length-drop zero xs = omega arith
  length-drop (suc n) [] = omega arith
  length-drop (suc n) (x ∷ xs) = omega (arith, length-drop n xs)

  -- A slice depends on the elements before its end.
  pub slice-append :
      (xs ys : List A) (o n : ℕ)
      → o + n ≤ length xs
      → take n (drop o (xs ++ ys)) ≡ take n (drop o xs)
  slice-append xs ys zero zero h = refl
  slice-append [] ys zero (suc n) h = elim (not_above n (omega arith)) [ ]
  slice-append (x ∷ xs) ys zero (suc n) h = λ i. x ∷ slice-append xs ys zero n (omega arith) i
  slice-append [] ys (suc o) n h = elim (not_above (o + n) (omega arith)) [ ]
  slice-append (x ∷ xs) ys (suc o) n h = slice-append xs ys o n (omega arith)

  pub slice-take :
      (xs : List A) (m o n : ℕ) → o + n ≤ m → take n (drop o (take m xs)) ≡ take n (drop o xs)
  slice-take xs m zero zero h = refl
  slice-take xs zero zero (suc n) h = elim (not_above n (omega arith)) [ ]
  slice-take [] (suc m) zero (suc n) h = refl
  slice-take (x ∷ xs) (suc m) zero (suc n) h = λ i. x ∷ slice-take xs m zero n (omega arith) i
  slice-take xs zero (suc o) n h = elim (not_above (o + n) (omega arith)) [ ]
  slice-take [] (suc m) (suc o) n h = refl
  slice-take (x ∷ xs) (suc m) (suc o) n h = slice-take xs m o n (omega arith)

pub length-zeros : (n : ℕ) → length (zeros n) ≡ n
unfolding zeros
length-zeros zero = refl
length-zeros (suc n) = omega (arith, length-zeros n)

module _ (old : Bytes) (offset : ℕ) (new : Bytes) where
  offset≤padded : offset ≤ length (old ++ zeros (offset - length old))
  offset≤padded =
      omega
        (arith, length-append old (zeros (offset - length old)), length-zeros (offset - length old))

  length-front : length (take offset (old ++ zeros (offset - length old))) ≡ offset
  length-front = length-take offset _ offset≤padded

  -- The bytes put are read at their offset.
  pub slice-put_bytes : slice (put_bytes old offset new) offset (length new) ≡ new
  unfolding put_bytes
  slice-put_bytes =
      ap (take (length new)) (drop-append (take offset _) _ offset length-front) ∙ take-append new _

  -- Bytes that stand before the offset are as they were.
  pub slice-put_bytes_before :
      (o n : ℕ)
      → o + n ≤ offset
      → o + n ≤ length old
      → slice (put_bytes old offset new) o n ≡ slice old o n
  unfolding put_bytes
  slice-put_bytes_before o n h k =
      slice-append (take offset (old ++ zeros (offset - length old))) _ o n
        (omega (arith, length-front))
      ∙ slice-take (old ++ zeros (offset - length old)) offset o n h
      ∙ slice-append old _ o n k

  pub length-put_bytes : length (put_bytes old offset new) ≡ max (length old) (offset + length new)
  unfolding put_bytes
  length-put_bytes = omega (
    arith,
    length-append (take offset (old ++ zeros (offset - length old)))
        (new ++ drop (offset + length new) old),
    length-append new (drop (offset + length new) old),
    length-drop (offset + length new) old,
    length-front,
  )

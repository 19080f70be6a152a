-- ===== src/Heap/Compare.antt =====
-- The comparison of SearchItem and the skipping of deletions under a transaction
-- (src/iterator/iterator.cpp).
use tiny_lsm_tree.Common.{ℕ, suc, ◌≤◌, ◌<◌, Option, some, true, false, List, [], ◌∷◌}
use tiny_lsm_tree.Common.{◌≡◌, refl, sym, ap, arith, bytes_eq, bytes_eq_refl}
use tiny_lsm_tree.Common.{length, Bool-cases, inl, inr, Bytes, is_empty, bytes_eq→eq, ◌∙◌}
use tiny_lsm_tree.Common.Int.{ℤ, pos, negsuc, int_lt}
use tiny_lsm_tree.Heap.Item.{SearchItem, item_gt, item_lt}
use tiny_lsm_tree.Heap.Merge.{
  advance, deref, drop_key, advance_items, skip_illegal, top_value_legal, Pair,
}

int_lt_irrefl : (x : ℤ) → int_lt x x ≡ false
unfolding int_lt
int_lt_irrefl (pos n) = ground arith
int_lt_irrefl (negsuc n) = ground arith

int_lt_asym : (x y : ℤ) → int_lt x y ≡ true → int_lt y x ≡ false
unfolding int_lt
int_lt_asym (pos a) (pos b) h = ground arith
int_lt_asym (pos a) (negsuc b) h = absurd (cc h)
int_lt_asym (negsuc a) (pos b) h = refl
int_lt_asym (negsuc a) (negsuc b) h = ground arith

-- Two items of one key, of which one has the larger transaction and the larger index in one
-- level, are each greater than the other.
pub item_gt_both_ways :
    (a b : SearchItem)
    → a.key ≡ b.key
    → b.tranc_id < a.tranc_id
    → int_lt b.idx a.idx ≡ true
    → (item_gt a b ≡ true) × (item_gt b a ≡ true)
unfolding item_gt
item_gt_both_ways a b k t i =
    let eq : bytes_eq a.key b.key ≡ true = rw k (bytes_eq_refl b.key) in
    let qe : bytes_eq b.key a.key ≡ true = rw k (bytes_eq_refl b.key) in
    (ground arith, ground arith)

-- Of two items of one key in one level, where the one with the smaller index has no smaller
-- transaction, exactly the other one is the greater.
pub item_gt_one_way :
    (a b : SearchItem)
    → a.key ≡ b.key
    → a.level ≡ b.level
    → b.tranc_id ≤ a.tranc_id
    → int_lt a.idx b.idx ≡ true
    → (item_gt a b ≡ false) × (item_gt b a ≡ true)
unfolding item_gt
item_gt_one_way a b k l t i =
    let eq : bytes_eq a.key b.key ≡ true = rw k (bytes_eq_refl b.key) in
    let qe : bytes_eq b.key a.key ≡ true = rw k (bytes_eq_refl b.key) in
    let up : int_lt b.idx a.idx ≡ false = int_lt_asym a.idx b.idx i in
    let ab : int_lt b.level a.level ≡ false = rw l (int_lt_irrefl b.level) in
    let ba : int_lt a.level b.level ≡ false = rw l (int_lt_irrefl b.level) in
    (ground arith, ground arith)

-- The two comparisons are the converse of each other.
pub item_lt-item_gt : (a b : SearchItem) → item_lt a b ≡ item_gt b a
unfolding item_lt item_gt
item_lt-item_gt a b = rw (eq_sym a.key b.key) refl
  where
    eq_sym : (x y : Bytes) → bytes_eq x y ≡ bytes_eq y x
    eq_sym x y = elim (Bool-cases (bytes_eq x y)) [
      | inl e ↦ e ∙ sym (bytes_eq_refl x) ∙ ap (λ (z : Bytes). bytes_eq z x) (bytes_eq→eq x y e)
      | inr e ↦ elim (Bool-cases (bytes_eq y x)) [
        | inr f ↦ e ∙ sym f
        | inl f ↦ cc (ap (λ (z : Bytes). bytes_eq x z) (bytes_eq→eq y x f), bytes_eq_refl x)
      ]
    ]

-- Under a transaction every top is legal.
legal_with_tranc : (n : ℕ) (q : List SearchItem) → top_value_legal (suc n) q ≡ true
unfolding top_value_legal
legal_with_tranc n [] = refl
legal_with_tranc n (x ∷ xs) = ground arith

skip_illegal_tranc : (fuel n : ℕ) (q : List SearchItem) → skip_illegal (suc fuel) (suc n) q ≡ q
unfolding skip_illegal
skip_illegal_tranc fuel n q = rw (legal_with_tranc n q, skip_illegal)

first_pair :
    (n : ℕ) (c : Option Pair) (q : List SearchItem) (y : SearchItem) (ys : List SearchItem)
    → q ≡ y ∷ ys
    → deref (record { items = q; max_tranc_id = n; current = c }) ≡ some (y.key, y.value)
unfolding deref
first_pair n c q y ys e = rw e

empty_nil : (v : Bytes) → is_empty v ≡ true → v ≡ []
unfolding is_empty
empty_nil [] h = refl
empty_nil (x ∷ xs) h = cc h

-- Under a transaction `++` does not skip a deletion: when the next item in the queue has another
-- key and an empty value, the iterator goes on to it, and reads its empty value.
pub advance_shows_deleted :
    (n : ℕ) (c : Option Pair) (x y : SearchItem) (ys : List SearchItem)
    → bytes_eq y.key x.key ≡ false
    → is_empty y.value ≡ true
    → deref (advance (record { items = x ∷ y ∷ ys; max_tranc_id = suc n; current = c }))
      ≡ some (y.key, [])
unfolding advance advance_items drop_key
advance_shows_deleted n c x y ys ne del =
    rw ne (first_pair (suc n) c _ y ys (skip_illegal_tranc (length (y ∷ ys)) n (y ∷ ys)))
    ∙ ap (λ (v : Bytes). some (y.key, v)) (empty_nil y.value del)

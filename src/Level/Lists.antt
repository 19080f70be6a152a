-- ===== src/Level/Lists.antt =====
-- Rising lists of pairs, what a merge of such lists shows, and what is left when a key is skipped:
-- the vocabulary of the laws of Level_Iterator (src/lsm/level_iterator.cpp).
use tiny_lsm_tree.Common.{Option, none, some, true, false, List, [], ◌∷◌, ◌++◌, Bytes, All}
use tiny_lsm_tree.Common.{
  ◌≡◌, refl, ap, inl, inr, Bool-cases, arith, bytes_eq, bytes_lt, is_empty, if◌then◌else◌,
}
use tiny_lsm_tree.Common.{bytes_lt_irrefl, bytes_lt_trans, bytes_eq→eq}
use tiny_lsm_tree.Heap.Merge.{Pair}
use tiny_lsm_tree.SkipList.View.{gt→ne}
use tiny_lsm_tree.Heap.Order.{not_lt_trans, lt_asym}
use tiny_lsm_tree.Heap.Drain.{find_pair}
pub use tiny_lsm_tree.Heap.Once.{Above, lt_of_ne}

abbrev pub AtLeast : Bytes → List Pair → Type 0
AtLeast k = All (λ (p : Pair). bytes_lt p.0 k ≡ false)

-- Strictly rising keys, none of them empty.
abbrev pub Rising : List Pair → Type 0
Rising [] = Unit
Rising (p ∷ ps) = (is_empty p.0 ≡ false) × Above p.0 ps × Rising ps

-- The value of the first list that has the key.
unfoldable pub value_in : Bytes → List (List Pair) → Option Bytes
unfolding find_pair
value_in k [] = none
value_in k (l ∷ ls) =
    let rest = value_in k ls in elim (find_pair k l) [ some v ↦ some v | none ↦ rest ]

-- An empty value stands for a deletion.
abbrev pub not_deleted : Option Bytes → Option Bytes
not_deleted none = none
not_deleted (some v) = if is_empty v then none else some v

-- The pairs without the first one, if that has the key.
unfoldable pub drop_head : Bytes → List Pair → List Pair
drop_head k [] = []
drop_head k (p ∷ ps) = if bytes_eq p.0 k then ps else p ∷ ps

pub Above-AtLeast : (k : Bytes) (l : List Pair) → Above k l → AtLeast k l
Above-AtLeast k [] h = tt
Above-AtLeast k (p ∷ ps) h = (lt_asym k p.0 h.0, Above-AtLeast k ps h.1)

pub Above-trans : (j k : Bytes) (l : List Pair) → bytes_lt j k ≡ true → Above k l → Above j l
Above-trans j k [] h a = tt
Above-trans j k (p ∷ ps) h a = (bytes_lt_trans j k p.0 h a.0, Above-trans j k ps h a.1)

pub AtLeast-trans : (j k : Bytes) (l : List Pair) → bytes_lt k j ≡ false → AtLeast k l → AtLeast j l
AtLeast-trans j k [] h a = tt
AtLeast-trans j k (p ∷ ps) h a = (not_lt_trans j k p.0 h a.0, AtLeast-trans j k ps h a.1)

-- A rising list has no key below its first.
pub Rising-AtLeast : (p : Pair) (ps : List Pair) → Rising (p ∷ ps) → AtLeast p.0 (p ∷ ps)
Rising-AtLeast p ps h = (bytes_lt_irrefl p.0, Above-AtLeast p.0 ps h.1)

-- A key that lies below all keys of a list is not found.
pub find_pair-Above : (k : Bytes) (l : List Pair) → Above k l → find_pair k l ≡ none
unfolding find_pair
find_pair-Above k [] h = refl
find_pair-Above k (p ∷ ps) h = rw (gt→ne p.0 k h.0) (find_pair-Above k ps h.1)

pub find_pair-below :
    (j k : Bytes) (l : List Pair) → bytes_lt j k ≡ true → AtLeast k l → find_pair j l ≡ none
unfolding find_pair
find_pair-below j k [] h a = refl
find_pair-below j k (p ∷ ps) h a = elim (Bool-cases (bytes_eq p.0 j)) [
  | inl e ↦ cc (ap (λ (x : Bytes). bytes_lt x k) (bytes_eq→eq p.0 j e), h, a.0)
  | inr e ↦ rw e (find_pair-below j k ps h a.1)
]

pub value_in-append :
    (k : Bytes) (xs ys : List (List Pair))
    → value_in k (xs ++ ys) ≡ elim (value_in k xs) [ some v ↦ some v | none ↦ value_in k ys ]
unfolding value_in
value_in-append k [] ys = refl
value_in-append k (l ∷ xs) ys = ground (arith, value_in-append k xs ys)

-- Skipping the key of the head, where all keys are at least it, leaves larger keys only.
pub drop_head-Above : (k : Bytes) (l : List Pair) → Rising l → AtLeast k l → Above k (drop_head k l)
unfolding drop_head
drop_head-Above k [] r a = tt
drop_head-Above k (p ∷ ps) r a = elim (Bool-cases (bytes_eq p.0 k)) [
  | inl e ↦ rw e (rw (bytes_eq→eq p.0 k e) at r.1)
  | inr e ↦ let q = lt_of_ne k p.0 a.0 e in rw e (q, Above-trans k p.0 ps q r.1)
]

pub drop_head-Rising : (k : Bytes) (l : List Pair) → Rising l → Rising (drop_head k l)
unfolding drop_head
drop_head-Rising k [] r = tt
drop_head-Rising k (p ∷ ps) r = elim (Bool-cases (bytes_eq p.0 k)) [
  | inl e ↦ rw e r.2
  | inr e ↦ rw e r
]

-- Another key is found as before.
pub find_pair-drop_head :
    (j k : Bytes) (l : List Pair)
    → bytes_eq k j ≡ false
    → find_pair j (drop_head k l) ≡ find_pair j l
unfolding find_pair drop_head
find_pair-drop_head j k [] n = refl
find_pair-drop_head j k (p ∷ ps) n = elim (Bool-cases (bytes_eq p.0 k)) [
  | inl e ↦ rw (e, bytes_eq→eq p.0 k e, n) refl
  | inr e ↦ rw e refl
]

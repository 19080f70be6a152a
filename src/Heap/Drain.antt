-- ===== src/Heap/Drain.antt =====
-- What a loop over a HeapIterator (src/iterator/iterator.cpp) reads when no transaction limits it.
use tiny_lsm_tree.Common.{ℕ, zero, suc, ◌≤◌, Option, none, some, true, false, List, [], ◌∷◌}
use tiny_lsm_tree.Common.{
  ◌≡◌, refl, ap, ◌∙◌, arith, if◌then◌else◌, bytes_eq, bytes_eq→eq, bytes_eq_refl,
}
use tiny_lsm_tree.Common.{bytes_lt_irrefl, bytes_lt-cases, is_empty}
use tiny_lsm_tree.Common.{Bool-cases, inl, inr, Bytes, length}
use tiny_lsm_tree.Heap.Item.{SearchItem}
use tiny_lsm_tree.Heap.Merge.{drop_key, drop_deleted}
use tiny_lsm_tree.Heap.Merge.{Pair}
use tiny_lsm_tree.SkipList.View.{gt→ne}
use tiny_lsm_tree.Heap.Order.{find_item, NotBelow, KeysRise, find_item_below}

-- The value that a loop over the pairs reads for a key, the first one.
unfoldable pub find_pair : Bytes → List Pair → Option Bytes
find_pair k [] = none
find_pair k ((j, v) ∷ ps) = if bytes_eq j k then some v else find_pair k ps

-- What the item of a key shows: nothing for a deletion.
abbrev pub live : Option SearchItem → Option Bytes
live none = none
live (some x) = if is_empty x.value then none else some x.value

pub length-drop_key : (k : Bytes) (q : List SearchItem) → length (drop_key k q) ≤ length q
unfolding drop_key
length-drop_key k [] = omega arith
length-drop_key k (x ∷ xs) = ground (arith, length-drop_key k xs)

pub KeysRise-drop_key : (k : Bytes) (q : List SearchItem) → KeysRise q → KeysRise (drop_key k q)
unfolding drop_key
KeysRise-drop_key k [] h = tt
KeysRise-drop_key k (x ∷ xs) h = elim (Bool-cases (bytes_eq x.key k)) [
  | inl e ↦ rw e (KeysRise-drop_key k xs h.1)
  | inr e ↦ rw e h
]

-- Dropping the items of one key leaves the others.
pub find_item-drop_key :
    (j k : Bytes) (q : List SearchItem)
    → bytes_eq k j ≡ false
    → find_item j (drop_key k q) ≡ find_item j q
unfolding find_item drop_key
find_item-drop_key j k [] h = refl
find_item-drop_key j k (x ∷ xs) h = ground (arith, find_item-drop_key j k xs h, bytes_eq→eq x.key k)

-- Where the keys rise, all items of the key at the top go.
find_item-drop_key_self :
    (k : Bytes) (q : List SearchItem)
    → KeysRise q
    → NotBelow k q
    → find_item k (drop_key k q) ≡ none
unfolding find_item drop_key
find_item-drop_key_self k [] h n = refl
find_item-drop_key_self k (x ∷ xs) h n = elim (bytes_lt-cases k x.key) [
  | inl lt ↦
      let ne : bytes_eq x.key k ≡ false = gt→ne x.key k lt in rw ne (find_item_below k x xs lt h.0)
  | inr (inl q) ↦
      let eq : bytes_eq x.key k ≡ true = rw q (bytes_eq_refl x.key) in
      rw eq (find_item-drop_key_self k xs h.1 n.1)
  | inr (inr gt) ↦ absurd (cc (gt, n.0))
]

-- The top is no deletion.
abbrev pub Clean : List SearchItem → Type 0
Clean [] = Unit
Clean (x ∷ xs) = is_empty x.value ≡ false

-- The loop over deleted keys ends by its test, and hides no key that is not deleted.
pub record Cleans (q r : List SearchItem) : Type 0 where
  pub clean : Clean r
  pub rise : KeysRise r
  pub shorter : length r ≤ length q
  pub same : (k : Bytes) → live (find_item k r) ≡ live (find_item k q)

live_step :
    (k : Bytes) (x : SearchItem) (xs : List SearchItem)
    → KeysRise (x ∷ xs)
    → is_empty x.value ≡ true
    → live (find_item k (drop_key x.key (x ∷ xs))) ≡ live (find_item k (x ∷ xs))
live_step k x xs h e = elim (Bool-cases (bytes_eq x.key k)) [
  | inr ne ↦ ap live (find_item-drop_key k x.key (x ∷ xs) ne)
  | inl eq ↦
      let q = bytes_eq→eq x.key k eq in
      let gone = find_item-drop_key_self x.key (x ∷ xs) h (bytes_lt_irrefl x.key, h.0) in
      rw (← q) (ap live gone ∙ (unfold find_item in rw (bytes_eq_refl x.key, e)))
]

pub drop_deleted-Cleans :
    (fuel : ℕ) (q : List SearchItem) → length q ≤ fuel → KeysRise q → Cleans q (drop_deleted fuel q)
unfolding drop_deleted
drop_deleted-Cleans zero [] f h = record {
  clean = tt;
  rise = tt;
  shorter = omega arith;
  same = λ k. refl;
}
drop_deleted-Cleans zero (x ∷ xs) f h = absurd (omega arith)
drop_deleted-Cleans (suc fuel) [] f h = record {
  clean = tt;
  rise = tt;
  shorter = omega arith;
  same = λ k. refl;
}
drop_deleted-Cleans (suc fuel) (x ∷ xs) f h = elim (Bool-cases (is_empty x.value)) [
  | inr e ↦
      rw (e, drop_deleted) (record { clean = e; rise = h; shorter = omega arith; same = λ k. refl })
  | inl e ↦
      let s : length (drop_key x.key (x ∷ xs)) ≤ length xs = shorter x xs in
      let c =
        drop_deleted-Cleans fuel (drop_key x.key (x ∷ xs)) (omega arith)
          (KeysRise-drop_key x.key (x ∷ xs) h) in
      rw (e, drop_deleted)
        (record {
          clean = c.clean;
          rise = c.rise;
          shorter = omega (arith, c.shorter);
          same = λ k. c.same k ∙ live_step k x xs h e;
        })
]
  where
    shorter : (x : SearchItem) (xs : List SearchItem) → length (drop_key x.key (x ∷ xs)) ≤ length xs
    shorter x xs = unfold drop_key in rw (bytes_eq_refl x.key) (length-drop_key x.key xs)

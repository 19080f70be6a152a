-- ===== src/Heap/Once.antt =====
-- A loop over a HeapIterator (src/iterator/iterator.cpp) reads every key once, in rising order.
use tiny_lsm_tree.Common.{ℕ, zero, suc, true, false, List, [], ◌∷◌, ◌≡◌, inl, inr, ap, arith}
use tiny_lsm_tree.Common.{Bytes, All, All-imp, length, bytes_eq, bytes_lt, is_empty, Bool-cases}
use tiny_lsm_tree.Common.{bytes_lt-cases, bytes_lt_trans, bytes_eq_refl}
use tiny_lsm_tree.Heap.Item.{SearchItem}
use tiny_lsm_tree.Heap.Merge.{
  Pair, push, push_all, drop_key, drop_deleted, skip_illegal, top_value_legal, advance_items, drain,
  drain_all, new_heap,
}
use tiny_lsm_tree.Heap.Order.{KeysRise, NotBelow}
use tiny_lsm_tree.Heap.Drain.{drop_deleted-Cleans}
use tiny_lsm_tree.Heap.Loop.{advance_items-Cleans, push_all-KeysRise}
use tiny_lsm_tree.Heap.Tables.{All-push}

abbrev pub Above : Bytes → List Pair → Type 0
Above k = All (λ (p : Pair). bytes_lt k p.0 ≡ true)

-- Strictly rising keys, so that no key is read twice.
abbrev pub Ascends : List Pair → Type 0
Ascends [] = Unit
Ascends (p ∷ ps) = Above p.0 ps × Ascends ps

pub lt_of_ne : (a b : Bytes) → bytes_lt b a ≡ false → bytes_eq b a ≡ false → bytes_lt a b ≡ true
lt_of_ne a b h n = elim (bytes_lt-cases a b) [
  | inl lt ↦ lt
  | inr (inl q) ↦ cc (ap (λ (x : Bytes). bytes_eq b x) q, bytes_eq_refl b, n)
  | inr (inr gt) ↦ cc (gt, h)
]

module _ {κ} (P : SearchItem → Type κ) where
  pub All-drop_key : (k : Bytes) (q : List SearchItem) → All P q → All P (drop_key k q)
  unfolding drop_key
  All-drop_key k [] h = tt
  All-drop_key k (x ∷ xs) h = elim (Bool-cases (bytes_eq x.key k)) [
    | inl e ↦ rw e (All-drop_key k xs h.1)
    | inr e ↦ rw e h
  ]

  pub All-drop_deleted : (fuel : ℕ) (q : List SearchItem) → All P q → All P (drop_deleted fuel q)
  unfolding drop_deleted
  All-drop_deleted zero q h = h
  All-drop_deleted (suc fuel) [] h = h
  All-drop_deleted (suc fuel) (x ∷ xs) h = elim (Bool-cases (is_empty x.value)) [
    | inr e ↦ rw (drop_deleted, e) h
    | inl e ↦
        rw (drop_deleted, e)
          (All-drop_deleted fuel (drop_key x.key (x ∷ xs)) (All-drop_key x.key (x ∷ xs) h))
  ]

  pub All-skip_illegal :
      (fuel tranc : ℕ) (q : List SearchItem) → All P q → All P (skip_illegal fuel tranc q)
  unfolding skip_illegal
  All-skip_illegal zero tranc q h = h
  All-skip_illegal (suc fuel) tranc q h = elim (Bool-cases (top_value_legal tranc q)) [
    | inl e ↦ rw (skip_illegal, e) h
    | inr e ↦
        rw (skip_illegal, e)
          (All-skip_illegal fuel tranc (drop_deleted (length q) q)
            (All-drop_deleted (length q) q h))
  ]

  pub All-advance_items :
      (tranc : ℕ) (x : SearchItem) (xs : List SearchItem)
      → All P (drop_key x.key xs)
      → All P (advance_items tranc (x ∷ xs))
  unfolding advance_items
  All-advance_items tranc x xs h =
      All-skip_illegal (suc (length (drop_key x.key xs))) tranc (drop_key x.key xs) h

  pub All-push_all : (xs q : List SearchItem) → All P xs → All P q → All P (push_all xs q)
  unfolding push_all
  All-push_all [] q hx hq = hq
  All-push_all (x ∷ xs) q hx hq = All-push_all xs (push x q) hx.1 (All-push P x q hx.0 hq)

abbrev ItemsAbove : Bytes → List SearchItem → Type 0
ItemsAbove k = All (λ (x : SearchItem). bytes_lt k x.key ≡ true)

-- Where the keys rise, only larger keys are left when the key of the top is dropped.
drop_key-ItemsAbove :
    (k : Bytes) (q : List SearchItem) → KeysRise q → NotBelow k q → ItemsAbove k (drop_key k q)
unfolding drop_key
drop_key-ItemsAbove k [] h n = tt
drop_key-ItemsAbove k (x ∷ xs) h n = elim (Bool-cases (bytes_eq x.key k)) [
  | inl e ↦ rw e (drop_key-ItemsAbove k xs h.1 n.1)
  | inr e ↦
      let lt = lt_of_ne k x.key n.0 e in
      rw e (
        lt,
        All-imp (λ (y : SearchItem). bytes_lt y.key x.key ≡ false)
            (λ (y : SearchItem). bytes_lt k y.key ≡ true) xs
            (λ y m b. lt_not_below k x.key y.key lt b) h.0,
      )
]
  where
    lt_not_below :
        (a b c : Bytes) → bytes_lt a b ≡ true → bytes_lt c b ≡ false → bytes_lt a c ≡ true
    lt_not_below a b c h g = elim (bytes_lt-cases b c) [
      | inl lt ↦ bytes_lt_trans a b c h lt
      | inr (inl e) ↦ rw (← e) h
      | inr (inr gt) ↦ absurd (cc (gt, g))
    ]

drain-Above :
    (k : Bytes) (tranc fuel : ℕ) (q : List SearchItem)
    → ItemsAbove k q
    → Above k (drain tranc fuel q)
unfolding drain
drain-Above k tranc zero q h = tt
drain-Above k tranc (suc fuel) [] h = tt
drain-Above k tranc (suc fuel) (x ∷ xs) h = (
  h.0,
  drain-Above k tranc fuel (advance_items tranc (x ∷ xs)) (
      All-advance_items (λ (y : SearchItem). bytes_lt k y.key ≡ true) tranc x xs
        (All-drop_key (λ (y : SearchItem). bytes_lt k y.key ≡ true) x.key xs h.1)),
)

drain-Ascends : (fuel : ℕ) (q : List SearchItem) → KeysRise q → Ascends (drain 0 fuel q)
unfolding drain
drain-Ascends zero q h = tt
drain-Ascends (suc fuel) [] h = tt
drain-Ascends (suc fuel) (x ∷ xs) h =
    let left = drop_key-ItemsAbove x.key xs h.1 h.0 in
    (
      drain-Above x.key 0 fuel (advance_items 0 (x ∷ xs))
          (All-advance_items (λ (y : SearchItem). bytes_lt x.key y.key ≡ true) 0 x xs left),
      drain-Ascends fuel (advance_items 0 (x ∷ xs)) (advance_items-Cleans x xs h).rise,
    )

-- The iterator made of any items reads strictly rising keys.
pub new_heap-Ascends : (item_vec : List SearchItem) → Ascends (drain_all (new_heap item_vec 0))
unfolding drain_all new_heap
new_heap-Ascends item_vec =
    let q = push_all item_vec [] in
    drain-Ascends (length (drop_deleted (length q) q)) (drop_deleted (length q) q)
      (drop_deleted-Cleans (length q) q (omega arith) (push_all-KeysRise item_vec [] tt)).rise

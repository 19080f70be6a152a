-- ===== src/Level/Heap.antt =====
-- HeapIterator (src/iterator/iterator.cpp) as one of the iterators that Level_Iterator
-- (src/lsm/level_iterator.cpp) merges.
use tiny_lsm_tree.Common.{ℕ, zero, suc, ◌≤◌, Option, none, some, false, List, [], ◌∷◌}
use tiny_lsm_tree.Common.{◌≡◌, refl, ap, inl, inr, arith, All, length}
use tiny_lsm_tree.Common.{is_empty, Bool-cases}
use tiny_lsm_tree.Heap.Item.{SearchItem}
use tiny_lsm_tree.Heap.Merge.{
  HeapIterator, Pair, push_all, drop_key, drop_deleted, skip_illegal, top_value_legal,
  advance_items, advance, deref, is_valid, is_end, drain, drain_all, new_heap,
}
use tiny_lsm_tree.Heap.Drain.{length-drop_key}
use tiny_lsm_tree.Level.Base.{BaseIterator, Stands, IsIterator, ended, at}
use tiny_lsm_tree.Heap.Once.{
  Ascends, new_heap-Ascends, All-push_all, All-advance_items, All-drop_key, All-drop_deleted,
}
use tiny_lsm_tree.Level.Lists.{Rising}

-- `operator*`; at an iterator that is not valid the source reads behind the end.
abbrev pub pair_at : HeapIterator → Pair
pair_at it = elim (deref it) [ none ↦ ([], []) | some p ↦ p ]

abbrev pub heap_base : BaseIterator HeapIterator
heap_base = record {
  is_valid = is_valid;
  is_end = is_end;
  deref = pair_at;
  advance = advance;
  get_tranc_id = λ it. it.max_tranc_id;
  reads = drain_all;
}

length-drop_deleted : (fuel : ℕ) (q : List SearchItem) → length (drop_deleted fuel q) ≤ length q
unfolding drop_deleted
length-drop_deleted zero q = omega arith
length-drop_deleted (suc fuel) [] = omega arith
length-drop_deleted (suc fuel) (x ∷ xs) = elim (Bool-cases (is_empty x.value)) [
  | inr e ↦ rw (drop_deleted, e) (omega arith)
  | inl e ↦
      rw (drop_deleted, e)
        (omega (
          arith,
          length-drop_deleted fuel (drop_key x.key (x ∷ xs)),
          length-drop_key x.key (x ∷ xs),
        ))
]

length-skip_illegal :
    (fuel tranc : ℕ) (q : List SearchItem) → length (skip_illegal fuel tranc q) ≤ length q
unfolding skip_illegal
length-skip_illegal zero tranc q = omega arith
length-skip_illegal (suc fuel) tranc q = elim (Bool-cases (top_value_legal tranc q)) [
  | inl e ↦ rw (skip_illegal, e) (omega arith)
  | inr e ↦
      rw (skip_illegal, e)
        (omega (
          arith,
          length-skip_illegal fuel tranc (drop_deleted (length q) q),
          length-drop_deleted (length q) q,
        ))
]

length-advance_items :
    (tranc : ℕ) (x : SearchItem) (xs : List SearchItem)
    → length (advance_items tranc (x ∷ xs)) ≤ length xs
unfolding advance_items
length-advance_items tranc x xs = omega (
  arith,
  length-skip_illegal (suc (length (drop_key x.key xs))) tranc (drop_key x.key xs),
  length-drop_key x.key xs,
)

-- Any fuel that covers the items reads the same.
drain_enough :
    (tranc f g : ℕ) (q : List SearchItem)
    → length q ≤ f
    → length q ≤ g
    → drain tranc f q ≡ drain tranc g q
unfolding drain
drain_enough tranc zero zero q h k = refl
drain_enough tranc zero (suc g) [] h k = refl
drain_enough tranc zero (suc g) (x ∷ xs) h k = absurd (omega (arith, h))
drain_enough tranc (suc f) zero [] h k = refl
drain_enough tranc (suc f) zero (x ∷ xs) h k = absurd (omega (arith, k))
drain_enough tranc (suc f) (suc g) [] h k = refl
drain_enough tranc (suc f) (suc g) (x ∷ xs) h k =
    let shorter = length-advance_items tranc x xs in
    ap (λ (ps : List Pair). (x.key, x.value) ∷ ps)
      (drain_enough tranc f g (advance_items tranc (x ∷ xs)) (omega (arith, shorter, h))
        (omega (arith, shorter, k)))

heap_of-Stands :
    (q : List SearchItem) (tranc : ℕ) (current : Option Pair)
    → Stands heap_base (record { items = q; max_tranc_id = tranc; current = current })
unfolding is_valid is_end deref advance drain_all drain
heap_of-Stands [] tranc current = ended refl refl
heap_of-Stands (x ∷ xs) tranc current =
    let q = advance_items tranc (x ∷ xs) in
    let shorter = length-advance_items tranc x xs in
    at (x.key, x.value) (drain tranc (length xs) q) refl refl refl
      (drain_enough tranc (length q) (length xs) q (omega arith) shorter)

-- A HeapIterator is an iterator in the sense of the interface.
pub heap_base-IsIterator : IsIterator heap_base
heap_base-IsIterator it = heap_of-Stands it.items it.max_tranc_id it.current

abbrev pub ItemsFull : List SearchItem → Type 0
ItemsFull = All (λ (x : SearchItem). is_empty x.key ≡ false)

-- What holds of the items holds of the keys that a loop reads.
drain-Full :
    (fuel : ℕ) (q : List SearchItem)
    → ItemsFull q
    → All (λ (p : Pair). is_empty p.0 ≡ false) (drain 0 fuel q)
unfolding drain
drain-Full zero q f = tt
drain-Full (suc fuel) [] f = tt
drain-Full (suc fuel) (x ∷ xs) f = (
  f.0,
  drain-Full fuel (advance_items 0 (x ∷ xs)) (
      All-advance_items (λ (y : SearchItem). is_empty y.key ≡ false) 0 x xs
        (All-drop_key (λ (y : SearchItem). is_empty y.key ≡ false) x.key xs f.1)),
)

Ascends-Rising :
    (ps : List Pair) → Ascends ps → All (λ (p : Pair). is_empty p.0 ≡ false) ps → Rising ps
Ascends-Rising [] a f = tt
Ascends-Rising (p ∷ ps) a f = (f.0, a.0, Ascends-Rising ps a.1 f.1)

-- The iterator made of items whose keys are not empty reads strictly rising keys.
pub new_heap-Rising :
    (item_vec : List SearchItem) → ItemsFull item_vec → Rising (drain_all (new_heap item_vec 0))
unfolding drain_all new_heap
new_heap-Rising item_vec f =
    let q = push_all item_vec [] in
    let full = All-push_all (λ (x : SearchItem). is_empty x.key ≡ false) item_vec [] f tt in
    Ascends-Rising (drain_all (new_heap item_vec 0)) (new_heap-Ascends item_vec) (
      drain-Full (length (drop_deleted (length q) q)) (drop_deleted (length q) q)
        (All-drop_deleted (λ (x : SearchItem). is_empty x.key ≡ false) (length q) q full))

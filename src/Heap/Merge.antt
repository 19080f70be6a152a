-- ===== src/Heap/Merge.antt =====
-- HeapIterator (src/iterator/iterator.cpp). The priority queue is the list of its items in the
-- order in which they are popped: `push` puts an item before the first one that it is not greater
-- than. Where the comparison is no order on the items, the standard leaves that order open.
use tiny_lsm_tree.Common.{ℕ, zero, suc, Option, none, some, Bool, true, false, not, ◌&&◌}
use tiny_lsm_tree.Common.{List, [], ◌∷◌, Bytes, ◌==◌, if◌then◌else◌, bytes_eq, is_empty, length}
use tiny_lsm_tree.Heap.Item.{SearchItem, item_gt}
use tiny_lsm_tree.SkipList.Iterator.{IteratorType}

-- `items.push(x)`
unfoldable pub push : SearchItem → List SearchItem → List SearchItem
push x [] = x ∷ []
push x (y ∷ ys) = let rest = push x ys in if item_gt x y then y ∷ rest else x ∷ y ∷ ys

unfoldable pub push_all : List SearchItem → List SearchItem → List SearchItem
unfolding push
push_all [] q = q
push_all (x ∷ xs) q = push_all xs (push x q)

abbrev pub Pair : Type 0
Pair = Bytes × Bytes

-- `current` is the cache that `operator->` fills.
pub record HeapIterator : Type 0 where
  pub items : List SearchItem
  pub max_tranc_id : ℕ
  pub current : Option Pair

-- `while (!items.empty() && items.top().key_ == key) items.pop();`
unfoldable pub drop_key : Bytes → List SearchItem → List SearchItem
drop_key k [] = []
drop_key k (x ∷ xs) = let rest = drop_key k xs in if bytes_eq x.key k then rest else x ∷ xs

-- `while (!items.empty() && items.top().value_.empty())`: the keys whose newest item is a deletion
unfoldable pub drop_deleted : ℕ → List SearchItem → List SearchItem
unfolding drop_key
drop_deleted zero q = q
drop_deleted (suc fuel) [] = []
drop_deleted (suc fuel) (x ∷ xs) = elim (is_empty x.value) [
  | true ↦ drop_deleted fuel (drop_key x.key (x ∷ xs))
  | false ↦ x ∷ xs
]

-- The constructor.
unfoldable pub new_heap : List SearchItem → ℕ → HeapIterator
unfolding push_all drop_deleted
new_heap item_vec max_tranc_id =
    let q = push_all item_vec [] in
    record { items = drop_deleted (length q) q; max_tranc_id = max_tranc_id; current = none }

unfoldable pub top_value_legal : ℕ → List SearchItem → Bool
top_value_legal max_tranc_id [] = true
top_value_legal max_tranc_id (x ∷ xs) = if max_tranc_id == 0 then not (is_empty x.value) else true

-- `while (!top_value_legal())` of `operator++`; `skip_by_tranc_id` does nothing yet.
unfoldable pub skip_illegal : ℕ → ℕ → List SearchItem → List SearchItem
unfolding top_value_legal drop_deleted
skip_illegal zero max_tranc_id q = q
skip_illegal (suc fuel) max_tranc_id q = elim (top_value_legal max_tranc_id q) [
  | true ↦ q
  | false ↦ skip_illegal fuel max_tranc_id (drop_deleted (length q) q)
]

-- The items after `operator++` on a queue with the top `x`.
unfoldable pub advance_items : ℕ → List SearchItem → List SearchItem
unfolding skip_illegal drop_key
advance_items max_tranc_id [] = []
advance_items max_tranc_id (x ∷ xs) =
    let q = drop_key x.key xs in skip_illegal (suc (length q)) max_tranc_id q

-- `operator++`
unfoldable pub advance : HeapIterator → HeapIterator
unfolding advance_items
advance it = record it { items = advance_items it.max_tranc_id it.items }

-- `operator*` at a valid iterator.
unfoldable pub deref : HeapIterator → Option Pair
deref it = elim it.items [ [] ↦ none | x ∷ xs ↦ some (x.key, x.value) ]

-- `update_current`, and `operator->`, which returns the cache that it fills
unfoldable pub update_current : HeapIterator → HeapIterator
unfolding deref
update_current it = record it { current = deref it }

unfoldable pub is_end : HeapIterator → Bool
is_end it = elim it.items [ [] ↦ true | x ∷ xs ↦ false ]

unfoldable pub is_valid : HeapIterator → Bool
unfolding is_end
is_valid it = not (is_end it)

-- `operator==` on two queues.
unfoldable pub items_eq : List SearchItem → List SearchItem → Bool
items_eq [] [] = true
items_eq [] (y ∷ ys) = false
items_eq (x ∷ xs) [] = false
items_eq (x ∷ xs) (y ∷ ys) = bytes_eq x.key y.key && bytes_eq x.value y.value

-- `operator==` and `operator!=`
unfoldable pub heap_eq : HeapIterator → IteratorType → HeapIterator → Bool
unfolding items_eq
heap_eq it IteratorType.heap other = items_eq it.items other.items
heap_eq it other_type other = false

unfoldable pub heap_ne : HeapIterator → IteratorType → HeapIterator → Bool
unfolding heap_eq
heap_ne it t other = not (heap_eq it t other)

-- What a loop `for (; it.is_valid(); ++it)` reads.
unfoldable pub drain : ℕ → ℕ → List SearchItem → List Pair
unfolding advance_items
drain max_tranc_id zero q = []
drain max_tranc_id (suc fuel) [] = []
drain max_tranc_id (suc fuel) (x ∷ xs) =
    (x.key, x.value) ∷ drain max_tranc_id fuel (advance_items max_tranc_id (x ∷ xs))

unfoldable pub drain_all : HeapIterator → List Pair
unfolding drain
drain_all it = drain it.max_tranc_id (length it.items) it.items

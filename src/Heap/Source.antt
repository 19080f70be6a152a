-- ===== src/Heap/Source.antt =====
-- The iterators that MemTable (src/memtable/memtable.cpp) makes from its tables.
use tiny_lsm_tree.Common.{ℕ, ◌+◌, Option, none, some, List, [], ◌∷◌, ◌++◌, Bytes}
use tiny_lsm_tree.SkipList.Node.{SkipList}
use tiny_lsm_tree.SkipList.Find.{Entry}
use tiny_lsm_tree.SkipList.Iterator.{
  Answer, begin, begin_preffix, end_preffix, collect, iters_monotony_predicate,
}
use tiny_lsm_tree.MemTable.Table.{MemTable}
use tiny_lsm_tree.Common.Int.{pos}
use tiny_lsm_tree.Heap.Item.{SearchItem}
use tiny_lsm_tree.Heap.Merge.{HeapIterator, new_heap}

abbrev pub to_item : ℕ → Entry → SearchItem
to_item i e = record {
  key = e.key;
  value = e.value;
  tranc_id = e.tranc_id;
  idx = pos i;
  level = pos 0;
}

unfoldable pub to_items : ℕ → List Entry → List SearchItem
to_items i [] = []
to_items i (e ∷ es) = to_item i e ∷ to_items i es

-- The entries that `read` gives of each table, the active one with index 0, the frozen ones on.
unfoldable pub table_items : (SkipList → List Entry) → ℕ → List SkipList → List SearchItem
unfolding to_items
table_items read i [] = []
table_items read i (t ∷ ts) = to_items i (read t) ++ table_items read (i + 1) ts

unfoldable pub all_items : (SkipList → List Entry) → MemTable → List SearchItem
unfolding table_items
all_items read m = table_items read 0 (m.current_table ∷ m.frozen_tables)

-- `for (iter = table->begin(); iter != table->end(); ++iter)`
unfoldable pub read_all : SkipList → List Entry
unfolding begin collect
read_all s = collect s s.next (begin s) none

-- `for (iter = begin_preffix(p); iter != end_preffix(p); ++iter)`
unfoldable pub read_prefix : Bytes → SkipList → List Entry
unfolding begin_preffix end_preffix collect
read_prefix p s = collect s s.next (begin_preffix s p) (end_preffix s p)

unfoldable pub read_range : SkipList → Option (ℕ × Option ℕ) → List Entry
unfolding collect
read_range s none = []
read_range s (some (first, last)) = collect s s.next (some first) last

unfoldable pub read_predicate : (Bytes → Answer) → SkipList → List Entry
unfolding read_range iters_monotony_predicate
read_predicate p s = read_range s (iters_monotony_predicate s p)

-- `MemTable::begin`
unfoldable pub heap_begin : MemTable → ℕ → HeapIterator
unfolding all_items read_all new_heap
heap_begin m tid = new_heap (all_items read_all m) tid

-- `MemTable::end`
abbrev pub heap_end : HeapIterator
heap_end = record { items = []; max_tranc_id = 0; current = none }

-- `MemTable::iters_preffix`
unfoldable pub heap_prefix : MemTable → Bytes → ℕ → HeapIterator
unfolding all_items read_prefix new_heap
heap_prefix m p tid = new_heap (all_items (read_prefix p) m) tid

-- `MemTable::iters_monotony_predicate`, which always returns a pair
unfoldable pub heap_predicate : MemTable → ℕ → (Bytes → Answer) → HeapIterator × HeapIterator
unfolding all_items read_predicate new_heap
heap_predicate m tid p = (new_heap (all_items (read_predicate p) m) tid, heap_end)

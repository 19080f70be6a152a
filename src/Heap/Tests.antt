-- ===== src/Heap/Tests.antt =====
-- The theorems on HeapIterator of src/iterator/iterator.cpp at concrete items and tables.
use tiny_lsm_tree.Common.{
  ◌%◌, ◌+◌, ◌≡◌, refl, some, none, bytes, arith, true, [], ◌∷◌, bytes_eq, is_empty,
}
use tiny_lsm_tree.Common.Int.{pos, negsuc, int_lt}
use tiny_lsm_tree.MemTable.Table.{MemTable, new_table, frozen_cur_table}
use tiny_lsm_tree.Common.{ℕ, Bytes, ap}
use tiny_lsm_tree.SkipList.Node.{new_list}
use tiny_lsm_tree.SkipList.Find.{Entry, flush}
use tiny_lsm_tree.SkipList.View.{find_entry}
use tiny_lsm_tree.SkipList.Laws.{flush-new_list}
use tiny_lsm_tree.Heap.View.{IsAged}
use tiny_lsm_tree.MemTable.Laws.{IsWellFormed, frozen_cur_table-IsWellFormed}
use tiny_lsm_tree.MemTable.Lookup.{view}
use tiny_lsm_tree.Heap.Item.{SearchItem, item_gt}
use tiny_lsm_tree.Heap.Merge.{advance, deref, drain_all}
use tiny_lsm_tree.Heap.Source.{heap_begin, heap_prefix, heap_predicate}
use tiny_lsm_tree.Heap.Predicate.{matches, heap_predicate-view}
use tiny_lsm_tree.SkipList.Tests.{two_keys, two_keys-IsValid, around_b, around_b-IsMonotone}
use tiny_lsm_tree.Common.{if◌then◌else◌}
use tiny_lsm_tree.SkipList.Iterator.{has_prefix}
use tiny_lsm_tree.Heap.Prefix.{heap_prefix-view}
use tiny_lsm_tree.Heap.Drain.{find_pair}
use tiny_lsm_tree.Heap.Once.{Ascends}
use tiny_lsm_tree.Heap.View.{shown, heap_begin-view}
use tiny_lsm_tree.Heap.Compare.{item_gt_both_ways, advance_shows_deleted}

abbrev older : SearchItem
older = record { key = bytes "a"; value = bytes "1"; tranc_id = 1; idx = pos 0; level = pos 0 }

abbrev newer : SearchItem
newer = record { key = bytes "a"; value = bytes "2"; tranc_id = 2; idx = pos 1; level = pos 0 }

abbrev recent : SearchItem
recent = record { key = bytes "a"; value = bytes "3"; tranc_id = 3; idx = negsuc 0; level = pos 0 }

abbrev deleted : SearchItem
deleted = record { key = bytes "b"; value = []; tranc_id = 1; idx = pos 0; level = pos 0 }

item_gt_both_ways_example : (item_gt newer older ≡ true) × (item_gt older newer ≡ true)
item_gt_both_ways_example = item_gt_both_ways newer older refl (omega arith) (unfold int_lt in refl)

advance_shows_deleted_example :
    deref
      (advance (record { items = older ∷ deleted ∷ newer ∷ []; max_tranc_id = 4; current = none }))
    ≡ some (bytes "b", [])
advance_shows_deleted_example =
    advance_shows_deleted 3 none older deleted (newer ∷ []) (unfold bytes_eq in refl)
      (unfold is_empty in refl)

abbrev held : MemTable
held = record (new_table (λ i n. (i + n) % 2)) { current_table = two_keys }

-- One frozen table with two keys, and an active one that is empty.
abbrev table : MemTable
table = frozen_cur_table held

table-IsWellFormed : IsWellFormed table
table-IsWellFormed =
    frozen_cur_table-IsWellFormed held (record { current = two_keys-IsValid; frozen = tt })

nothing_in :
    (coin : ℕ → ℕ) (k : Bytes) (e : Entry) → find_entry k (flush (new_list 16 coin 0)) ≡ some e → ⊥
unfolding find_entry
nothing_in coin k e h = cc (ap (find_entry k) (flush-new_list 16 coin 0), h)

table-IsAged : IsAged (table.current_table ∷ table.frozen_tables)
unfolding frozen_cur_table
table-IsAged = ((λ k e f p q. absurd (nothing_in (λ n. (1 + n) % 2) k e p), tt), (tt, tt))

heap_begin-view_example :
    Ascends (drain_all (heap_begin table 0))
    × (find_pair (bytes "a") (drain_all (heap_begin table 0)) ≡ shown (view table (bytes "a")))
heap_begin-view_example = heap_begin-view table (bytes "a") table-IsWellFormed table-IsAged

heap_prefix-view_example :
    Ascends (drain_all (heap_prefix table (bytes "a") 0))
    × (find_pair (bytes "ab") (drain_all (heap_prefix table (bytes "a") 0))
        ≡ shown (view table (bytes "ab")))
unfolding has_prefix bytes_eq
heap_prefix-view_example =
    heap_prefix-view table (bytes "a") (bytes "ab") table-IsWellFormed table-IsAged

heap_predicate-view_example :
    Ascends (drain_all (heap_predicate table 0 around_b).0)
    × (find_pair (bytes "b") (drain_all (heap_predicate table 0 around_b).0)
        ≡ (if matches (around_b (bytes "b")) then shown (view table (bytes "b")) else none))
    × ((heap_predicate table 0 around_b).1.items ≡ [])
heap_predicate-view_example =
    heap_predicate-view table around_b (bytes "b") around_b-IsMonotone table-IsWellFormed
      table-IsAged

-- ===== src/Heap/Prefix.antt =====
-- The loop over `iters_preffix` of src/memtable/memtable.cpp against single lookups.
use tiny_lsm_tree.Common.{Option, none, Bool, true, false, List, [], ◌∷◌, ◌≡◌, refl, ap, ◌∙◌, arith}
use tiny_lsm_tree.Common.{if◌then◌else◌, All, Bytes, bytes_eq→eq, bytes_lt, Bool-cases, inl, inr}
use tiny_lsm_tree.SkipList.Node.{SkipList}
use tiny_lsm_tree.SkipList.Find.{Entry, flush}
use tiny_lsm_tree.SkipList.Chain.{IsValid}
use tiny_lsm_tree.SkipList.View.{find_entry}
use tiny_lsm_tree.SkipList.Laws.{IsSorted, flush-IsSorted}
use tiny_lsm_tree.SkipList.Iterator.{has_prefix}
use tiny_lsm_tree.SkipList.Prefix.{with_prefix, prefix_range-flush}
use tiny_lsm_tree.MemTable.Table.{MemTable}
use tiny_lsm_tree.MemTable.Lookup.{find_tables, view}
use tiny_lsm_tree.MemTable.Laws.{IsWellFormed}
use tiny_lsm_tree.Heap.Merge.{drain_all}
use tiny_lsm_tree.Heap.Once.{Ascends, new_heap-Ascends}
use tiny_lsm_tree.Heap.Source.{all_items, read_prefix, heap_prefix}
use tiny_lsm_tree.Heap.Drain.{find_pair}
use tiny_lsm_tree.Heap.View.{find_read, loop-find_read, shown, IsAged}

find_entry-with_prefix :
    (p k : Bytes) (es : List Entry)
    → find_entry k (with_prefix p es) ≡ (if has_prefix p k then find_entry k es else none)
unfolding find_entry with_prefix
find_entry-with_prefix p k [] = ground arith
find_entry-with_prefix p k (e ∷ es) =
    ground (arith, find_entry-with_prefix p k es, bytes_eq→eq e.key k)

find_read-prefix :
    (p k : Bytes) (ts : List SkipList)
    → All IsValid ts
    → find_read (read_prefix p) k ts ≡ (if has_prefix p k then find_tables k ts else none)
unfolding find_read find_tables read_prefix
find_read-prefix p k [] v = ground arith
find_read-prefix p k (t ∷ ts) v =
    rw
      (
        prefix_range-flush t p v.0,
        find_entry-with_prefix p k (flush t),
        find_read-prefix p k ts v.1,
      )
      (ground arith)

All-with_prefix :
    (p : Bytes) (P : Entry → Type 0) (es : List Entry) → All P es → All P (with_prefix p es)
unfolding with_prefix
All-with_prefix p P [] h = tt
All-with_prefix p P (e ∷ es) h = elim (Bool-cases (has_prefix p e.key)) [
  | inl y ↦ rw y (h.0, All-with_prefix p P es h.1)
  | inr n ↦ rw n (All-with_prefix p P es h.1)
]

with_prefix-IsSorted : (p : Bytes) (es : List Entry) → IsSorted es → IsSorted (with_prefix p es)
unfolding with_prefix
with_prefix-IsSorted p [] h = tt
with_prefix-IsSorted p (e ∷ es) h = elim (Bool-cases (has_prefix p e.key)) [
  | inl y ↦ rw y (
    All-with_prefix p (λ (f : Entry). bytes_lt e.key f.key ≡ true) es h.0,
    with_prefix-IsSorted p es h.1,
  )
  | inr n ↦ rw n (with_prefix-IsSorted p es h.1)
]

read_prefix-IsSorted : (p : Bytes) (t : SkipList) → IsValid t → IsSorted (read_prefix p t)
unfolding read_prefix
read_prefix-IsSorted p t v =
    rw (prefix_range-flush t p v) (with_prefix-IsSorted p (flush t) (flush-IsSorted t v))

-- In a well-formed memory table where newer tables have no smaller transactions, a loop over
-- `iters_preffix` with no transaction reads strictly rising keys, so none of them twice, for each
-- key with the prefix what a single lookup shows, and no other key.
pub heap_prefix-view :
    (m : MemTable) (p k : Bytes)
    → IsWellFormed m
    → IsAged (m.current_table ∷ m.frozen_tables)
    → Ascends (drain_all (heap_prefix m p 0))
      × (find_pair k (drain_all (heap_prefix m p 0))
          ≡ (if has_prefix p k then shown (view m k) else none))
unfolding heap_prefix view
heap_prefix-view m p k h aged = (
  new_heap-Ascends (all_items (read_prefix p) m),
  loop-find_read (read_prefix p) (read_prefix-IsSorted p) m k h
      ∙ ap shown (find_read-prefix p k (m.current_table ∷ m.frozen_tables) (h.current, h.frozen))
      ∙ shown_if (has_prefix p k) (find_tables k (m.current_table ∷ m.frozen_tables)),
)
  where
    shown_if :
        (b : Bool) (o : Option Entry)
        → shown (if b then o else none) ≡ (if b then shown o else none)
    shown_if true o = refl
    shown_if false o = refl

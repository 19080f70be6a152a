-- ===== src/Heap/Predicate.antt =====
-- The loop over `iters_monotony_predicate` of src/memtable/memtable.cpp against single lookups.
use tiny_lsm_tree.Common.{
  Option, none, Bool, true, false, List, [], ◌∷◌, ◌≡◌, refl, sym, ap, ◌∙◌, arith,
}
use tiny_lsm_tree.Common.{if◌then◌else◌, All, Bytes, bytes_eq→eq, bytes_lt, inl, inr}
use tiny_lsm_tree.SkipList.Node.{SkipList}
use tiny_lsm_tree.SkipList.Find.{Entry, flush}
use tiny_lsm_tree.SkipList.Chain.{IsValid}
use tiny_lsm_tree.SkipList.View.{find_entry}
use tiny_lsm_tree.SkipList.Laws.{IsSorted, flush-IsSorted}
use tiny_lsm_tree.SkipList.Iterator.{Answer}
use tiny_lsm_tree.SkipList.Seek.{IsMonotone, Answer-cases}
use tiny_lsm_tree.SkipList.Range.{matching, Range, nowhere, somewhere, iters_monotony_predicate_lem}
use tiny_lsm_tree.MemTable.Table.{MemTable}
use tiny_lsm_tree.MemTable.Lookup.{find_tables, view}
use tiny_lsm_tree.MemTable.Laws.{IsWellFormed}
use tiny_lsm_tree.Heap.Merge.{drain_all}
use tiny_lsm_tree.Heap.Once.{Ascends, new_heap-Ascends}
use tiny_lsm_tree.Heap.Source.{all_items, read_range, read_predicate, heap_predicate}
use tiny_lsm_tree.Heap.Drain.{find_pair}
use tiny_lsm_tree.Heap.View.{find_read, loop-find_read, shown, IsAged}

abbrev pub matches : Answer → Bool
matches Answer.holds = true
matches Answer.go_right = false
matches Answer.go_left = false

read-Range-matching :
    (t : SkipList) (p : Bytes → Answer) → Range t p → read_predicate p t ≡ matching p (flush t)
unfolding read_predicate read_range
read-Range-matching t p (nowhere e m) = rw e (sym m)
read-Range-matching t p (somewhere a last e m) = rw e m

find_entry-matching :
    (p : Bytes → Answer) (k : Bytes) (es : List Entry)
    → find_entry k (matching p es) ≡ (if matches (p k) then find_entry k es else none)
unfolding find_entry matching
find_entry-matching p k [] = ground arith
find_entry-matching p k (e ∷ es) =
    ground (arith, find_entry-matching p k es, bytes_eq→eq e.key k, same e.key)
  where
    same : (j : Bytes) → j ≡ k → p j ≡ p k
    same j q = ap p q

All-matching :
    (p : Bytes → Answer) (P : Entry → Type 0) (es : List Entry) → All P es → All P (matching p es)
unfolding matching
All-matching p P [] h = tt
All-matching p P (e ∷ es) h = elim (Answer-cases (p e.key)) [
  | inl q ↦ rw (All, q) (All-matching p P es h.1)
  | inr (inl q) ↦ rw (All, q) (h.0, All-matching p P es h.1)
  | inr (inr q) ↦ rw (All, q) (All-matching p P es h.1)
]

matching-IsSorted : (p : Bytes → Answer) (es : List Entry) → IsSorted es → IsSorted (matching p es)
unfolding matching
matching-IsSorted p [] h = tt
matching-IsSorted p (e ∷ es) h = elim (Answer-cases (p e.key)) [
  | inl q ↦ rw (IsSorted, q) (matching-IsSorted p es h.1)
  | inr (inl q) ↦
      rw (IsSorted, q)
        (
          All-matching p (λ (f : Entry). bytes_lt e.key f.key ≡ true) es h.0,
          matching-IsSorted p es h.1,
        )
  | inr (inr q) ↦ rw (IsSorted, q) (matching-IsSorted p es h.1)
]

module _ (p : Bytes → Answer) (monotone : IsMonotone p) where
  read_predicate-matching : (t : SkipList) → IsValid t → read_predicate p t ≡ matching p (flush t)
  read_predicate-matching t v =
      read-Range-matching t p (iters_monotony_predicate_lem t p monotone v)

  find_read-matching :
      (k : Bytes) (ts : List SkipList)
      → All IsValid ts
      → find_read (read_predicate p) k ts ≡ (if matches (p k) then find_tables k ts else none)
  unfolding find_read find_tables
  find_read-matching k [] v = ground arith
  find_read-matching k (t ∷ ts) v =
      rw
        (
          read_predicate-matching t v.0,
          find_entry-matching p k (flush t),
          find_read-matching k ts v.1,
        )
        (ground arith)

shown_if :
    (b : Bool) (o : Option Entry) → shown (if b then o else none) ≡ (if b then shown o else none)
shown_if true o = refl
shown_if false o = refl

-- In a well-formed memory table where newer tables have no smaller transactions, and for a
-- monotone predicate, a loop over `iters_monotony_predicate` with no transaction reads strictly
-- rising keys, so none of them twice, for each key that satisfies the predicate what a single lookup
-- shows, and no other key; the second iterator of the pair is the end.
pub heap_predicate-view :
    (m : MemTable) (p : Bytes → Answer) (k : Bytes)
    → IsMonotone p
    → IsWellFormed m
    → IsAged (m.current_table ∷ m.frozen_tables)
    → Ascends (drain_all (heap_predicate m 0 p).0)
      × (find_pair k (drain_all (heap_predicate m 0 p).0)
          ≡ (if matches (p k) then shown (view m k) else none))
      × ((heap_predicate m 0 p).1.items ≡ [])
unfolding heap_predicate view
heap_predicate-view m p k monotone h aged = (
  new_heap-Ascends (all_items (read_predicate p) m),
  loop-find_read (read_predicate p)
        (λ t v.
          rw (read_predicate-matching p monotone t v)
            (matching-IsSorted p (flush t) (flush-IsSorted t v)))
        m k h
      ∙ ap shown (
          find_read-matching p monotone k (m.current_table ∷ m.frozen_tables) (h.current, h.frozen))
      ∙ shown_if (matches (p k)) (find_tables k (m.current_table ∷ m.frozen_tables)),
  refl,
)

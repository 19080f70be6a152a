-- ===== src/Heap/View.antt =====
-- The loop over MemTable::begin (src/memtable/memtable.cpp, src/iterator/iterator.cpp) against
-- single lookups of the memory table.
use tiny_lsm_tree.Common.{ℕ, suc, ◌+◌, ◌≤◌, Option, none, some, true, List, [], ◌∷◌}
use tiny_lsm_tree.Common.{◌≡◌, inl, inr, refl, sym, ap, ◌∙◌, arith, if◌then◌else◌}
use tiny_lsm_tree.Common.{is_empty, All, Bytes, All-imp}
use tiny_lsm_tree.SkipList.Node.{SkipList}
use tiny_lsm_tree.SkipList.Find.{Entry, flush}
use tiny_lsm_tree.SkipList.Chain.{IsValid}
use tiny_lsm_tree.SkipList.View.{find_entry}
use tiny_lsm_tree.SkipList.Laws.{IsSorted, flush-IsSorted}
use tiny_lsm_tree.MemTable.Table.{MemTable}
use tiny_lsm_tree.MemTable.Lookup.{find_tables, view, or_else}
use tiny_lsm_tree.MemTable.Laws.{IsWellFormed}
use tiny_lsm_tree.Common.Int.{ℤ, pos, negsuc, int_lt}
use tiny_lsm_tree.Heap.Item.{SearchItem}
use tiny_lsm_tree.Heap.Merge.{push, push_all, drain_all, new_heap}
use tiny_lsm_tree.Heap.Source.{to_item, to_items, table_items, all_items, read_all, heap_begin}
use tiny_lsm_tree.Heap.Order.{
  find_item, KeysRise, push-KeysRise, or_item, match_item, find_item-push,
}
use tiny_lsm_tree.Heap.Drain.{live, find_pair}
use tiny_lsm_tree.Heap.Loop.{new_heap-live}
use tiny_lsm_tree.Heap.Once.{Ascends, new_heap-Ascends}
use tiny_lsm_tree.Heap.Tables.{
  IdxBelow, Before, Before-Older, All-push, push_all-append, read_all-flush,
}

abbrev item_of : ℕ → Option Entry → Option SearchItem
item_of i none = none
item_of i (some e) = some (to_item i e)

-- The queue after a whole table is pushed.
record Pushed (i : ℕ) (es : List Entry) (q r : List SearchItem) : Type 0 where
  rise : KeysRise r
  below : All (IdxBelow (suc i)) r
  found : (k : Bytes) → find_item k r ≡ or_item (find_item k q) (item_of i (find_entry k es))

below_suc : (i : ℕ) (z : ℤ) → int_lt z (pos i) ≡ true → int_lt z (pos (suc i)) ≡ true
unfolding int_lt
below_suc i (pos n) h = ground arith
below_suc i (negsuc n) h = refl

or_item_assoc : (a b c : Option SearchItem) → or_item (or_item a b) c ≡ or_item a (or_item b c)
or_item_assoc none b c = refl
or_item_assoc (some x) b c = refl

or_item-none : (a : Option SearchItem) → or_item a none ≡ a
or_item-none none = refl
or_item-none (some x) = refl

match_first :
    (i : ℕ) (k : Bytes) (e : Entry) (es : List Entry)
    → or_item (match_item k (to_item i e)) (item_of i (find_entry k es))
      ≡ item_of i (find_entry k (e ∷ es))
unfolding find_entry
match_first i k e es = ground arith

push_table :
    (i : ℕ) (es : List Entry) (q : List SearchItem)
    → IsSorted es
    → KeysRise q
    → All (Before i es) q
    → All (IdxBelow (suc i)) q
    → Pushed i es q (push_all (to_items i es) q)
unfolding push_all to_items
push_table i [] q s h b l = record {
  rise = h;
  below = l;
  found = λ k. sym (unfold find_entry in or_item-none (find_item k q));
}
push_table i (e ∷ es) q s h b l =
    let x = to_item i e in
    let p =
      push_table i es (push x q) s.1 (push-KeysRise x q h)
        (All-push (Before i es) x q (inr s.0) (All-imp_item i e es q b))
        (All-push (IdxBelow (suc i)) x q (unfold int_lt in ground arith) l) in
    record {
      rise = p.rise;
      below = p.below;
      found = λ k.
          p.found k
          ∙ ap (λ (o : Option SearchItem). or_item o (item_of i (find_entry k es)))
              (find_item-push k x q h (Before-Older i e es q b))
          ∙ or_item_assoc (find_item k q) (match_item k x) (item_of i (find_entry k es))
          ∙ ap (or_item (find_item k q)) (match_first i k e es);
    }
  where
    All-imp_item :
        (i : ℕ) (e : Entry) (es : List Entry) (q : List SearchItem)
        → All (Before i (e ∷ es)) q
        → All (Before i es) q
    All-imp_item i e es q b =
        All-imp (Before i (e ∷ es)) (Before i es) q
          (λ y m h. elim h [ inl g ↦ inl g | inr g ↦ inr g.1 ]) b

-- The first table of the key, as an item.
first_table : (SkipList → List Entry) → Bytes → ℕ → List SkipList → Option SearchItem
first_table read k i [] = none
first_table read k i (t ∷ ts) =
    or_item (item_of i (find_entry k (read t))) (first_table read k (suc i) ts)

-- The entry of the key in the first table where `read` gives one.
unfoldable pub find_read : (SkipList → List Entry) → Bytes → List SkipList → Option Entry
find_read read k [] = none
find_read read k (t ∷ ts) = or_else (find_entry k (read t)) (find_read read k ts)

-- What a lookup shows to a reader: an empty value stands for a deletion.
abbrev pub shown : Option Entry → Option Bytes
shown none = none
shown (some e) = if is_empty e.value then none else some e.value

module _ (read : SkipList → List Entry)
    (sorted : (t : SkipList) → IsValid t → IsSorted (read t)) where
  push_tables :
      (i : ℕ) (ts : List SkipList) (q : List SearchItem) (k : Bytes)
      → All IsValid ts
      → KeysRise q
      → All (IdxBelow i) q
      → find_item k (push_all (table_items read i ts) q)
        ≡ or_item (find_item k q) (first_table read k i ts)
  unfolding table_items first_table
  push_tables i [] q k v h b = unfold push_all in sym (or_item-none (find_item k q))
  push_tables i (t ∷ ts) q k v h b =
      let p =
        push_table i (read t) q (sorted t v.0) h
          (All-imp (IdxBelow i) (Before i (read t)) q (λ y m g. inl g) b)
          (All-imp (IdxBelow i) (IdxBelow (suc i)) q (λ y m g. below_suc i y.idx g) b) in
      let next : i + 1 ≡ suc i = omega arith in
      rw (push_all-append (to_items i (read t)) (table_items read (i + 1) ts) q, next)
        (push_tables (suc i) ts (push_all (to_items i (read t)) q) k v.1 p.rise p.below
          ∙ ap (λ (o : Option SearchItem). or_item o (first_table read k (suc i) ts)) (p.found k)
          ∙ or_item_assoc (find_item k q) (item_of i (find_entry k (read t)))
              (first_table read k (suc i) ts))

  live-first_table :
      (k : Bytes) (i : ℕ) (ts : List SkipList)
      → live (first_table read k i ts) ≡ shown (find_read read k ts)
  unfolding first_table find_read
  live-first_table k i [] = refl
  live-first_table k i (t ∷ ts) = go (find_entry k (read t)) (live-first_table k (suc i) ts)
    where
      go :
          (o : Option Entry)
          → live (first_table read k (suc i) ts) ≡ shown (find_read read k ts)
          → live (or_item (item_of i o) (first_table read k (suc i) ts))
            ≡ shown (or_else o (find_read read k ts))
      go none rest = rest
      go (some e) rest = refl

  -- A loop over the items that `read` gives of all tables, with no transaction.
  pub loop-find_read :
      (m : MemTable) (k : Bytes)
      → IsWellFormed m
      → find_pair k (drain_all (new_heap (all_items read m) 0))
        ≡ shown (find_read read k (m.current_table ∷ m.frozen_tables))
  unfolding all_items find_item
  loop-find_read m k h =
      let ts = m.current_table ∷ m.frozen_tables in
      new_heap-live (table_items read 0 ts) k
      ∙ ap live (push_tables 0 ts [] k (h.current, h.frozen) tt tt)
      ∙ live-first_table k 0 ts

find_read-all : (k : Bytes) (ts : List SkipList) → find_read read_all k ts ≡ find_tables k ts
unfolding find_read find_tables
find_read-all k [] = refl
find_read-all k (t ∷ ts) =
    rw (read_all-flush t) (ap (or_else (find_entry k (flush t))) (find_read-all k ts))

-- Of two tables that hold one key, the newer one has no smaller transaction for it. This makes the
-- comparison of the items an order, so that a priority queue has but one order to pop them in.
abbrev pub IsAged : List SkipList → Type 0
IsAged [] = Unit
IsAged (t ∷ ts) =
    All
      (λ (u : SkipList).
        (k : Bytes) (e f : Entry)
        → find_entry k (flush t) ≡ some e
        → find_entry k (flush u) ≡ some f
        → f.tranc_id ≤ e.tranc_id)
      ts
    × IsAged ts

-- In a well-formed memory table where newer tables have no smaller transactions, a loop from
-- `begin` with no transaction reads strictly rising keys, so none of them twice, and for each key,
-- whichever table holds it, what a single lookup shows: the newest value, and nothing where that is
-- a deletion.
pub heap_begin-view :
    (m : MemTable) (k : Bytes)
    → IsWellFormed m
    → IsAged (m.current_table ∷ m.frozen_tables)
    → Ascends (drain_all (heap_begin m 0))
      × (find_pair k (drain_all (heap_begin m 0)) ≡ shown (view m k))
unfolding heap_begin view
heap_begin-view m k h aged = (
  new_heap-Ascends (all_items read_all m),
  loop-find_read read_all (λ t v. rw (read_all-flush t) (flush-IsSorted t v)) m k h
      ∙ ap shown (find_read-all k (m.current_table ∷ m.frozen_tables)),
)

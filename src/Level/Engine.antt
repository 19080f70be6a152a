-- ===== src/Level/Engine.antt =====
-- The constructor of Level_Iterator on an engine (src/lsm/level_iterator.cpp).
use tiny_lsm_tree.Common.{ℕ, zero, suc, ◌+◌, Option, none, some, true, false, List, [], ◌∷◌, ◌++◌}
use tiny_lsm_tree.Common.{
  ◌≡◌, refl, ap, ◌∙◌, inl, inr, Bytes, All, All-append, ◌==◌, if◌then◌else◌, is_empty, Bool-cases,
  Option-cases,
}
use tiny_lsm_tree.Common.Result.{Result, ok, fault, ◌>>=◌}
use tiny_lsm_tree.SkipList.Node.{SkipList}
use tiny_lsm_tree.SkipList.Find.{Entry, flush}
use tiny_lsm_tree.MemTable.Table.{MemTable}
use tiny_lsm_tree.MemTable.Lookup.{view}
use tiny_lsm_tree.MemTable.Laws.{IsWellFormed}
use tiny_lsm_tree.Heap.Item.{SearchItem}
use tiny_lsm_tree.Heap.Merge.{HeapIterator, Pair, new_heap, drain_all, drain}
use tiny_lsm_tree.Heap.Source.{heap_begin, all_items, table_items, to_items, read_all}
use tiny_lsm_tree.Heap.Tables.{read_all-flush}
use tiny_lsm_tree.Heap.View.{shown, IsAged, heap_begin-view}
use tiny_lsm_tree.Heap.Drain.{find_pair}
use tiny_lsm_tree.Common.{not, ◌&&◌, ltb}
use tiny_lsm_tree.Common.Int.{pos}
use tiny_lsm_tree.SkipList.Iterator.{IteratorType}
use tiny_lsm_tree.Sst.Table.{Sst, sst_begin, sst_end}
use tiny_lsm_tree.Sst.Iterator.{SstIterator, minus_id}
use tiny_lsm_tree.Sst.Iterator
use tiny_lsm_tree.Sst.Concact.{ConcactIterator, new_concact}
use tiny_lsm_tree.Lsm.Engine.{LsmEngine}
use tiny_lsm_tree.Level.Iterator.{LevelIterator, new_level, read_levels}
use tiny_lsm_tree.Level.Lists.{Rising, value_in, not_deleted}
use tiny_lsm_tree.Level.Reads.{read_levels-Reads}
use tiny_lsm_tree.Level.Heap.{heap_base, heap_base-IsIterator, new_heap-Rising, ItemsFull}

-- The tables of a level, none where the map has no entry.
unfoldable pub ids_of : ℕ → List (ℕ × List ℕ) → List ℕ
ids_of level [] = []
ids_of level ((l, ids) ∷ rest) = if l == level then ids else ids_of level rest

unfoldable pub find_sst : {Rate : Type 0} → ℕ → List (ℕ × Sst Rate) → Option (Sst Rate)
find_sst id [] = none
find_sst id ((i, s) ∷ rest) = if i == id then some s else find_sst id rest

module _ {Rate : Type 0} where
  -- The loop over one table of level 0. `iter != sst->end()` answers false, so that it ends at its
  -- test at the latest, with any fuel.
  unfoldable pub table_loop : ℕ → Sst Rate → ℕ → SstIterator Rate → Result (List SearchItem)
  unfolding Iterator.is_valid Iterator.sst_iter_ne Iterator.key Iterator.value Iterator.advance
      sst_end
  table_loop zero s tranc it = ok []
  table_loop (suc fuel) s tranc it = Iterator.is_valid it >>= λ valid. elim valid [
    | false ↦ ok []
    | true ↦ sst_end {A = SstIterator Rate} s >>= λ last.
        elim (Iterator.sst_iter_ne it IteratorType.sst) [
          | false ↦ ok []
          | true ↦ elim (not (tranc == 0) && ltb tranc (Iterator.get_tranc_id it)) [
            | true ↦ table_loop fuel s tranc (Iterator.advance it)
            | false ↦ Iterator.key it >>= λ k. Iterator.value it >>= λ v.
                table_loop fuel s tranc (Iterator.advance it) >>= λ rest. ok (
                  record {
                    key = k;
                    value = v;
                    tranc_id = Iterator.get_tranc_id it;
                    idx = minus_id s.sst_id;
                    level = pos 0;
                  }
                  ∷ rest)
          ]
        ]
  ]

  -- The items of one table of level 0; `sst->begin` throws.
  unfoldable pub sst_items : LsmEngine Rate → ℕ → ℕ → Result (List SearchItem)
  unfolding find_sst sst_begin table_loop
  sst_items e tranc id = elim (find_sst id e.ssts) [
    | none ↦ fault
    | some s ↦ sst_begin s tranc >>= λ it. table_loop 1 s tranc it
  ]

  unfoldable pub l0_items : LsmEngine Rate → ℕ → List ℕ → Result (List SearchItem)
  unfolding sst_items
  l0_items e tranc [] = ok []
  l0_items e tranc (id ∷ ids) =
      sst_items e tranc id >>= λ items. l0_items e tranc ids >>= λ rest. ok (items ++ rest)

  -- The inner loop over another level: each round makes an iterator of the tables so far.
  unfoldable pub level_iters :
      LsmEngine Rate → ℕ → List ℕ → List (Sst Rate) → Result (List (ConcactIterator Rate))
  unfolding find_sst new_concact
  level_iters e tranc [] ssts = ok []
  level_iters e tranc (id ∷ ids) ssts = elim (find_sst id e.ssts) [
    | none ↦ fault
    | some s ↦ new_concact (ssts ++ s ∷ []) tranc >>= λ it.
        level_iters e tranc ids (ssts ++ s ∷ []) >>= λ rest. ok (it ∷ rest)
  ]

  unfoldable pub other_levels :
      LsmEngine Rate → ℕ → List (ℕ × List ℕ) → Result (List (ConcactIterator Rate))
  unfolding level_iters
  other_levels e tranc [] = ok []
  other_levels e tranc ((level, ids) ∷ rest) =
      if level == 0
      then other_levels e tranc rest
      else (level_iters e tranc ids [] >>= λ its.
          other_levels e tranc rest >>= λ more. ok (its ++ more))

  -- The iterators that the constructor collects: the memory table's, that of level 0, and one for
  -- each table of the other levels. Making one of the last kind throws, so that none is among them.
  unfoldable pub iter_vec_of : LsmEngine Rate → ℕ → Result (List HeapIterator)
  unfolding heap_begin l0_items ids_of other_levels new_heap
  iter_vec_of e tranc = l0_items e tranc (ids_of 0 e.level_sst_ids) >>= λ items.
      other_levels e tranc e.level_sst_ids >>= λ others.
      ok (heap_begin e.memtable tranc ∷ new_heap items tranc ∷ [])

  unfoldable pub level_begin : LsmEngine Rate → ℕ → Result (LevelIterator HeapIterator)
  unfolding iter_vec_of new_level
  level_begin e tranc = iter_vec_of e tranc >>= λ vec. new_level heap_base vec tranc

  -- What a loop from `Level_Iterator(engine, 0)` reads.
  unfoldable pub read_engine : LsmEngine Rate → Result (List Pair)
  unfolding iter_vec_of read_levels
  read_engine e = iter_vec_of e 0 >>= λ vec. read_levels heap_base vec

  -- No level has a table.
  abbrev pub HasNoTables : LsmEngine Rate → Type 0
  HasNoTables e = All (λ (l : ℕ × List ℕ). l.1 ≡ []) e.level_sst_ids

-- No key of a table of the memory table is empty.
abbrev pub HasFullKeys : List SkipList → Type 0
HasFullKeys = All (λ (t : SkipList). All (λ (x : Entry). is_empty x.key ≡ false) (flush t))

to_items-Full :
    (i : ℕ) (es : List Entry)
    → All (λ (x : Entry). is_empty x.key ≡ false) es
    → ItemsFull (to_items i es)
unfolding to_items
to_items-Full i [] h = tt
to_items-Full i (x ∷ es) h = (h.0, to_items-Full i es h.1)

table_items-Full :
    (i : ℕ) (ts : List SkipList) → HasFullKeys ts → ItemsFull (table_items read_all i ts)
unfolding table_items
table_items-Full i [] h = tt
table_items-Full i (t ∷ ts) h =
    All-append (λ (x : SearchItem). is_empty x.key ≡ false) (to_items i (read_all t))
      (table_items read_all (i + 1) ts) (to_items-Full i (read_all t) (rw (read_all-flush t) h.0))
      (table_items-Full (i + 1) ts h.1)

ids_of-none : (ls : List (ℕ × List ℕ)) → All (λ (l : ℕ × List ℕ). l.1 ≡ []) ls → ids_of 0 ls ≡ []
unfolding ids_of
ids_of-none [] h = refl
ids_of-none ((l, ids) ∷ ls) h = elim (Bool-cases (l == 0)) [
  | inl e ↦ rw e h.0
  | inr e ↦ rw e (ids_of-none ls h.1)
]

other_levels-none :
    {Rate : Type 0} (e : LsmEngine Rate) (ls : List (ℕ × List ℕ))
    → All (λ (l : ℕ × List ℕ). l.1 ≡ []) ls
    → other_levels e 0 ls ≡ ok []
unfolding other_levels level_iters
other_levels-none e [] h = refl
other_levels-none e ((l, ids) ∷ ls) h = elim (Bool-cases (l == 0)) [
  | inl z ↦ rw z (other_levels-none e ls h.1)
  | inr z ↦ rw (z, h.0, other_levels-none e ls h.1) refl
]

iter_vec_of-none :
    {Rate : Type 0} (e : LsmEngine Rate)
    → HasNoTables e
    → iter_vec_of e 0 ≡ ok (heap_begin e.memtable 0 ∷ new_heap [] 0 ∷ [])
unfolding iter_vec_of l0_items
iter_vec_of-none e h =
    rw (iter_vec_of, ids_of-none e.level_sst_ids h, other_levels-none e e.level_sst_ids h) refl

-- A value that is shown is no deletion.
not_deleted-shown : (o : Option Entry) → not_deleted (shown o) ≡ shown o
not_deleted-shown none = refl
not_deleted-shown (some x) = elim (Bool-cases (is_empty x.value)) [
  | inl e ↦ rw e refl
  | inr e ↦ rw (e, e) refl
]

heap_begin-Rising :
    (m : MemTable)
    → HasFullKeys (m.current_table ∷ m.frozen_tables)
    → Rising (drain_all (heap_begin m 0))
unfolding heap_begin all_items
heap_begin-Rising m full =
    new_heap-Rising (table_items read_all 0 (m.current_table ∷ m.frozen_tables))
      (table_items-Full 0 (m.current_table ∷ m.frozen_tables) full)

one_list :
    (k : Bytes) (l : List Pair) → value_in k (l ∷ drain_all (new_heap [] 0) ∷ []) ≡ find_pair k l
unfolding value_in find_pair drain_all drain new_heap
one_list k l = elim (Option-cases (find_pair k l)) [
  | inl e ↦ rw (value_in, e) refl
  | inr (v, e) ↦ rw (value_in, e) refl
]

-- On an engine whose levels have no tables, and whose memory table is well formed, with no empty key
-- and with no smaller transactions in newer tables, a Level_Iterator with no transaction is made,
-- and the loop over it ends: it reads strictly rising keys, each with the value that a lookup in the
-- memory table shows.
pub level_begin-view :
    {Rate : Type 0} (e : LsmEngine Rate)
    → HasNoTables e
    → IsWellFormed e.memtable
    → IsAged (e.memtable.current_table ∷ e.memtable.frozen_tables)
    → HasFullKeys (e.memtable.current_table ∷ e.memtable.frozen_tables)
    → (ps : List Pair) × (read_engine e ≡ ok ps)
      × Rising ps
      × ((k : Bytes) → find_pair k ps ≡ shown (view e.memtable k))
unfolding read_engine drain_all
level_begin-view e no_tables formed aged full =
    let m = e.memtable in
    let vec = heap_begin m 0 ∷ new_heap [] 0 ∷ [] in
    let (ps, reads, rise, finds) =
      read_levels-Reads heap_base heap_base-IsIterator vec (heap_begin-Rising m full, (tt, tt)) in
    (
      ps,
      rw (read_engine, iter_vec_of-none e no_tables) reads,
      rise,
      λ k.
          finds k
          ∙ ap not_deleted (one_list k (drain_all (heap_begin m 0)))
          ∙ ap not_deleted (heap_begin-view m k formed aged).1
          ∙ not_deleted-shown (view m k),
    )

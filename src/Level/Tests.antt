-- ===== src/Level/Tests.antt =====
-- The theorems on Level_Iterator at concrete iterators and at a concrete engine.
use tiny_lsm_tree.Common.{
  ℕ, ◌%◌, ◌+◌, ◌≡◌, refl, none, true, false, is_empty, bytes_eq, bytes_lt, List, [], ◌∷◌, Bytes,
  bytes, All,
}
use tiny_lsm_tree.Common.Result.{ok}
use tiny_lsm_tree.MemTable.Table.{MemTable, new_table}
use tiny_lsm_tree.MemTable.Lookup.{view}
use tiny_lsm_tree.Heap.Merge.{Pair}
use tiny_lsm_tree.Heap.Drain.{find_pair}
use tiny_lsm_tree.Heap.View.{shown}
use tiny_lsm_tree.SkipList.Tests.{two_keys, two_keys-IsValid, empty_list, empty_list-IsValid}
use tiny_lsm_tree.SkipList.Find.{Entry, flush}
use tiny_lsm_tree.SkipList.Write.{put}
use tiny_lsm_tree.SkipList.View.{put_entry}
use tiny_lsm_tree.SkipList.Put.{flush-put, put-IsValid}
use tiny_lsm_tree.SkipList.Laws.{flush-new_list}
use tiny_lsm_tree.Lsm.Engine.{LsmEngine}
use tiny_lsm_tree.Level.Base.{BaseIterator, IsIterator, ended, at}
use tiny_lsm_tree.Level.Iterator.{read_levels}
use tiny_lsm_tree.Level.Lists.{Rising, value_in, not_deleted}
use tiny_lsm_tree.Level.Least.{all_reads}
use tiny_lsm_tree.Level.Reads.{read_levels-Reads}
use tiny_lsm_tree.Level.Engine.{read_engine, level_begin-view}

-- A list of pairs as an iterator over itself.
abbrev pair_list : BaseIterator (List Pair)
pair_list = record {
  is_valid = λ l. elim l [ [] ↦ false | p ∷ ps ↦ true ];
  is_end = λ l. elim l [ [] ↦ true | p ∷ ps ↦ false ];
  deref = λ l. elim l [ [] ↦ ([], []) | p ∷ ps ↦ p ];
  advance = λ l. elim l [ [] ↦ [] | p ∷ ps ↦ ps ];
  get_tranc_id = λ l. 0;
  reads = λ l. l;
}

pair_list-IsIterator : IsIterator pair_list
pair_list-IsIterator [] = ended refl refl
pair_list-IsIterator (p ∷ ps) = at p ps refl refl refl refl

-- The newer list changes "a" and deletes "b".
abbrev two_lists : List (List Pair)
two_lists =
    ((bytes "a", bytes "new") ∷ (bytes "b", []) ∷ [])
    ∷ ((bytes "a", bytes "old") ∷ (bytes "b", bytes "2") ∷ (bytes "c", bytes "3") ∷ [])
    ∷ []

read_levels-Reads_example :
    (ps : List Pair) × (read_levels pair_list two_lists ≡ ok ps)
    × Rising ps
    × ((k : Bytes) → find_pair k ps ≡ not_deleted (value_in k (all_reads pair_list two_lists)))
unfolding is_empty bytes_lt
read_levels-Reads_example = read_levels-Reads pair_list pair_list-IsIterator two_lists (
  (refl, (refl, tt), (refl, tt, tt)),
  ((refl, (refl, (refl, tt)), (refl, (refl, tt), (refl, tt, tt))), tt),
)

abbrev held : MemTable
held = record (new_table (λ i n. (i + n) % 2)) { current_table = two_keys }

abbrev engine : LsmEngine ℕ
engine = record {
  data_dir = bytes "data";
  memtable = held;
  level_sst_ids = (0, []) ∷ (1, []) ∷ [];
  ssts = [];
  block_cache = none;
  next_sst_id = 0;
  cur_max_level = 1;
  directory = [];
}

two_keys-Full : All (λ (x : Entry). is_empty x.key ≡ false) (flush two_keys)
unfolding put_entry is_empty bytes_eq bytes_lt
two_keys-Full =
    let first = flush-put empty_list (bytes "b") (bytes "1") 1 empty_list-IsValid in
    let second =
      flush-put (put empty_list (bytes "b") (bytes "1") 1) (bytes "a") (bytes "2") 2
        (put-IsValid empty_list (bytes "b") (bytes "1") 1 empty_list-IsValid) in
    rw (second, first, flush-new_list 16 (λ n. n % 2) 0) (refl, (refl, tt))

level_begin-view_example :
    (ps : List Pair) × (read_engine engine ≡ ok ps)
    × Rising ps
    × ((k : Bytes) → find_pair k ps ≡ shown (view held k))
level_begin-view_example =
    level_begin-view engine (refl, (refl, tt)) (record { current = two_keys-IsValid; frozen = tt })
      (tt, tt) (two_keys-Full, tt)

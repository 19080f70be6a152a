-- ===== src/MemTable/Tests.antt =====
-- The theorems on the memory table of src/memtable/memtable.cpp at concrete tables.
use tiny_lsm_tree.Common.{
  ℕ, ◌%◌, ◌≡◌, refl, some, bytes, arith, [], ◌∷◌, bytes_eq, is_empty, bytes_eq,
}
use tiny_lsm_tree.Common.{false}
use tiny_lsm_tree.SkipList.Iterator.{is_valid, read}
use tiny_lsm_tree.SkipList.Find
use tiny_lsm_tree.SkipList.Find.{lower_bound, search_from_head, descend, walk}
use tiny_lsm_tree.MemTable.Interleaving.{Moment, get-Moment, next, start, puts}
use tiny_lsm_tree.MemTable.Read.{get_batch, cur_get, frozen_get, get_in}
use tiny_lsm_tree.MemTable.Batch.{single, get_batch-get}
use tiny_lsm_tree.Common.{map, ◌+◌}
use tiny_lsm_tree.MemTable.Table.{
  MemTable, new_table, put, put_batch, remove, remove_batch, clear, frozen_cur_table, flush_last,
}
use tiny_lsm_tree.MemTable.Laws.{
  IsWellFormed, new_table-IsWellFormed, writes-IsWellFormed, got, batch_value, get-put,
  get-put_batch, get-remove_batch,
}
use tiny_lsm_tree.MemTable.Flush.{
  CountsFrozen, frozen_cur_table-CountsFrozen, Outcome, flush_last-Outcome, sizes,
}

abbrev seeds : ℕ → ℕ → ℕ
seeds i n = (i + n) % 2

abbrev fresh : MemTable
fresh = new_table seeds

-- One table frozen, since its size is above the limit 4, and an active one.
abbrev filled : MemTable
filled = put 4 fresh (bytes "a") (bytes "1") 1

filled-IsWellFormed : IsWellFormed filled
filled-IsWellFormed =
    (writes-IsWellFormed 4 fresh (bytes "a") (bytes "1") [] [] 1 (new_table-IsWellFormed seeds)).0

get-put_example : got (put 100 filled (bytes "b") (bytes "2") 2) (bytes "b") 7 ≡ some (bytes "2")
unfolding bytes_eq
get-put_example =
    get-put 100 filled (bytes "b") (bytes "2") (bytes "b") 2 7 (unfold is_empty in refl)
      filled-IsWellFormed

get-put_batch_example :
    got (put_batch 4 filled ((bytes "b", bytes "2") ∷ (bytes "b", bytes "3") ∷ []) 2) (bytes "b") 7
    ≡ some (bytes "3")
unfolding bytes_eq batch_value
get-put_batch_example =
    get-put_batch 4 filled ((bytes "b", bytes "2") ∷ (bytes "b", bytes "3") ∷ []) (bytes "b") 2 7
      (unfold is_empty in refl) filled-IsWellFormed

get-remove_batch_example :
    got (remove_batch 4 filled (bytes "c" ∷ bytes "a" ∷ []) 2) (bytes "a") 7 ≡ some []
unfolding bytes_eq batch_value
get-remove_batch_example =
    get-remove_batch 4 filled (bytes "c" ∷ bytes "a" ∷ []) (bytes "a") 2 7 (unfold is_empty in refl)
      filled-IsWellFormed

writes-IsWellFormed_example :
    IsWellFormed (put 4 filled (bytes "b") [] 2)
    × IsWellFormed (put_batch 4 filled ((bytes "b", bytes "2") ∷ []) 2)
    × IsWellFormed (remove 4 filled (bytes "b") 2)
    × IsWellFormed (remove_batch 4 filled (bytes "a" ∷ []) 2)
    × IsWellFormed (clear filled)
writes-IsWellFormed_example =
    writes-IsWellFormed 4 filled (bytes "b") [] ((bytes "b", bytes "2") ∷ []) (bytes "a" ∷ []) 2
      filled-IsWellFormed

fresh-CountsFrozen : CountsFrozen fresh
unfolding sizes
fresh-CountsFrozen = record { counted = refl; fits = omega arith }

flush_last-Outcome_example : Outcome (frozen_cur_table fresh) (flush_last (frozen_cur_table fresh))
flush_last-Outcome_example =
    flush_last-Outcome (frozen_cur_table fresh)
      (frozen_cur_table-CountsFrozen fresh fresh-CountsFrozen)

-- Some bytes frozen.
abbrev some_frozen : MemTable
some_frozen = record fresh { frozen_tables = fresh.current_table ∷ []; frozen_bytes = 10 }

get_batch-get_example :
    get_batch filled (bytes "a" ∷ bytes "b" ∷ []) 1
    ≡ map (single filled 1) (bytes "a" ∷ bytes "b" ∷ [])
get_batch-get_example = get_batch-get filled (bytes "a" ∷ bytes "b" ∷ []) 1

nothing_there : is_valid (cur_get fresh (bytes "a") 7) ≡ false
unfolding cur_get get_in is_valid Find.get lower_bound search_from_head descend walk
nothing_there = refl

-- The key is put and its table frozen after `get` has left the active table.
get-Moment_example :
    Moment 4 fresh
      (put 4 fresh (bytes "a") (bytes "1") 1)
      (bytes "a")
      (read (frozen_get (put 4 fresh (bytes "a") (bytes "1") 1) (bytes "a") 7))
get-Moment_example =
    get-Moment 4 fresh (put 4 fresh (bytes "a") (bytes "1") 1) (bytes "a") 7
      (unfold is_empty in refl) (new_table-IsWellFormed seeds)
      (next fresh _ start (puts (bytes "a") (bytes "1") 1)) nothing_there

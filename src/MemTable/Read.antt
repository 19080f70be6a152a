-- ===== src/MemTable/Read.antt =====
-- The lookups of MemTable (src/memtable/memtable.cpp).
use tiny_lsm_tree.Common.{ℕ, Option, none, some, Bool, true, false, List, [], ◌∷◌, Bytes}
use tiny_lsm_tree.Common.{if◌then◌else◌}
use tiny_lsm_tree.SkipList.Node.{SkipList}
use tiny_lsm_tree.SkipList.Find.{Entry}
use tiny_lsm_tree.SkipList.Find
use tiny_lsm_tree.SkipList.Iterator.{SkipListIterator, is_valid, read}
use tiny_lsm_tree.MemTable.Table.{MemTable}

-- `table->get(key, tranc_id)`
unfoldable pub get_in : SkipList → Bytes → ℕ → SkipListIterator
get_in s k tid = record { list = s; current = Find.get s k tid }

-- `SkipListIterator{}`, which no list is behind
abbrev pub no_entry : SkipList → SkipListIterator
no_entry s = record { list = s; current = none }

unfoldable pub cur_get : MemTable → Bytes → ℕ → SkipListIterator
unfolding get_in
cur_get m k tid =
    let result = get_in m.current_table k tid in
    if is_valid result then result else no_entry m.current_table

-- The loop of `frozen_get_`, the newest table first; `d` stands behind the empty iterator.
unfoldable pub frozen_get_loop : SkipList → List SkipList → Bytes → ℕ → SkipListIterator
unfolding get_in
frozen_get_loop d [] k tid = no_entry d
frozen_get_loop d (t ∷ ts) k tid =
    let result = get_in t k tid in
    let rest = frozen_get_loop d ts k tid in if is_valid result then result else rest

unfoldable pub frozen_get : MemTable → Bytes → ℕ → SkipListIterator
unfolding frozen_get_loop
frozen_get m k tid = frozen_get_loop m.current_table m.frozen_tables k tid

-- `get`, and `get_` without the locks
unfoldable pub get : MemTable → Bytes → ℕ → SkipListIterator
unfolding cur_get frozen_get
get m k tid =
    let cur_res = cur_get m k tid in
    let frozen_result = frozen_get m k tid in
    if is_valid cur_res
    then cur_res
    else if is_valid frozen_result
    then frozen_result
    else no_entry m.current_table

-- A result of `get_batch`: the key, and what was found under it.
abbrev pub BatchResult : Type 0
BatchResult = Bytes × Option (Bytes × ℕ)

unfoldable pub found_value : SkipListIterator → Option (Bytes × ℕ)
found_value it =
    if is_valid it
    then elim (read it) [ none ↦ none | some e ↦ some (e.value, e.tranc_id) ]
    else none

-- The first loop of `get_batch`, over the active table.
unfoldable pub batch_current : MemTable → List Bytes → ℕ → List BatchResult
unfolding cur_get found_value
batch_current m [] tid = []
batch_current m (k ∷ ks) tid = (k, found_value (cur_get m k tid)) ∷ batch_current m ks tid

-- `std::any_of(... !result.second.has_value())`
unfoldable pub any_missing : List BatchResult → Bool
any_missing [] = false
any_missing ((k, none) ∷ rs) = true
any_missing ((k, some v) ∷ rs) = any_missing rs

-- The second loop, over the frozen tables, for the keys that are missing.
unfoldable pub batch_frozen : MemTable → List BatchResult → ℕ → List BatchResult
unfolding frozen_get found_value
batch_frozen m [] tid = []
batch_frozen m ((k, some v) ∷ rs) tid = (k, some v) ∷ batch_frozen m rs tid
batch_frozen m ((k, none) ∷ rs) tid = (k, found_value (frozen_get m k tid)) ∷ batch_frozen m rs tid

-- `get_batch`; its last loops set a result that holds nothing to nothing.
unfoldable pub get_batch : MemTable → List Bytes → ℕ → List BatchResult
unfolding batch_current any_missing batch_frozen
get_batch m ks tid =
    let results = batch_current m ks tid in
    if any_missing results then batch_frozen m results tid else results

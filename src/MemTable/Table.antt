-- ===== src/MemTable/Table.antt =====
-- The state of MemTable and the methods that write (src/memtable/memtable.cpp).
use tiny_lsm_tree.Common.{ℕ, ◌+◌, ◌-◌, ◌%◌, ◌^◌, Option, none, some, List, [], ◌∷◌}
use tiny_lsm_tree.Common.{Bytes, bytes, ltb, ◌==◌, if◌then◌else◌, min, max}
use tiny_lsm_tree.SkipList.Node.{SkipList, new_list}
use tiny_lsm_tree.SkipList.Find.{Entry, flush}
use tiny_lsm_tree.SkipList.Write.{size_mod, get_size}
use tiny_lsm_tree.SkipList.Write

-- `seeds` are the generators that new lists get from the random device, `made` how many have one.
pub record MemTable : Type 0 where
  pub current_table : SkipList
  pub frozen_tables : List SkipList
  pub frozen_bytes : ℕ
  pub seeds : ℕ → ℕ → ℕ
  pub made : ℕ

-- `std::make_shared<SkipList>()`, whose highest level is 16
abbrev pub default_level : ℕ
default_level = 16

abbrev pub fresh_list : (ℕ → ℕ → ℕ) → ℕ → SkipList
fresh_list seeds made = new_list default_level (seeds made) 0

-- The constructor.
abbrev pub new_table : (ℕ → ℕ → ℕ) → MemTable
new_table seeds = record {
  current_table = fresh_list seeds 0;
  frozen_tables = [];
  frozen_bytes = 0;
  seeds = seeds;
  made = 1;
}

-- `put_`
unfoldable pub put_current : MemTable → Bytes → Bytes → ℕ → MemTable
put_current m k v tid = record m { current_table = Write.put m.current_table k v tid }

-- `remove_`: an empty value stands for a deletion.
unfoldable pub remove_current : MemTable → Bytes → ℕ → MemTable
remove_current m k tid = record m { current_table = Write.put m.current_table k (bytes "") tid }

-- `frozen_cur_table_`, also what `frozen_cur_table` does under its locks
unfoldable pub frozen_cur_table : MemTable → MemTable
frozen_cur_table m = record m {
  frozen_bytes = (m.frozen_bytes + get_size m.current_table) % size_mod;
  frozen_tables = m.current_table ∷ m.frozen_tables;
  current_table = fresh_list m.seeds m.made;
  made = m.made + 1;
}

-- The end of each method that writes: a table past the limit is frozen.
unfoldable pub freeze_if_full : ℕ → MemTable → MemTable
unfolding frozen_cur_table
freeze_if_full limit m = if ltb limit (get_size m.current_table) then frozen_cur_table m else m

unfoldable pub put : ℕ → MemTable → Bytes → Bytes → ℕ → MemTable
unfolding put_current freeze_if_full
put limit m k v tid = freeze_if_full limit (put_current m k v tid)

unfoldable pub put_all : MemTable → List (Bytes × Bytes) → ℕ → MemTable
unfolding put_current
put_all m [] tid = m
put_all m ((k, v) ∷ kvs) tid = put_all (put_current m k v tid) kvs tid

unfoldable pub put_batch : ℕ → MemTable → List (Bytes × Bytes) → ℕ → MemTable
unfolding put_all freeze_if_full
put_batch limit m kvs tid = freeze_if_full limit (put_all m kvs tid)

unfoldable pub remove : ℕ → MemTable → Bytes → ℕ → MemTable
unfolding remove_current freeze_if_full
remove limit m k tid = freeze_if_full limit (remove_current m k tid)

unfoldable pub remove_all : MemTable → List Bytes → ℕ → MemTable
unfolding remove_current
remove_all m [] tid = m
remove_all m (k ∷ ks) tid = remove_all (remove_current m k tid) ks tid

unfoldable pub remove_batch : ℕ → MemTable → List Bytes → ℕ → MemTable
unfolding remove_all freeze_if_full
remove_batch limit m ks tid = freeze_if_full limit (remove_all m ks tid)

-- `clear`; the count of frozen bytes stays.
unfoldable pub clear : MemTable → MemTable
clear m = record m { frozen_tables = []; current_table = Write.clear m.current_table }

abbrev pub get_cur_size : MemTable → ℕ
get_cur_size m = get_size m.current_table

abbrev pub get_frozen_size : MemTable → ℕ
get_frozen_size m = m.frozen_bytes

unfoldable pub get_total_size : MemTable → ℕ
get_total_size m = (get_frozen_size m + get_cur_size m) % size_mod

-- The first part of `flush_last`: with nothing frozen, a current table that is not empty is frozen.
-- `none` is the return of a null pointer.
unfoldable pub freeze_for_flush : MemTable → Option MemTable
unfolding frozen_cur_table
freeze_for_flush m = elim m.frozen_tables [
  | x ∷ xs ↦ some m
  | [] ↦ if get_size m.current_table == 0 then none else some (frozen_cur_table m)
]

-- `frozen_tables.back()` and `pop_back()`
unfoldable pub split_last : SkipList → List SkipList → List SkipList × SkipList
split_last x [] = ([], x)
split_last x (y ∷ ys) = let (front, last) = split_last y ys in (x ∷ front, last)

-- The loop of `flush_last` over the entries: the least and the greatest transaction.
unfoldable pub tranc_range : List Entry → ℕ → ℕ → ℕ × ℕ
tranc_range [] lo hi = (lo, hi)
tranc_range (e ∷ es) lo hi = tranc_range es (min e.tranc_id lo) (max e.tranc_id hi)

-- What `flush_last` hands to the builder, in order, and the bounds of their transactions, which the
-- source keeps in two local variables and does not use.
pub record Flushed : Type 0 where
  pub entries : List Entry
  pub min_tranc_id : ℕ
  pub max_tranc_id : ℕ

-- `pop_oldest m (frozen_tables)`
unfoldable pub pop_oldest : MemTable → List SkipList → MemTable × Option Flushed
unfolding split_last tranc_range flush
pop_oldest m [] = (m, none)
pop_oldest m (x ∷ xs) =
    let (front, table) = split_last x xs in
    let (lo, hi) = tranc_range (flush table) (2 ^ 64 - 1) 0 in
    (
      record m {
        frozen_tables = front;
        frozen_bytes = (m.frozen_bytes + size_mod - get_size table) % size_mod;
      },
      some (record { entries = flush table; min_tranc_id = lo; max_tranc_id = hi }),
    )

-- `flush_last`, up to the builder: SSTBuilder::add and SSTBuilder::build take it from there.
unfoldable pub flush_last : MemTable → MemTable × Option Flushed
unfolding freeze_for_flush pop_oldest
flush_last m = elim (freeze_for_flush m) [
  | none ↦ (m, none)
  | some m' ↦ pop_oldest m' m'.frozen_tables
]

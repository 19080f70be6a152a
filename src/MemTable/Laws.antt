-- ===== src/MemTable/Laws.antt =====
-- What the writes of src/memtable/memtable.cpp do to the lookups, and that they keep every table
-- well formed.
use tiny_lsm_tree.Common.{ℕ, Option, some, false, List, [], ◌∷◌, Bytes}
use tiny_lsm_tree.Common.{
  ◌≡◌, refl, sym, ap, ◌∙◌, arith, if◌then◌else◌, is_empty, bytes_eq, All, ltb,
}
use tiny_lsm_tree.Common.{Bool-cases, inl, inr, bytes}
use tiny_lsm_tree.SkipList.Find.{Entry, flush}
use tiny_lsm_tree.SkipList.Write.{get_size}
use tiny_lsm_tree.SkipList.Chain.{IsValid}
use tiny_lsm_tree.SkipList.View.{find_entry, put_entry}
use tiny_lsm_tree.SkipList.Put.{put-IsValid, flush-put}
use tiny_lsm_tree.SkipList.Laws.{
  value_of, find_entry-put_entry, new_list-IsValid, flush-new_list, clear-IsValid,
}
use tiny_lsm_tree.SkipList.Iterator.{read}
use tiny_lsm_tree.MemTable.Table.{MemTable, new_table, default_level, put_current, remove_current}
use tiny_lsm_tree.MemTable.Table.{
  frozen_cur_table, freeze_if_full, put, put_all, put_batch, remove, remove_all, remove_batch,
  clear,
}
use tiny_lsm_tree.MemTable.Read.{get}
use tiny_lsm_tree.MemTable.Lookup.{find_tables, view, or_else, get-read}

-- Every table of the memory table is a well-formed skip list.
pub record IsWellFormed (m : MemTable) : Type 0 where
  pub current : IsValid m.current_table
  pub frozen : All IsValid m.frozen_tables

pub new_table-IsWellFormed : (seeds : ℕ → ℕ → ℕ) → IsWellFormed (new_table seeds)
new_table-IsWellFormed seeds = record {
  current = new_list-IsValid default_level (seeds 0) 0;
  frozen = tt;
}

put_current-IsWellFormed :
    (m : MemTable) (k v : Bytes) (tid : ℕ) → IsWellFormed m → IsWellFormed (put_current m k v tid)
unfolding put_current
put_current-IsWellFormed m k v tid h = record {
  current = put-IsValid m.current_table k v tid h.current;
  frozen = h.frozen;
}

pub frozen_cur_table-IsWellFormed :
    (m : MemTable) → IsWellFormed m → IsWellFormed (frozen_cur_table m)
unfolding frozen_cur_table
frozen_cur_table-IsWellFormed m h = record {
  current = new_list-IsValid default_level (m.seeds m.made) 0;
  frozen = (h.current, h.frozen);
}

freeze_if_full-IsWellFormed :
    (limit : ℕ) (m : MemTable) → IsWellFormed m → IsWellFormed (freeze_if_full limit m)
unfolding freeze_if_full
freeze_if_full-IsWellFormed limit m h = elim (Bool-cases (ltb limit (get_size m.current_table))) [
  | inl e ↦ rw e (frozen_cur_table-IsWellFormed m h)
  | inr e ↦ rw e h
]

put_all-IsWellFormed :
    (m : MemTable) (kvs : List (Bytes × Bytes)) (tid : ℕ)
    → IsWellFormed m
    → IsWellFormed (put_all m kvs tid)
unfolding put_all
put_all-IsWellFormed m [] tid h = h
put_all-IsWellFormed m ((k, v) ∷ kvs) tid h =
    put_all-IsWellFormed (put_current m k v tid) kvs tid (put_current-IsWellFormed m k v tid h)

-- Removing is putting the empty value.
remove_current-put :
    (m : MemTable) (k : Bytes) (tid : ℕ) → remove_current m k tid ≡ put_current m k (bytes "") tid
unfolding remove_current put_current
remove_current-put m k tid = refl

-- A removal of several keys as a batch of empty values.
abbrev pub tombstones : List Bytes → List (Bytes × Bytes)
tombstones [] = []
tombstones (k ∷ ks) = (k, bytes "") ∷ tombstones ks

remove_all-put_all :
    (m : MemTable) (ks : List Bytes) (tid : ℕ) → remove_all m ks tid ≡ put_all m (tombstones ks) tid
unfolding remove_all put_all
remove_all-put_all m [] tid = refl
remove_all-put_all m (k ∷ ks) tid =
    rw (remove_current-put m k tid) (remove_all-put_all (put_current m k (bytes "") tid) ks tid)

clear-IsWellFormed : (m : MemTable) → IsWellFormed m → IsWellFormed (clear m)
unfolding clear
clear-IsWellFormed m h = record { current = clear-IsValid m.current_table h.current; frozen = tt }

-- Every method that writes leaves all tables of a well-formed memory table well formed, whatever
-- its arguments.
pub writes-IsWellFormed :
    (limit : ℕ) (m : MemTable) (k v : Bytes) (kvs : List (Bytes × Bytes)) (ks : List Bytes)
    (tid : ℕ)
    → IsWellFormed m
    → IsWellFormed (put limit m k v tid)
      × IsWellFormed (put_batch limit m kvs tid)
      × IsWellFormed (remove limit m k tid)
      × IsWellFormed (remove_batch limit m ks tid)
      × IsWellFormed (clear m)
unfolding put put_batch remove remove_batch
writes-IsWellFormed limit m k v kvs ks tid h = (
  freeze_if_full-IsWellFormed limit _ (put_current-IsWellFormed m k v tid h),
  freeze_if_full-IsWellFormed limit _ (put_all-IsWellFormed m kvs tid h),
  freeze_if_full-IsWellFormed limit (remove_current m k tid)
      (rw (remove_current-put m k tid) (put_current-IsWellFormed m k (bytes "") tid h)),
  freeze_if_full-IsWellFormed limit (remove_all m ks tid)
      (rw (remove_all-put_all m ks tid) (put_all-IsWellFormed m (tombstones ks) tid h)),
  clear-IsWellFormed m h,
)

-- The value under a key, the empty one for a deletion.
abbrev pub value_at : MemTable → Bytes → Option Bytes
value_at m j = value_of (view m j)

value_at-put_current :
    (m : MemTable) (k v j : Bytes) (tid : ℕ)
    → IsWellFormed m
    → value_at (put_current m k v tid) j ≡ (if bytes_eq k j then some v else value_at m j)
unfolding put_current view find_tables
value_at-put_current m k v j tid h = rw (flush-put m.current_table k v tid h.current) (
    hide (find_entry j (put_entry k v tid (flush m.current_table)))
      (find_entry j (flush m.current_table)) (find_tables j m.frozen_tables)
      (find_entry-put_entry k j v tid (flush m.current_table)))
  where
    hide :
        (a b c : Option Entry)
        → value_of a ≡ (if bytes_eq k j then some v else value_of b)
        → value_of (or_else a c) ≡ (if bytes_eq k j then some v else value_of (or_else b c))
    hide a b c e = ground arith

-- Freezing the active table changes no lookup.
pub view-frozen_cur_table : (m : MemTable) (k : Bytes) → view (frozen_cur_table m) k ≡ view m k
unfolding frozen_cur_table view find_tables
view-frozen_cur_table m k =
    rw (flush-new_list default_level (m.seeds m.made) 0) (unfold find_entry in refl)

view-freeze_if_full :
    (limit : ℕ) (m : MemTable) (k : Bytes) → view (freeze_if_full limit m) k ≡ view m k
unfolding freeze_if_full
view-freeze_if_full limit m k = elim (Bool-cases (ltb limit (get_size m.current_table))) [
  | inl e ↦ rw e (view-frozen_cur_table m k)
  | inr e ↦ rw e
]

-- The value under `j` after the pairs are put one after the other.
unfoldable pub batch_value : Bytes → List (Bytes × Bytes) → Option Bytes → Option Bytes
batch_value j [] d = d
batch_value j ((k, v) ∷ kvs) d = batch_value j kvs (if bytes_eq k j then some v else d)

value_at-put_all :
    (m : MemTable) (kvs : List (Bytes × Bytes)) (j : Bytes) (tid : ℕ)
    → IsWellFormed m
    → value_at (put_all m kvs tid) j ≡ batch_value j kvs (value_at m j)
unfolding put_all batch_value
value_at-put_all m [] j tid h = refl
value_at-put_all m ((k, v) ∷ kvs) j tid h =
    value_at-put_all (put_current m k v tid) kvs j tid (put_current-IsWellFormed m k v tid h)
    ∙ ap (batch_value j kvs) (value_at-put_current m k v j tid h)

-- The value that a lookup reads, and whether it is valid.
abbrev pub got : MemTable → Bytes → ℕ → Option Bytes
got m j t = value_of (read (get m j t))

got-value_at :
    (m : MemTable) (j : Bytes) (t : ℕ)
    → is_empty j ≡ false
    → IsWellFormed m
    → got m j t ≡ value_at m j
got-value_at m j t named h = ap value_of (get-read j t named m h.current h.frozen).0

-- In a well-formed memory table, a lookup of a key that is not empty after `put_batch`, whether or
-- not the batch froze the active table, reads the last value that the batch has for the key, or
-- what it read before if the batch has none.
pub get-put_batch :
    (limit : ℕ) (m : MemTable) (kvs : List (Bytes × Bytes)) (j : Bytes) (tid t : ℕ)
    → is_empty j ≡ false
    → IsWellFormed m
    → got (put_batch limit m kvs tid) j t ≡ batch_value j kvs (got m j t)
unfolding put_batch
get-put_batch limit m kvs j tid t named h =
    got-value_at (freeze_if_full limit (put_all m kvs tid)) j t named
      (freeze_if_full-IsWellFormed limit (put_all m kvs tid) (put_all-IsWellFormed m kvs tid h))
    ∙ ap value_of (view-freeze_if_full limit (put_all m kvs tid) j)
    ∙ value_at-put_all m kvs j tid h
    ∙ ap (batch_value j kvs) (sym (got-value_at m j t named h))

put-put_batch :
    (limit : ℕ) (m : MemTable) (k v : Bytes) (tid : ℕ)
    → put limit m k v tid ≡ put_batch limit m ((k, v) ∷ []) tid
unfolding put put_batch put_all
put-put_batch limit m k v tid = refl

-- In a well-formed memory table, a lookup of a key that is not empty after `put` reads the value
-- put under it, and one of another such key reads what it read before, whether or not the active
-- table was frozen, and whatever the transactions.
pub get-put :
    (limit : ℕ) (m : MemTable) (k v j : Bytes) (tid t : ℕ)
    → is_empty j ≡ false
    → IsWellFormed m
    → got (put limit m k v tid) j t ≡ (if bytes_eq k j then some v else got m j t)
get-put limit m k v j tid t named h =
    rw (put-put_batch limit m k v tid)
      (get-put_batch limit m ((k, v) ∷ []) j tid t named h ∙ (unfold batch_value in refl))

-- In a well-formed memory table, after `remove_batch` a lookup of one of the keys, if it is not
-- empty, reads the empty value, which stands for a deletion, and one of any other such key reads
-- what it read before.
pub get-remove_batch :
    (limit : ℕ) (m : MemTable) (ks : List Bytes) (j : Bytes) (tid t : ℕ)
    → is_empty j ≡ false
    → IsWellFormed m
    → got (remove_batch limit m ks tid) j t ≡ batch_value j (tombstones ks) (got m j t)
get-remove_batch limit m ks j tid t named h =
    ap (λ (x : MemTable). got x j t) same ∙ get-put_batch limit m (tombstones ks) j tid t named h
  where
    same : remove_batch limit m ks tid ≡ put_batch limit m (tombstones ks) tid
    same = unfold remove_batch put_batch in ap (freeze_if_full limit) (remove_all-put_all m ks tid)

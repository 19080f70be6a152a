-- ===== src/MemTable/Interleaving.antt =====
-- `get` of src/memtable/memtable.cpp beside writers: it reads the active table under one lock, gives
-- that lock up, and reads the frozen tables under another.
use tiny_lsm_tree.Common.{
  ℕ, none, some, false, List, [], ◌∷◌, ◌≡◌, ◌⊎◌, inl, inr, refl, sym, ap, ◌∙◌, subst, Bytes,
  is_empty, Bool-cases, ltb, Option,
}
use tiny_lsm_tree.SkipList.Find.{Entry, flush}
use tiny_lsm_tree.SkipList.Write.{get_size}
use tiny_lsm_tree.SkipList.Iterator.{read, is_valid}
use tiny_lsm_tree.SkipList.View.{find_entry}
use tiny_lsm_tree.SkipList.Laws.{flush-clear, flush-new_list}
use tiny_lsm_tree.MemTable.Table.{
  MemTable, default_level, put_current, remove_current, put, put_all, put_batch, remove, remove_all,
  remove_batch, clear, frozen_cur_table, freeze_if_full,
}
use tiny_lsm_tree.MemTable.Read.{cur_get, frozen_get, get_in}
use tiny_lsm_tree.MemTable.Lookup.{
  find_tables, view, present, get_in-present, get_in-read, frozen_get_loop-read,
}
use tiny_lsm_tree.MemTable.Laws.{IsWellFormed, writes-IsWellFormed, frozen_cur_table-IsWellFormed}

-- One call of a method that writes, which holds both locks where it touches both parts. `flush_last`
-- is none of them: it moves a table out of the memory table.
pub data Step (limit : ℕ) (m : MemTable) : MemTable → Type 0 where
  puts : (k v : Bytes) (tid : ℕ) → Step limit m (put limit m k v tid)
  puts_batch : (kvs : List (Bytes × Bytes)) (tid : ℕ) → Step limit m (put_batch limit m kvs tid)
  removes : (k : Bytes) (tid : ℕ) → Step limit m (remove limit m k tid)
  removes_batch : (ks : List Bytes) (tid : ℕ) → Step limit m (remove_batch limit m ks tid)
  clears : Step limit m (clear m)
  freezes : Step limit m (frozen_cur_table m)

-- Calls one after the other.
pub data Steps (limit : ℕ) (m : MemTable) : MemTable → Type 0 where
  start : Steps limit m m
  next : (m' m'' : MemTable) → Steps limit m m' → Step limit m' m'' → Steps limit m m''

put_all-frozen :
    (m : MemTable) (kvs : List (Bytes × Bytes)) (tid : ℕ)
    → (put_all m kvs tid).frozen_tables ≡ m.frozen_tables
unfolding put_all put_current
put_all-frozen m [] tid = refl
put_all-frozen m ((k, v) ∷ kvs) tid = put_all-frozen (put_current m k v tid) kvs tid

remove_all-frozen :
    (m : MemTable) (ks : List Bytes) (tid : ℕ)
    → (remove_all m ks tid).frozen_tables ≡ m.frozen_tables
unfolding remove_all remove_current
remove_all-frozen m [] tid = refl
remove_all-frozen m (k ∷ ks) tid = remove_all-frozen (remove_current m k tid) ks tid

-- A call leaves the frozen tables, or leaves the active one empty.
abbrev Effect : MemTable → MemTable → Type 0
Effect m m' = (m'.frozen_tables ≡ m.frozen_tables) ⊎ (flush m'.current_table ≡ [])

freeze-Effect : (m : MemTable) → flush (frozen_cur_table m).current_table ≡ []
unfolding frozen_cur_table
freeze-Effect m = flush-new_list default_level (m.seeds m.made) 0

freeze_if_full-Effect :
    (limit : ℕ) (m m' : MemTable)
    → m'.frozen_tables ≡ m.frozen_tables
    → Effect m (freeze_if_full limit m')
unfolding freeze_if_full
freeze_if_full-Effect limit m m' e = elim (Bool-cases (ltb limit (get_size m'.current_table))) [
  | inl y ↦ rw y (inr (freeze-Effect m'))
  | inr n ↦ rw n (inl e)
]

Step-Effect : (limit : ℕ) (m m' : MemTable) → Step limit m m' → IsWellFormed m → Effect m m'
unfolding put put_batch remove remove_batch
Step-Effect limit m _ (puts k v tid) h =
    freeze_if_full-Effect limit m (put_current m k v tid) (unfold put_current in refl)
Step-Effect limit m _ (puts_batch kvs tid) h =
    freeze_if_full-Effect limit m (put_all m kvs tid) (put_all-frozen m kvs tid)
Step-Effect limit m _ (removes k tid) h =
    freeze_if_full-Effect limit m (remove_current m k tid) (unfold remove_current in refl)
Step-Effect limit m _ (removes_batch ks tid) h =
    freeze_if_full-Effect limit m (remove_all m ks tid) (remove_all-frozen m ks tid)
Step-Effect limit m _ clears h = inr (unfold clear in (flush-clear m.current_table h.current).0)
Step-Effect limit m _ freezes h = inr (freeze-Effect m)

Step-IsWellFormed :
    (limit : ℕ) (m m' : MemTable) → Step limit m m' → IsWellFormed m → IsWellFormed m'
Step-IsWellFormed limit m _ (puts k v tid) h = (writes-IsWellFormed limit m k v [] [] tid h).0
Step-IsWellFormed limit m _ (puts_batch kvs tid) h =
    (writes-IsWellFormed limit m [] [] kvs [] tid h).1
Step-IsWellFormed limit m _ (removes k tid) h = (writes-IsWellFormed limit m k [] [] [] tid h).2
Step-IsWellFormed limit m _ (removes_batch ks tid) h =
    (writes-IsWellFormed limit m [] [] [] ks tid h).3
Step-IsWellFormed limit m _ clears h = (writes-IsWellFormed limit m [] [] [] [] 0 h).4
Step-IsWellFormed limit m _ freezes h = frozen_cur_table-IsWellFormed m h

Steps-IsWellFormed :
    (limit : ℕ) (m m' : MemTable) → Steps limit m m' → IsWellFormed m → IsWellFormed m'
Steps-IsWellFormed limit m _ start h = h
Steps-IsWellFormed limit m _ (next m' m'' s t) h =
    Step-IsWellFormed limit m' m'' t (Steps-IsWellFormed limit m m' s h)

-- A moment between the two states at which the memory table holds this entry under the key.
pub record Moment (limit : ℕ) (m m' : MemTable) (k : Bytes) (o : Option Entry) : Type 0 where
  pub at : MemTable
  pub before : Steps limit m at
  pub after : Steps limit at m'
  pub holds : view at k ≡ o

absent : (o : Option Entry) → present o ≡ false → o ≡ none
absent none h = refl
absent (some e) h = absurd (cc h)

not_in_current :
    (m : MemTable) (k : Bytes) (t : ℕ)
    → is_empty k ≡ false
    → IsWellFormed m
    → is_valid (cur_get m k t) ≡ false
    → find_entry k (flush m.current_table) ≡ none
unfolding cur_get
not_in_current m k t named h e = elim (Bool-cases (is_valid (get_in m.current_table k t))) [
  | inl y ↦ absurd (cc (rw y at e, y))
  | inr n ↦ absent (find_entry k (flush m.current_table)) (
      ap present (sym (get_in-read k t named m.current_table h.current))
      ∙ sym (get_in-present k t named m.current_table)
      ∙ n)
]

frozen-Moment :
    (limit : ℕ) (m m' : MemTable) (k : Bytes)
    → IsWellFormed m
    → Steps limit m m'
    → find_entry k (flush m.current_table) ≡ none
    → Moment limit m m' k (find_tables k m'.frozen_tables)
unfolding view find_tables
frozen-Moment limit m _ k w start e = record {
  at = m;
  before = start;
  after = start;
  holds = rw e refl;
}
frozen-Moment limit m _ k w (next m' m'' s t) e =
    elim (Step-Effect limit m' m'' t (Steps-IsWellFormed limit m m' s w)) [
      | inl f ↦
          let p = frozen-Moment limit m m' k w s e in
          record {
            at = p.at;
            before = p.before;
            after = next m' m'' p.after t;
            holds = p.holds ∙ ap (find_tables k) (sym f);
          }
      | inr f ↦ record {
        at = m'';
        before = next m' m'' s t;
        after = start;
        holds = rw f (unfold find_entry in refl);
      }
    ]

-- In a well-formed memory table and for a key that is not empty: when `get` does not find the key
-- in the active table, gives up the lock, and other threads then put, remove and clear before
-- it reads the frozen tables, it still reports what the memory table held under the key at one
-- moment in between; tables may be frozen meanwhile, but none is flushed.
pub get-Moment :
    (limit : ℕ) (m m' : MemTable) (k : Bytes) (t : ℕ)
    → is_empty k ≡ false
    → IsWellFormed m
    → Steps limit m m'
    → is_valid (cur_get m k t) ≡ false
    → Moment limit m m' k (read (frozen_get m' k t))
unfolding frozen_get
get-Moment limit m m' k t named h s e =
    let w = Steps-IsWellFormed limit m m' s h in
    let f = (frozen_get_loop-read k t named m'.current_table m'.frozen_tables w.frozen).0 in
    subst (Moment limit m m' k) (sym f)
      (frozen-Moment limit m m' k h s (not_in_current m k t named h e))

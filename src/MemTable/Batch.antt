-- ===== src/MemTable/Batch.antt =====
-- `get_batch` of src/memtable/memtable.cpp against single lookups.
use tiny_lsm_tree.Common.{ℕ, Option, none, some, true, false, List, [], ◌∷◌, Bytes, map}
use mathlib.Core.Bool.{false≢true}
use tiny_lsm_tree.Common.{◌≡◌, refl, sym, ap, ◌∙◌, Bool-cases, inl, inr}
use tiny_lsm_tree.SkipList.Node.{SkipList}
use tiny_lsm_tree.SkipList.Iterator.{SkipListIterator, is_valid, read}
use tiny_lsm_tree.MemTable.Table.{MemTable}
use tiny_lsm_tree.MemTable.Read.{get, cur_get, frozen_get, no_entry, found_value, BatchResult}
use tiny_lsm_tree.MemTable.Read.{batch_current, any_missing, batch_frozen, get_batch}

-- What a single lookup reports.
abbrev pub single : MemTable → ℕ → Bytes → BatchResult
single m tid k = (k, found_value (get m k tid))

is_valid→read :
    (it : SkipListIterator) → is_valid it ≡ true → (r : Bytes × ℕ) × (found_value it ≡ some r)
unfolding found_value
is_valid→read it h = go it.current h
  where
    go :
        (c : Option ℕ)
        → is_valid (record { list = it.list; current = c }) ≡ true
        → (r : Bytes × ℕ) × (found_value (record { list = it.list; current = c }) ≡ some r)
    go none e = unfold is_valid in absurd (false≢true e)
    go (some a) e = (
      ((it.list.store a).value, (it.list.store a).tranc_id),
      rw (found_value, e) (unfold read in refl),
    )

not_valid→none : (it : SkipListIterator) → is_valid it ≡ false → found_value it ≡ none
unfolding found_value
not_valid→none it h = rw h

no_entry-is_valid : (s : SkipList) → is_valid (no_entry s) ≡ false
unfolding is_valid
no_entry-is_valid s = refl

-- A key found in the active table is not looked for again, and one that is missing is.
found_current :
    (m : MemTable) (k : Bytes) (tid : ℕ)
    → is_valid (cur_get m k tid) ≡ true
    → found_value (get m k tid) ≡ found_value (cur_get m k tid)
unfolding get
found_current m k tid h = rw h

found_frozen :
    (m : MemTable) (k : Bytes) (tid : ℕ)
    → is_valid (cur_get m k tid) ≡ false
    → found_value (get m k tid) ≡ found_value (frozen_get m k tid)
unfolding get
found_frozen m k tid h = elim (Bool-cases (is_valid (frozen_get m k tid))) [
  | inl e ↦ rw (h, e)
  | inr e ↦
      rw (h, e)
        (not_valid→none (no_entry m.current_table) (no_entry-is_valid m.current_table)
          ∙ sym (not_valid→none (frozen_get m k tid) e))
]

second_pass :
    (m : MemTable) (ks : List Bytes) (tid : ℕ)
    → batch_frozen m (batch_current m ks tid) tid ≡ map (single m tid) ks
unfolding batch_frozen batch_current
second_pass m [] tid = refl
second_pass m (k ∷ ks) tid = elim (Bool-cases (is_valid (cur_get m k tid))) [
  | inl e ↦
      let (r, er) = is_valid→read (cur_get m k tid) e in
      rw (er, found_current m k tid e, er, second_pass m ks tid)
  | inr e ↦ rw (not_valid→none (cur_get m k tid) e, found_frozen m k tid e, second_pass m ks tid)
]

first_pass :
    (m : MemTable) (ks : List Bytes) (tid : ℕ)
    → any_missing (batch_current m ks tid) ≡ false
    → batch_current m ks tid ≡ map (single m tid) ks
unfolding batch_current any_missing
first_pass m [] tid h = refl
first_pass m (k ∷ ks) tid h = elim (Bool-cases (is_valid (cur_get m k tid))) [
  | inl e ↦
      let (r, er) = is_valid→read (cur_get m k tid) e in
      rw (found_current m k tid e) (
        ap (λ (l : List BatchResult). (k, found_value (cur_get m k tid)) ∷ l)
          (first_pass m ks tid (rw (er, any_missing) at h)))
  | inr e ↦ cc (rw (not_valid→none (cur_get m k tid) e, any_missing) at h)
]

-- `get_batch` reports for each key, in the order asked, what a single `get` finds; going through the
-- frozen tables only when a key is missing changes no result.
pub get_batch-get :
    (m : MemTable) (ks : List Bytes) (tid : ℕ) → get_batch m ks tid ≡ map (single m tid) ks
unfolding get_batch
get_batch-get m ks tid = elim (Bool-cases (any_missing (batch_current m ks tid))) [
  | inl e ↦ rw e (second_pass m ks tid)
  | inr e ↦ rw e (first_pass m ks tid e)
]

-- ===== src/MemTable/Lookup.antt =====
-- The lookups of src/memtable/memtable.cpp against one view of all tables, the newest first.
use tiny_lsm_tree.Common.{ℕ, Option, none, some, Bool, true, false, List, [], ◌∷◌, Bytes}
use tiny_lsm_tree.Common.{◌≡◌, refl, ◌∙◌, arith, is_empty, All}
use tiny_lsm_tree.Common.{Option-cases, inl, inr, bytes_eq→eq}
use tiny_lsm_tree.SkipList.Node.{SkipList, key_of}
use tiny_lsm_tree.SkipList.Find.{Entry, entry_of, flush, lower_bound}
use tiny_lsm_tree.SkipList.Find
use tiny_lsm_tree.SkipList.Iterator.{is_valid, read}
use tiny_lsm_tree.SkipList.Chain.{IsValid}
use tiny_lsm_tree.SkipList.View.{find_entry}
use tiny_lsm_tree.SkipList.Get.{deref, get-flush}
use tiny_lsm_tree.MemTable.Table.{MemTable}
use tiny_lsm_tree.MemTable.Read.{get_in, cur_get, frozen_get_loop, frozen_get, get, no_entry}

abbrev pub or_else : Option Entry → Option Entry → Option Entry
or_else none o = o
or_else (some e) o = some e

-- The entry of the key in the first table that has one.
unfoldable pub find_tables : Bytes → List SkipList → Option Entry
find_tables k [] = none
find_tables k (t ∷ ts) = or_else (find_entry k (flush t)) (find_tables k ts)

-- What the memory table holds under the key: the active table hides the frozen ones.
unfoldable pub view : MemTable → Bytes → Option Entry
unfolding find_tables
view m k = find_tables k (m.current_table ∷ m.frozen_tables)

abbrev pub present : Option Entry → Bool
present none = false
present (some e) = true

-- A node that `get` returns has the key.
get-key : (s : SkipList) (k : Bytes) (tid a : ℕ) → Find.get s k tid ≡ some a → key_of s a ≡ k
unfolding Find.get
get-key s k tid a h = elim (Option-cases (lower_bound s k)) [
  | inl e ↦ cc (rw (e, Find.get) at h)
  | inr (b, e) ↦ ground (arith, e, bytes_eq→eq (key_of s b) k)
]

read-deref : (s : SkipList) (c : Option ℕ) → read (record { list = s; current = c }) ≡ deref s c
unfolding read
read-deref s none = refl
read-deref s (some a) = refl

no_entry-read : (s : SkipList) → (read (no_entry s) ≡ none) × (is_valid (no_entry s) ≡ false)
unfolding read is_valid
no_entry-read s = (refl, refl)

module _ (k : Bytes) (tid : ℕ) (named : is_empty k ≡ false) where
  pub get_in-present : (s : SkipList) → is_valid (get_in s k tid) ≡ present (read (get_in s k tid))
  unfolding get_in is_valid read
  get_in-present s = elim (Option-cases (Find.get s k tid)) [
    | inl e ↦ rw e
    | inr (a, e) ↦ rw (e, get-key s k tid a e, named)
  ]

  pub get_in-read : (s : SkipList) → IsValid s → read (get_in s k tid) ≡ find_entry k (flush s)
  unfolding get_in
  get_in-read s h = read-deref s (Find.get s k tid) ∙ get-flush s k tid h

  pub frozen_get_loop-read :
      (d : SkipList) (ts : List SkipList)
      → All IsValid ts
      → (read (frozen_get_loop d ts k tid) ≡ find_tables k ts)
        × (is_valid (frozen_get_loop d ts k tid) ≡ present (find_tables k ts))
  unfolding frozen_get_loop find_tables
  frozen_get_loop-read d [] h = no_entry-read d
  frozen_get_loop-read d (t ∷ ts) h =
      ground (arith, get_in-present t, get_in-read t h.0, frozen_get_loop-read d ts h.1)

  pub get-read :
      (m : MemTable)
      → IsValid m.current_table
      → All IsValid m.frozen_tables
      → (read (get m k tid) ≡ view m k) × (is_valid (get m k tid) ≡ present (view m k))
  unfolding get cur_get frozen_get view
  get-read m hc hf = ground (
    arith,
    get_in-present m.current_table,
    get_in-read m.current_table hc,
    frozen_get_loop-read m.current_table m.frozen_tables hf,
    no_entry-read m.current_table,
  )
